-- ===== src/Extension/List/Lookup.antt =====
-- mls-rs-core/src/extension/list.rs: what `get` finds after each operation.
use mls_rs_wasm_maybe_sync.Common.{
  ℕ, ◌≡◌, refl, [], ◌∷◌, ◌==◌, if◌then◌else◌, none, some, is_some, arith,
}
use mls_rs_wasm_maybe_sync.Extension.Defs.{Extension}
use mls_rs_wasm_maybe_sync.Extension.List.{
  ExtensionList, has_extension, get, set_ext, remove, append,
}

-- After `set` the list holds the new extension under its type, and the rest as before.
pub get-set_ext :
    (ext : Extension) (list : ExtensionList) (t : ℕ)
    → get (set_ext ext list) t ≡ (if ext.extension_type == t then some ext else get list t)
unfolding get set_ext
get-set_ext ext [] t = refl
get-set_ext ext (e ∷ list) t = ground (arith, get-set_ext ext list t)

-- After `remove` nothing is found under the removed type, and the rest is as before.
pub get-remove :
    (t' : ℕ) (list : ExtensionList) (t : ℕ)
    → get (remove t' list) t ≡ (if t' == t then none else get list t)
unfolding get remove
get-remove t' [] t = ground arith
get-remove t' (e ∷ list) t = ground (arith, get-remove t' list t)

-- `has_extension` tells whether `get` finds something.
pub has_extension-get : (list : ExtensionList) (t : ℕ) → has_extension list t ≡ is_some (get list t)
unfolding get has_extension
has_extension-get [] t = refl
has_extension-get (e ∷ list) t = ground (arith, has_extension-get list t)

-- After `append` the first list still answers for the types that it has.
pub get-append :
    (list others : ExtensionList) (t : ℕ)
    → get (append list others) t ≡ (elim (get list t) [ none ↦ get others t | some e ↦ some e ])
unfolding get append
get-append [] others t = refl
get-append (e ∷ list) others t = ground (arith, get-append list others t)
