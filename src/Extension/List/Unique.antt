-- ===== src/Extension/List/Unique.antt =====
-- mls-rs-core/src/extension/list.rs: a list has at most one extension of each type.
use mls_rs_wasm_maybe_sync.Common.{
  ℕ, zero, suc, ◌≡◌, refl, subst, List, [], ◌∷◌, ◌++◌, length, ◌==◌, true, false, ◌||◌, Bool-cases,
  ok, >>=-eq-ok, arith, inl, inr,
}
use mls_rs_wasm_maybe_sync.Codec.Collection.{split_on_collection, decode_collection, decode_while}
use mls_rs_wasm_maybe_sync.Extension.Defs.{Extension, extension_decode}
use mls_rs_wasm_maybe_sync.Extension.List.{
  ExtensionList, has_extension, set_ext, remove, append, extend, from_vec, decode_step, list_decode,
}

abbrev pub IsUnique : ExtensionList → Type 0
IsUnique [] = Unit
IsUnique (e ∷ list) = (has_extension list e.extension_type ≡ false) × IsUnique list

has_extension-set_ext :
    (ext : Extension) (list : ExtensionList) (t : ℕ)
    → has_extension (set_ext ext list) t ≡ (ext.extension_type == t) || has_extension list t
unfolding has_extension set_ext
has_extension-set_ext ext [] t = refl
has_extension-set_ext ext (e ∷ list) t = ground (arith, has_extension-set_ext ext list t)

set_ext-IsUnique :
    (ext : Extension) (list : ExtensionList) → IsUnique list → IsUnique (set_ext ext list)
unfolding set_ext
set_ext-IsUnique ext [] h = (unfold has_extension in refl, tt)
set_ext-IsUnique ext (e ∷ list) (new, h) =
    ground (arith, has_extension-set_ext ext list e.extension_type, set_ext-IsUnique ext list h)

has_extension-remove :
    (t' t : ℕ) (list : ExtensionList)
    → has_extension list t ≡ false
    → has_extension (remove t' list) t ≡ false
unfolding has_extension remove
has_extension-remove t' t [] h = refl
has_extension-remove t' t (e ∷ list) h = ground (arith, has_extension-remove t' t list)

remove-IsUnique : (t : ℕ) (list : ExtensionList) → IsUnique list → IsUnique (remove t list)
unfolding remove
remove-IsUnique t [] h = tt
remove-IsUnique t (e ∷ list) (new, h) =
    ground (arith, has_extension-remove t e.extension_type list, remove-IsUnique t list h)

extend-IsUnique :
    (iter : List Extension) (list : ExtensionList) → IsUnique list → IsUnique (extend list iter)
unfolding extend
extend-IsUnique [] list h = h
extend-IsUnique (ext ∷ iter) list h =
    extend-IsUnique iter (set_ext ext list) (set_ext-IsUnique ext list h)

-- On a list with distinct types, set, remove and extend keep the types distinct, and a list built from any
-- vector has distinct types.
pub IsUnique-kept :
    (list : ExtensionList) (ext : Extension) (iter : List Extension) (t : ℕ)
    → IsUnique list
    → IsUnique (set_ext ext list)
      × IsUnique (remove t list)
      × IsUnique (extend list iter)
      × IsUnique (from_vec iter)
unfolding from_vec
IsUnique-kept list ext iter t h = (
  set_ext-IsUnique ext list h,
  remove-IsUnique t list h,
  extend-IsUnique iter list h,
  extend-IsUnique iter [] tt,
)

has_extension-snoc :
    (list : ExtensionList) (ext : Extension) (t : ℕ)
    → has_extension (list ++ (ext ∷ [])) t ≡ has_extension list t || (ext.extension_type == t)
unfolding has_extension
has_extension-snoc [] ext t = ground arith
has_extension-snoc (e ∷ list) ext t = ground (arith, has_extension-snoc list ext t)

snoc-IsUnique :
    (list : ExtensionList) (ext : Extension)
    → IsUnique list
    → has_extension list ext.extension_type ≡ false
    → IsUnique (list ++ (ext ∷ []))
unfolding has_extension
snoc-IsUnique [] ext h new = (refl, tt)
snoc-IsUnique (e ∷ list) ext (old, h) new =
    ground (arith, has_extension-snoc list ext e.extension_type, snoc-IsUnique list ext h)

decode_step-IsUnique :
    (list : ExtensionList) (reader : List ℕ) (list' : ExtensionList) (rest : List ℕ)
    → IsUnique list
    → decode_step list reader ≡ ok (list', rest)
    → IsUnique list'
unfolding decode_step has_extension
decode_step-IsUnique list reader list' rest h e =
    let ((ext, r), q, p) = >>=-eq-ok (extension_decode reader) _ e in
    elim (Bool-cases (has_extension list ext.extension_type)) [
      | inl old ↦ absurd (ground (arith, old, p))
      | inr new ↦ subst IsUnique (ground (arith, new, p)) (snoc-IsUnique list ext h new)
    ]

decode_while-IsUnique :
    (fuel : ℕ) (list : ExtensionList) (items : List ℕ) (list' : ExtensionList)
    → IsUnique list
    → decode_while decode_step fuel list items ≡ ok list'
    → IsUnique list'
unfolding decode_while
decode_while-IsUnique fuel list [] list' h e = subst IsUnique (ground arith) h
decode_while-IsUnique zero list (b ∷ bs) list' h e = absurd (ground arith)
decode_while-IsUnique (suc fuel) list (b ∷ bs) list' h e =
    let ((next, r), q, p) = >>=-eq-ok (decode_step list (b ∷ bs)) _ e in
    decode_while-IsUnique fuel next r list' (decode_step-IsUnique list (b ∷ bs) next r h q) p

-- A decoded list has at most one extension of each type.
pub list_decode-IsUnique :
    (reader : List ℕ) (list : ExtensionList) (rest : List ℕ)
    → list_decode reader ≡ ok (list, rest)
    → IsUnique list
unfolding list_decode decode_collection
list_decode-IsUnique reader list rest e =
    let ((items, r), q, p) = >>=-eq-ok (split_on_collection reader) _ e in
    let (list', q', p') = >>=-eq-ok (decode_while decode_step (length items) [] items) _ p in
    let same : list' ≡ list = ground arith in
    subst IsUnique same (decode_while-IsUnique (length items) [] items list' tt q')

has_extension-append :
    (list others : ExtensionList) (t : ℕ)
    → has_extension (list ++ others) t ≡ has_extension list t || has_extension others t
unfolding has_extension
has_extension-append [] others t = refl
has_extension-append (e ∷ list) others t = ground (arith, has_extension-append list others t)

-- When both lists have an extension of one type, the list after append does not have distinct types.
pub append_duplicates :
    (list others : ExtensionList) (t : ℕ)
    → has_extension list t ≡ true
    → has_extension others t ≡ true
    → ¬ IsUnique (append list others)
unfolding append has_extension
append_duplicates [] others t h k = λ u. cc
append_duplicates (e ∷ list) others t h k = λ u.
    ground
      (arith, has_extension-append list others e.extension_type, append_duplicates list others t)
