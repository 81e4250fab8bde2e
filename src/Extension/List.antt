-- ===== src/Extension/List.antt =====
-- mls-rs-core/src/extension/list.rs: a list of extensions.
pub mod Lookup
pub mod Unique
pub mod Equality
use mls_rs_wasm_maybe_sync.Common.{
  ℕ, zero, suc, ◌+◌, ◌-◌, ◌*◌, ◌/◌, ◌%◌, ◌^◌, ◌≤◌, ◌<◌, ◌≡◌, ◌≢◌, ◌↔◌, refl, sym, ap, subst, ◌∙◌,
  bit_and, bit_or, bit_xor, max, min, List, [], ◌∷◌, ◌++◌, map, append-nil, append_assoc, length,
  length-append, length-set, length-drop, bytes_eq, bytes_eq→eq, bytes_eq_self, get_elem?, set,
  take, drop, take-append, drop-append, head?, get_last?, any, all, All, ltb, leb, ◌==◌, ==_iff,
  ltb→lt, lt→ltb, if◌then◌else◌, Bool, true, false, not, ◌&&◌, ◌||◌, Bool-cases, Option, none, some,
  Option-cases, is_some, is_none, Result, ok, err, fault, Fault, panicked, out_of_fuel, ensure,
  ok_or, try_for_each, ◌>>=◌, ◌>>◌, arith, ◌⊎◌, inl, inr,
}
use mls_rs_wasm_maybe_sync.Codec.{Error, custom}
use mls_rs_wasm_maybe_sync.Codec.Collection.{decode_collection, decode_while}
use mls_rs_wasm_maybe_sync.Extension.Defs.{
  Extension, ExtensionError, MlsExtension, into_extension, from_extension, extension_decode,
}

abbrev pub ExtensionList : Type 0
ExtensionList = List Extension

-- `Option::transpose`
abbrev transpose {ℓ} : {E : Type 0} {A : Type ℓ} → Option (Result E A) → Result E (Option A)
transpose none = ok none
transpose (some (ok a)) = ok (some a)
transpose (some (err e)) = err e
transpose (some (fault x)) = fault x

unfoldable pub has_extension : ExtensionList → ℕ → Bool
has_extension list ext_id = any (λ e. e.extension_type == ext_id) list

-- `.iter().find(|e| e.extension_type == extension_type)`
unfoldable pub get : ExtensionList → ℕ → Option Extension
get [] extension_type = none
get (e ∷ list) extension_type =
    if e.extension_type == extension_type then some e else get list extension_type

unfoldable pub get_as {ℓ} :
    {E : Type ℓ} → MlsExtension E → ExtensionList → Result ExtensionError (Option E)
get_as m list =
    transpose (elim (get list m.type_id) [ none ↦ none | some e ↦ some (from_extension m e) ])

-- The first entry of the same type is replaced; without one the entry goes to the end.
unfoldable pub set_ext : Extension → ExtensionList → ExtensionList
set_ext ext [] = ext ∷ []
set_ext ext (e ∷ list) =
    if e.extension_type == ext.extension_type then ext ∷ list else e ∷ set_ext ext list

unfoldable pub set_from {ℓ} :
    {E : Type ℓ} → MlsExtension E → E → ExtensionList → Result ExtensionError ExtensionList
set_from m e list = do ext ← into_extension m e; ok (set_ext ext list)

-- `retain(|e| e.extension_type != ext_type)`
unfoldable pub remove : ℕ → ExtensionList → ExtensionList
remove ext_type [] = []
remove ext_type (e ∷ list) =
    if e.extension_type == ext_type then remove ext_type list else e ∷ remove ext_type list

unfoldable pub append : ExtensionList → ExtensionList → ExtensionList
append list others = list ++ others

-- `Extend`, and `From<Vec<Extension>>` and `FromIterator` by it.
unfoldable pub extend : ExtensionList → List Extension → ExtensionList
extend list [] = list
extend list (ext ∷ iter) = extend (set_ext ext list) iter

unfoldable pub from_vec : List Extension → ExtensionList
from_vec extensions = extend [] extensions

-- `PartialEq`
abbrev pub ext_eq : Extension → Extension → Bool
ext_eq a b = (a.extension_type == b.extension_type) && bytes_eq a.extension_data b.extension_data

abbrev pub found_in : ExtensionList → Extension → Bool
found_in other ext = elim (get other ext.extension_type) [ none ↦ false | some e ↦ ext_eq e ext ]

unfoldable pub list_eq : ExtensionList → ExtensionList → Bool
list_eq list other = (length list == length other) && all (found_in other) list

-- One round of the loop of `mls_decode`, which refuses a second extension of a type.
unfoldable pub decode_step : ExtensionList → List ℕ → Result Error (ExtensionList × List ℕ)
decode_step list reader = do
  (ext, rest) ← extension_decode reader
  if any (λ e. e.extension_type == ext.extension_type) list
      then err (custom 1)
      else ok (list ++ (ext ∷ []), rest)

unfoldable pub list_decode : List ℕ → Result Error (ExtensionList × List ℕ)
list_decode reader =
    decode_collection reader (λ items. decode_while decode_step (length items) [] items)
