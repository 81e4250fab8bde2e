-- ===== src/Extension/Tests.antt =====
-- mls-rs-core/src/extension.rs and extension/list.rs: runs on short lists.
use mls_rs_wasm_maybe_sync.Common.{ℕ, ◌≡◌, ◌↔◌, refl, [], ◌∷◌, true, ok}
use mls_rs_wasm_maybe_sync.Extension.Defs.{Extension, extension_decode}
use mls_rs_wasm_maybe_sync.Extension.List.{
  ExtensionList, get, set_ext, remove, append, extend, from_vec, list_eq, has_extension,
  list_decode, decode_step,
}
use mls_rs_wasm_maybe_sync.Extension.List.Unique.{
  IsUnique, IsUnique-kept, list_decode-IsUnique, append_duplicates,
}
use mls_rs_wasm_maybe_sync.Extension.List.Equality.{list_eq_iff}
use mls_rs_wasm_maybe_sync.Codec.Collection.{decode_collection, split_on_collection, decode_while}
use mls_rs_wasm_maybe_sync.Codec.Varint.{
  varint_decode, varint_decode_rest, fold_bytes, check_minimal, count_bytes_to_encode_int,
  encoding_of_bits, leading_zeros,
}
use mls_rs_wasm_maybe_sync.Codec.Types.{int_decode, from_be_bytes, pair_decode, byte_vec_decode}

abbrev ext_one : Extension
ext_one = record { extension_type = 1; extension_data = 5 ∷ [] }

abbrev ext_two : Extension
ext_two = record { extension_type = 2; extension_data = [] }

abbrev ext_both : ExtensionList
ext_both = ext_one ∷ ext_two ∷ []

abbrev ext_swapped : ExtensionList
ext_swapped = ext_two ∷ ext_one ∷ []

both-IsUnique : IsUnique ext_both
unfolding has_extension
both-IsUnique = (refl, (refl, tt))

swapped-IsUnique : IsUnique ext_swapped
unfolding has_extension
swapped-IsUnique = (refl, (refl, tt))

list_eq_iff_example :
    (list_eq ext_both ext_swapped ≡ true) ↔ ((t : ℕ) → get ext_both t ≡ get ext_swapped t)
list_eq_iff_example = list_eq_iff ext_both ext_swapped both-IsUnique swapped-IsUnique

IsUnique-kept_example :
    IsUnique (set_ext ext_one ext_both)
    × IsUnique (remove 1 ext_both)
    × IsUnique (extend ext_both ext_swapped)
    × IsUnique (from_vec ext_swapped)
IsUnique-kept_example = IsUnique-kept ext_both ext_one ext_swapped 1 both-IsUnique

decode_two :
    list_decode (8 ∷ 0 ∷ 1 ∷ 1 ∷ 5 ∷ 0 ∷ 2 ∷ 1 ∷ 6 ∷ 9 ∷ [])
    ≡ ok (ext_one ∷ record { extension_type = 2; extension_data = 6 ∷ [] } ∷ [], 9 ∷ [])
unfolding list_decode decode_collection split_on_collection varint_decode varint_decode_rest
    fold_bytes check_minimal count_bytes_to_encode_int encoding_of_bits leading_zeros decode_while
    decode_step extension_decode pair_decode int_decode from_be_bytes byte_vec_decode
decode_two = refl

list_decode-IsUnique_example :
    IsUnique (ext_one ∷ record { extension_type = 2; extension_data = 6 ∷ [] } ∷ [])
list_decode-IsUnique_example =
    list_decode-IsUnique (8 ∷ 0 ∷ 1 ∷ 1 ∷ 5 ∷ 0 ∷ 2 ∷ 1 ∷ 6 ∷ 9 ∷ [])
      (ext_one ∷ record { extension_type = 2; extension_data = 6 ∷ [] } ∷ []) (9 ∷ []) decode_two

append_duplicates_example : ¬ IsUnique (append ext_both (ext_one ∷ []))
unfolding has_extension
append_duplicates_example = append_duplicates ext_both (ext_one ∷ []) 1 refl refl
