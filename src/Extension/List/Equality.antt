-- ===== src/Extension/List/Equality.antt =====
-- mls-rs-core/src/extension/list.rs: equality of lists forgets the order.
use mls_rs_wasm_maybe_sync.Common.{
  ℕ, ◌≤◌, ◌<◌, ◌≡◌, ◌↔◌, refl, sym, ap, subst, ◌∙◌, [], ◌∷◌, length, bytes_eq→eq, bytes_eq_self,
  all, ◌==◌, ==_iff, true, false, Bool-cases, none, some, Option-cases, arith, inl, inr,
}
use mls_rs_wasm_maybe_sync.Extension.Defs.{Extension}
use mls_rs_wasm_maybe_sync.Extension.List.{
  ExtensionList, has_extension, get, remove, ext_eq, found_in, list_eq,
}
use mls_rs_wasm_maybe_sync.Extension.List.Lookup.{get-remove, has_extension-get}
use mls_rs_wasm_maybe_sync.Extension.List.Unique.{IsUnique}

ext_eq→eq : (a b : Extension) → ext_eq a b ≡ true → a ≡ b
ext_eq→eq a b h = ground (arith, bytes_eq→eq a.extension_data b.extension_data)

ext_eq_self : (a : Extension) → ext_eq a a ≡ true
ext_eq_self a = ground (arith, bytes_eq_self a.extension_data)

found_in→get :
    (ys : ExtensionList) (e : Extension) → found_in ys e ≡ true → get ys e.extension_type ≡ some e
found_in→get ys e h = elim (Option-cases (get ys e.extension_type)) [
  | inl q ↦ absurd (ground arith)
  | inr (x, q) ↦ q ∙ ap some (ext_eq→eq x e (ground arith))
]

get→found_in :
    (ys : ExtensionList) (e : Extension) → get ys e.extension_type ≡ some e → found_in ys e ≡ true
get→found_in ys e h = rw (h, found_in) (ext_eq_self e)

get-all_found :
    (xs ys : ExtensionList) (t : ℕ) (e : Extension)
    → all (found_in ys) xs ≡ true
    → get xs t ≡ some e
    → get ys t ≡ some e
unfolding get
get-all_found [] ys t e h q = absurd (cc)
get-all_found (x ∷ xs) ys t e h q = elim (Bool-cases (x.extension_type == t)) [
  | inl hit ↦ ground (arith, found_in→get ys x (ground arith), (==_iff x.extension_type t).0 hit)
  | inr miss ↦ get-all_found xs ys t e (ground arith) (ground arith)
]

length-remove_le : (t : ℕ) (ys : ExtensionList) → length (remove t ys) ≤ length ys
unfolding remove
length-remove_le t [] = omega arith
length-remove_le t (y ∷ ys) = ground (arith, length-remove_le t ys)

length-remove_lt :
    (t : ℕ) (ys : ExtensionList) (e : Extension)
    → get ys t ≡ some e
    → length (remove t ys) < length ys
unfolding remove get
length-remove_lt t [] e h = absurd (cc)
length-remove_lt t (y ∷ ys) e h = ground (arith, length-remove_le t ys, length-remove_lt t ys e)

-- Without an entry of type `t` in `xs`, removing `t` from the other list changes no answer for `xs`.
found_in_rest :
    (t : ℕ) (xs ys : ExtensionList)
    → has_extension xs t ≡ false
    → all (found_in ys) xs ≡ true
    → all (found_in (remove t ys)) xs ≡ true
unfolding has_extension
found_in_rest t [] ys new h = refl
found_in_rest t (x ∷ xs) ys new h = ground (
  arith,
  found_in→get ys x (ground arith),
  get→found_in (remove t ys) x,
  get-remove t ys x.extension_type,
  found_in_rest t xs ys,
)

-- Pigeonhole: a list no longer than `xs`, in which all of `xs` is found, has no other type.
get-none :
    (xs ys : ExtensionList) (t : ℕ)
    → IsUnique xs
    → all (found_in ys) xs ≡ true
    → length ys ≤ length xs
    → get xs t ≡ none
    → get ys t ≡ none
unfolding get
get-none [] [] t u h le q = refl
get-none [] (y ∷ ys) t u h le q = absurd (omega arith)
get-none (x ∷ xs) ys t (new, u) h le q =
    let here = found_in→get ys x (ground arith) in
    let rest = found_in_rest x.extension_type xs ys new (ground arith) in
    let shorter = length-remove_lt x.extension_type ys x here in
    ground (
      arith,
      get-remove x.extension_type ys t,
      get-none xs (remove x.extension_type ys) t u rest (omega arith),
    )

length_le_of_found :
    (xs ys : ExtensionList) → IsUnique xs → all (found_in ys) xs ≡ true → length xs ≤ length ys
length_le_of_found [] ys u h = omega arith
length_le_of_found (x ∷ xs) ys (new, u) h =
    let here = found_in→get ys x (ground arith) in
    let rest = found_in_rest x.extension_type xs ys new (ground arith) in
    omega (
      arith,
      length-remove_lt x.extension_type ys x here,
      length_le_of_found xs (remove x.extension_type ys) u rest,
    )

get_tail :
    (x : Extension) (xs : ExtensionList) (t : ℕ) (e : Extension)
    → has_extension xs x.extension_type ≡ false
    → get xs t ≡ some e
    → get (x ∷ xs) t ≡ some e
unfolding get
get_tail x xs t e new q = elim (Bool-cases (x.extension_type == t)) [
  | inl hit ↦ absurd (
      ground (
        arith,
        has_extension-get xs t,
        subst (λ s. has_extension xs s ≡ false) ((==_iff x.extension_type t).0 hit) new,
      ))
  | inr miss ↦ rw miss q
]

get_head : (x : Extension) (xs : ExtensionList) → get (x ∷ xs) x.extension_type ≡ some x
unfolding get
get_head x xs = ground arith

all_found_of_get :
    (xs ys : ExtensionList)
    → IsUnique xs
    → ((t : ℕ) (e : Extension) → get xs t ≡ some e → get ys t ≡ some e)
    → all (found_in ys) xs ≡ true
all_found_of_get [] ys u h = refl
all_found_of_get (x ∷ xs) ys (new, u) h = ground (
  arith,
  get→found_in ys x (h x.extension_type x (get_head x xs)),
  all_found_of_get xs ys u (λ t e q. h t e (get_tail x xs t e new q)),
)

same_answers :
    (xs ys : ExtensionList)
    → IsUnique xs
    → length xs ≡ length ys
    → all (found_in ys) xs ≡ true
    → (t : ℕ) → get xs t ≡ get ys t
same_answers xs ys u len h t = elim (Option-cases (get xs t)) [
  | inl q ↦ q ∙ sym (get-none xs ys t u h (omega arith) q)
  | inr (e, q) ↦ q ∙ sym (get-all_found xs ys t e h q)
]

-- Two lists with distinct types are == exactly when they answer alike for every type: the order of the
-- entries does not count.
pub list_eq_iff :
    (xs ys : ExtensionList)
    → IsUnique xs
    → IsUnique ys
    → (list_eq xs ys ≡ true) ↔ ((t : ℕ) → get xs t ≡ get ys t)
unfolding list_eq
list_eq_iff xs ys u v = (λ e. same_answers xs ys u (ground arith) (ground arith), backward)
  where
    backward : ((t : ℕ) → get xs t ≡ get ys t) → list_eq xs ys ≡ true
    backward h =
        let there = all_found_of_get xs ys u (λ t e q. sym (h t) ∙ q) in
        let back = all_found_of_get ys xs v (λ t e q. h t ∙ q) in
        let l = length_le_of_found xs ys u there in
        let m = length_le_of_found ys xs v back in ground (arith, there, l, m)
