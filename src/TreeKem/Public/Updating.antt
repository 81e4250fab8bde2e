-- ===== src/TreeKem/Public/Updating.antt =====
-- mls-rs/src/tree_kem/mod.rs: the updates of `batch_edit`, when nothing is filtered.
use mls_rs_wasm_maybe_sync.Common.{
  ℕ, suc, ◌*◌, ◌^◌, ◌<◌, ◌≡◌, ◌≢◌, refl, sym, ap, subst, ◌∙◌, List, [], ◌∷◌, ◌++◌, length, set, All,
  Bool-cases, false, ◌==◌, ==_iff, none, arith, inl, inr,
}
use mls_rs_wasm_maybe_sync.Common.State.{Ensures, Ensures-bind}
use mls_rs_wasm_maybe_sync.Proposals.{ProposalInfo}
use mls_rs_wasm_maybe_sync.TreeKem.Leaf.{LeafNode}
use mls_rs_wasm_maybe_sync.TreeKem.Nodes.{NodeVec, node_index}
use mls_rs_wasm_maybe_sync.TreeKem.Nodes.Blanking.{taken, refused, Blanked-cases}
use mls_rs_wasm_maybe_sync.TreeKem.Nodes.Walks.{leaf_at}
use mls_rs_wasm_maybe_sync.TreeKem.Public.{TreeKemPublic, IdentityOf}
use mls_rs_wasm_maybe_sync.TreeKem.Public.Removals.{
  PartialUpdate, take_old, take_update, take_updates,
}
use mls_rs_wasm_maybe_sync.TreeKem.Public.Removing.{
  Returns, IsEditable, IsBlanked, taken-IsBlanked, forget-IsEditable,
}

-- The leaves of the updates are blank, and no two are the same.
abbrev pub AreDistinct : List PartialUpdate → Type 0
AreDistinct [] = Unit
AreDistinct (p ∷ ps) = All (λ q. q.index ≢ p.index) ps × AreDistinct ps

abbrev pub IsPending : NodeVec → PartialUpdate → Type 0
IsPending nodes p = (leaf_at nodes p.index ≡ none) × (p.index * 2 < length nodes)

-- What taking the old leaves away has done.
pub record HasTaken (identity : IdentityOf) (n : ℕ) (t : TreeKemPublic) (ps : List PartialUpdate)
    (s : TreeKemPublic) : Type 0 where
  pub editable : IsEditable identity n s
  pub same_length : length s.nodes ≡ length t.nodes
  pub stays_blank : (i : ℕ) → leaf_at t.nodes i ≡ none → leaf_at s.nodes i ≡ none
  pub pending : All (IsPending s.nodes) ps
  pub distinct : AreDistinct ps
  pub occupied : All (λ p. leaf_at t.nodes p.index ≢ none) ps

pub All-map :
    {A : Type 0} (P Q : A → Type 0) (xs : List A) → ((x : A) → P x → Q x) → All P xs → All Q xs
All-map P Q [] f h = tt
All-map P Q (x ∷ xs) f (p, h) = (f x p, All-map P Q xs f h)

module _ (identity : IdentityOf) (returns : Returns identity) (n : ℕ) where
  -- One update before the others.
  HasTaken-cons :
      (t s s' : TreeKemPublic) (p : PartialUpdate) (l : LeafNode) (ps : List PartialUpdate)
      → IsBlanked p.index l t.nodes s.nodes
      → HasTaken identity n s ps s'
      → HasTaken identity n t (p ∷ ps) s'
  HasTaken-cons t s s' p l ps h rest = record {
    editable = rest.editable;
    same_length = rest.same_length ∙ h.same_length;
    stays_blank = λ i blank. rest.stays_blank i (blanker i blank);
    pending = (
      (
        rest.stays_blank p.index h.apart.without,
        omega (arith, h.inside, rest.same_length, h.same_length),
      ),
      rest.pending,
    );
    distinct = (
      All-map _ _ ps (λ q there same. there (ap (leaf_at s.nodes) same ∙ h.apart.without))
          rest.occupied,
      rest.distinct,
    );
    occupied = (
      (λ blank. cc (sym h.apart.within ∙ blank)),
      All-map _ _ ps (λ q there blank. there (blanker q.index blank)) rest.occupied,
    );
  }
    where
      blanker : (i : ℕ) → leaf_at t.nodes i ≡ none → leaf_at s.nodes i ≡ none
      blanker i blank = elim (Bool-cases (i == p.index)) [
        | inl hit ↦ ap (leaf_at s.nodes) ((==_iff i p.index).0 hit) ∙ h.apart.without
        | inr miss ↦ h.apart.others i (λ e. cc ((==_iff i p.index).1 e)) ∙ blank
      ]

  -- What one update leaves: its partial update, and the tree without the old leaf.
  abbrev TookOne : ℕ → TreeKemPublic → List PartialUpdate → TreeKemPublic → Type 0
  TookOne index t ps s =
      (p : PartialUpdate) × (l : LeafNode) × (ps ≡ p ∷ [])
      × (p.index ≡ index)
      × IsBlanked p.index l t.nodes s.nodes
      × IsEditable identity n s

  take_update-TookOne :
      (i : ℕ) (p : ProposalInfo LeafNode) (index : ℕ) (t : TreeKemPublic)
      → index < 2 ^ 31
      → IsEditable identity n t
      → Ensures (TookOne index t) (take_update identity false i p index t)
  unfolding take_update take_old
  take_update-TookOne i p index t small h = elim (Blanked-cases t.nodes index) [
    | refused e out q ↦ rw q (unfold take_old in tt)
    | taken l here q ↦
        let blanked : IsBlanked index l t.nodes (set t.nodes (node_index index) none) =
          taken-IsBlanked t.nodes index l small here in
        let update : PartialUpdate = record {
          index = index;
          old_leaf = l;
          new_leaf = p.proposal;
          position = i;
        } in
        rw q (
          Ensures-bind
            (λ u s. IsEditable identity n s × (s.nodes ≡ set t.nodes (node_index index) none))
            (TookOne index t) _ _ (forget-IsEditable identity returns n index l t _ h blanked)
            (λ u s k.
              (update, l, refl, refl, subst (IsBlanked index l t.nodes) (sym k.1) blanked, k.0)))
  ]

  pub take_updates-HasTaken :
      (i : ℕ) (ps : List (ProposalInfo LeafNode)) (senders : List ℕ) (t : TreeKemPublic)
      → All (λ index. index < 2 ^ 31) senders
      → IsEditable identity n t
      → Ensures (HasTaken identity n t) (take_updates identity false i ps senders t)
  unfolding take_updates
  take_updates-HasTaken i [] senders t small h = nothing
    where
      nothing : HasTaken identity n t [] t
      nothing = record {
        editable = h;
        same_length = refl;
        stays_blank = λ i blank. blank;
        pending = tt;
        distinct = tt;
        occupied = tt;
      }
  take_updates-HasTaken i (p ∷ ps) [] t small h = nothing
    where
      nothing : HasTaken identity n t [] t
      nothing = record {
        editable = h;
        same_length = refl;
        stays_blank = λ i blank. blank;
        pending = tt;
        distinct = tt;
        occupied = tt;
      }
  take_updates-HasTaken i (p ∷ ps) (index ∷ senders) t (here, small) h =
      Ensures-bind (TookOne index t) (HasTaken identity n t) _
        (take_update identity false i p index t) (take_update-TookOne i p index t here h)
        (λ one s k.
          Ensures-bind (HasTaken identity n s) (HasTaken identity n t) _
            (take_updates identity false (suc i) ps senders s)
            (take_updates-HasTaken (suc i) ps senders s small k.5)
            (λ rest s' j.
              subst (λ z. HasTaken identity n t (z ++ rest) s') (sym k.2)
                (HasTaken-cons t s s' k.0 k.1 rest k.4 j)))
