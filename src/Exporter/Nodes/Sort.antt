-- ===== src/Exporter/Nodes/Sort.antt =====
-- `sorted` in `_timeline_nodes` of src/vllm_observer/exporter.py: it orders the nodes and keeps each.
use vllm_observer.Base.{◌≡◌, true, false, List, [], ◌∷◌, arith, Bool-cases, inl, inr, All, All-mono}
use mathlib.Core.List.{Perm}
use mathlib.Core.List.Perm
use vllm_observer.Exporter.Nodes.{Keyed, key_le, insert_sorted, sorted}

module _ {F : Type 0} where
  -- Each node's key is at most that of every node behind it.
  abbrev pub IsSorted : List (Keyed F) → Type 0
  IsSorted [] = Unit
  IsSorted (k ∷ ks) = All (λ j. key_le k j ≡ true) ks × IsSorted ks

  pub key_le_trans : (a b c : Keyed F) → key_le a b ≡ true → key_le b c ≡ true → key_le a c ≡ true
  key_le_trans a b c h k = ground arith

  key_le_total : (a b : Keyed F) → key_le a b ≡ false → key_le b a ≡ true
  key_le_total a b h = ground arith

  All-insert_sorted :
      (P : Keyed F → Type 0) (k : Keyed F) (ks : List (Keyed F))
      → P k
      → All P ks
      → All P (insert_sorted k ks)
  unfolding insert_sorted
  All-insert_sorted P k [] p h = (p, tt)
  All-insert_sorted P k (j ∷ ks) p h = elim (Bool-cases (key_le k j)) [
    | inl first ↦ rw first (p, h)
    | inr later ↦ rw later (h.0, All-insert_sorted P k ks p h.1)
  ]

  insert_sorted-IsSorted :
      (k : Keyed F) (ks : List (Keyed F)) → IsSorted ks → IsSorted (insert_sorted k ks)
  unfolding insert_sorted
  insert_sorted-IsSorted k [] h = (tt, tt)
  insert_sorted-IsSorted k (j ∷ ks) h = elim (Bool-cases (key_le k j)) [
    | inl first ↦ rw first ((first, All-mono _ _ ks (λ i. key_le_trans k j i first) h.0), h)
    | inr later ↦
        rw later
          (All-insert_sorted _ k ks (key_le_total k j later) h.0, insert_sorted-IsSorted k ks h.1)
  ]

  pub sorted-IsSorted : (ks : List (Keyed F)) → IsSorted (sorted ks)
  unfolding sorted
  sorted-IsSorted [] = tt
  sorted-IsSorted (k ∷ ks) = insert_sorted-IsSorted k (sorted ks) (sorted-IsSorted ks)

  pub All-sorted : (P : Keyed F → Type 0) (ks : List (Keyed F)) → All P ks → All P (sorted ks)
  unfolding sorted
  All-sorted P [] h = tt
  All-sorted P (k ∷ ks) h = All-insert_sorted P k (sorted ks) h.0 (All-sorted P ks h.1)

  insert_sorted-perm : (k : Keyed F) (ks : List (Keyed F)) → Perm (insert_sorted k ks) (k ∷ ks)
  unfolding insert_sorted
  insert_sorted-perm k [] = Perm.refl _
  insert_sorted-perm k (j ∷ ks) = elim (Bool-cases (key_le k j)) [
    | inl first ↦ rw first (Perm.refl _)
    | inr later ↦ rw later (Perm.trans (Perm.cons j (insert_sorted-perm k ks)) (Perm.swap k j ks))
  ]

  pub sorted-perm : (ks : List (Keyed F)) → Perm (sorted ks) ks
  unfolding sorted
  sorted-perm [] = Perm.refl _
  sorted-perm (k ∷ ks) =
      Perm.trans (insert_sorted-perm k (sorted ks)) (Perm.cons k (sorted-perm ks))
