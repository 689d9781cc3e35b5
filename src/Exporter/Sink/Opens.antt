-- ===== src/Exporter/Sink/Opens.antt =====
-- Nodes that are sorted with their parents in front, for `LangfuseSink.__call__` of
-- src/vllm_observer/exporter.py.
use vllm_observer.Base.{
  ◌≡◌, refl, String, Bool, true, false, not, ◌||◌, ◌⊎◌, Option, none, some, List, [], ◌∷◌, map,
  arith, inl, inr, All, All-mono, Bool-cases, str_eq,
}
use vllm_observer.Base.Int.{ℤ}
use vllm_observer.Base.Outcome.{ret}
use vllm_observer.Core.Trace.{Observation}
use vllm_observer.Exporter.Nodes.{Keyed, key_le, insert_sorted, sorted}
use vllm_observer.Exporter.Nodes.Sort.{IsSorted, key_le_trans}
use vllm_observer.Exporter.Sink.{id_of, parent_of, end_of, Opened, is_known, open_all}

abbrev pub names : Option String → String → Bool
names none id = false
names (some parent) id = str_eq id parent

known_of :
    (o : Option String) (id : String) (known : List String)
    → is_known o (id ∷ known) ≡ true
    → names o id ≡ false
    → is_known o known ≡ true
known_of none id known h k = refl
known_of (some parent) id known h k = ground arith

known_more :
    (o : Option String) (id : String) (known : List String)
    → is_known o known ≡ true
    → is_known o (id ∷ known) ≡ true
known_more none id known h = refl
known_more (some parent) id known h = ground arith

known_first :
    (o : Option String) (id : String) (known : List String)
    → names o id ≡ true
    → is_known o (id ∷ known) ≡ true
known_first none id known h = refl
known_first (some parent) id known h = ground arith

known_cons :
    (o : Option String) (id : String) (a b : List String)
    → (is_known o a ≡ true → is_known o b ≡ true)
    → is_known o (id ∷ a) ≡ true
    → is_known o (id ∷ b) ≡ true
known_cons none id a b f h = refl
known_cons (some parent) id a b f h = elim (Bool-cases (str_eq id parent)) [
  | inl same ↦ rw same refl
  | inr other ↦ rw other (f (rw other at h))
]

known_swap :
    (o : Option String) (x y : String) (known : List String)
    → is_known o (x ∷ y ∷ known) ≡ true
    → is_known o (y ∷ x ∷ known) ≡ true
known_swap none x y known h = refl
known_swap (some parent) x y known h = ground arith

module _ {F : Type 0} where
  -- Each node's parent is known before it.
  abbrev pub Opens : List String → List (Observation F) → Type 0
  Opens known [] = Unit
  Opens known (n ∷ nodes) = (is_known (parent_of n) known ≡ true) × Opens (id_of n ∷ known) nodes

  abbrev pub opened : ℤ → Observation F → Opened F
  opened end_ns n = record { node = n; end_ns = end_of end_ns n; parent = parent_of n }

  pub open_all-Opens :
      (end_ns : ℤ) (known : List String) (nodes : List (Observation F))
      → Opens known nodes
      → open_all end_ns known nodes ≡ ret (map (opened end_ns) nodes)
  unfolding open_all
  open_all-Opens end_ns known [] h = refl
  open_all-Opens end_ns known (n ∷ nodes) h =
      rw (h.0, open_all) (rw (open_all-Opens end_ns (id_of n ∷ known) nodes h.1) refl)

  Opens-mono :
      (a b : List String) (nodes : List (Observation F))
      → ((o : Option String) → is_known o a ≡ true → is_known o b ≡ true)
      → Opens a nodes
      → Opens b nodes
  Opens-mono a b [] f h = tt
  Opens-mono a b (n ∷ nodes) f h = (
    f (parent_of n) h.0,
    Opens-mono (id_of n ∷ a) (id_of n ∷ b) nodes (λ o. known_cons o (id_of n) a b (f o)) h.1,
  )

  abbrev pub nodes_of : List (Keyed F) → List (Observation F)
  nodes_of = map (λ k. k.node)

  -- `c` is no child of `k`, or does not come before it in the order.
  abbrev pub is_after : Keyed F → Keyed F → Bool
  is_after k c = not (names (parent_of c.node) (id_of k.node)) || key_le k c

  -- Among `ks` is the parent of `k`, and comes before it in the order.
  abbrev pub HasParent : Keyed F → List (Keyed F) → Type 0
  HasParent k [] = ⊥
  HasParent k (m ∷ ks) =
      ((names (parent_of k.node) (id_of m.node) ≡ true) × (key_le k m ≡ false)) ⊎ HasParent k ks

  insert_sorted-HasParent :
      (k m : Keyed F) (ks : List (Keyed F))
      → HasParent k (m ∷ ks)
      → HasParent k (insert_sorted m ks)
  unfolding insert_sorted
  insert_sorted-HasParent k m [] h = h
  insert_sorted-HasParent k m (j ∷ ks) h = elim (Bool-cases (key_le m j)) [
    | inl first ↦ rw first h
    | inr later ↦ rw later (behind (insert_sorted-HasParent k m ks) h)
  ]
    where
      behind :
          (HasParent k (m ∷ ks) → HasParent k (insert_sorted m ks))
          → HasParent k (m ∷ j ∷ ks)
          → HasParent k (j ∷ insert_sorted m ks)
      behind further (inl here) = inr (further (inl here))
      behind further (inr (inl there)) = inl there
      behind further (inr (inr far)) = inr (further (inr far))

  pub sorted-HasParent :
      (k : Keyed F) (ks : List (Keyed F)) → HasParent k ks → HasParent k (sorted ks)
  unfolding sorted
  sorted-HasParent k [] h = elim h [ ]
  sorted-HasParent k (m ∷ ks) (inl here) = insert_sorted-HasParent k m (sorted ks) (inl here)
  sorted-HasParent k (m ∷ ks) (inr there) =
      insert_sorted-HasParent k m (sorted ks) (inr (sorted-HasParent k ks there))

  not_first :
      (k j : Keyed F) (ks : List (Keyed F))
      → key_le k j ≡ true
      → All (λ i. key_le k i ≡ true) ks
      → ¬ HasParent k (j ∷ ks)
  not_first k j ks first behind (inl here) = cc
  not_first k j [] first behind (inr there) = elim there [ ]
  not_first k j (i ∷ ks) first behind (inr there) = not_first k i ks behind.0 behind.1 there

  -- Its parent is known already, or is to be found in `ks`, earlier in the order.
  abbrev pub FindsParent : List String → Keyed F → List (Keyed F) → Type 0
  FindsParent known k ks = (is_known (parent_of k.node) known ≡ true) ⊎ HasParent k ks

  pass_first :
      (known : List String) (k j : Keyed F) (ks : List (Keyed F))
      → FindsParent known k (j ∷ ks)
      → FindsParent (id_of j.node ∷ known) k ks
  pass_first known k j ks (inl there) =
      inl (known_more (parent_of k.node) (id_of j.node) known there)
  pass_first known k j ks (inr (inl here)) =
      inl (known_first (parent_of k.node) (id_of j.node) known here.0)
  pass_first known k j ks (inr (inr later)) = inr later

  pub insert_sorted-Opens :
      (known : List String) (k : Keyed F) (ks : List (Keyed F))
      → IsSorted ks
      → FindsParent known k ks
      → All (λ c. is_after k c ≡ true) ks
      → Opens (id_of k.node ∷ known) (nodes_of ks)
      → Opens known (nodes_of (insert_sorted k ks))
  unfolding insert_sorted
  insert_sorted-Opens known k [] order (inl p) after h = (p, tt)
  insert_sorted-Opens known k [] order (inr p) after h = absurd p
  insert_sorted-Opens known k (j ∷ ks) order p after h = elim (Bool-cases (key_le k j)) [
    | inl first ↦ rw first (found first p, h)
    | inr later ↦
        let foreign : names (parent_of j.node) (id_of k.node) ≡ false = ground arith in
        rw later (
          known_of (parent_of j.node) (id_of k.node) known h.0 foreign,
          insert_sorted-Opens (id_of j.node ∷ known) k ks order.1 (pass_first known k j ks p)
              after.1
              (Opens-mono (id_of j.node ∷ id_of k.node ∷ known)
                (id_of k.node ∷ id_of j.node ∷ known) (nodes_of ks)
                (λ o. known_swap o (id_of j.node) (id_of k.node) known) h.1),
        )
  ]
    where
      found :
          key_le k j ≡ true
          → FindsParent known k (j ∷ ks)
          → is_known (parent_of k.node) known ≡ true
      found first (inl there) = there
      found first (inr m) =
          absurd
            (not_first k j ks first (All-mono _ _ ks (λ i. key_le_trans k j i first) order.0) m)
