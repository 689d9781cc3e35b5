-- ===== src/Exporter/Sink/Opening.antt =====
-- When the loop of `LangfuseSink.__call__` in src/vllm_observer/exporter.py finds the context of each
-- parent: the nodes are sorted, so this is a matter of their keys.
use mathlib.Core.List.{◌++◌}
use vllm_observer.Base.{sym}
use vllm_observer.Base.{
  ◌≡◌, refl, ap, ◌∙◌, String, Bool, true, none, List, [], ◌∷◌, map, filter_by, arith, if◌then◌else◌,
  inl, inr, All, All-mono, Bool-cases,
}
use mathlib.Core.List.{reverse, reverse-cons}
use vllm_observer.Base.Int.{ℤ}
use vllm_observer.Base.Outcome.{ret, raise}
use vllm_observer.Core.Trace.{Span, span}
use vllm_observer.Exporter.Nodes.{Keyed, key_le, insert_sorted, sorted}
use vllm_observer.Exporter.Nodes.Sort.{IsSorted, sorted-IsSorted, All-sorted, key_le_trans}
use vllm_observer.Exporter.Sink.{
  id_of, is_valid, valid_nodes, Opened, open_all, end_all, at_opened, export_nodes, export_failed,
}
use vllm_observer.Exporter.Sink.Opens.{
  Opens, opened, open_all-Opens, nodes_of, is_after, sorted-HasParent, FindsParent,
  insert_sorted-Opens,
}

module _ {F : Type 0} where
  -- Each node's parent is known, or stands before it and is not after it in the order, or stands
  -- behind it and is before it in the order.
  abbrev pub AreNested : List String → List (Keyed F) → Type 0
  AreNested known [] = Unit
  AreNested known (k ∷ ks) =
      FindsParent known k ks
      × All (λ c. is_after k c ≡ true) ks
      × AreNested (id_of k.node ∷ known) ks

  sorted-Opens :
      (known : List String) (ks : List (Keyed F))
      → AreNested known ks
      → Opens known (nodes_of (sorted ks))
  unfolding sorted
  sorted-Opens known [] h = tt
  sorted-Opens known (k ∷ ks) h =
      insert_sorted-Opens known k (sorted ks) (sorted-IsSorted ks) (found h.0) (All-sorted _ ks h.1)
        (sorted-Opens (id_of k.node ∷ known) ks h.2)
    where
      found : FindsParent known k ks → FindsParent known k (sorted ks)
      found (inl there) = inl there
      found (inr m) = inr (sorted-HasParent k ks m)

  insert_front :
      (k : Keyed F) (ks : List (Keyed F))
      → All (λ j. key_le k j ≡ true) ks
      → insert_sorted k ks ≡ k ∷ ks
  unfolding insert_sorted
  insert_front k [] h = refl
  insert_front k (j ∷ ks) h = rw h.0 refl

  module _ (p : Keyed F → Bool) where
    All-filter_by : (P : Keyed F → Type 0) (ks : List (Keyed F)) → All P ks → All P (filter_by p ks)
    All-filter_by P [] h = tt
    All-filter_by P (k ∷ ks) h = elim (Bool-cases (p k)) [
      | inl keep ↦ rw keep (h.0, All-filter_by P ks h.1)
      | inr drop ↦ rw drop (All-filter_by P ks h.1)
    ]

    filter_by-insert_sorted :
        (k : Keyed F) (ks : List (Keyed F))
        → IsSorted ks
        → filter_by p (insert_sorted k ks)
          ≡ (if p k then insert_sorted k (filter_by p ks) else filter_by p ks)
    unfolding insert_sorted
    filter_by-insert_sorted k [] h = ground arith
    filter_by-insert_sorted k (j ∷ ks) h = elim (Bool-cases (key_le k j)) [
      | inl first ↦
          let behind : All (λ i. key_le k i ≡ true) ks =
            All-mono _ _ ks (λ i. key_le_trans k j i first) h.0 in
          ground (arith, insert_front k (filter_by p ks) (All-filter_by _ ks behind))
      | inr later ↦ ground (arith, filter_by-insert_sorted k ks h.1)
    ]

    filter_by-sorted : (ks : List (Keyed F)) → filter_by p (sorted ks) ≡ sorted (filter_by p ks)
    unfolding sorted
    filter_by-sorted [] = refl
    filter_by-sorted (k ∷ ks) =
        filter_by-insert_sorted k (sorted ks) (sorted-IsSorted ks)
        ∙ ground (arith, filter_by-sorted ks)

  valid_nodes-filter_by :
      (end_ns : ℤ) (ks : List (Keyed F))
      → (valid_nodes end_ns (nodes_of ks)).0 ≡ nodes_of (filter_by (λ k. is_valid end_ns k.node) ks)
  unfolding valid_nodes
  valid_nodes-filter_by end_ns [] = refl
  valid_nodes-filter_by end_ns (k ∷ ks) = ground (arith, valid_nodes-filter_by end_ns ks)

  end_all-reverse : (os : List (Opened F)) → end_all [] os ≡ reverse os
  unfolding end_all
  end_all-reverse [] = refl
  end_all-reverse (o ∷ os) = ap (λ xs. xs ++ o ∷ []) (end_all-reverse os) ∙ sym (reverse-cons o os)

  -- What the sink hands to the exporter: the root and the valid nodes, in the reverse of their order.
  abbrev pub batch_of : ℤ → Span F → List (Keyed F) → List (Opened F)
  batch_of end_ns root ks = reverse (
      map (opened end_ns)
        (span root ∷ nodes_of (sorted (filter_by (λ k. is_valid end_ns k.node) ks))))

  valid_nodes-sorted :
      (end_ns : ℤ) (root : Span F) (ks : List (Keyed F))
      → is_valid end_ns (span root) ≡ true
      → (valid_nodes end_ns (span root ∷ nodes_of (sorted ks))).0
        ≡ span root ∷ nodes_of (sorted (filter_by (λ k. is_valid end_ns k.node) ks))
  unfolding valid_nodes
  valid_nodes-sorted end_ns root ks valid = rw valid (
      ap (λ ns. span root ∷ ns)
        (valid_nodes-filter_by end_ns (sorted ks)
          ∙ ap nodes_of (filter_by-sorted (λ k. is_valid end_ns k.node) ks)))

  -- If the root is valid, and each of the other valid nodes names as its parent the root, a valid node that stands
  -- before it in the list and is not after it in the order, or one that stands behind it and is
  -- before it in the order, then no context is missing: the root and all valid nodes, and no others, are started,
  -- each in the context of its parent, ended in the reverse order, and handed to the exporter
  -- as one batch, whose refusal is the only error.
  pub export_nodes_complete :
      (exports : List (Opened F) → Bool) (end_ns : ℤ) (root : Span F) (ks : List (Keyed F))
      → root.parent_id ≡ none
      → is_valid end_ns (span root) ≡ true
      → AreNested (root.id ∷ []) (filter_by (λ k. is_valid end_ns k.node) ks)
      → export_nodes exports end_ns (span root ∷ nodes_of (sorted ks)) ≡ (
          if exports (batch_of end_ns root ks)
          then ret (batch_of end_ns root ks)
          else raise export_failed)
  unfolding export_nodes at_opened
  export_nodes_complete exports end_ns root ks top valid nested =
      ap (at_opened exports) (
        ap (open_all end_ns []) (valid_nodes-sorted end_ns root ks valid)
        ∙ open_all-Opens end_ns []
            (span root ∷ nodes_of (sorted (filter_by (λ k. is_valid end_ns k.node) ks)))
            (rw top refl, sorted-Opens (root.id ∷ []) _ nested))
      ∙ rw
          (end_all-reverse (
            map (opened end_ns)
              (span root ∷ nodes_of (sorted (filter_by (λ k. is_valid end_ns k.node) ks)))))
          refl
