-- ===== src/Exporter/Nodes/Order.antt =====
-- The nodes of a timeline: which there are, and in which order.
use vllm_observer.Base.{
  ◌≡◌, subst, String, Bool, true, false, Option, none, some, List, [], ◌∷◌, ◌++◌, map, arith,
  if◌then◌else◌, inl, inr, All, ◌⊎◌, Option-cases, Bool-cases,
}
use mathlib.Core.List.{Perm}
use mathlib.Core.List.Perm
use vllm_observer.Base.Int.{ℤ, ◌-ℤ◌, ◌<ℤ◌, ◌≤ℤ◌, ltb_ℤ, eq_of_parts, -ℤ_parts}
use vllm_observer.Exporter.Details.{details_of}
use vllm_observer.Core.Trace.{Span, Generation, Observation, span, generation}
use vllm_observer.Exporter.Nodes.{
  Keyed, keyed, keyed_all, sorted, spans, generation_node, unsorted_nodes, timeline_nodes, key_le,
  generation_start, generation_end, api_segment, transfer_segment, segments_of,
}
use vllm_observer.Exporter.Nodes.Sort.{IsSorted, sorted-IsSorted, All-sorted, sorted-perm}
use vllm_observer.Exporter.Nodes.Keys.{
  keyed_all_lem, HasKey, keyed_all-some, nodes-HasKey, keyed_all-nodes_none,
}

abbrev pub is_defined : {A : Type 0} → Option A → Bool
is_defined none = false
is_defined (some _) = true

-- There is no generation, or it has an end.
abbrev pub has_end : {F : Type 0} → Option (Generation F) → Bool
has_end none = true
has_end (some g) = is_defined g.end_ns

module _ {F : Type 0} where
  abbrev pub begins_at : Observation F → ℤ
  begins_at (span s) = s.start_ns
  begins_at (generation g) = g.start_ns

  -- A generation without an end would end where it begins; a timeline that is returned has none.
  abbrev pub ends_at : Observation F → ℤ
  ends_at (span s) = s.end_ns
  ends_at (generation g) = elim g.end_ns [ none ↦ g.start_ns | some end_ns ↦ end_ns ]

  -- The first begins before the second, or they begin together and the first ends no earlier.
  abbrev pub Precedes : Observation F → Observation F → Type 0
  Precedes a b =
      (begins_at a <ℤ begins_at b) ⊎ ((begins_at a ≡ begins_at b) × (ends_at b ≤ℤ ends_at a))

  -- Each node precedes every node behind it.
  abbrev pub AreOrdered : List (Observation F) → Type 0
  AreOrdered [] = Unit
  AreOrdered (o ∷ os) = All (Precedes o) os × AreOrdered os

  keyed_at :
      (o : Observation F) (j : Keyed F)
      → keyed o ≡ some j
      → (j.start_ns ≡ begins_at o) × (j.duration ≡ ends_at o -ℤ begins_at o)
  unfolding keyed
  keyed_at (span s) j e = (ground arith, ground arith)
  keyed_at (generation g) j e = elim (Option-cases g.end_ns) [
    | inl open_end ↦ absurd (ground arith)
    | inr (end_ns, closed) ↦ (ground arith, ground arith)
  ]

  -- Where two keys are in order, so are the nodes with the instants that the keys are made of.
  compare_keys :
      (k j : Keyed F) (a b a' b' : ℤ)
      → (k.start_ns ≡ a) × (k.duration ≡ b -ℤ a)
      → (j.start_ns ≡ a') × (j.duration ≡ b' -ℤ a')
      → key_le k j ≡ true
      → (a <ℤ a') ⊎ ((a ≡ a') × (b' ≤ℤ b))
  compare_keys k j a b a' b' h h' le = elim (Bool-cases (ltb_ℤ k.start_ns j.start_ns)) [
    | inl before ↦ inl (ground arith)
    | inr not_before ↦
        inr (eq_of_parts a a' (ground arith), ground (arith, -ℤ_parts b a, -ℤ_parts b' a'))
  ]

  key_le-Precedes :
      (k j : Keyed F)
      → keyed k.node ≡ some k
      → keyed j.node ≡ some j
      → key_le k j ≡ true
      → Precedes k.node j.node
  key_le-Precedes k j e e' h =
      compare_keys k j _ _ _ _ (keyed_at k.node k e) (keyed_at j.node j e') h

  all-Precedes :
      (k : Keyed F) (ks : List (Keyed F))
      → keyed k.node ≡ some k
      → All (λ j. keyed j.node ≡ some j) ks
      → All (λ j. key_le k j ≡ true) ks
      → All (Precedes k.node) (map (λ j. j.node) ks)
  all-Precedes k [] e all h = tt
  all-Precedes k (j ∷ ks) e all h = (key_le-Precedes k j e all.0 h.0, all-Precedes k ks e all.1 h.1)

  IsSorted-AreOrdered :
      (ks : List (Keyed F))
      → All (λ k. keyed k.node ≡ some k) ks
      → IsSorted ks
      → AreOrdered (map (λ k. k.node) ks)
  IsSorted-AreOrdered [] all h = tt
  IsSorted-AreOrdered (k ∷ ks) all h =
      (all-Precedes k ks all.0 all.1 h.0, IsSorted-AreOrdered ks all.1 h.1)

module _ {F : Type 0} (fresh : String → String) (observations : List (Observation F))
    (api_intervals : List (Span F)) (root : Span F) where
  -- When a timeline is returned, it is the root followed by the segment of the API, the segment
  -- of the transfer unless it is empty, the generation under the root, the segments of the
  -- generation and the details of the API intervals in all these segments, each once: of any two
  -- of them the one in front begins before the other, or begins with it and ends no earlier.
  pub timeline_nodes_order :
      (g : Option (Generation F)) (nodes : List (Observation F))
      → timeline_nodes fresh observations api_intervals root g ≡ some nodes
      → let gen_start = generation_start g root.end_ns in
        let gen_end = generation_end g root.end_ns in
        let api = api_segment fresh root gen_start in
        let transfer = transfer_segment fresh root gen_end in
        let segments = segments_of fresh observations g gen_start gen_end in
        let details = details_of (api ∷ transfer ∷ segments) api_intervals in
        (rest : List (Observation F)) × (nodes ≡ span root ∷ rest)
        × AreOrdered rest
        × Perm rest (
            span api
            ∷ ((if ltb_ℤ transfer.start_ns transfer.end_ns then span transfer ∷ [] else [])
                ++ (generation_node root g
                    ++ (spans segments ++ spans (map (λ d. d.node) details)))))
  unfolding timeline_nodes unsorted_nodes
  timeline_nodes_order g nodes e =
      elim (Option-cases (keyed_all (unsorted_nodes fresh observations api_intervals root g))) [
        | inl no_keys ↦ absurd (ground arith)
        | inr (ks, keys) ↦
            let (same, all) = keyed_all_lem _ ks keys in
            (
              map (λ k. k.node) (sorted ks),
              ground arith,
              IsSorted-AreOrdered (sorted ks) (All-sorted _ ks all) (sorted-IsSorted ks),
              subst (Perm (map (λ k. k.node) (sorted ks))) same
                  (Perm.map (λ (k : Keyed F). k.node) (sorted-perm ks)),
            )
      ]

  unsorted_nodes-HasKey :
      (g : Option (Generation F))
      → All HasKey (generation_node root g)
      → All HasKey (unsorted_nodes fresh observations api_intervals root g)
  unfolding unsorted_nodes
  unsorted_nodes-HasKey g h = nodes-HasKey _ _ _ (generation_node root g) _ _ h

  timeline_nodes_defined :
      (g : Option (Generation F))
      → All HasKey (generation_node root g)
      → (nodes : List (Observation F)) × (timeline_nodes fresh observations api_intervals root g
          ≡ some nodes)
  unfolding timeline_nodes
  timeline_nodes_defined g h =
      let (ks, keys) = keyed_all-some _ (unsorted_nodes-HasKey g h) in
      (span root ∷ map (λ k. k.node) (sorted ks), ground arith)

  generation_node-none :
      (g : Generation F) → g.end_ns ≡ none → keyed_all (generation_node root (some g)) ≡ none
  unfolding keyed_all keyed
  generation_node-none g h = ground arith

  unsorted_nodes-none :
      (g : Generation F)
      → g.end_ns ≡ none
      → keyed_all (unsorted_nodes fresh observations api_intervals root (some g)) ≡ none
  unfolding unsorted_nodes
  unsorted_nodes-none g h = keyed_all-nodes_none _ _ _ _ _ (generation_node-none g h)

  timeline_nodes_undefined :
      (g : Generation F)
      → g.end_ns ≡ none
      → timeline_nodes fresh observations api_intervals root (some g) ≡ none
  unfolding timeline_nodes
  timeline_nodes_undefined g h = ground (arith, unsorted_nodes-none g h)

  generation_node_key :
      (g : Generation F) (end_ns : ℤ)
      → g.end_ns ≡ some end_ns
      → HasKey (generation (record g { parent_id = some root.id }))
  unfolding keyed HasKey
  generation_node_key g end_ns h = (
    record {
      start_ns = g.start_ns;
      duration = end_ns -ℤ g.start_ns;
      node = generation (record g { parent_id = some root.id });
    },
    ground arith,
  )

  -- A timeline is returned exactly when there is no generation or the generation has an end;
  -- otherwise the sort raises `TypeError`.
  pub timeline_nodes_total :
      (g : Option (Generation F))
      → is_defined (timeline_nodes fresh observations api_intervals root g) ≡ has_end g
  timeline_nodes_total none = ground (arith, (timeline_nodes_defined none tt).1)
  timeline_nodes_total (some g) = elim (Option-cases g.end_ns) [
    | inl open_end ↦ ground (arith, timeline_nodes_undefined g open_end)
    | inr (end_ns, closed) ↦
        ground
          (arith, (timeline_nodes_defined (some g) (generation_node_key g end_ns closed, tt)).1)
  ]
