-- ===== src/Exporter/Nodes/Keys.antt =====
-- Which nodes of a timeline in src/vllm_observer/exporter.py have a key to sort by.
use vllm_observer.Base.{
  ◌≡◌, refl, sym, ap, ◌∙◌, subst, Bool, true, false, none, some, List, [], ◌∷◌, ◌++◌, map, arith,
  if◌then◌else◌, inl, inr, All, All-append, ◌⊎◌, Option-cases,
}
use vllm_observer.Core.Trace.{Span, Observation, span, generation}
use vllm_observer.Exporter.Nodes.{Keyed, keyed, keyed_all, spans}

module _ {F : Type 0} where
  keyed_lem : (o : Observation F) (k : Keyed F) → keyed o ≡ some k → (k.node ≡ o)
  unfolding keyed
  keyed_lem (span s) k e = ground arith
  keyed_lem (generation g) k e = elim (Option-cases g.end_ns) [
    | inl open_end ↦ ground arith
    | inr (end_ns, closed) ↦ ground arith
  ]

  keyed_all-cons :
      (o : Observation F) (os : List (Observation F)) (ks : List (Keyed F))
      → keyed_all (o ∷ os) ≡ some ks
      → (k : Keyed F) × (ks' : List (Keyed F)) × (keyed o ≡ some k)
        × (keyed_all os ≡ some ks')
        × (ks ≡ k ∷ ks')
  unfolding keyed_all
  keyed_all-cons o os ks e = elim (Option-cases (keyed o)) [
    | inl no_key ↦ absurd (ground arith)
    | inr (k, key) ↦ elim (Option-cases (keyed_all os)) [
      | inl no_keys ↦ absurd (ground arith)
      | inr (ks', keys) ↦ (k, ks', key, keys, ground arith)
    ]
  ]

  pub keyed_all_lem :
      (os : List (Observation F)) (ks : List (Keyed F))
      → keyed_all os ≡ some ks
      → (map (λ k. k.node) ks ≡ os) × All (λ k. keyed k.node ≡ some k) ks
  unfolding keyed_all
  keyed_all_lem [] [] e = (refl, tt)
  keyed_all_lem [] (k ∷ ks) e = absurd (ground arith)
  keyed_all_lem (o ∷ os) ks e =
      let (k, ks', key, keys, shape) = keyed_all-cons o os ks e in
      let (nodes, all) = keyed_all_lem os ks' keys in
      let same : k.node ≡ o = keyed_lem o k key in
      subst (λ xs. (map (λ j. j.node) xs ≡ o ∷ os) × All (λ j. keyed j.node ≡ some j) xs)
        (sym shape) (cc (same, nodes), (ap keyed same ∙ key, all))

  unfoldable pub HasKey : Observation F → Type 0
  HasKey o = (k : Keyed F) × (keyed o ≡ some k)

  pub keyed_all-some :
      (os : List (Observation F)) → All HasKey os → (ks : List (Keyed F)) × (keyed_all os ≡ some ks)
  unfolding keyed_all HasKey
  keyed_all-some [] h = ([], refl)
  keyed_all-some (o ∷ os) h =
      let (ks, e) = keyed_all-some os h.1 in (h.0.0 ∷ ks, ground (arith, h.0.1))

  spans-HasKey : (ss : List (Span F)) → All HasKey (spans ss)
  unfolding keyed HasKey
  spans-HasKey [] = tt
  spans-HasKey (s ∷ ss) = ((_, refl), spans-HasKey ss)

  keyed_all-append_none :
      (xs ys : List (Observation F))
      → (keyed_all xs ≡ none) ⊎ (keyed_all ys ≡ none)
      → keyed_all (xs ++ ys) ≡ none
  unfolding keyed_all
  keyed_all-append_none [] ys (inl h) = absurd (ground arith)
  keyed_all-append_none [] ys (inr h) = h
  keyed_all-append_none (x ∷ xs) ys (inr h) = ground (arith, keyed_all-append_none xs ys (inr h))
  keyed_all-append_none (x ∷ xs) ys (inl h) = elim (Option-cases (keyed x)) [
    | inl no_key ↦ ground arith
    | inr (k, key) ↦ elim (Option-cases (keyed_all xs)) [
      | inl no_keys ↦ ground (arith, keyed_all-append_none xs ys (inl no_keys))
      | inr (ks, keys) ↦ absurd (ground arith)
    ]
  ]

  pub nodes-HasKey :
      (api transfer : Span F) (b : Bool) (gs : List (Observation F)) (ss ds : List (Span F))
      → All HasKey gs
      → All HasKey
          (span api ∷ ((if b then span transfer ∷ [] else []) ++ (gs ++ (spans ss ++ spans ds))))
  unfolding keyed HasKey
  nodes-HasKey api transfer b gs ss ds h = (
    (_, refl),
    All-append HasKey (if b then span transfer ∷ [] else []) _ (transfer_key b) (
        All-append HasKey gs _ h
          (All-append HasKey (spans ss) _ (spans-HasKey ss) (spans-HasKey ds))),
  )
    where
      transfer_key : (c : Bool) → All HasKey (if c then span transfer ∷ [] else [])
      transfer_key true = ((_, refl), tt)
      transfer_key false = tt

  pub keyed_all-nodes_none :
      (api transfer : Span F) (b : Bool) (gs rest : List (Observation F))
      → keyed_all gs ≡ none
      → keyed_all (span api ∷ ((if b then span transfer ∷ [] else []) ++ (gs ++ rest))) ≡ none
  keyed_all-nodes_none api transfer b gs rest h =
      keyed_all-append_none (span api ∷ (if b then span transfer ∷ [] else [])) (gs ++ rest)
        (inr (keyed_all-append_none gs rest (inl h)))
