-- ===== src/Exporter/Details/Nesting.antt =====
-- Every API interval of a timeline lies in the span that it is shown under.
use vllm_observer.Base.{
  ◌≡◌, refl, subst, String, Bool, true, false, Option, none, some, List, [], ◌∷◌, arith,
  if◌then◌else◌, Bool-cases, inl, inr, All, Option-cases, ◌⊎◌, find_first, str_eq,
}
use mathlib.Core.List.{Memᴰ}
use vllm_observer.Base.Int.{◌+ℤ◌, ◌≤ℤ◌, ◌<ℤ◌, half_ℤ}
use vllm_observer.Core.Trace.{Span}
use vllm_observer.Exporter.Details.{
  Detail, contains_instant, clip, assign, assign_all, assigned, set_parent, reparent_last, encloses,
  nest_stage, nested_stage, nest_all, details_of,
}

module _ {F : Type 0} where
  -- `d` lies in `s` and is shown under it.
  abbrev pub IsInside : Span F → Span F → Type 0
  IsInside s d = (s.start_ns ≤ℤ d.start_ns) × (d.end_ns ≤ℤ s.end_ns) × (d.parent_id ≡ some s.id)

  -- The detail is not empty, and lies in one of the containers, or in the submission.
  abbrev pub IsNested : List (Span F) → Option (Detail F) → Detail F → Type 0
  IsNested containers submit d =
      (d.node.start_ns <ℤ d.node.end_ns)
      × (((c : Span F) × Memᴰ c containers × IsInside c d.node)
          ⊎ ((s : Detail F) × (submit ≡ some s) × IsInside s.node d.node))

  find_first_lem :
      (p : Span F → Bool) (cs : List (Span F)) (c : Span F) → find_first p cs ≡ some c → Memᴰ c cs
  find_first_lem p [] c e = absurd (ground arith)
  find_first_lem p (x ∷ cs) c e = elim (Bool-cases (p x)) [
    | inl found ↦ Memᴰ.head (ground arith)
    | inr other ↦ Memᴰ.tail (find_first_lem p cs c (ground arith))
  ]

  clip_lem :
      (node c : Span F) (d : Detail F)
      → clip node c ≡ some d
      → (d.node.start_ns <ℤ d.node.end_ns) × IsInside c d.node
  unfolding clip
  clip_lem node c d e = ground arith

  assign_lem :
      (containers : List (Span F)) (submit : Option (Detail F)) (node : Span F) (d : Detail F)
      → assign containers node ≡ some d
      → IsNested containers submit d
  unfolding assign
  assign_lem containers submit node d e =
      elim (Option-cases
        (find_first (contains_instant (half_ℤ (node.start_ns +ℤ node.end_ns))) containers)) [
          | inl outside ↦ absurd (ground arith)
          | inr (c, found) ↦
              let (full, inside) = clip_lem node c d (ground arith) in
              (full, inl (c, find_first_lem _ containers c found, inside))
        ]

  assign_all_lem :
      (containers : List (Span F)) (submit : Option (Detail F)) (nodes : List (Span F))
      → All (IsNested containers submit) (assign_all containers nodes)
  unfolding assign_all
  assign_all_lem containers submit [] = tt
  assign_all_lem containers submit (node ∷ nodes) = elim (Option-cases (assign containers node)) [
    | inl outside ↦ rw (outside, assign_all) (assign_all_lem containers submit nodes)
    | inr (d, inside) ↦
        rw (inside, assign_all)
          (assign_lem containers submit node d inside, assign_all_lem containers submit nodes)
  ]

  All-reparent_last :
      (P : Detail F → Type 0) (id stage : String) (details : List (Detail F))
      → All P details
      → ((d : Detail F) → assigned stage details ≡ some d → P (set_parent id d))
      → All P (reparent_last id stage details)
  unfolding reparent_last assigned
  All-reparent_last P id stage [] h k = tt
  All-reparent_last P id stage (d ∷ details) h k = elim (Option-cases (assigned stage details)) [
    | inl last ↦
        rw (last, reparent_last)
          (
            head last (str_eq d.stage stage) refl,
            All-reparent_last P id stage details h.1 (λ d' e. absurd (ground arith)),
          )
    | inr (later, e) ↦
        rw (e, reparent_last)
          (h.0, All-reparent_last P id stage details h.1 (λ d' e'. k d' (ground arith)))
  ]
    where
      head :
          assigned stage details ≡ none
          → (b : Bool) → str_eq d.stage stage ≡ b
          → P (if b then set_parent id d else d)
      head last true e = k d (ground arith)
      head last false e = h.0

  assigned_lem :
      (P : Detail F → Type 0) (stage : String) (details : List (Detail F)) (d : Detail F)
      → All P details
      → assigned stage details ≡ some d
      → P d
  unfolding assigned
  assigned_lem P stage [] d h e = absurd (ground arith)
  assigned_lem P stage (x ∷ details) d h e = elim (Option-cases (assigned stage details)) [
    | inl last ↦ subst P {x = x} (ground arith) h.0
    | inr (later, e') ↦ assigned_lem P stage details d h.1 (ground arith)
  ]

  nest_stage_lem :
      (containers : List (Span F)) (submit : Option (Detail F)) (details : List (Detail F))
      (stage : String)
      → All (IsNested containers submit) details
      → All (IsNested containers submit) (nest_stage submit details stage)
  unfolding nest_stage
  nest_stage_lem containers none details stage h = h
  nest_stage_lem containers (some s) details stage h =
      elim (Option-cases (assigned stage details)) [
        | inl absent ↦ rw (absent, nest_stage) h
        | inr (d, found) ↦ elim (Bool-cases (encloses s.node d.node)) [
          | inl inside ↦
              rw (found, nest_stage)
                (rw inside (
                  All-reparent_last _ s.node.id stage details h (λ d' found'.
                    let same : d ≡ d' = ground arith in
                    (
                      subst (λ x. x.node.start_ns <ℤ x.node.end_ns) same
                          (assigned_lem _ stage details d h found).0,
                      inr (
                        s,
                        refl,
                        subst (λ x. IsInside s.node (set_parent s.node.id x).node) same
                            (ground arith),
                      ),
                    ))))
          | inr outside ↦ rw (found, nest_stage) (rw outside h)
        ]
      ]

  module _ (containers : List (Span F)) (submit : Option (Detail F)) where
    nest_all_lem :
        (details : List (Detail F)) (nodes : List (Span F))
        → All (IsNested containers submit) details
        → All (IsNested containers submit) (nest_all submit details nodes)
    unfolding nest_all
    nest_all_lem details [] h = h
    nest_all_lem details (node ∷ nodes) h = elim (Bool-cases (nested_stage node.name)) [
      | inl nested ↦
          rw (nested, nest_all)
            (nest_all_lem (nest_stage submit details node.name) nodes
              (nest_stage_lem containers submit details node.name h))
      | inr other ↦ rw (other, nest_all) (nest_all_lem details nodes h)
    ]

  -- Whatever instants the API intervals have, each one that is shown is not empty, and is shown under
  -- a container of the timeline that it lies in, or under the submission to the engine, which it lies
  -- in as well.
  pub details_of-IsNested :
      (containers api_intervals : List (Span F))
      → All
          (IsNested containers (assigned "submit_engine" (assign_all containers api_intervals)))
          (details_of containers api_intervals)
  unfolding details_of
  details_of-IsNested containers api_intervals =
      let details = assign_all containers api_intervals in
      let submit = assigned "submit_engine" details in
      nest_all_lem containers submit details api_intervals
        (assign_all_lem containers submit api_intervals)
