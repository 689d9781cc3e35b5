-- ===== src/Exporter/Details.antt =====
-- The API intervals in `_timeline_nodes` of src/vllm_observer/exporter.py, nested into the segments.
pub mod Nesting
use vllm_observer.Base.{
  ℕ, String, Bool, true, false, ◌&&◌, ◌||◌, Option, none, some, List, [], ◌∷◌, ◌++◌, map,
  find_first, foldl, if◌then◌else◌, str_eq,
}
use vllm_observer.Base.Int.{ℤ, ◌+ℤ◌, ◌-ℤ◌, half_ℤ, ltb_ℤ, leb_ℤ, max_ℤ, min_ℤ}
use vllm_observer.Base.Json.{Json}
use vllm_observer.Core.Trace.{Span, Generation, Observation, span, generation}
use vllm_observer.Exporter.Stage.{module_prefixed}
use vllm_observer.Exporter.Timeline.{Engine, engine_of, segment, end_or, generation_segments}

-- An API interval that was given a container: `assigned` files it under its name, `nodes` lists it
-- under its exported name. Both hold the same dict, so a new parent shows in both.
pub record Detail (F : Type 0) : Type 0 where
  pub stage : String
  pub node : Span F

abbrev pub nested_stage : String → Bool
nested_stage name = str_eq name "input_process" || str_eq name "output_processor_add"

module _ {F : Type 0} where
  abbrev pub contains_instant : ℤ → Span F → Bool
  contains_instant at s = leb_ℤ s.start_ns at && ltb_ℤ at s.end_ns

  -- One API interval, clipped to the container `c`; none where nothing of it is left.
  unfoldable pub clip : Span F → Span F → Option (Detail F)
  clip node c =
      let start_ns = max_ℤ node.start_ns c.start_ns in
      let end_ns = min_ℤ node.end_ns c.end_ns in
      if leb_ℤ end_ns start_ns
      then none
      else some (record {
        stage = node.name;
        node = record node {
          start_ns = start_ns;
          end_ns = end_ns;
          parent_id = some c.id;
          name = module_prefixed node.name;
        };
      })

  -- The first container that holds the midpoint of the interval takes it.
  unfoldable pub assign : List (Span F) → Span F → Option (Detail F)
  unfolding clip
  assign containers node =
      elim (find_first (contains_instant (half_ℤ (node.start_ns +ℤ node.end_ns))) containers) [
        | none ↦ none
        | some c ↦ clip node c
      ]

  unfoldable pub assign_all : List (Span F) → List (Span F) → List (Detail F)
  unfolding assign
  assign_all containers [] = []
  assign_all containers (node ∷ nodes) =
      let rest = assign_all containers nodes in
      elim (assign containers node) [ none ↦ rest | some d ↦ d ∷ rest ]

  -- `assigned.get(stage)`: the last detail of that name.
  unfoldable pub assigned : String → List (Detail F) → Option (Detail F)
  assigned stage [] = none
  assigned stage (d ∷ details) = elim (assigned stage details) [
    | none ↦ if str_eq d.stage stage then some d else none
    | some later ↦ some later
  ]

  abbrev pub set_parent : String → Detail F → Detail F
  set_parent id d = record d { node = record d.node { parent_id = some id } }

  -- A change of the dict that `assigned.get(stage)` returns.
  unfoldable pub reparent_last : String → String → List (Detail F) → List (Detail F)
  unfolding assigned
  reparent_last id stage [] = []
  reparent_last id stage (d ∷ details) =
      let rest = reparent_last id stage details in
      elim (assigned stage details) [
        | none ↦ (if str_eq d.stage stage then set_parent id d else d) ∷ rest
        | some later ↦ d ∷ rest
      ]

  abbrev pub encloses : Span F → Span F → Bool
  encloses outer inner = leb_ℤ outer.start_ns inner.start_ns && leb_ℤ inner.end_ns outer.end_ns

  -- One round of the loop that nests a stage into the submission that encloses it.
  unfoldable pub nest_stage : Option (Detail F) → List (Detail F) → String → List (Detail F)
  unfolding reparent_last
  nest_stage none details stage = details
  nest_stage (some submit) details stage = elim (assigned stage details) [
    | none ↦ details
    | some d ↦
        if encloses submit.node d.node then reparent_last submit.node.id stage details else details
  ]

  -- The loop over the API intervals, by their names.
  unfoldable pub nest_all : Option (Detail F) → List (Detail F) → List (Span F) → List (Detail F)
  unfolding nest_stage
  nest_all submit details [] = details
  nest_all submit details (node ∷ nodes) =
      nest_all submit
        (if nested_stage node.name then nest_stage submit details node.name else details) nodes

  unfoldable pub details_of : List (Span F) → List (Span F) → List (Detail F)
  unfolding assign_all nest_all assigned
  details_of containers api_intervals =
      let details = assign_all containers api_intervals in
      nest_all (assigned "submit_engine" details) details api_intervals
