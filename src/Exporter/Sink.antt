-- ===== src/Exporter/Sink.antt =====
-- `LangfuseSink.__call__` of src/vllm_observer/exporter.py: what becomes of the event of one request.
-- A span of the tracer is described by what it is started with; the exporter is a parameter, and so
-- is Python's `int` on a value that was read from the metadata.
pub mod Attributes
pub mod Opens
pub mod Opening
pub mod Ties
mod Tests
use vllm_observer.Base.{
  ℕ, suc, ◌+◌, String, Bool, true, false, not, ◌&&◌, ◌||◌, Option, none, some, List, [], ◌∷◌, ◌++◌,
  foldl, if◌then◌else◌, str_eq,
}
use mathlib.Core.Option
use vllm_observer.Base.Int.{ℤ, pos, ◌+ℤ◌, ltb_ℤ, max_ℤ}
use vllm_observer.Base.Float.{Float}
use vllm_observer.Base.Json.{Json}
use vllm_observer.Base.Dict.{Dict, lookup}
use vllm_observer.Base.Outcome.{Outcome, ret, raise}
use vllm_observer.Core.Trace.{
  Span, Generation, Observation, span, generation, Event, Status, ok, Exported,
}
use vllm_observer.Exporter.Timeline.{end_or}
use vllm_observer.Exporter.Nodes.{timeline_nodes}

pub data SinkError : Type 0 where
  key_error type_error value_error export_failed : SinkError

module _ {F : Type 0} where
  abbrev pub id_of : Observation F → String
  id_of (span s) = s.id
  id_of (generation g) = g.id

  abbrev pub parent_of : Observation F → Option String
  parent_of (span s) = s.parent_id
  parent_of (generation g) = g.parent_id

  abbrev pub start_of : Observation F → ℤ
  start_of (span s) = s.start_ns
  start_of (generation g) = g.start_ns

  -- `node.get("end_ns") or end`
  unfoldable pub end_of : ℤ → Observation F → ℤ
  unfolding end_or
  end_of end_ns (span s) = end_or (some s.end_ns) end_ns
  end_of end_ns (generation g) = end_or g.end_ns end_ns

  abbrev pub metadata_of : Observation F → Dict (Json F)
  metadata_of (span s) = s.metadata
  metadata_of (generation g) = g.metadata

  abbrev pub is_valid : ℤ → Observation F → Bool
  is_valid end_ns node = ltb_ℤ (start_of node) (end_of end_ns node)

  -- The loop that fills `valid_nodes`, and counts the others.
  unfoldable pub valid_nodes : ℤ → List (Observation F) → List (Observation F) × ℕ
  unfolding end_of
  valid_nodes end_ns [] = ([], 0)
  valid_nodes end_ns (node ∷ nodes) =
      let (valid, invalid) = valid_nodes end_ns nodes in
      if is_valid end_ns node then (node ∷ valid, invalid) else (valid, suc invalid)

  -- The first generation among the observations.
  unfoldable pub first_generation : List (Observation F) → Option (Generation F)
  first_generation [] = none
  first_generation (span s ∷ observations) = first_generation observations
  first_generation (generation g ∷ observations) = some g

-- A span that was started: its node, the end that it is to get, and the identifier of the span whose
-- context it was started in, none for the context of the request's caller.
pub record Opened (F : Type 0) : Type 0 where
  pub node : Observation F
  pub end_ns : ℤ
  pub parent : Option String

abbrev pub is_known : Option String → List String → Bool
is_known none contexts = true
is_known (some id) [] = false
is_known (some id) (known ∷ contexts) = str_eq known id || is_known (some id) contexts

module _ {F : Type 0} where
  -- The loop over the nodes: `contexts` are the keys of the dict beside None. `contexts[...]` raises
  -- `KeyError` for a parent that no span was started for.
  unfoldable pub open_all :
      ℤ → List String → List (Observation F) → Outcome SinkError (List (Opened F))
  unfolding end_of
  open_all end_ns contexts [] = ret []
  open_all end_ns contexts (node ∷ nodes) =
      let rest = open_all end_ns (id_of node ∷ contexts) nodes in
      if is_known (parent_of node) contexts
      then elim rest [
        | raise e ↦ raise e
        | ret opened ↦
            ret (
              record { node = node; end_ns = end_of end_ns node; parent = parent_of node } ∷ opened)
      ]
      else raise key_error

  -- `for span, node_end in reversed(opened): span.end(...)`: each span is appended to `completed`
  -- when it ends.
  unfoldable pub end_all : List (Opened F) → List (Opened F) → List (Opened F)
  end_all completed [] = completed
  end_all completed (o ∷ opened) = end_all completed opened ++ o ∷ []

  -- What follows the loop: the spans end, and are exported.
  unfoldable pub at_opened :
      (List (Opened F) → Bool)
      → Outcome SinkError (List (Opened F))
      → Outcome SinkError (List (Opened F))
  unfolding end_all
  at_opened exports (raise e) = raise e
  at_opened exports (ret opened) =
      if exports (end_all [] opened) then ret (end_all [] opened) else raise export_failed

  unfoldable pub export_nodes :
      (List (Opened F) → Bool) → ℤ → List (Observation F) → Outcome SinkError (List (Opened F))
  unfolding open_all at_opened valid_nodes
  export_nodes exports end_ns nodes =
      at_opened exports (open_all end_ns [] (valid_nodes end_ns nodes).0)

abbrev pub is_ok : Status → Bool
is_ok ok = true
is_ok _ = false

-- `max(values, default=0)`
abbrev pub largest : List ℤ → ℤ
largest [] = pos 0
largest (n ∷ ns) = foldl max_ℤ n ns

module _ {F : Type 0} where
  abbrev pub add_value : (Json F → Option ℤ) → Option (Json F) → List ℤ → Option (List ℤ)
  add_value int_of none ns = some ns
  add_value int_of (some Json.null) ns = some ns
  add_value int_of (some value) ns = Option.map (λ n. n ∷ ns) (int_of value)

  -- The calibration errors of the observations; `int_of` is none where `int` raises.
  unfoldable pub calibration_errors : (Json F → Option ℤ) → List (Observation F) → Option (List ℤ)
  calibration_errors int_of [] = some []
  calibration_errors int_of (node ∷ nodes) = elim (calibration_errors int_of nodes) [
    | none ↦ none
    | some ns ↦ add_value int_of (lookup "calibration_error_ns" (metadata_of node)) ns
  ]

  unfoldable pub clock_residual : (Json F → Option ℤ) → List (Observation F) → Option ℤ
  unfolding calibration_errors
  clock_residual int_of observations = Option.map largest (calibration_errors int_of observations)

module _ {F : Type 0} ⦃f : Float F⦄ where
  -- The sampling decision, at the number that `random.random` gives.
  unfoldable pub is_sampled : Status → F → F → Bool
  is_sampled status rate random = not (is_ok status && f.le rate random)

  abbrev pub root_of : Event F → ℤ → Span F
  root_of event end_ns = record {
    id = event.root_span_id;
    parent_id = none;
    name = "serve-model-request";
    start_ns = event.started_ns;
    end_ns = end_ns;
    metadata = ("route", Json.str event.route) ∷ [];
  }

  abbrev pub at_timeline :
      (List (Opened F) → Bool)
      → ℤ
      → Option ℤ
      → Option (List (Observation F))
      → Outcome SinkError (List (Opened F))
  at_timeline exports end_ns residual none = raise type_error
  at_timeline exports end_ns none (some nodes) = raise value_error
  at_timeline exports end_ns (some residual) (some nodes) = export_nodes exports end_ns nodes

  -- A call of the sink: none is an event that is not sampled.
  unfoldable pub deliver :
      (String → String)
      → (Json F → Option ℤ)
      → (List (Opened F) → Bool)
      → F
      → F
      → Event F
      → Option (Outcome SinkError (List (Opened F)))
  unfolding is_sampled export_nodes clock_residual timeline_nodes first_generation
  deliver fresh int_of exports rate random event =
      if is_sampled event.status rate random
      then some (elim (lookup "http_total" event.stages) [
        | none ↦ raise key_error
        | some total ↦
            let end_ns = event.started_ns +ℤ f.to_ns total.total_seconds in
            at_timeline exports end_ns (clock_residual int_of event.observations) (
              timeline_nodes fresh event.observations event.api_intervals (root_of event end_ns)
                (first_generation event.observations))
      ])
      else none
