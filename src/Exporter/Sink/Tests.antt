-- ===== src/Exporter/Sink/Tests.antt =====
-- A request from 100 to 200 whose generation lasts from 110 to 190. The engine's queue has it from 130
-- to 170; the submission to the engine, from 120 to 180, covers that time.
use vllm_observer.Base.{
  ◌≡◌, refl, String, true, false, Option, none, some, List, [], ◌∷◌, map, if◌then◌else◌, inl,
}
use vllm_observer.Base.Int.{ℤ, pos, ◌+ℤ◌, ◌-ℤ◌, half_ℤ}
use vllm_observer.Base.Float.{nanoseconds}
use vllm_observer.Base.Dict.{lookup}
use vllm_observer.Exporter.Settings.{
  Decimals, milliseconds_metadata, to_milliseconds, before_suffix,
}
use vllm_observer.Exporter.Sink.Attributes.{Labels, text, texts, common_attributes, status_of}
use vllm_observer.Exporter.Sink.Attributes.Root.{attributes, root_attributes}
use vllm_observer.Exporter.Sink.Attributes.Keys.{lookup-attributes}
use vllm_observer.Base.Json.{Json}
use vllm_observer.Base.Outcome.{Outcome, ret, raise}
use vllm_observer.Core.Trace.{Span, Generation, Observation, span, generation, Event, ok, error}
use vllm_observer.Exporter.Details.{details_of}
use vllm_observer.Exporter.Nodes.{
  Keyed, sorted, keyed_all, unsorted_nodes, transfer_segment, api_segment,
}
use vllm_observer.Exporter.Timeline.{generation_segments, engine_of}
use vllm_observer.Exporter.Sink.Opening.{batch_of, export_nodes_complete}
use vllm_observer.Exporter.Sink.Ties.{adding, submitting, key, covering_pair_lost}
use vllm_observer.Exporter.Sink.{
  Opened, export_nodes, export_failed, end_of, SinkError, key_error, deliver, id_of,
}

abbrev fresh : String → String
fresh name = name

abbrev int_of : Json ℤ → Option ℤ
int_of (Json.int n) = some n
int_of _ = none

abbrev observed_span : String → String → ℤ → ℤ → Span ℤ
observed_span id name start_ns end_ns = record {
  id = id;
  parent_id = some "root";
  name = name;
  start_ns = start_ns;
  end_ns = end_ns;
  metadata = [];
}

abbrev gen : Generation ℤ
gen = record {
  id = "gen";
  parent_id = some "root";
  start_ns = pos 110;
  end_ns = some (pos 190);
  metadata = [];
  usage = [];
  completion_start_ns = none;
}

abbrev event : List (Span ℤ) → Event ℤ
event api_intervals = record {
  trace_id = "trace";
  parent_span_id = none;
  started_ns = pos 100;
  status = error;
  engine_requests = 1;
  root_span_id = "root";
  route = "/v1/completions";
  observations =
      generation gen
      ∷ span (observed_span "q" "queue" (pos 130) (pos 170))
      ∷ span (observed_span "p" "prefill" (pos 170) (pos 180))
      ∷ [];
  stages =
      ("http_total", record { count = 1; total_seconds = pos 100; mean_seconds = pos 100 }) ∷ [];
  request_payload = none;
  response_text = none;
  first_body_ns = none;
  api_intervals = api_intervals;
  user_id = none;
  session_id = none;
}

abbrev ids : Option (Outcome SinkError (List (Opened ℤ))) → Option (List String)
ids none = none
ids (some (raise e)) = none
ids (some (ret opened)) = some (map (λ o. id_of o.node) opened)

-- The spans end in the reverse of the order in which they were started.
exported :
    ids (deliver fresh int_of (λ _. true) (pos 0) (pos 0) (event []))
    ≡ some (
        "response_transfer" ∷ "engine-core.engine_finalize" ∷ "engine-core.decode"
        ∷ "engine-core.waiting_to_first_schedule" ∷ "engine-core.engine_handoff" ∷ "gen"
        ∷ "api_prepare" ∷ "root" ∷ [])
unfolding deliver keyed_all unsorted_nodes transfer_segment api_segment generation_segments
    engine_of details_of sorted half_ℤ ◌+ℤ◌ ◌-ℤ◌
exported = refl

abbrev adds : Span ℤ
adds = observed_span "in" "output_processor_add" (pos 121) (pos 178)

abbrev submits : Span ℤ
submits = observed_span "sub" "submit_engine" (pos 120) (pos 180)

-- The same request with both intervals of the submission: nothing of it is exported.
lost :
    deliver fresh int_of (λ _. true) (pos 0) (pos 0) (event (adds ∷ submits ∷ []))
    ≡ some (raise key_error)
unfolding deliver keyed_all unsorted_nodes transfer_segment api_segment generation_segments
    engine_of details_of sorted half_ℤ ◌+ℤ◌ ◌-ℤ◌
lost = refl

not_sampled :
    deliver fresh int_of (λ _. true) (pos 1) (pos 1) (record (event []) { status = ok }) ≡ none
unfolding deliver
not_sampled = refl

abbrev root : Span ℤ
root = record (observed_span "root" "serve-model-request" (pos 100) (pos 200)) { parent_id = none }

abbrev waits : Span ℤ
waits = observed_span "wait" "waiting_to_first_schedule" (pos 130) (pos 170)

covering_pair_lost_example :
    export_nodes
      (λ _. true)
      (pos 200)
      (span root
        ∷ map
            (λ k. k.node)
            (sorted (
              key waits
              ∷ map
                  (λ d. key d.node)
                  (details_of (waits ∷ []) (adding adds ∷ submitting submits ∷ [])))))
    ≡ raise key_error
unfolding half_ℤ ◌+ℤ◌ end_of
covering_pair_lost_example =
    covering_pair_lost (λ _. true) (pos 200) root waits adds submits refl refl refl refl refl refl
      refl refl

-- A container, and in it an interval that starts with it.
abbrev nested_keys : List (Keyed ℤ)
nested_keys =
    key waits
    ∷ key (record (observed_span "sub" "submit_engine" (pos 130) (pos 150)) {
      parent_id = some "wait";
    })
    ∷ []

export_nodes_complete_example :
    let batch = batch_of (pos 200) root nested_keys in
    export_nodes (λ _. true) (pos 200) (span root ∷ map (λ k. k.node) (sorted nested_keys))
    ≡ (if true then ret batch else raise export_failed)
unfolding end_of ◌-ℤ◌
export_nodes_complete_example =
    export_nodes_complete (λ _. true) (pos 200) root nested_keys refl refl
      (inl refl, (refl, tt), (inl refl, tt, tt))

abbrev decimals : Decimals ℤ
decimals = record {
  hundredth = pos 1;
  tenth = pos 10;
  one = pos 100;
  to_float = λ s. none;
  of_int = λ n. n;
  thousandth_of = λ x. x;
  thousandfold = λ x. x;
  millionth_of = λ x. x;
}

abbrev labels : Labels
labels = record { service = some "vllm"; model = none; instance_id = some "i" }

-- A node whose own metadata names another trace.
abbrev misleading : Observation ℤ
misleading = generation (record gen { metadata = ("traceId", Json.str "other") ∷ [] })

lookup-attributes_example :
    lookup "langfuse.observation.metadata.traceId"
      (attributes decimals "error" (pos 10) (pos 0) "production" labels (event []) false misleading)
    ≡ some (text "trace")
lookup-attributes_example =
    lookup-attributes decimals "error" (pos 10) (pos 0) "production" labels (event []) false
      misleading

tagged :
    lookup "langfuse.trace.tags"
      (attributes decimals "error" (pos 10) (pos 0) "production" labels (event []) true (span root))
    ≡ some (texts ("vllm" ∷ "i" ∷ "sampled=error" ∷ []))
unfolding attributes common_attributes root_attributes milliseconds_metadata to_milliseconds
    before_suffix status_of
tagged = refl
