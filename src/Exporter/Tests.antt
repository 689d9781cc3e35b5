-- ===== src/Exporter/Tests.antt =====
-- A request of 100 ns whose generation runs from 10 to 90, and an exporter with room for two events.
use vllm_observer.Base.{
  ℕ, ◌+◌, ◌≤◌, ◌≡◌, refl, String, true, false, none, some, List, [], ◌∷◌, ◌++◌, map, arith, All,
}
use mathlib.Core.List.{Perm}
use vllm_observer.Base.Int.{ℤ, pos, ◌+ℤ◌, ◌-ℤ◌, half_ℤ}
use vllm_observer.Base.{str_eq, if◌then◌else◌}
use vllm_observer.Base.Float.{nanoseconds}
use vllm_observer.Base.Json.{Json}
use vllm_observer.Exporter.Settings.{
  Environment, Decimals, slow_ms, slow_seconds, langfuse_base_url, rstrip_slash, to_milliseconds,
  milliseconds_metadata, before_suffix, tpot_threshold_seconds,
}
use vllm_observer.Exporter.Settings.Fallbacks.{tpot_threshold_seconds_blank}
use vllm_observer.Core.Trace.{Span, Generation, Observation, span, generation}
use vllm_observer.Exporter.Stage.{module_prefixed}
use vllm_observer.Exporter.Timeline.{engine_of, end_or, generation_segments}
use vllm_observer.Exporter.Timeline.Tiles.{Tiles, total_ns}
use vllm_observer.Exporter.Details.{assign_all, assigned, details_of}
use vllm_observer.Exporter.Details.Nesting.{IsNested, details_of-IsNested}
use vllm_observer.Exporter.Nodes.{
  keyed_all, sorted, api_segment, transfer_segment, segments_of, unsorted_nodes, timeline_nodes,
}
use vllm_observer.Exporter.Nodes.{generation_node, spans}
use vllm_observer.Base.Int.{ltb_ℤ}
use vllm_observer.Base.{if◌then◌else◌}
use vllm_observer.Exporter.Nodes.Order.{
  AreOrdered, timeline_nodes_order, timeline_nodes_total, is_defined,
}
use vllm_observer.Exporter.Nodes.Partition.{timeline_partition}
use vllm_observer.Exporter.Queue.{
  Exporter, testing, ended, sinking, close, new_exporter, work, put, stop,
}
use vllm_observer.Exporter.Queue.Interleaving.{
  Run, idle, in_hand, offers, puts, works, stops, Reach, starts, next, events_accounted,
  ended_handled, late_put_lost,
}
use vllm_observer.Exporter.Queue.Drain.{close_drains}

abbrev plain_span : String → String → ℕ → ℕ → Span ℤ
plain_span id name start_ns end_ns = record {
  id = id;
  parent_id = none;
  name = name;
  start_ns = pos start_ns;
  end_ns = pos end_ns;
  metadata = [];
}

abbrev root : Span ℤ
root = plain_span "root" "serve-model-request" 0 100

abbrev gen : Generation ℤ
gen = record {
  id = "gen";
  parent_id = none;
  start_ns = pos 10;
  end_ns = some (pos 90);
  metadata = [];
  usage = [];
  completion_start_ns = none;
}

-- The prefill is reported to begin before the generation, and the decode to end after it.
abbrev reported : List (Observation ℤ)
reported =
    span (plain_span "q" "queue" 12 20)
    ∷ span (plain_span "p" "prefill" 5 40)
    ∷ span (plain_span "d" "decode" 40 95)
    ∷ []

abbrev intervals : List (Span ℤ)
intervals = plain_span "i" "input_process" 11 13 ∷ plain_span "s" "submit_engine" 10 14 ∷ []

abbrev name_of : Observation ℤ → String
name_of (span s) = s.name
name_of (generation g) = "generate-response"

abbrev bounds : List (Span ℤ) → List (ℤ × ℤ)
bounds = map (λ s. (s.start_ns, s.end_ns))

cut_bounds :
    bounds (segments_of (λ n. n) reported (some gen) (pos 10) (pos 90))
    ≡ (pos 10, pos 12) ∷ (pos 12, pos 40) ∷ (pos 40, pos 90) ∷ []
unfolding generation_segments engine_of
cut_bounds = refl

abbrev nodes : List (Observation ℤ)
nodes = elim (timeline_nodes (λ n. n) reported intervals root (some gen)) [
  | none ↦ []
  | some ns ↦ ns
]

node_names :
    map name_of nodes
    ≡ "serve-model-request" ∷ "api-server.api_prepare" ∷ "generate-response"
      ∷ "engine-core.engine_handoff" ∷ "engine-core.prefill" ∷ "api-server.submit_engine"
      ∷ "api-server.input_process" ∷ "engine-core.decode" ∷ "api-server.response_transfer" ∷ []
unfolding timeline_nodes keyed_all sorted unsorted_nodes api_segment transfer_segment
    generation_segments engine_of details_of module_prefixed half_ℤ end_or ◌+ℤ◌ ◌-ℤ◌
node_names = refl

timeline_partition_example :
    let api = api_segment (λ n. n) root (pos 10) in
    let transfer = transfer_segment (λ n. n) root (pos 90) in
    let segments = segments_of (λ n. n) reported (some gen) (pos 10) (pos 90) in
    (api.start_ns ≡ pos 0)
    × (api.end_ns ≡ pos 10)
    × Tiles (pos 10) (pos 90) segments
    × (transfer.start_ns ≡ pos 90)
    × (transfer.end_ns ≡ pos 100)
    × (pos 0 +ℤ total_ns (api ∷ segments ++ transfer ∷ []) ≡ pos 100)
unfolding end_or
timeline_partition_example =
    timeline_partition (λ n. n) reported intervals root (some gen) (omega arith)

details_of-IsNested_example :
    let containers = plain_span "a" "api" 0 10 ∷ plain_span "t" "engine" 10 90 ∷ [] in
    All
      (IsNested containers (assigned "submit_engine" (assign_all containers intervals)))
      (details_of containers intervals)
details_of-IsNested_example =
    details_of-IsNested (plain_span "a" "api" 0 10 ∷ plain_span "t" "engine" 10 90 ∷ []) intervals

nodes_returned : timeline_nodes (λ n. n) reported intervals root (some gen) ≡ some nodes
unfolding timeline_nodes keyed_all sorted unsorted_nodes api_segment transfer_segment
    generation_segments engine_of details_of module_prefixed half_ℤ end_or ◌+ℤ◌ ◌-ℤ◌
nodes_returned = refl

timeline_nodes_order_example :
    let api = api_segment (λ n. n) root (pos 10) in
    let transfer = transfer_segment (λ n. n) root (pos 90) in
    let segments = segments_of (λ n. n) reported (some gen) (pos 10) (pos 90) in
    let details = details_of (api ∷ transfer ∷ segments) intervals in
    (rest : List (Observation ℤ)) × (nodes ≡ span root ∷ rest)
    × AreOrdered rest
    × Perm rest (
        span api
        ∷ ((if ltb_ℤ transfer.start_ns transfer.end_ns then span transfer ∷ [] else [])
            ++ (generation_node root (some gen)
                ++ (spans segments ++ spans (map (λ d. d.node) details)))))
unfolding end_or
timeline_nodes_order_example =
    timeline_nodes_order (λ n. n) reported intervals root (some gen) nodes nodes_returned

timeline_nodes_total_example :
    is_defined
      (timeline_nodes (λ n. n) reported intervals root (some (record gen { end_ns = none })))
    ≡ false
timeline_nodes_total_example =
    timeline_nodes_total (λ n. n) reported intervals root (some (record gen { end_ns = none }))

abbrev fresh_exporter : Exporter ℕ
fresh_exporter = record {
  capacity = 2;
  queue = [];
  dropped = 0;
  failed = 0;
  stopping = false;
  worker = testing;
}

-- The export thread has the event 7 in hand, and its sink is about to raise.
abbrev one_sinking : Run ℕ
one_sinking = record {
  exporter = record fresh_exporter { worker = sinking 7 };
  producer = idle;
  offered = 1;
  accepted = 7 ∷ [];
  handled = [];
  late = [];
}

one_sinking-Reach : Reach one_sinking
unfolding new_exporter work put stop
one_sinking-Reach =
    next
      (next (next (next (starts 2 fresh_exporter refl) (offers 7 _ refl)) (puts 7 _ refl))
        (works false _))
      (works false _)

events_accounted_example :
    let handled : List ℕ = [] in
    (0 ≤ 2) × (7 ∷ [] ≡ handled ++ (in_hand (sinking 7) ++ [])) × (1 ≡ 1 + 0 + 0) × (0 ≤ 0)
events_accounted_example = events_accounted one_sinking-Reach

abbrev ended_run : Run ℕ
ended_run = record {
  exporter = record fresh_exporter { stopping = true; failed = 1; worker = ended };
  producer = idle;
  offered = 1;
  accepted = 7 ∷ [];
  handled = 7 ∷ [];
  late = [];
}

ended_run-Reach : Reach ended_run
unfolding work stop
ended_run-Reach = next (next (next one_sinking-Reach (stops _)) (works true _)) (works false _)

ended_handled_example :
    let handled : List ℕ = 7 ∷ [] in (true ≡ true) × (7 ∷ [] ≡ handled ++ []) × (0 ≤ 1)
ended_handled_example = ended_handled ended_run-Reach refl

late_put_lost_example :
    (r : Run ℕ) × Reach r
    × (r.exporter.worker ≡ ended)
    × (r.accepted ≡ 7 ∷ [])
    × (r.handled ≡ [])
    × (r.exporter.dropped ≡ 0)
    × (r.exporter.failed ≡ 0)
late_put_lost_example = late_put_lost 2 7 (omega arith)

close_drains_example :
    let answers = true ∷ false ∷ true ∷ false ∷ false ∷ [] in
    let (y, done) = close answers (record fresh_exporter { queue = 7 ∷ [] }) in
    (done ≡ true) × (y.worker ≡ ended) × (y.queue ≡ [])
close_drains_example =
    close_drains (true ∷ false ∷ true ∷ false ∷ false ∷ [])
      (record fresh_exporter { queue = 7 ∷ [] }) (ground arith) (omega arith)

-- Texts are read as 7, and "bad" cannot be read.
abbrev decimals : Decimals ℤ
decimals = record {
  hundredth = pos 1;
  tenth = pos 10;
  one = pos 100;
  to_float = λ text. if str_eq text "bad" then none else some (pos 7);
  of_int = λ n. n;
  thousandth_of = λ x. pos 0;
  thousandfold = λ x. x;
  millionth_of = λ x. x;
}

abbrev environment : Environment
environment name =
    if str_eq name slow_ms then some "" else (if str_eq name slow_seconds then some "7" else none)

settings :
    (langfuse_base_url (λ name. some "http://langfuse//") ≡ some "http://langfuse")
    × (langfuse_base_url environment ≡ none)
    × (to_milliseconds decimals "queue_seconds" (Json.float (pos 3))
        ≡ ("queue_ms", Json.float (pos 3)))
    × (to_milliseconds decimals "steps" (Json.float (pos 3)) ≡ ("steps", Json.float (pos 3)))
    × (milliseconds_metadata decimals (("a_ns", Json.bool true) ∷ [])
        ≡ ("a_ns", Json.bool true) ∷ [])
unfolding langfuse_base_url rstrip_slash to_milliseconds milliseconds_metadata before_suffix
settings = (refl, refl, refl, refl, refl)

tpot_threshold_seconds_blank_example : tpot_threshold_seconds decimals environment ≡ pos 0
tpot_threshold_seconds_blank_example =
    tpot_threshold_seconds_blank decimals environment "7" (pos 7) refl refl refl refl
