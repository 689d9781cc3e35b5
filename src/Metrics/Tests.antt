-- ===== src/Metrics/Tests.antt =====
-- An event with six tokens decoded in 60 ns, and a threshold of 5 ns.
use vllm_observer.Base.{ℕ, ◌≡◌, refl, none, some, [], ◌∷◌}
use vllm_observer.Base.Int.{ℤ, pos, ◌+ℤ◌}
use vllm_observer.Base.Float.{nanoseconds}
use vllm_observer.Base.Dict.{get_or, lookup}
use vllm_observer.Base.Outcome.{ret}
use vllm_observer.Core.Trace.{Event, Exported, ok}
use vllm_observer.Metrics.{Metrics, process, observe_tpot, observe_stages, observe_stage}
use vllm_observer.Metrics.Counts.{process_counts}

abbrev exported : ℕ → ℕ → ℕ → Exported ℤ
exported count total mean = record {
  count = count;
  total_seconds = pos total;
  mean_seconds = pos mean;
}

abbrev event : Event ℤ
event = record {
  trace_id = "t";
  parent_span_id = none;
  started_ns = pos 0;
  status = ok;
  engine_requests = 1;
  root_span_id = "root";
  route = "/v1/completions";
  observations = [];
  stages =
      ("decode", exported 6 60 10)
      ∷ ("other", exported 1 1 1)
      ∷ ("http_total", exported 1 100 100)
      ∷ [];
  request_payload = none;
  response_text = none;
  first_body_ns = none;
  api_intervals = [];
  user_id = none;
  session_id = none;
}

abbrev metrics : Metrics ℤ
metrics = record {
  requests = ("error", 2) ∷ [];
  duration = [];
  tpot = [];
  slow_tpot = 0;
  stage_ms = [];
  stage_count = ("decode", 4) ∷ [];
  stage_duration = [];
}

slow_request :
    let m = (process (λ x. x) (pos 5) event metrics).1 in
    (m.slow_tpot ≡ 1) × (m.tpot ≡ pos 10 ∷ []) × (lookup "http_total" m.stage_ms ≡ some (pos 100))
unfolding process observe_tpot observe_stages observe_stage ◌+ℤ◌
slow_request = (refl, refl, refl)

process_counts_example :
    let (result, m') = process (λ x. x) (pos 5) event metrics in
    (result ≡ ret event)
    × (get_or "ok" 0 m'.requests ≡ 1)
    × (m'.duration ≡ pos 100 ∷ [])
    × (get_or "decode" 0 m'.stage_count ≡ 10)
process_counts_example =
    process_counts (λ x. x) (pos 5) event (exported 1 100 100) metrics "ok" "decode" refl
