-- ===== src/Metrics.antt =====
-- `MetricsFilter.process` of src/vllm_observer/metrics.py. The metrics of prometheus_client are kept as
-- what `inc` and `observe` add up: a sum for a counter, the list of the observations for a histogram.
-- The labels of a process are constant, so only the status and the stage are kept.
pub mod Counts
mod Tests
use vllm_observer.Base.{
  ℕ, ◌+◌, String, Bool, true, false, not, ◌&&◌, Option, none, some, List, [], ◌∷◌, ◌++◌, ◌==◌,
  if◌then◌else◌,
}
use vllm_observer.Base.Float.{Float}
use vllm_observer.Base.Dict.{Dict, lookup, get_or, insert}
use vllm_observer.Base.Outcome.{Outcome, ret, raise}
use vllm_observer.Core.Trace.{Event, Exported, Status, ok, cancelled, error}

pub record Metrics (F : Type 0) : Type 0 where
  pub requests : Dict ℕ
  pub duration : List F
  pub tpot : List F
  pub slow_tpot : ℕ
  pub stage_ms : Dict F
  pub stage_count : Dict ℕ
  pub stage_duration : Dict (List F)

-- `KeyError` of an event without "http_total"
pub data KeyError : Type 0 where
  missing_key : KeyError

abbrev pub status_text : Status → String
status_text ok = "ok"
status_text cancelled = "cancelled"
status_text error = "error"

abbrev pub reported_stages : List String
reported_stages =
    "queue" ∷ "prefill" ∷ "decode" ∷ "http_total" ∷ "http_first_body" ∷ "render_input"
    ∷ "input_process" ∷ "submit_engine" ∷ "schedule_total" ∷ "execute_model" ∷ []

abbrev pub increase : String → ℕ → Dict ℕ → Dict ℕ
increase key n counter = insert key (get_or key 0 counter + n) counter

-- `thousandfold` is the product with 1000.0, `threshold` is `tpot_threshold_seconds()`.
module _ {F : Type 0} ⦃f : Float F⦄ (thousandfold : F → F) (threshold : F) where
  -- The time per output token, if the event has one.
  unfoldable pub observe_tpot : Option (Exported F) → Metrics F → Metrics F
  observe_tpot none m = m
  observe_tpot (some decode) m =
      let tpot = f.mean decode.total_seconds decode.count in
      if decode.count == 0 then m else record m {
        tpot = m.tpot ++ thousandfold tpot ∷ [];
        slow_tpot = m.slow_tpot + (if f.lt threshold tpot then 1 else 0);
      }

  -- One stage of the loop, if the event has it.
  unfoldable pub observe_stage : String → Option (Exported F) → Metrics F → Metrics F
  observe_stage name none m = m
  observe_stage name (some value) m = record m {
    stage_ms =
        insert name (f.add (get_or name f.zero m.stage_ms) (thousandfold value.total_seconds))
          m.stage_ms;
    stage_count = increase name value.count m.stage_count;
    stage_duration =
        insert name (get_or name [] m.stage_duration ++ thousandfold value.mean_seconds ∷ [])
          m.stage_duration;
  }

  unfoldable pub observe_stages : List String → Dict (Exported F) → Metrics F → Metrics F
  unfolding observe_stage
  observe_stages [] stages m = m
  observe_stages (name ∷ names) stages m =
      observe_stages names stages (observe_stage name (lookup name stages) m)

  abbrev after_total :
      Event F → Option (Exported F) → Metrics F → Outcome KeyError (Event F) × Metrics F
  after_total event none m = (raise missing_key, m)
  after_total event (some total) m = (
    ret event,
    observe_stages reported_stages event.stages (
        observe_tpot (lookup "decode" event.stages)
          (record m { duration = m.duration ++ thousandfold total.total_seconds ∷ [] })),
  )

  -- `process`: the request is counted first, and an event without a total raises.
  unfoldable pub process : Event F → Metrics F → Outcome KeyError (Event F) × Metrics F
  unfolding observe_tpot observe_stages
  process event m =
      after_total event (lookup "http_total" event.stages)
        (record m { requests = increase (status_text event.status) 1 m.requests })
