-- ===== src/Adapter/Collect.antt =====
-- `record_engine_stages` of src/vllm_observer/stages.py: the record of a request that the EngineCore
-- process sent along, merged into its trace. `loads` is `json.loads` on a payload of `_attach_stages`,
-- which holds all fields of the record, so no default of `get` is used.
pub mod Bounds
pub mod Totals
use vllm_observer.Base.{
  ℕ, ◌+◌, max, String, Bool, true, false, ◌&&◌, Option, none, some, List, [], ◌∷◌, length,
  if◌then◌else◌, str_eq,
}
use vllm_observer.Base.Int.{ℤ, pos, leb_ℤ}
use vllm_observer.Base.Float.{Float}
use vllm_observer.Base.Json.{Json}
use vllm_observer.Base.Dict.{Dict, insert}
use vllm_observer.Base.Outcome.{Outcome, ret, raise}
use vllm_observer.Core.Trace.{RequestTrace, Generation, IntervalError, add, interval, now_ns}
use vllm_observer.Engine.Registry.{Record}
use vllm_observer.Adapter.{Numerals, stamp, float_at, int_at}
use vllm_observer.Engine.Clock.{clock_mono, clock_unix, clock_error}

-- What a call leaves of the generation and the trace.
pub record Collected (F : Type 0) : Type 0 where
  pub generation : Generation F
  pub trace : RequestTrace F

abbrev pub last_or : {A : Type 0} → A → List A → A
last_or a [] = a
last_or a (b ∷ bs) = last_or b bs

module _ {F : Type 0} where
  abbrev pub set_metadata : String → Json F → Generation F → Generation F
  set_metadata key value g = record g { metadata = insert key value g.metadata }

  abbrev pub waiting_unavailable : String → Generation F → Generation F
  waiting_unavailable reason g = set_metadata "waiting_unavailable" (Json.str reason) g

  -- The five counters that are copied to the generation.
  unfoldable pub copy_counters : Record F → Generation F → Generation F
  copy_counters r g = set_metadata "contention_seconds" (Json.float r.contention_seconds) (
      set_metadata "contention_steps" (Json.int (pos r.contention_steps)) (
        set_metadata "decode_steps" (Json.int (pos r.decode_steps)) (
          set_metadata "prefill_chunks" (Json.int (pos r.prefill_chunks))
            (set_metadata "schedule_steps" (Json.int (pos r.schedule_steps)) g))))

module _ {F : Type 0} ⦃f : Float F⦄ where
  -- The two stage totals.
  unfoldable pub add_totals : Record F → RequestTrace F → RequestTrace F
  unfolding add
  add_totals r t =
      add "execute_model" r.execute_seconds (max 1 r.execute_steps)
        (add "schedule_total" r.schedule_seconds (max 1 r.schedule_steps) t)

  -- The two instants where `_finite` accepts both.
  unfoldable pub finite_pair : Option F → Option F → Option (F × F)
  finite_pair (some a) (some b) = if f.finite a && f.finite b then some (a, b) else none
  finite_pair _ _ = none

  module _ (numerals : Numerals F) (fresh : String → String) where
    -- The three numbers of the calibration, none where one is missing or cannot be read.
    unfoldable pub calibration : Dict String → Option (F × ℤ × ℤ)
    unfolding float_at int_at
    calibration clock = elim (float_at numerals fresh clock_mono clock) [
      | none ↦ none
      | some mono ↦ elim (int_at numerals fresh clock_unix clock) [
        | none ↦ none
        | some wall ↦ elim (int_at numerals fresh clock_error clock) [
          | none ↦ none
          | some error_ns ↦ some (mono, wall, error_ns)
        ]
      ]
    ]

    unfoldable pub waiting_metadata : ℤ → Record F → Dict (Json F)
    waiting_metadata error_ns r =
        ("timing_source", Json.str "engine_monotonic_calibrated_to_wall")
        ∷ ("calibration_error_ns", Json.int error_ns)
        ∷ ("module", Json.str "vllm.v1.core.sched.scheduler")
        ∷ ("prefill_chunks", Json.int (pos r.prefill_chunks))
        ∷ ("schedule_steps", Json.int (pos r.schedule_steps))
        ∷ ("contention_steps", Json.int (pos r.contention_steps))
        ∷ ("contention_seconds", Json.float r.contention_seconds)
        ∷ []

    unfoldable pub execute_metadata : ℤ → Record F → Dict (Json F)
    execute_metadata error_ns r =
        ("timing_source", Json.str "engine_monotonic_calibrated_to_wall")
        ∷ ("calibration_error_ns", Json.int error_ns)
        ∷ ("module", Json.str "vllm.v1.executor.uniproc_executor")
        ∷ ("aggregate", Json.bool true)
        ∷ ("step_count", Json.int (pos r.execute_steps))
        ∷ ("captured_steps", Json.int (pos (length r.execute_intervals)))
        ∷ []

    -- `trace.interval`, whose `ValueError` the order of the instants rules out.
    abbrev pub keep : RequestTrace F → Outcome IntervalError (RequestTrace F) → RequestTrace F
    keep t (ret t') = t'
    keep t (raise x) = t

    -- A span of the name given, if it lies between the generation's start and `now`.
    unfoldable pub record_within :
        String → Dict (Json F) → ℤ → ℤ → ℤ → Generation F → RequestTrace F → RequestTrace F
    unfolding interval
    record_within name metadata now start_ns end_ns g t =
        if leb_ℤ g.start_ns start_ns && leb_ℤ start_ns end_ns && leb_ℤ end_ns now
        then keep t (interval (fresh name) g name start_ns end_ns metadata t)
        else t

    -- The span of the execution, from the first interval's start to the last one's end.
    unfoldable pub record_execution :
        F → ℤ → F → ℤ → Record F → List (F × F) → Generation F → RequestTrace F → RequestTrace F
    unfolding record_within execute_metadata stamp now_ns
    record_execution mono wall perf error_ns r [] g t = t
    record_execution mono wall perf error_ns r (first ∷ rest) g t =
        record_within "execute_model" (execute_metadata error_ns r) (now_ns t perf)
          (stamp mono wall first.0) (stamp mono wall (last_or first rest).1) g t

    -- What follows once the calibration is read.
    unfoldable pub record_waiting :
        F → F → F → ℤ → ℤ → F × F → Record F → Generation F → RequestTrace F → Collected F
    unfolding record_within record_execution waiting_metadata stamp now_ns
    record_waiting perf later mono wall error_ns (waiting, scheduled) r g t =
        let start_ns = stamp mono wall waiting in
        let end_ns = stamp mono wall scheduled in
        if leb_ℤ g.start_ns start_ns && leb_ℤ start_ns end_ns && leb_ℤ end_ns (now_ns t perf)
        then record {
          generation = g;
          trace = record_execution mono wall later error_ns r r.execute_intervals g (
              record_within "waiting_to_first_schedule" (waiting_metadata error_ns r)
                (now_ns t perf) start_ns end_ns g t);
        }
        else record { generation = waiting_unavailable "clock_skew_or_invalid_order" g; trace = t }

    unfoldable pub record_calibrated :
        F → F → Option (F × ℤ × ℤ) → F × F → Record F → Generation F → RequestTrace F → Collected F
    unfolding record_waiting
    record_calibrated perf later none instants r g t = record {
      generation = waiting_unavailable "invalid_calibration_clock" g;
      trace = t;
    }
    record_calibrated perf later (some (mono, wall, error_ns)) instants r g t =
        record_waiting perf later mono wall error_ns instants r g t

    unfoldable pub record_clock :
        F
        → F
        → Option (Dict String)
        → Option (F × F)
        → Record F
        → Generation F
        → RequestTrace F
        → Collected F
    unfolding record_calibrated calibration
    record_clock perf later (some (entry ∷ entries)) (some instants) r g t =
        record_calibrated perf later (calibration (entry ∷ entries)) instants r g t
    record_clock perf later _ _ r g t = record {
      generation = waiting_unavailable "missing_clock_or_timestamps" g;
      trace = t;
    }

    -- `record_engine_stages`: `payload` is `raw._observer_stages`, `clock` is `raw._observer_clock`.
    unfoldable pub record_engine_stages :
        (String → Option (Record F))
        → F
        → F
        → Option String
        → Option (Dict String)
        → Generation F
        → RequestTrace F
        → Collected F
    unfolding copy_counters add_totals record_clock finite_pair
    record_engine_stages loads perf later none clock g t = record { generation = g; trace = t }
    record_engine_stages loads perf later (some payload) clock g t =
        let unchanged : Collected F = record { generation = g; trace = t } in
        if str_eq payload "" then unchanged else elim (loads payload) [
          | none ↦ unchanged
          | some r ↦
              record_clock perf later clock (finite_pair r.waiting_enter r.first_schedule) r
                (copy_counters r g) (add_totals r t)
        ]
