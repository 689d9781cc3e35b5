-- ===== src/Adapter/Tests.antt =====
-- An engine request that was queued at 20, scheduled at 30, and gave its tokens at 50 and 90, on a clock
-- that is 1,000 behind the wall clock.
use vllm_observer.Base.{arith, ◌≡◌, refl, String, false, none, some, [], ◌∷◌, length}
use vllm_observer.Base.{Option, true}
use vllm_observer.Base.Dict.{lookup}
use vllm_observer.Base.Int.{ℤ, pos, ◌+ℤ◌, ◌-ℤ◌}
use vllm_observer.Base.Float.{nanoseconds}
use vllm_observer.Base.Dict.{Dict}
use vllm_observer.Core.Trace.{RequestTrace, Generation, new, now_ns, interval, wall_at}
use vllm_observer.Adapter.{
  Numerals, Stat, Stats, record_timeline, float_at, int_at, are_measured, is_plausible, stamps_of,
  count_sequence, sequence_of, at_clock, at_calibration, at_stamps, record_plausible, record_stages,
  record_stage, count_usage, stamp,
}
use vllm_observer.Engine.Clock.{clock_mono, clock_unix, clock_error}
use vllm_observer.Core.Trace.{add, accumulate}
use vllm_observer.Core.Trace.Stages.{aggregate_of}
use vllm_observer.Engine.Registry.{Record}
use vllm_observer.Engine.Clock.{Calibration, calibration_headers, stamp_output}
use vllm_observer.Engine.Output.{Output, set_header}
use vllm_observer.Adapter.Piggyback.{observed_output, observed_output-stamp_output}
use vllm_observer.Adapter.Collect.{
  record_engine_stages, record_clock, record_calibrated, record_waiting, record_execution,
  record_within, copy_counters, add_totals, finite_pair, calibration,
}
use vllm_observer.Adapter.Collect.Bounds.{IsExtended, record_engine_stages-IsExtended}
use vllm_observer.Adapter.Collect.Totals.{lookup-record_engine_stages}
use vllm_observer.Adapter.Spans.{IsAddedAt, IsRecorded, record_timeline-IsRecorded}
use vllm_observer.Adapter.Spans.Measured.{IsCalibrated, wall_stamps, record_timeline-IsAdded}

-- The three texts of the calibration, read as the numbers they are given for.
abbrev numerals : Numerals ℤ
numerals = record {
  to_float = λ text. some (pos 10);
  to_int = λ text. some (pos 1010);
  seconds = λ ns. ns;
}

abbrev clock : Dict String
clock = (clock_mono, "10") ∷ (clock_unix, "1010") ∷ (clock_error, "1010") ∷ []

abbrev stat : Stat
stat = record { prompt_tokens = some 3; generation_tokens = some 5 }

abbrev raw : Stats ℤ
raw = record {
  clock = some clock;
  queued = pos 20;
  scheduled = pos 30;
  first_token = pos 50;
  last_token = pos 90;
}

abbrev trace : RequestTrace ℤ
trace = new "t" (pos 1000) (pos 5) "root"

abbrev gen : Generation ℤ
gen = record {
  id = "gen";
  parent_id = some "root";
  start_ns = pos 1015;
  end_ns = none;
  metadata = [];
  usage = [];
  completion_start_ns = none;
}

recorded :
    let r = record_timeline numerals (λ n. n) (pos 100) stat raw gen trace in
    (r.raised ≡ false)
    × (length r.trace.observations ≡ 3)
    × (r.generation.completion_start_ns ≡ some (pos 1050))
    × (r.generation.usage ≡ ("input", 3) ∷ ("output", 5) ∷ [])
unfolding record_timeline new now_ns wall_at interval count_sequence sequence_of count_usage
    at_clock at_calibration at_stamps record_plausible record_stages record_stage stamps_of stamp
    are_measured is_plausible float_at int_at ◌+ℤ◌ ◌-ℤ◌
recorded = (refl, refl, refl, refl)

clock-IsCalibrated : IsCalibrated numerals (λ n. n) clock (pos 10) (pos 1010) (pos 1010)
clock-IsCalibrated = record {
  mono_text = "10";
  unix_text = "1010";
  error_text = "1010";
  mono_at = refl;
  unix_at = refl;
  error_at = refl;
  mono_read = refl;
  unix_read = refl;
  error_read = refl;
}

record_timeline-IsAdded_example :
    IsAddedAt "gen"
      (pos 1015)
      (now_ns trace (pos 100))
      (wall_stamps numerals (λ n. n) (pos 10) (pos 1010) raw)
      trace
      (record_timeline numerals (λ n. n) (pos 100) stat raw gen trace)
unfolding new now_ns wall_at ◌+ℤ◌ ◌-ℤ◌
record_timeline-IsAdded_example =
    record_timeline-IsAdded numerals (λ n. n) (pos 100) (pos 10) (pos 1010) (pos 1010) 5 stat raw
      clock gen trace refl clock-IsCalibrated refl (refl, refl) (refl, refl) (refl, refl)
      (refl, refl) (omega arith) (omega arith) (omega arith) (omega arith) (omega arith)

record_timeline-IsRecorded_example :
    IsRecorded "gen"
      (pos 1015)
      (now_ns trace (pos 20))
      trace
      (record_timeline numerals (λ n. n) (pos 20) stat raw gen trace)
record_timeline-IsRecorded_example =
    record_timeline-IsRecorded numerals (λ n. n) (pos 20) stat raw gen trace

-- What the engine recorded of the same request: it waited from 20 to 30, and ran two steps.
abbrev engine_record : Record ℤ
engine_record = record {
  waiting_enter = some (pos 20);
  first_schedule = some (pos 30);
  schedule_steps = 2;
  prefill_chunks = 1;
  decode_steps = 1;
  schedule_seconds = pos 6;
  execute_seconds = pos 40;
  execute_steps = 2;
  contention_steps = 0;
  contention_seconds = pos 0;
  prefill_done = true;
  execute_intervals = (pos 31, pos 50) ∷ (pos 51, pos 72) ∷ [];
}

abbrev loads : String → Option (Record ℤ)
loads text = some engine_record

collected :
    let t =
      (record_engine_stages numerals
        (λ n. n)
        loads
        (pos 100)
        (pos 100)
        (some "{}")
        (some clock)
        gen
        trace).trace in
    (length t.observations ≡ 2)
    × (lookup "execute_model" t.stages ≡ some (record { count = 2; total_seconds = pos 40 }))
unfolding record_engine_stages record_clock record_calibrated record_waiting record_execution
    record_within interval new now_ns wall_at copy_counters add_totals add accumulate finite_pair
    calibration stamp float_at int_at ◌+ℤ◌ ◌-ℤ◌
collected = (refl, refl)

record_engine_stages-IsExtended_example :
    IsExtended gen trace
      (pos 100)
      (pos 100)
      2
      trace
      (record_engine_stages numerals
        (λ n. n)
        loads
        (pos 100)
        (pos 100)
        (some "{}")
        (some clock)
        gen
        trace).trace
record_engine_stages-IsExtended_example =
    record_engine_stages-IsExtended numerals (λ n. n) loads (pos 100) (pos 100) (some "{}")
      (some clock) gen trace

lookup-record_engine_stages_example :
    lookup "execute_model"
      (record_engine_stages numerals
        (λ n. n)
        loads
        (pos 100)
        (pos 100)
        (some "{}")
        (some clock)
        gen
        trace).trace.stages
    ≡ some (accumulate (pos 40) 2 (aggregate_of "execute_model" trace))
lookup-record_engine_stages_example =
    lookup-record_engine_stages numerals (λ n. n) (pos 100) (pos 100) loads "{}" "execute_model"
      (some clock) engine_record gen trace refl refl

abbrev calibrated : Calibration
calibrated = record { mono = "10"; unix = "1010"; error = "3" }

abbrev last_output : Output String
last_output = record {
  request_id = some "r";
  finished = true;
  trace_headers = some (("traceparent", "x") ∷ []);
}

observed_output-stamp_output_example :
    observed_output
      (stamp_output calibrated (set_header (some "{}") last_output))
      (record { clock = none; stages = none })
    ≡ record { clock = some (calibration_headers calibrated); stages = some "{}" }
observed_output-stamp_output_example =
    observed_output-stamp_output calibrated "{}" last_output
      (record { clock = none; stages = none }) refl
