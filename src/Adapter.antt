-- ===== src/Adapter.antt =====
-- `record_timeline` of src/vllm_observer/adapter.py: the spans of one finished engine request, from
-- the engine's monotonic timestamps and the calibration of its clock.
pub mod Spans
pub mod Piggyback
pub mod Collect
pub mod Active
mod Tests
use vllm_observer.Base.{
  ℕ, zero, suc, ◌+◌, ◌-◌, String, Bool, true, false, ◌&&◌, Option, none, some, List, [], ◌∷◌, ◌==◌,
  if◌then◌else◌,
}
use vllm_observer.Base.Int.{ℤ, pos, ◌+ℤ◌, ◌-ℤ◌, leb_ℤ}
use vllm_observer.Base.Float.{Float}
use vllm_observer.Base.Json.{Json}
use vllm_observer.Base.Dict.{Dict, lookup, get_or, insert}
use vllm_observer.Base.Outcome.{Outcome, ret, raise}
use vllm_observer.Engine.Clock.{clock_mono, clock_unix, clock_error}
use vllm_observer.Core.Trace.{RequestTrace, Generation, IntervalError, interval, now_ns}

-- Python's `float(text)` and `int(text)`, none where they raise, and `ns / 1e9`.
pub record Numerals (F : Type 0) : Type 0 where
  pub to_float : String → Option F
  pub to_int : String → Option ℤ
  pub seconds : ℤ → F

-- The two counters of `stat`, none where the attribute is missing or None.
pub record Stat : Type 0 where
  pub prompt_tokens : Option ℕ
  pub generation_tokens : Option ℕ

-- `raw`: the calibration, if the request's last output had one, and the engine's timestamps.
pub record Stats (F : Type 0) : Type 0 where
  pub clock : Option (Dict String)
  pub queued : F
  pub scheduled : F
  pub first_token : F
  pub last_token : F

-- What a call leaves of the generation and the trace, and whether it raised.
pub record Timeline (F : Type 0) : Type 0 where
  pub generation : Generation F
  pub trace : RequestTrace F
  pub raised : Bool

-- The four timestamps in wall-clock nanoseconds.
pub record Stamps : Type 0 where
  pub queued : ℤ
  pub scheduled : ℤ
  pub first_token : ℤ
  pub last_token : ℤ

unfoldable pub count_usage : String → Option ℕ → Dict ℕ → Dict ℕ
count_usage key none usage = usage
count_usage key (some n) usage = insert key (get_or key 0 usage + n) usage

-- `all(...)` of the comparison, with `stamps == sorted(stamps)`
unfoldable pub is_plausible : ℤ → ℤ → Stamps → Bool
is_plausible start now s =
    leb_ℤ s.queued s.scheduled
    && leb_ℤ s.scheduled s.first_token
    && leb_ℤ s.first_token s.last_token
    && leb_ℤ start s.queued
    && leb_ℤ s.last_token now

module _ {F : Type 0} where
  unfoldable pub sequence_of : Generation F → ℤ
  sequence_of g = elim (lookup "sequence_count" g.metadata) [ some (Json.int n) ↦ n | _ ↦ pos 0 ]

  -- The usage and the sequence count, which are updated first.
  unfoldable pub count_sequence : Stat → Generation F → Generation F
  unfolding count_usage sequence_of
  count_sequence stat g = record g {
    usage =
        count_usage "output" stat.generation_tokens
          (count_usage "input" stat.prompt_tokens g.usage);
    metadata = insert "sequence_count" (Json.int (sequence_of g +ℤ pos 1)) g.metadata;
  }

  abbrev pub unavailable : String → Generation F → Generation F
  unavailable reason g = record g {
    metadata = insert "timeline_unavailable" (Json.str reason) g.metadata;
  }

  abbrev pub completed : ℤ → Generation F → Generation F
  completed stamp g = elim g.completion_start_ns [
    | none ↦ record g { completion_start_ns = some stamp }
    | some _ ↦ g
  ]

module _ {F : Type 0} ⦃f : Float F⦄ where
  -- `wall + int((edge - mono) * 1e9)`
  unfoldable pub stamp : F → ℤ → F → ℤ
  stamp mono wall edge = wall +ℤ f.to_ns (f.sub edge mono)

  unfoldable pub stamps_of : F → ℤ → Stats F → Stamps
  unfolding stamp
  stamps_of mono wall raw = record {
    queued = stamp mono wall raw.queued;
    scheduled = stamp mono wall raw.scheduled;
    first_token = stamp mono wall raw.first_token;
    last_token = stamp mono wall raw.last_token;
  }

  abbrev pub is_measured : F → Bool
  is_measured edge = f.finite edge && f.lt f.zero edge

  unfoldable pub are_measured : Stats F → Bool
  are_measured raw =
      is_measured raw.queued
      && is_measured raw.scheduled
      && is_measured raw.first_token
      && is_measured raw.last_token

  module _ (numerals : Numerals F) (fresh : String → String) where
    unfoldable pub interval_metadata : ℤ → ℤ → ℕ → ℤ → Dict (Json F)
    interval_metadata error_ns sequence repetitions length_ns =
        let duration = numerals.seconds length_ns in
        ("timing_source", Json.str "engine_monotonic_calibrated_to_wall")
        ∷ ("calibration_error_ns", Json.int error_ns)
        ∷ ("module", Json.str "vllm.v1.engine.output_processor")
        ∷ ("sequence_index", Json.int sequence)
        ∷ ("count", Json.int (pos repetitions))
        ∷ ("total_seconds", Json.float duration)
        ∷ (
          "mean_seconds",
          (if repetitions == 0 then Json.int (pos 0) else Json.float (f.mean duration repetitions)),
        )
        ∷ []

    -- One round of the loop over the three stages; what raised before stays raised.
    unfoldable pub record_stage :
        Generation F
        → ℤ
        → ℤ
        → String
        → ℕ
        → ℤ
        → ℤ
        → Outcome IntervalError (RequestTrace F)
        → Outcome IntervalError (RequestTrace F)
    unfolding interval interval_metadata
    record_stage g error_ns sequence name repetitions start_ns end_ns (raise x) = raise x
    record_stage g error_ns sequence name repetitions start_ns end_ns (ret t) =
        interval (fresh name) g name start_ns end_ns
          (interval_metadata error_ns sequence repetitions (end_ns -ℤ start_ns)) t

    -- The loop, where the calibration error can be read.
    unfoldable pub record_stages :
        Generation F → ℤ → ℤ → ℕ → Stamps → RequestTrace F → Outcome IntervalError (RequestTrace F)
    unfolding record_stage
    record_stages g error_ns sequence decoded s t =
        record_stage g error_ns sequence "decode" decoded s.first_token s.last_token (
          record_stage g error_ns sequence "prefill" 1 s.scheduled s.first_token
            (record_stage g error_ns sequence "queue" 1 s.queued s.scheduled (ret t)))

    -- An exception of `interval`, which the order of the timestamps rules out, would end the loop.
    abbrev pub settle :
        Generation F → RequestTrace F → Outcome IntervalError (RequestTrace F) → Timeline F
    settle g t (ret t') = record { generation = g; trace = t'; raised = false }
    settle g t (raise x) = record { generation = g; trace = t; raised = true }

    -- Where the timestamps are plausible: `generation_tokens` none raises, and so does a calibration
    -- error that is no number.
    unfoldable pub record_plausible :
        Option ℕ → Option ℤ → ℤ → Stamps → Generation F → RequestTrace F → Timeline F
    unfolding record_stages
    record_plausible none error_ns sequence s g t = record {
      generation = completed s.first_token g;
      trace = t;
      raised = true;
    }
    record_plausible (some tokens) none sequence s g t = record {
      generation = completed s.first_token g;
      trace = t;
      raised = true;
    }
    record_plausible (some tokens) (some error_ns) sequence s g t =
        let g' = completed s.first_token g in
        settle g' t (record_stages g' error_ns sequence (tokens - 1) s t)

    abbrev text_of : Option String → (String → Option ℤ) → Option ℤ
    text_of none parse = none
    text_of (some text) parse = parse text

    unfoldable pub float_at : String → Dict String → Option F
    float_at key clock = elim (lookup key clock) [
      | none ↦ none
      | some text ↦ numerals.to_float text
    ]

    unfoldable pub int_at : String → Dict String → Option ℤ
    int_at key clock = text_of (lookup key clock) numerals.to_int

    abbrev pub leave : Generation F → RequestTrace F → Bool → Timeline F
    leave g t raised = record { generation = g; trace = t; raised = raised }

    -- What follows once the calibration can be read: the checks of the timestamps. `g` is the
    -- generation with its counts updated, `now` the time of the trace.
    unfoldable pub at_stamps :
        ℤ → ℤ → Option ℕ → Option ℤ → Bool → Stamps → Generation F → RequestTrace F → Timeline F
    unfolding is_plausible record_plausible
    at_stamps now sequence tokens error_ns measured s g t =
        if measured
        then (if is_plausible g.start_ns now s
            then record_plausible tokens error_ns sequence s g t
            else leave (unavailable "clock_skew_or_invalid_order" g) t false)
        else leave (unavailable "incomplete_engine_timestamps" g) t false

    unfoldable pub at_calibration :
        ℤ
        → ℤ
        → Option ℕ
        → Option ℤ
        → Option F
        → Option ℤ
        → Stats F
        → Generation F
        → RequestTrace F
        → Timeline F
    unfolding at_stamps stamps_of are_measured
    at_calibration now sequence tokens error_ns none wall raw g t = leave g t true
    at_calibration now sequence tokens error_ns (some mono) none raw g t = leave g t true
    at_calibration now sequence tokens error_ns (some mono) (some wall) raw g t =
        at_stamps now sequence tokens error_ns (are_measured raw) (stamps_of mono wall raw) g t

    unfoldable pub at_clock :
        ℤ
        → ℤ
        → Option ℕ
        → Option (Dict String)
        → Stats F
        → Generation F
        → RequestTrace F
        → Timeline F
    unfolding at_calibration float_at int_at
    at_clock now sequence tokens none raw g t = leave (unavailable "missing_engine_clock" g) t false
    at_clock now sequence tokens (some []) raw g t =
        leave (unavailable "missing_engine_clock" g) t false
    at_clock now sequence tokens (some (entry ∷ entries)) raw g t =
        let clock : Dict String = entry ∷ entries in
        at_calibration now sequence tokens (int_at clock_error clock) (float_at clock_mono clock)
          (int_at clock_unix clock) raw g t

    -- `record_timeline`, at the reading `perf` of the clock.
    unfoldable pub record_timeline : F → Stat → Stats F → Generation F → RequestTrace F → Timeline F
    unfolding count_sequence sequence_of at_clock now_ns
    record_timeline perf stat raw g t =
        at_clock (now_ns t perf) (sequence_of g) stat.generation_tokens raw.clock raw
          (count_sequence stat g) t
