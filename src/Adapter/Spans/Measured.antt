-- ===== src/Adapter/Spans/Measured.antt =====
-- When `record_timeline` of src/vllm_observer/adapter.py adds its spans, and where they lie.
use vllm_observer.Base.{ℕ, ◌≡◌, refl, sym, subst, String, true, Option, some, [], ◌∷◌, arith}
use vllm_observer.Base.Int.{ℤ, ◌+ℤ◌, ◌≤ℤ◌}
use vllm_observer.Base.Float.{Float}
use vllm_observer.Base.Dict.{Dict, lookup}
use vllm_observer.Core.Trace.{RequestTrace, Generation, now_ns}
use vllm_observer.Adapter.{
  Numerals, Stat, Stats, Stamps, is_plausible, record_plausible, at_stamps, at_calibration,
  at_clock, record_timeline, count_sequence, sequence_of, float_at, int_at, are_measured, stamps_of,
  stamp,
}
use vllm_observer.Engine.Clock.{clock_mono, clock_unix, clock_error}
use vllm_observer.Adapter.Spans.{IsAddedAt, record_plausible_at}

module _ {F : Type 0} ⦃f : Float F⦄ (numerals : Numerals F) (fresh : String → String) where
  at_clock_plausible :
      (now sequence : ℤ) (mono : F) (wall error_ns : ℤ) (tokens : ℕ) (given : Option ℕ)
      (clock : Option (Dict String)) (raw : Stats F) (entry : String × String)
      (entries : Dict String) (g : Generation F) (t : RequestTrace F)
      → clock ≡ some (entry ∷ entries)
      → float_at numerals fresh clock_mono (entry ∷ entries) ≡ some mono
      → int_at numerals fresh clock_unix (entry ∷ entries) ≡ some wall
      → int_at numerals fresh clock_error (entry ∷ entries) ≡ some error_ns
      → given ≡ some tokens
      → are_measured raw ≡ true
      → is_plausible g.start_ns now (stamps_of mono wall raw) ≡ true
      → at_clock numerals fresh now sequence given clock raw g t
        ≡ record_plausible numerals fresh
            (some tokens)
            (some error_ns)
            sequence
            (stamps_of mono wall raw)
            g
            t
  unfolding at_clock at_calibration at_stamps
  at_clock_plausible now sequence mono wall error_ns tokens given clock raw entry entries g t h1 h2
        h3 h4 h5 h6 h7 =
      rw (h1, at_clock) (rw h2 (rw h3 (rw h4 (rw h5 (rw (at_stamps, h6) (rw h7 refl))))))

  -- A timestamp that the engine has set.
  abbrev pub IsMeasured : F → Type 0
  IsMeasured edge = (f.finite edge ≡ true) × (f.lt f.zero edge ≡ true)

  -- A timestamp of the engine's clock, which shows `mono` when the wall clock shows `wall`.
  abbrev pub on_wall : F → ℤ → F → ℤ
  on_wall mono wall edge = wall +ℤ f.to_ns (f.sub edge mono)

  abbrev pub wall_stamps : F → ℤ → Stats F → Stamps
  wall_stamps mono wall raw = record {
    queued = on_wall mono wall raw.queued;
    scheduled = on_wall mono wall raw.scheduled;
    first_token = on_wall mono wall raw.first_token;
    last_token = on_wall mono wall raw.last_token;
  }

  -- What the calibration of the engine's clock holds.
  pub record IsCalibrated (clock : Dict String) (mono : F) (wall error_ns : ℤ) : Type 0 where
    pub mono_text : String
    pub unix_text : String
    pub error_text : String
    pub mono_at : lookup clock_mono clock ≡ some mono_text
    pub unix_at : lookup clock_unix clock ≡ some unix_text
    pub error_at : lookup clock_error clock ≡ some error_text
    pub mono_read : numerals.to_float mono_text ≡ some mono
    pub unix_read : numerals.to_int unix_text ≡ some wall
    pub error_read : numerals.to_int error_text ≡ some error_ns

  measured_lem :
      (raw : Stats F)
      → IsMeasured raw.queued
      → IsMeasured raw.scheduled
      → IsMeasured raw.first_token
      → IsMeasured raw.last_token
      → are_measured raw ≡ true
  unfolding are_measured
  measured_lem raw a b c d = ground arith

  plausible_lem :
      (start now : ℤ) (s : Stamps)
      → start ≤ℤ s.queued
      → s.queued ≤ℤ s.scheduled
      → s.scheduled ≤ℤ s.first_token
      → s.first_token ≤ℤ s.last_token
      → s.last_token ≤ℤ now
      → is_plausible start now s ≡ true
  unfolding is_plausible
  plausible_lem start now s a b c d e = ground arith

  -- Whenever the calibration of the engine's clock can be read, the number of generated tokens is
  -- known, the four timestamps are finite and positive, and on the wall clock they are in order,
  -- none before the generation's start and none after the present, `record_timeline` raises
  -- nothing and adds a queue, a prefill and a decode span under the generation, which begin and
  -- end at those four instants on the wall clock.
  pub record_timeline-IsAdded :
      (perf mono : F) (wall error_ns : ℤ) (tokens : ℕ) (stat : Stat) (raw : Stats F)
      (clock : Dict String) (g : Generation F) (t : RequestTrace F)
      → raw.clock ≡ some clock
      → IsCalibrated clock mono wall error_ns
      → stat.generation_tokens ≡ some tokens
      → IsMeasured raw.queued
      → IsMeasured raw.scheduled
      → IsMeasured raw.first_token
      → IsMeasured raw.last_token
      → g.start_ns ≤ℤ on_wall mono wall raw.queued
      → on_wall mono wall raw.queued ≤ℤ on_wall mono wall raw.scheduled
      → on_wall mono wall raw.scheduled ≤ℤ on_wall mono wall raw.first_token
      → on_wall mono wall raw.first_token ≤ℤ on_wall mono wall raw.last_token
      → on_wall mono wall raw.last_token ≤ℤ now_ns t perf
      → IsAddedAt g.id g.start_ns
          (now_ns t perf)
          (wall_stamps mono wall raw)
          t
          (record_timeline numerals fresh perf stat raw g t)
  unfolding record_timeline at_clock at_calibration at_stamps count_sequence float_at int_at
      stamps_of stamp
  record_timeline-IsAdded perf mono wall error_ns tokens stat raw [] g t given h known m1 m2 m3 m4
        o1 o2 o3 o4 o5 =
      absurd (ground (arith, h.mono_at))
  record_timeline-IsAdded perf mono wall error_ns tokens stat raw (entry ∷ entries) g t given h
        known m1 m2 m3 m4 o1 o2 o3 o4 o5 =
      let g' = count_sequence stat g in
      let s = wall_stamps mono wall raw in
      let plausible = plausible_lem g.start_ns (now_ns t perf) s o1 o2 o3 o4 o5 in
      subst (IsAddedAt g.id g.start_ns (now_ns t perf) s t)
        (sym (
          at_clock_plausible (now_ns t perf) (sequence_of g) mono wall error_ns tokens
            stat.generation_tokens raw.clock raw entry entries g' t given
            (rw (h.mono_at, float_at) h.mono_read) (rw (h.unix_at, int_at) h.unix_read)
            (rw (h.error_at, int_at) h.error_read) known (measured_lem raw m1 m2 m3 m4) plausible))
        (record_plausible_at numerals fresh tokens error_ns (sequence_of g) (now_ns t perf) s g' t
          plausible)
