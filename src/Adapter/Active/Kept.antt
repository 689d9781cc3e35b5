-- ===== src/Adapter/Active/Kept.antt =====
-- What the collection of statistics in src/vllm_observer/adapter.py leaves alone: the identifier and
-- the end of the generation, and the observations that the trace has already.
use vllm_observer.Base.{
  ℕ, ◌≡◌, refl, sym, ap, ◌∙◌, String, Bool, true, false, Option, none, some, List, [], ◌∷◌, ◌++◌,
  map, arith, inl, inr, Bool-cases, Option-cases, str_eq,
}
use mathlib.Core.List.{append-nil, append_assoc}
use vllm_observer.Base.Int.{ℤ}
use vllm_observer.Base.Float.{Float}
use vllm_observer.Base.Dict.{Dict}
use vllm_observer.Base.Outcome.{Outcome, ret, raise}
use vllm_observer.Core.Trace.{RequestTrace, Generation, Span, span, now_ns, IntervalError}
use vllm_observer.Engine.Registry.{Record}
use vllm_observer.Engine.Clock.{clock_mono, clock_unix, clock_error}
use vllm_observer.Adapter.{
  Numerals, Stat, Stats, Stamps, record_timeline, count_sequence, sequence_of, at_clock,
  at_calibration, at_stamps, record_plausible, completed, settle, is_plausible, float_at, int_at,
  stamps_of, are_measured,
}
use vllm_observer.Adapter.Spans.{record_timeline-IsRecorded}
use vllm_observer.Adapter.Collect.{
  record_engine_stages, record_clock, record_calibrated, record_waiting, copy_counters, calibration,
  finite_pair, add_totals,
}
use vllm_observer.Adapter.Collect.Bounds.{record_engine_stages-IsExtended}

module _ {F : Type 0} where
  abbrev pub IsKept : Generation F → Generation F → Type 0
  IsKept g g' = (g'.id ≡ g.id) × (g'.end_ns ≡ g.end_ns)

module _ {F : Type 0} ⦃f : Float F⦄ (numerals : Numerals F) (fresh : String → String) where
  settle-IsKept :
      (g g' : Generation F) (t : RequestTrace F) (o : Outcome IntervalError (RequestTrace F))
      → IsKept g g'
      → IsKept g (settle numerals fresh g' t o).generation
  settle-IsKept g g' t (ret t') h = h
  settle-IsKept g g' t (raise e) h = h

  completed-IsKept : (stamp : ℤ) (g : Generation F) → IsKept g (completed stamp g)
  completed-IsKept stamp g = (ground arith, ground arith)

  record_plausible-IsKept :
      (tokens : Option ℕ) (error_ns : Option ℤ) (sequence : ℤ) (s : Stamps) (g : Generation F)
      (t : RequestTrace F)
      → IsKept g (record_plausible numerals fresh tokens error_ns sequence s g t).generation
  unfolding record_plausible
  record_plausible-IsKept none error_ns sequence s g t = completed-IsKept s.first_token g
  record_plausible-IsKept (some n) none sequence s g t = completed-IsKept s.first_token g
  record_plausible-IsKept (some n) (some e) sequence s g t =
      settle-IsKept g (completed s.first_token g) t _ (completed-IsKept s.first_token g)

  at_stamps-IsKept :
      (now sequence : ℤ) (tokens : Option ℕ) (error_ns : Option ℤ) (measured : Bool) (s : Stamps)
      (g : Generation F) (t : RequestTrace F)
      → IsKept g (at_stamps numerals fresh now sequence tokens error_ns measured s g t).generation
  unfolding at_stamps
  at_stamps-IsKept now sequence tokens error_ns false s g t = (refl, refl)
  at_stamps-IsKept now sequence tokens error_ns true s g t =
      elim (Bool-cases (is_plausible g.start_ns now s)) [
        | inl fits ↦ rw fits (record_plausible-IsKept tokens error_ns sequence s g t)
        | inr skewed ↦ rw skewed (refl, refl)
      ]

  at_calibration-IsKept :
      (now sequence : ℤ) (tokens : Option ℕ) (error_ns : Option ℤ) (mono : Option F)
      (wall : Option ℤ) (raw : Stats F) (g : Generation F) (t : RequestTrace F)
      → IsKept g
          (at_calibration numerals fresh now sequence tokens error_ns mono wall raw g t).generation
  unfolding at_calibration
  at_calibration-IsKept now sequence tokens error_ns none wall raw g t = (refl, refl)
  at_calibration-IsKept now sequence tokens error_ns (some mono) none raw g t = (refl, refl)
  at_calibration-IsKept now sequence tokens error_ns (some mono) (some wall) raw g t =
      at_stamps-IsKept now sequence tokens error_ns (are_measured raw) (stamps_of mono wall raw) g t

  at_clock-IsKept :
      (now sequence : ℤ) (tokens : Option ℕ) (clock : Option (Dict String)) (raw : Stats F)
      (g : Generation F) (t : RequestTrace F)
      → IsKept g (at_clock numerals fresh now sequence tokens clock raw g t).generation
  unfolding at_clock
  at_clock-IsKept now sequence tokens none raw g t = (refl, refl)
  at_clock-IsKept now sequence tokens (some []) raw g t = (refl, refl)
  at_clock-IsKept now sequence tokens (some (entry ∷ entries)) raw g t =
      let clock : Dict String = entry ∷ entries in
      at_calibration-IsKept now sequence tokens (int_at numerals fresh clock_error clock)
        (float_at numerals fresh clock_mono clock) (int_at numerals fresh clock_unix clock) raw g t

  pub record_timeline-IsKept :
      (perf : F) (stat : Stat) (raw : Stats F) (g : Generation F) (t : RequestTrace F)
      → IsKept g (record_timeline numerals fresh perf stat raw g t).generation
  unfolding record_timeline count_sequence
  record_timeline-IsKept perf stat raw g t =
      at_clock-IsKept (now_ns t perf) (sequence_of g) stat.generation_tokens raw.clock raw
        (count_sequence stat g) t

  record_waiting-IsKept :
      (perf later mono : F) (wall error_ns : ℤ) (instants : F × F) (r : Record F) (g : Generation F)
      (t : RequestTrace F)
      → IsKept g
          (record_waiting numerals fresh perf later mono wall error_ns instants r g t).generation
  unfolding record_waiting
  record_waiting-IsKept perf later mono wall error_ns (a, b) r g t = (ground arith, ground arith)

  record_clock-IsKept :
      (perf later : F) (clock : Option (Dict String)) (instants : Option (F × F)) (r : Record F)
      (g : Generation F) (t : RequestTrace F)
      → IsKept g (record_clock numerals fresh perf later clock instants r g t).generation
  unfolding record_clock
  record_clock-IsKept perf later none instants r g t = (refl, refl)
  record_clock-IsKept perf later (some []) instants r g t = (refl, refl)
  record_clock-IsKept perf later (some (e ∷ es)) none r g t = (refl, refl)
  record_clock-IsKept perf later (some (e ∷ es)) (some instants) r g t =
      calibrated_lem (calibration numerals fresh (e ∷ es))
    where
      calibrated_lem :
          (c : Option (F × ℤ × ℤ))
          → IsKept g (record_calibrated numerals fresh perf later c instants r g t).generation
      calibrated_lem none = (refl, refl)
      calibrated_lem (some (mono, wall, error_ns)) =
          record_waiting-IsKept perf later mono wall error_ns instants r g t

  pub record_engine_stages-IsKept :
      (loads : String → Option (Record F)) (perf later : F) (payload : Option String)
      (clock : Option (Dict String)) (g : Generation F) (t : RequestTrace F)
      → IsKept g (record_engine_stages numerals fresh loads perf later payload clock g t).generation
  unfolding record_engine_stages copy_counters
  record_engine_stages-IsKept loads perf later none clock g t = (refl, refl)
  record_engine_stages-IsKept loads perf later (some payload) clock g t =
      elim (Bool-cases (str_eq payload "")) [
        | inl blank ↦ rw blank (refl, refl)
        | inr given ↦ elim (Option-cases (loads payload)) [
          | inl broken ↦ rw given (rw broken (refl, refl))
          | inr (r, read) ↦ rw given (
              rw read (
                record_clock-IsKept perf later clock (finite_pair r.waiting_enter r.first_schedule)
                  r (copy_counters r g) (add_totals r t)))
        ]
      ]

  -- `u` has the observations of `t`, and spans behind them.
  abbrev pub OnlySpans : RequestTrace F → RequestTrace F → Type 0
  OnlySpans t u = (ss : List (Span F)) × (u.observations ≡ t.observations ++ map span ss)

  pub record_timeline-OnlySpans :
      (perf : F) (stat : Stat) (raw : Stats F) (g : Generation F) (t : RequestTrace F)
      → OnlySpans t (record_timeline numerals fresh perf stat raw g t).trace
  record_timeline-OnlySpans perf stat raw g t =
      elim (record_timeline-IsRecorded numerals fresh perf stat raw g t) [
        | inl same ↦ ([], ap (λ u. u.observations) same ∙ sym (append-nil t.observations))
        | inr (q, p, d, added, ok, rest) ↦ (
          q ∷ p ∷ d ∷ [],
          ap (λ u. u.observations) added
              ∙ append_assoc (t.observations ++ span q ∷ []) (span p ∷ []) (span d ∷ [])
              ∙ append_assoc t.observations (span q ∷ []) (span p ∷ [] ++ span d ∷ []),
        )
      ]

  pub record_engine_stages-OnlySpans :
      (loads : String → Option (Record F)) (perf later : F) (payload : Option String)
      (clock : Option (Dict String)) (g : Generation F) (t : RequestTrace F)
      → OnlySpans t (record_engine_stages numerals fresh loads perf later payload clock g t).trace
  record_engine_stages-OnlySpans loads perf later payload clock g t =
      let e = record_engine_stages-IsExtended numerals fresh loads perf later payload clock g t in
      (e.0, e.1)
