-- ===== src/Adapter/Spans.antt =====
-- The spans that `record_timeline` of src/vllm_observer/adapter.py adds to a trace.
pub mod Measured
use vllm_observer.Base.{
  ℕ, ◌-◌, ◌≡◌, refl, ap, sym, subst, ◌⊎◌, inl, inr, String, Bool, true, false, Option, none, some,
  [], ◌∷◌, ◌++◌, arith, Bool-cases,
}
use vllm_observer.Base.Int.{ℤ, ◌≤ℤ◌, leb_ℤ, ◌-ℤ◌}
use vllm_observer.Base.Float.{Float}
use vllm_observer.Base.Dict.{Dict}
use vllm_observer.Base.Outcome.{ret}
use vllm_observer.Core.Trace.{RequestTrace, Generation, Span, span, interval, append_span, now_ns}
use vllm_observer.Adapter.{
  Numerals, Stat, Stats, Timeline, Stamps, is_plausible, completed, record_stage, record_stages,
  record_plausible, settle, at_stamps, at_calibration, at_clock, record_timeline, count_sequence,
  sequence_of, interval_metadata, float_at, int_at, are_measured, stamps_of,
}
use vllm_observer.Engine.Clock.{clock_mono, clock_unix, clock_error}

module _ {F : Type 0} where
  -- The three spans follow one another without a gap, from `lo` on and up to `hi`, under `parent`.
  pub record IsTimeline (parent : String) (lo hi : ℤ) (queue prefill decode : Span F) : Type 0 where
    pub names : (queue.name ≡ "queue") × (prefill.name ≡ "prefill") × (decode.name ≡ "decode")
    pub parents :
        (queue.parent_id ≡ some parent)
        × (prefill.parent_id ≡ some parent)
        × (decode.parent_id ≡ some parent)
    pub begins : lo ≤ℤ queue.start_ns
    pub queued : queue.start_ns ≤ℤ queue.end_ns
    pub scheduled : prefill.start_ns ≡ queue.end_ns
    pub prefilled : prefill.start_ns ≤ℤ prefill.end_ns
    pub first_token : decode.start_ns ≡ prefill.end_ns
    pub decoded : decode.start_ns ≤ℤ decode.end_ns
    pub ends : decode.end_ns ≤ℤ hi

  -- The trace with a timeline behind it; nothing was raised.
  abbrev pub IsAdded : String → ℤ → ℤ → RequestTrace F → Timeline F → Type 0
  IsAdded parent lo hi t r =
      (queue : Span F) × (prefill : Span F) × (decode : Span F) × (r.trace ≡ record t {
        observations = t.observations ++ span queue ∷ [] ++ span prefill ∷ [] ++ span decode ∷ [];
      })
      × (r.raised ≡ false)
      × IsTimeline parent lo hi queue prefill decode

  -- The same, where the spans begin and end at the stamps.
  abbrev pub IsAddedAt : String → ℤ → ℤ → Stamps → RequestTrace F → Timeline F → Type 0
  IsAddedAt parent lo hi s t r =
      (queue : Span F) × (prefill : Span F) × (decode : Span F) × (r.trace ≡ record t {
        observations = t.observations ++ span queue ∷ [] ++ span prefill ∷ [] ++ span decode ∷ [];
      })
      × (r.raised ≡ false)
      × IsTimeline parent lo hi queue prefill decode
      × (queue.start_ns ≡ s.queued)
      × (queue.end_ns ≡ s.scheduled)
      × (prefill.end_ns ≡ s.first_token)
      × (decode.end_ns ≡ s.last_token)

  -- The trace as it was, or with a timeline.
  abbrev pub IsRecorded : String → ℤ → ℤ → RequestTrace F → Timeline F → Type 0
  IsRecorded parent lo hi t r = (r.trace ≡ t) ⊎ IsAdded parent lo hi t r

is_plausible_lem :
    (start now : ℤ) (s : Stamps)
    → is_plausible start now s ≡ true
    → (leb_ℤ s.queued s.scheduled ≡ true)
      × (leb_ℤ s.scheduled s.first_token ≡ true)
      × (leb_ℤ s.first_token s.last_token ≡ true)
      × (leb_ℤ start s.queued ≡ true)
      × (leb_ℤ s.last_token now ≡ true)
unfolding is_plausible
is_plausible_lem start now s h =
    (ground arith, ground arith, ground arith, ground arith, ground arith)

completed_id : {F : Type 0} (stamp : ℤ) (g : Generation F) → (completed stamp g).id ≡ g.id
completed_id stamp g = ground arith

module _ {F : Type 0} ⦃f : Float F⦄ (numerals : Numerals F) (fresh : String → String) where
  stage_of : Generation F → ℤ → ℤ → String → ℕ → ℤ → ℤ → Span F
  stage_of g error_ns sequence name repetitions start_ns end_ns = record {
    id = fresh name;
    parent_id = some g.id;
    name = name;
    start_ns = start_ns;
    end_ns = end_ns;
    metadata = interval_metadata numerals fresh error_ns sequence repetitions (end_ns -ℤ start_ns);
  }

  record_stage_lem :
      (g : Generation F) (error_ns sequence : ℤ) (name : String) (repetitions : ℕ)
      (start_ns end_ns : ℤ) (t : RequestTrace F)
      → leb_ℤ start_ns end_ns ≡ true
      → record_stage numerals fresh g error_ns sequence name repetitions start_ns end_ns (ret t)
        ≡ ret (append_span (stage_of g error_ns sequence name repetitions start_ns end_ns) t)
  unfolding record_stage interval stage_of
  record_stage_lem g error_ns sequence name repetitions start_ns end_ns t h = ground arith

  record_stages_lem :
      (g : Generation F) (error_ns sequence : ℤ) (decoded : ℕ) (s : Stamps) (t : RequestTrace F)
      → leb_ℤ s.queued s.scheduled ≡ true
      → leb_ℤ s.scheduled s.first_token ≡ true
      → leb_ℤ s.first_token s.last_token ≡ true
      → record_stages numerals fresh g error_ns sequence decoded s t
        ≡ ret (
            append_span (stage_of g error_ns sequence "decode" decoded s.first_token s.last_token) (
              append_span
                (stage_of g error_ns sequence "prefill" 1 s.scheduled s.first_token)
                (append_span (stage_of g error_ns sequence "queue" 1 s.queued s.scheduled) t)))
  unfolding record_stages
  record_stages_lem g error_ns sequence decoded s t h k l =
      rw (record_stage_lem g error_ns sequence "queue" 1 s.queued s.scheduled t h) (
        rw (record_stage_lem g error_ns sequence "prefill" 1 s.scheduled s.first_token _ k)
          (record_stage_lem g error_ns sequence "decode" decoded s.first_token s.last_token _ l))

  pub record_plausible_at :
      (tokens : ℕ) (error_ns sequence now : ℤ) (s : Stamps) (g : Generation F) (t : RequestTrace F)
      → is_plausible g.start_ns now s ≡ true
      → IsAddedAt g.id g.start_ns now s t
          (record_plausible numerals fresh (some tokens) (some error_ns) sequence s g t)
  unfolding record_plausible stage_of
  record_plausible_at tokens error_ns sequence now s g t h =
      let g' = completed s.first_token g in
      let q = stage_of g' error_ns sequence "queue" 1 s.queued s.scheduled in
      let p = stage_of g' error_ns sequence "prefill" 1 s.scheduled s.first_token in
      let d = stage_of g' error_ns sequence "decode" (tokens - 1) s.first_token s.last_token in
      let (o1, o2, o3, o4, o5) = is_plausible_lem g.start_ns now s h in
      let same : some g'.id ≡ some g.id = ap some (completed_id s.first_token g) in
      subst (λ o. IsAddedAt g.id g.start_ns now s t (settle numerals fresh g' t o))
        (sym (record_stages_lem g' error_ns sequence (tokens - 1) s t o1 o2 o3))
        ((
          q,
          p,
          d,
          refl,
          refl,
          record {
            names = (refl, refl, refl);
            parents = (same, same, same);
            begins = ground arith;
            queued = ground arith;
            scheduled = refl;
            prefilled = ground arith;
            first_token = refl;
            decoded = ground arith;
            ends = ground arith;
          },
          refl,
          refl,
          refl,
          refl,
        ))

  record_plausible_adds :
      (tokens : ℕ) (error_ns sequence now : ℤ) (s : Stamps) (g : Generation F) (t : RequestTrace F)
      → is_plausible g.start_ns now s ≡ true
      → IsAdded g.id g.start_ns now t
          (record_plausible numerals fresh (some tokens) (some error_ns) sequence s g t)
  record_plausible_adds tokens error_ns sequence now s g t h =
      let (q, p, d, e, fine, timeline, _, _, _, _) =
        record_plausible_at tokens error_ns sequence now s g t h in
      (q, p, d, e, fine, timeline)

  record_plausible_lem :
      (tokens : Option ℕ) (error_ns : Option ℤ) (sequence now : ℤ) (s : Stamps) (g : Generation F)
      (t : RequestTrace F)
      → is_plausible g.start_ns now s ≡ true
      → IsRecorded g.id g.start_ns now t
          (record_plausible numerals fresh tokens error_ns sequence s g t)
  unfolding record_plausible
  record_plausible_lem none error_ns sequence now s g t h = inl refl
  record_plausible_lem (some tokens) none sequence now s g t h = inl refl
  record_plausible_lem (some tokens) (some error_ns) sequence now s g t h =
      inr (record_plausible_adds tokens error_ns sequence now s g t h)

  at_stamps_lem :
      (now sequence : ℤ) (tokens : Option ℕ) (error_ns : Option ℤ) (measured : Bool) (s : Stamps)
      (g : Generation F) (t : RequestTrace F)
      → IsRecorded g.id g.start_ns now t
          (at_stamps numerals fresh now sequence tokens error_ns measured s g t)
  unfolding at_stamps
  at_stamps_lem now sequence tokens error_ns false s g t = inl refl
  at_stamps_lem now sequence tokens error_ns true s g t =
      elim (Bool-cases (is_plausible g.start_ns now s)) [
        | inl plausible ↦
            rw plausible (record_plausible_lem tokens error_ns sequence now s g t plausible)
        | inr skewed ↦ rw skewed (inl refl)
      ]

  at_calibration_lem :
      (now sequence : ℤ) (tokens : Option ℕ) (error_ns : Option ℤ) (mono : Option F)
      (wall : Option ℤ) (raw : Stats F) (g : Generation F) (t : RequestTrace F)
      → IsRecorded g.id g.start_ns now t
          (at_calibration numerals fresh now sequence tokens error_ns mono wall raw g t)
  unfolding at_calibration
  at_calibration_lem now sequence tokens error_ns none wall raw g t = inl refl
  at_calibration_lem now sequence tokens error_ns (some mono) none raw g t = inl refl
  at_calibration_lem now sequence tokens error_ns (some mono) (some wall) raw g t =
      at_stamps_lem now sequence tokens error_ns (are_measured raw) (stamps_of mono wall raw) g t

  at_clock_lem :
      (now sequence : ℤ) (tokens : Option ℕ) (clock : Option (Dict String)) (raw : Stats F)
      (g : Generation F) (t : RequestTrace F)
      → IsRecorded g.id g.start_ns now t (at_clock numerals fresh now sequence tokens clock raw g t)
  unfolding at_clock
  at_clock_lem now sequence tokens none raw g t = inl refl
  at_clock_lem now sequence tokens (some []) raw g t = inl refl
  at_clock_lem now sequence tokens (some (entry ∷ entries)) raw g t =
      let clock : Dict String = entry ∷ entries in
      at_calibration_lem now sequence tokens (int_at numerals fresh clock_error clock)
        (float_at numerals fresh clock_mono clock) (int_at numerals fresh clock_unix clock) raw g t

  -- Whatever the engine reports, `record_timeline` leaves the trace as it was, or it adds a queue, a prefill and a
  -- decode span under the generation that follow one another without a gap, none before the generation's
  -- start and none after the present: `interval` never raises in between.
  pub record_timeline-IsRecorded :
      (perf : F) (stat : Stat) (raw : Stats F) (g : Generation F) (t : RequestTrace F)
      → IsRecorded g.id g.start_ns
          (now_ns t perf)
          t
          (record_timeline numerals fresh perf stat raw g t)
  unfolding record_timeline count_sequence
  record_timeline-IsRecorded perf stat raw g t =
      at_clock_lem (now_ns t perf) (sequence_of g) stat.generation_tokens raw.clock raw
        (count_sequence stat g) t
