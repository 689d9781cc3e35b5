-- ===== src/Adapter/Collect/Bounds.antt =====
-- What `record_engine_stages` of src/vllm_observer/stages.py adds to a trace.
use vllm_observer.Base.{
  ℕ, ◌≤◌, ◌≡◌, refl, ap, sym, subst, ◌∙◌, ◌⊎◌, inl, inr, String, Bool, true, false, ◌&&◌, Option,
  none, some, List, [], ◌∷◌, ◌++◌, map, length, length-append, if◌then◌else◌, arith, All,
  All-append, Bool-cases, Option-cases, str_eq,
}
use mathlib.Core.List.{append-nil, append_assoc}
use vllm_observer.Base.Int.{ℤ, ◌≤ℤ◌, leb_ℤ}
use vllm_observer.Base.Float.{Float}
use vllm_observer.Base.Dict.{Dict}
use vllm_observer.Base.Json.{Json}
use vllm_observer.Core.Trace.{RequestTrace, Generation, Span, span, add, interval, now_ns, wall_at}
use vllm_observer.Engine.Registry.{Record}
use vllm_observer.Adapter.{Numerals, stamp}
use vllm_observer.Adapter.Collect.{
  Collected, add_totals, copy_counters, finite_pair, calibration, record_within, record_execution,
  record_waiting, record_calibrated, record_clock, record_engine_stages, waiting_metadata,
  execute_metadata, last_or,
}

map_span-append :
    {F : Type 0} (ss ss' : List (Span F)) → map span (ss ++ ss') ≡ map span ss ++ map span ss'
map_span-append [] ss' = refl
map_span-append (s ∷ ss) ss' = ap (λ os. span s ∷ os) (map_span-append ss ss')

module _ {F : Type 0} ⦃f : Float F⦄ where
  -- The span lies under the generation, between its start and the time at one of two readings.
  abbrev pub IsWithin : Generation F → RequestTrace F → F → F → Span F → Type 0
  IsWithin g t perf later s =
      (s.parent_id ≡ some g.id)
      × (g.start_ns ≤ℤ s.start_ns)
      × (s.start_ns ≤ℤ s.end_ns)
      × ((s.end_ns ≤ℤ now_ns t perf) ⊎ (s.end_ns ≤ℤ now_ns t later))

  -- The second trace is the first with at most `most` such spans behind it, as far as they tell.
  abbrev pub IsExtended :
      Generation F → RequestTrace F → F → F → ℕ → RequestTrace F → RequestTrace F → Type 0
  IsExtended g t0 perf later most t t' =
      (ss : List (Span F)) × (t'.observations ≡ t.observations ++ map span ss)
      × All (IsWithin g t0 perf later) ss
      × (length ss ≤ most)

  module _ (numerals : Numerals F) (fresh : String → String) (t0 : RequestTrace F)
      (perf later : F) where
    record_within_lem :
        (name : String) (metadata : Dict (Json F)) (now start_ns end_ns : ℤ) (g : Generation F)
        (t : RequestTrace F)
        → (now ≡ now_ns t0 perf) ⊎ (now ≡ now_ns t0 later)
        → IsExtended g t0 perf later 1 t
            (record_within numerals fresh name metadata now start_ns end_ns g t)
    unfolding record_within interval
    record_within_lem name metadata now start_ns end_ns g t which =
        elim (Bool-cases (leb_ℤ g.start_ns start_ns && leb_ℤ start_ns end_ns && leb_ℤ end_ns now)) [
          | inl fits ↦ (
            record {
              id = fresh name;
              parent_id = some g.id;
              name = name;
              start_ns = start_ns;
              end_ns = end_ns;
              metadata = metadata;
            }
                ∷ [],
            ground arith,
            ((refl, ground arith, ground arith, ends (ground arith) which), tt),
            omega arith,
          )
          | inr outside ↦ rw outside ([], sym (append-nil t.observations), tt, omega arith)
        ]
      where
        ends :
            leb_ℤ end_ns now ≡ true
            → (now ≡ now_ns t0 perf) ⊎ (now ≡ now_ns t0 later)
            → (end_ns ≤ℤ now_ns t0 perf) ⊎ (end_ns ≤ℤ now_ns t0 later)
        ends h (inl e) = inl (subst (λ n. end_ns ≤ℤ n) e (ground arith))
        ends h (inr e) = inr (subst (λ n. end_ns ≤ℤ n) e (ground arith))

    extend_none :
        (g : Generation F) (most : ℕ) (t : RequestTrace F) → IsExtended g t0 perf later most t t
    extend_none g most t = ([], sym (append-nil t.observations), tt, omega arith)

    extend_if :
        (g : Generation F) (t : RequestTrace F) (b : Bool) (x y : Collected F)
        → IsExtended g t0 perf later 2 t x.trace
        → IsExtended g t0 perf later 2 t y.trace
        → IsExtended g t0 perf later 2 t (if b then x else y).trace
    extend_if g t true x y h k = h
    extend_if g t false x y h k = k

    extend_both :
        (g : Generation F) (t t' t'' : RequestTrace F)
        → IsExtended g t0 perf later 1 t t'
        → IsExtended g t0 perf later 1 t' t''
        → IsExtended g t0 perf later 2 t t''
    extend_both g t t' t'' (ss, e, h, k) (ss', e', h', k') = (
      ss ++ ss',
      e'
          ∙ ap (λ os. os ++ map span ss') e
          ∙ append_assoc t.observations (map span ss) (map span ss')
          ∙ ap (λ os. t.observations ++ os) (sym (map_span-append ss ss')),
      All-append (IsWithin g t0 perf later) ss ss' h h',
      omega (arith, length-append ss ss', k, k'),
    )

    keeps_clock :
        (name : String) (metadata : Dict (Json F)) (now start_ns end_ns : ℤ) (g : Generation F)
        (t : RequestTrace F) (reading : F)
        → now_ns (record_within numerals fresh name metadata now start_ns end_ns g t) reading
          ≡ now_ns t reading
    unfolding record_within interval now_ns wall_at
    keeps_clock name metadata now start_ns end_ns g t reading = ground arith

    record_execution_lem :
        (mono : F) (wall error_ns : ℤ) (r : Record F) (intervals : List (F × F)) (g : Generation F)
        (t : RequestTrace F)
        → now_ns t later ≡ now_ns t0 later
        → IsExtended g t0 perf later 1 t
            (record_execution numerals fresh mono wall later error_ns r intervals g t)
    unfolding record_execution
    record_execution_lem mono wall error_ns r [] g t same = extend_none g 1 t
    record_execution_lem mono wall error_ns r (first ∷ rest) g t same =
        record_within_lem "execute_model" (execute_metadata numerals fresh error_ns r)
          (now_ns t later) (stamp mono wall first.0) (stamp mono wall (last_or first rest).1) g t
          (inr same)

    record_waiting_lem :
        (mono : F) (wall error_ns : ℤ) (waiting scheduled : F) (r : Record F) (g : Generation F)
        (t : RequestTrace F)
        → now_ns t perf ≡ now_ns t0 perf
        → now_ns t later ≡ now_ns t0 later
        → IsExtended g t0 perf later 2 t
            (record_waiting numerals fresh perf later mono wall error_ns
              (waiting, scheduled)
              r
              g
              t).trace
    unfolding record_waiting
    record_waiting_lem mono wall error_ns waiting scheduled r g t same same' =
        let start_ns = stamp mono wall waiting in
        let end_ns = stamp mono wall scheduled in
        let metadata = waiting_metadata numerals fresh error_ns r in
        let now = now_ns t perf in
        let t' =
          record_within numerals fresh "waiting_to_first_schedule" metadata now start_ns end_ns g
            t in
        extend_if g t (leb_ℤ g.start_ns start_ns && leb_ℤ start_ns end_ns && leb_ℤ end_ns now) _ _
          (extend_both g t t'
            (record_execution numerals fresh mono wall later error_ns r r.execute_intervals g t')
            (record_within_lem "waiting_to_first_schedule" metadata now start_ns end_ns g t
              (inl same))
            (record_execution_lem mono wall error_ns r r.execute_intervals g t' (
              keeps_clock "waiting_to_first_schedule" metadata now start_ns end_ns g t later
              ∙ same')))
          (extend_none g 2 t)

    record_calibrated_lem :
        (numbers : Option (F × ℤ × ℤ)) (instants : F × F) (r : Record F) (g : Generation F)
        (t : RequestTrace F)
        → now_ns t perf ≡ now_ns t0 perf
        → now_ns t later ≡ now_ns t0 later
        → IsExtended g t0 perf later 2 t
            (record_calibrated numerals fresh perf later numbers instants r g t).trace
    unfolding record_calibrated
    record_calibrated_lem none instants r g t same same' = extend_none g 2 t
    record_calibrated_lem (some (mono, wall, error_ns)) (waiting, scheduled) r g t same same' =
        record_waiting_lem mono wall error_ns waiting scheduled r g t same same'

    record_clock_lem :
        (clock : Option (Dict String)) (instants : Option (F × F)) (r : Record F) (g : Generation F)
        (t : RequestTrace F)
        → now_ns t perf ≡ now_ns t0 perf
        → now_ns t later ≡ now_ns t0 later
        → IsExtended g t0 perf later 2 t
            (record_clock numerals fresh perf later clock instants r g t).trace
    unfolding record_clock
    record_clock_lem none instants r g t same same' = extend_none g 2 t
    record_clock_lem (some []) instants r g t same same' = extend_none g 2 t
    record_clock_lem (some (entry ∷ entries)) none r g t same same' = extend_none g 2 t
    record_clock_lem (some (entry ∷ entries)) (some instants) r g t same same' =
        record_calibrated_lem (calibration numerals fresh (entry ∷ entries)) instants r g t same
          same'

  -- The stages of the engine add two spans at most to the trace, under the generation, each of them not
  -- ending before it starts, and between the generation's start and the time at which it was added.
  pub record_engine_stages-IsExtended :
      (numerals : Numerals F) (fresh : String → String) (loads : String → Option (Record F))
      (perf later : F) (payload : Option String) (clock : Option (Dict String)) (g : Generation F)
      (t : RequestTrace F)
      → IsExtended g t perf later 2 t
          (record_engine_stages numerals fresh loads perf later payload clock g t).trace
  unfolding record_engine_stages copy_counters add_totals add now_ns wall_at
  record_engine_stages-IsExtended numerals fresh loads perf later none clock g t =
      extend_none numerals fresh t perf later g 2 t
  record_engine_stages-IsExtended numerals fresh loads perf later (some payload) clock g t =
      elim (Bool-cases (str_eq payload "")) [
        | inl blank ↦ rw blank (extend_none numerals fresh t perf later g 2 t)
        | inr given ↦ elim (Option-cases (loads payload)) [
          | inl broken ↦ rw given (rw broken (extend_none numerals fresh t perf later g 2 t))
          | inr (r, parsed) ↦ rw given (
              rw parsed (
                record_clock_lem numerals fresh t perf later clock
                  (finite_pair r.waiting_enter r.first_schedule) r (copy_counters r g)
                  (add_totals r t) refl refl))
        ]
      ]
