-- ===== src/Adapter/Collect/Totals.antt =====
-- The stage totals that `record_engine_stages` of src/vllm_observer/stages.py adds.
use vllm_observer.Base.{
  max, ◌≡◌, refl, ap, ◌∙◌, String, Bool, true, false, Option, none, some, List, [], ◌∷◌,
  if◌then◌else◌, arith, str_eq, eq_iff,
}
use vllm_observer.Base.Int.{ℤ}
use vllm_observer.Base.Float.{Float}
use vllm_observer.Base.Dict.{Dict, lookup}
use vllm_observer.Base.Json.{Json}
use vllm_observer.Core.Trace.{RequestTrace, Generation, Aggregate, add, accumulate, interval}
use vllm_observer.Core.Trace.Stages.{aggregate_of, lookup-add}
use vllm_observer.Engine.Registry.{Record}
use vllm_observer.Adapter.{Numerals}
use vllm_observer.Adapter.Collect.{
  Collected, add_totals, copy_counters, finite_pair, calibration, record_within, record_execution,
  record_waiting, record_calibrated, record_clock, record_engine_stages,
}

module _ {F : Type 0} ⦃f : Float F⦄ (numerals : Numerals F) (fresh : String → String)
    (perf later : F) where
  record_within-stages :
      (name : String) (metadata : Dict (Json F)) (now start_ns end_ns : ℤ) (g : Generation F)
      (t : RequestTrace F)
      → (record_within numerals fresh name metadata now start_ns end_ns g t).stages ≡ t.stages
  unfolding record_within interval
  record_within-stages name metadata now start_ns end_ns g t = ground arith

  record_execution-stages :
      (mono : F) (wall error_ns : ℤ) (r : Record F) (intervals : List (F × F)) (g : Generation F)
      (t : RequestTrace F)
      → (record_execution numerals fresh mono wall later error_ns r intervals g t).stages ≡ t.stages
  unfolding record_execution
  record_execution-stages mono wall error_ns r [] g t = refl
  record_execution-stages mono wall error_ns r (first ∷ rest) g t =
      record_within-stages "execute_model" _ _ _ _ g t

  if-stages :
      (b : Bool) (x y : Collected F) (stages : Dict (Aggregate F))
      → x.trace.stages ≡ stages
      → y.trace.stages ≡ stages
      → (if b then x else y).trace.stages ≡ stages
  if-stages true x y stages h k = h
  if-stages false x y stages h k = k

  record_calibrated-stages :
      (numbers : Option (F × ℤ × ℤ)) (instants : F × F) (r : Record F) (g : Generation F)
      (t : RequestTrace F)
      → (record_calibrated numerals fresh perf later numbers instants r g t).trace.stages ≡ t.stages
  unfolding record_calibrated record_waiting
  record_calibrated-stages none instants r g t = refl
  record_calibrated-stages (some (mono, wall, error_ns)) (waiting, scheduled) r g t =
      if-stages _ _ _ t.stages
        (record_execution-stages mono wall error_ns r r.execute_intervals g _
          ∙ record_within-stages "waiting_to_first_schedule" _ _ _ _ g t)
        refl

  record_clock-stages :
      (clock : Option (Dict String)) (instants : Option (F × F)) (r : Record F) (g : Generation F)
      (t : RequestTrace F)
      → (record_clock numerals fresh perf later clock instants r g t).trace.stages ≡ t.stages
  unfolding record_clock
  record_clock-stages none instants r g t = refl
  record_clock-stages (some []) instants r g t = refl
  record_clock-stages (some (entry ∷ entries)) none r g t = refl
  record_clock-stages (some (entry ∷ entries)) (some instants) r g t =
      record_calibrated-stages (calibration numerals fresh (entry ∷ entries)) instants r g t

  lookup-add_totals :
      (stage : String) (r : Record F) (t : RequestTrace F)
      → lookup stage (add_totals r t).stages ≡ (
          if str_eq "execute_model" stage
          then some (
              accumulate r.execute_seconds (max 1 r.execute_steps) (aggregate_of "execute_model" t))
          else (if str_eq "schedule_total" stage
              then some (
                  accumulate r.schedule_seconds
                    (max 1 r.schedule_steps)
                    (aggregate_of "schedule_total" t))
              else lookup stage t.stages))
  unfolding add_totals
  lookup-add_totals stage r t =
      let t' = add "schedule_total" r.schedule_seconds (max 1 r.schedule_steps) t in
      ground (
        arith,
        lookup-add "execute_model" stage r.execute_seconds (max 1 r.execute_steps) t',
        lookup-add "schedule_total" stage r.schedule_seconds (max 1 r.schedule_steps) t,
        lookup-add "schedule_total" "execute_model" r.schedule_seconds (max 1 r.schedule_steps) t,
        eq_iff "schedule_total" "execute_model",
      )

  -- A payload that can be read adds the seconds and the steps of the execution and of the scheduling to
  -- the totals of their stages, each with one step at least, and changes no other total, whatever
  -- the clock is.
  pub lookup-record_engine_stages :
      (loads : String → Option (Record F)) (payload stage : String) (clock : Option (Dict String))
      (r : Record F) (g : Generation F) (t : RequestTrace F)
      → str_eq payload "" ≡ false
      → loads payload ≡ some r
      → lookup stage
          (record_engine_stages numerals fresh loads perf later
            (some payload)
            clock
            g
            t).trace.stages
        ≡ (if str_eq "execute_model" stage
            then some (
                accumulate r.execute_seconds
                  (max 1 r.execute_steps)
                  (aggregate_of "execute_model" t))
            else (if str_eq "schedule_total" stage
                then some (
                    accumulate r.schedule_seconds
                      (max 1 r.schedule_steps)
                      (aggregate_of "schedule_total" t))
                else lookup stage t.stages))
  unfolding record_engine_stages
  lookup-record_engine_stages loads payload stage clock r g t given parsed = rw given (
      rw parsed (
        ap (lookup stage) (
          record_clock-stages clock (finite_pair r.waiting_enter r.first_schedule) r
            (copy_counters r g) (add_totals r t))
        ∙ lookup-add_totals stage r t))
