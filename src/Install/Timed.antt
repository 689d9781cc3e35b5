-- ===== src/Install/Timed.antt =====
-- The wrappers of `_timed_async` and `_timed_sync` in src/vllm_observer/stages.py, as a call of them
-- goes. `plain` is the method with no trace current; `body` is the method under a trace, which it
-- may change, since what it calls can be wrapped, too.
use vllm_observer.Base.{
  ◌≡◌, refl, sym, inl, inr, String, Option, none, some, List, [], ◌∷◌, ◌++◌, if◌then◌else◌, str_eq,
  Bool-cases,
}
use mathlib.Core.List.{append-nil}
use vllm_observer.Base.Int.{leb_ℤ}
use vllm_observer.Base.Float.{Float}
use vllm_observer.Base.Dict.{lookup}
use vllm_observer.Base.Json.{Json}
use vllm_observer.Base.Outcome.{Outcome}
use vllm_observer.Core.Trace.{RequestTrace, Span, add, accumulate, api_interval, wall_at}
use vllm_observer.Core.Trace.Stages.{aggregate_of, lookup-add}

module _ {F : Type 0} ⦃f : Float F⦄ where
  module _ {E A : Type 0} where
    unfoldable pub timed_call :
        String
        → String
        → String
        → F
        → F
        → Outcome E A
        → (RequestTrace F → Outcome E A × RequestTrace F)
        → Option (RequestTrace F)
        → Outcome E A × Option (RequestTrace F)
    unfolding add api_interval
    timed_call id stage module_name started ended plain body none = (plain, none)
    timed_call id stage module_name started ended plain body (some t) =
        let (outcome, t') = body t in
        (
          outcome,
          some (
              api_interval id stage started ended (("module", Json.str module_name) ∷ [])
                (add stage (f.sub ended started) 1 t')),
        )

  -- The interval of a stage, if its end does not precede its start.
  abbrev pub interval_of : String → String → String → F → F → RequestTrace F → List (Span F)
  interval_of id stage module_name started ended t =
      let start_ns = wall_at t started in
      let end_ns = wall_at t ended in
      if leb_ℤ start_ns end_ns
      then record {
        id = id;
        parent_id = some t.root_span_id;
        name = stage;
        start_ns = start_ns;
        end_ns = end_ns;
        metadata =
            ("timing_source", Json.str "wall_measured") ∷ ("module", Json.str module_name) ∷ [];
      }
        ∷ []
      else []

  -- `u` is `t` with one timing of a stage.
  pub record IsTimed (id stage module_name : String) (started ended : F) (t u : RequestTrace F)
      : Type 0 where
    pub counted :
        (other : String)
        → lookup other u.stages ≡ (
            if str_eq stage other
            then some (accumulate (f.sub ended started) 1 (aggregate_of stage t))
            else lookup other t.stages)
    pub timed :
        u.api_intervals ≡ t.api_intervals ++ interval_of id stage module_name started ended t
    pub observed : u.observations ≡ t.observations
    pub status : u.status ≡ t.status

  added_lem :
      (id stage module_name : String) (started ended : F) (t : RequestTrace F)
      → IsTimed id stage module_name started ended t (
          api_interval id stage started ended
            (("module", Json.str module_name) ∷ [])
            (add stage (f.sub ended started) 1 t))
  unfolding api_interval add
  added_lem id stage module_name started ended t =
      elim (Bool-cases (leb_ℤ (wall_at t started) (wall_at t ended))) [
        | inl forward ↦ rw forward (record {
          counted = λ other. lookup-add stage other (f.sub ended started) 1 t;
          timed = rw forward refl;
          observed = refl;
          status = refl;
        })
        | inr backward ↦ rw backward (record {
          counted = λ other. lookup-add stage other (f.sub ended started) 1 t;
          timed = rw backward (sym (append-nil t.api_intervals));
          observed = refl;
          status = refl;
        })
      ]

  module _ {E A : Type 0} where
    -- A wrapped method returns what the method returns and raises what it raises. Under a trace, however the
    -- method ends, the trace that it leaves gets one more timing of the stage and, if the clock did not
    -- run backwards, one interval under the root, and nothing else of its stages, observations and status changes;
    -- without a trace none appears.
    pub timed_call_lem :
        (id stage module_name : String) (started ended : F) (plain : Outcome E A)
        (body : RequestTrace F → Outcome E A × RequestTrace F) (t : RequestTrace F)
        → (timed_call id stage module_name started ended plain body none ≡ (plain, none))
          × ((timed_call id stage module_name started ended plain body (some t)).0 ≡ (body t).0)
          × ((u : RequestTrace F) × ((timed_call id stage module_name started ended plain body
                  (some t)).1
                ≡ some u)
              × IsTimed id stage module_name started ended (body t).1 u)
    unfolding timed_call
    timed_call_lem id stage module_name started ended plain body t = (
      refl,
      refl,
      (
        api_interval id stage started ended (("module", Json.str module_name) ∷ [])
            (add stage (f.sub ended started) 1 (body t).1),
        refl,
        added_lem id stage module_name started ended (body t).1,
      ),
    )
