-- ===== src/Middleware/Call/FirstBody.antt =====
-- When the first body of a response is timed in a traced call of src/vllm_observer/middleware.py.
use vllm_observer.Base.{
  ℕ, ◌+◌, ◌≡◌, eq_refl, Bool, false, not, ◌&&◌, ◌||◌, List, [], ◌∷◌, if◌then◌else◌, arith,
}
use vllm_observer.Base.Float.{Float}
use vllm_observer.Core.Trace.{RequestTrace, empty_aggregate, accumulate}
use vllm_observer.Core.Trace.Stages.{aggregate_of, lookup-add}
use vllm_observer.Middleware.Call.{
  body, Call, traced_receive, mark_first_body, traced_send, Action, receives, sends, act_all,
  new_call, bytes_of, is_filled,
}

module _ {F : Type 0} ⦃f : Float F⦄ where
  abbrev pub has_body : List (Action F) → Bool
  has_body [] = false
  has_body (sends _ _ (body content _) ∷ actions) = is_filled (bytes_of content) || has_body actions
  has_body (_ ∷ actions) = has_body actions

  abbrev pub first_bodies : RequestTrace F → ℕ
  first_bodies t = (aggregate_of "http_first_body" t).count

  first_bodies-mark_first_body :
      (perf later : F) (t : RequestTrace F)
      → first_bodies (mark_first_body perf later t) ≡ first_bodies t + 1
  unfolding mark_first_body accumulate
  first_bodies-mark_first_body perf later t = ground (
    arith,
    eq_refl "http_first_body",
    lookup-add "http_first_body" "http_first_body" (f.sub perf t.started) 1 t,
  )

  act_all-first_body :
      (capture : Bool) (actions : List (Action F)) (c : Call F)
      → let c' = act_all capture actions c in
        (first_bodies c'.trace
          ≡ first_bodies c.trace + (if not c.first_body && has_body actions then 1 else 0))
        × (c'.first_body ≡ (c.first_body || has_body actions))
  unfolding act_all traced_receive traced_send
  act_all-first_body capture [] c = (ground arith, ground arith)
  act_all-first_body capture (receives message ∷ actions) c =
      ground (arith, act_all-first_body capture actions (traced_receive capture message c))
  act_all-first_body capture (sends perf later message ∷ actions) c = ground (
    arith,
    act_all-first_body capture actions (traced_send capture perf later message c),
    first_bodies-mark_first_body perf later c.trace,
  )

  -- On a trace that has timed no stage yet, the first body is timed once in a call that sends a
  -- body that is not empty, and not at all in one that sends none.
  pub first_body_once :
      (capture : Bool) (actions : List (Action F)) (trace : RequestTrace F)
      → trace.stages ≡ []
      → first_bodies (act_all capture actions (new_call trace)).trace
        ≡ (if has_body actions then 1 else 0)
  unfolding new_call empty_aggregate
  first_body_once capture actions trace h =
      ground (arith, act_all-first_body capture actions (new_call trace))
