-- ===== src/Middleware/Call/Endings.antt =====
-- The status that a traced call of src/vllm_observer/middleware.py ends with.
use vllm_observer.Base.{◌≡◌, refl, Bool, false, not, ◌&&◌, ◌||◌, List, [], ◌∷◌, leb, arith}
use vllm_observer.Base.Float.{Float}
use vllm_observer.Core.Trace.{RequestTrace, add, ok}
use vllm_observer.Middleware.Call.{
  disconnect, start, body, extension, Call, traced_receive, mark_first_body, traced_send, Action,
  receives, sends, act, act_all, Ending, returned, was_cancelled, raised, interrupted, is_ok,
  final_status, new_call,
}

module _ {F : Type 0} ⦃f : Float F⦄ where
  -- Whether the last body that was sent, if any, ended the response.
  abbrev pub completes : Bool → List (Action F) → Bool
  completes complete [] = complete
  completes complete (sends _ _ (body _ more_body) ∷ actions) = completes (not more_body) actions
  completes complete (_ ∷ actions) = completes complete actions

  -- Whether an error status was sent, or the client disconnected before the response was complete.
  abbrev pub has_trouble : Bool → List (Action F) → Bool
  has_trouble complete [] = false
  has_trouble complete (receives disconnect ∷ actions) =
      not complete || has_trouble complete actions
  has_trouble complete (receives _ ∷ actions) = has_trouble complete actions
  has_trouble complete (sends _ _ (start status _) ∷ actions) =
      leb 400 status || has_trouble complete actions
  has_trouble complete (sends _ _ (body _ more_body) ∷ actions) =
      has_trouble (not more_body) actions
  has_trouble complete (sends _ _ extension ∷ actions) = has_trouble complete actions

  act_all-complete :
      (capture : Bool) (actions : List (Action F)) (c : Call F)
      → (act_all capture actions c).complete ≡ completes c.complete actions
  unfolding act_all traced_receive traced_send
  act_all-complete capture [] c = refl
  act_all-complete capture (a ∷ actions) c =
      ground (arith, act_all-complete capture actions (act capture a c))

  mark_first_body-status :
      (perf later : F) (t : RequestTrace F) → (mark_first_body perf later t).status ≡ t.status
  unfolding mark_first_body add
  mark_first_body-status perf later t = refl

  act_all-status :
      (capture : Bool) (actions : List (Action F)) (c : Call F)
      → is_ok (act_all capture actions c).trace.status
        ≡ (is_ok c.trace.status && not (has_trouble c.complete actions))
  unfolding act_all traced_receive traced_send
  act_all-status capture [] c = ground arith
  act_all-status capture (receives message ∷ actions) c =
      ground (arith, act_all-status capture actions (traced_receive capture message c))
  act_all-status capture (sends perf later message ∷ actions) c = ground (
    arith,
    act_all-status capture actions (traced_send capture perf later message c),
    mark_first_body-status perf later c.trace,
  )

  -- The status of a call ends as "ok" exactly when the application returned, or was interrupted from
  -- outside, and had sent no error status, the client did not disconnect before the response was
  -- complete, and, if the application returned, the last body ended the response: a disconnect
  -- after that does not count.
  pub final_status_ok :
      (capture : Bool) (ending : Ending) (actions : List (Action F)) (trace : RequestTrace F)
      → trace.status ≡ ok
      → is_ok (final_status ending (act_all capture actions (new_call trace))) ≡ elim ending [
        | returned ↦ completes false actions && not (has_trouble false actions)
        | was_cancelled ↦ false
        | raised ↦ false
        | interrupted ↦ not (has_trouble false actions)
      ]
  unfolding final_status new_call
  final_status_ok capture ending actions trace e = ground (
    arith,
    act_all-status capture actions (new_call trace),
    act_all-complete capture actions (new_call trace),
  )
