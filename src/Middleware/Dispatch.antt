-- ===== src/Middleware/Dispatch.antt =====
-- Which requests `ObserverMiddleware.__call__` of src/vllm_observer/middleware.py traces, and what it
-- does with the others.
use vllm_observer.Base.{
  ◌≡◌, refl, String, Bool, false, ◌||◌, some, List, [], ◌∷◌, str_eq, if◌then◌else◌, Bool-cases, inl,
  inr, arith,
}
use vllm_observer.Base.Float.{Float}
use vllm_observer.Base.Outcome.{Outcome, ret}
use vllm_observer.Core.Trace.{Event}
use vllm_observer.Core.Chain.{Filter}
use vllm_observer.Middleware.Content.{Bytes, Codec, ShapeError}
use vllm_observer.Middleware.Call.{
  Outbound, start, body, Action, act_all, new_call, Ending, returned,
}
use vllm_observer.Middleware.Call.Messages.{messages_of}
use vllm_observer.Middleware.Serve.{Server, Labels, Arrival, arrive, handle}

-- The type of a scope that is not the lifespan's.
pub data Scope : Type 0 where
  http websocket : Scope

-- `PATHS`
abbrev pub is_traced : String → Bool
is_traced path =
    str_eq path "/v1/chat/completions"
    || str_eq path "/v1/completions"
    || str_eq path "/v1/responses"

abbrev pub metrics_path : String
metrics_path = "/observer/metrics"

abbrev pub metrics_reply : Bytes → List Outbound
metrics_reply rendered =
    start 200 (("content-type", "text/plain; version=0.0.4; charset=utf-8") ∷ [])
    ∷ body (some rendered) false
    ∷ []

module _ {F : Type 0} ⦃f : Float F⦄ {X W : Type 0} (filters : List (Filter X (Labels × Event F) W))
    (labels : Labels) where
  -- What is sent, how the call ends and what it leaves; `rendered` are the metrics as a text.
  unfoldable pub dispatch :
      Scope
      → Bytes
      → Codec F
      → Bool
      → Arrival F
      → List (Action F)
      → Ending
      → F
      → Server W
      → List Outbound × (Outcome ShapeError Ending × Server W)
  unfolding act_all new_call arrive handle
  dispatch websocket rendered codec capture arrival actions ending perf server =
      (messages_of actions, (ret ending, server))
  dispatch http rendered codec capture arrival actions ending perf server =
      if str_eq arrival.path metrics_path
      then (metrics_reply rendered, (ret returned, server))
      else if is_traced arrival.path
      then (
        (act_all capture actions (new_call (arrive arrival))).sent,
        handle filters labels codec capture arrival actions ending perf server,
      )
      else (messages_of actions, (ret ending, server))

  -- A request of a path that is not traced, but for the metrics, gets what the application sends.
  pub dispatch_untraced :
      (scope : Scope) (rendered : Bytes) (codec : Codec F) (capture : Bool) (arrival : Arrival F)
      (actions : List (Action F)) (ending : Ending) (perf : F) (server : Server W)
      → (str_eq arrival.path metrics_path || is_traced arrival.path) ≡ false
      → dispatch scope rendered codec capture arrival actions ending perf server
        ≡ (messages_of actions, (ret ending, server))
  unfolding dispatch
  dispatch_untraced websocket rendered codec capture arrival actions ending perf server h = refl
  dispatch_untraced http rendered codec capture arrival actions ending perf server h =
      elim (Bool-cases (str_eq arrival.path metrics_path)) [
        | inl metrics ↦ absurd (ground arith)
        | inr other ↦
            let untraced : is_traced arrival.path ≡ false = ground arith in
            rw (other, untraced) refl
      ]
