-- ===== src/Middleware/Serve.antt =====
-- `ObserverMiddleware.__call__` of src/vllm_observer/middleware.py for one request of a traced path:
-- the call with its trace, the in-flight gauge, the context variable and the chain of filters.
pub mod Balance
pub mod Together
use vllm_observer.Base.{
  ℕ, ◌+◌, ◌-◌, String, Bool, true, false, ◌&&◌, Option, none, some, List, [], ◌∷◌, ◌++◌,
  if◌then◌else◌,
}
use vllm_observer.Base.Int.{ℤ}
use vllm_observer.Base.Float.{Float}
use vllm_observer.Base.Dict.{Dict}
use vllm_observer.Base.Json.{Json}
use vllm_observer.Base.Outcome.{Outcome, ret, raise}
use vllm_observer.Core.Trace.{RequestTrace, Event, new, finish}
use vllm_observer.Core.Chain.{Filter, process}
use vllm_observer.Middleware.Headers.{Headers, header_value, get_trace_id, parent_span}
use vllm_observer.Middleware.Content.{Bytes, Codec, ShapeError, parse_request, parse_response}
use vllm_observer.Middleware.Call.{
  Call, new_call, with_status, Action, act_all, Ending, final_status,
}

-- What outlives a request: `metrics.inflight`, the trace that `current_request` holds, by its
-- identifier, and what the filters keep.
pub record Server (W : Type 0) : Type 0 where
  pub inflight : ℕ
  pub current : Option String
  pub world : W

-- `metrics.labels`: service, model and instance, which the event is extended with.
abbrev pub Labels : Type 0
Labels = String × String × String

-- What one request reads: its headers and path, the clock, and fresh identifiers.
pub record Arrival (F : Type 0) : Type 0 where
  pub headers : Headers
  pub path : String
  pub fresh : String
  pub root : String
  pub started_ns : ℤ
  pub started : F

-- `b"".join(chunks)`
abbrev pub concat : List Bytes → Bytes
concat [] = []
concat (chunk ∷ chunks) = chunk ++ concat chunks

module _ {F : Type 0} ⦃f : Float F⦄ where
  -- The trace of a request, before the application is called.
  unfoldable pub arrive : Arrival F → RequestTrace F
  unfolding new header_value get_trace_id parent_span
  arrive a =
      let trace_id = get_trace_id a.fresh a.headers in
      record (new trace_id a.started_ns a.started a.root) {
        route = a.path;
        user_id = header_value a.headers "x-user-id";
        session_id = header_value a.headers "x-session-id";
        parent_span_id = parent_span trace_id a.headers none;
      }

  -- The trace with the captured bodies, if the response could be parsed.
  abbrev pub with_content :
      Dict (Json F)
      → RequestTrace F
      → Outcome ShapeError (Option (Json F))
      → Outcome ShapeError (RequestTrace F)
  with_content payload t (raise x) = raise x
  with_content payload t (ret text) =
      ret (record t { request_payload = some payload; response_text = text })

  -- The trace when the application has ended.
  unfoldable pub settle : Codec F → Bool → Ending → Call F → Outcome ShapeError (RequestTrace F)
  unfolding final_status parse_request parse_response
  settle codec capture ending c =
      let t = with_status (final_status ending c) c.trace in
      if capture
      then with_content (parse_request codec (concat c.request_chunks) t.route) t
          (parse_response codec (concat c.response_chunks))
      else ret t

  module _ {X W : Type 0} (filters : List (Filter X (Labels × Event F) W)) (labels : Labels) where
    -- The `finally` clause; the parsers come before the rest of it.
    unfoldable pub conclude :
        Option String
        → F
        → Ending
        → Outcome ShapeError (RequestTrace F)
        → Server W
        → Outcome ShapeError Ending × Server W
    unfolding finish process
    conclude token perf ending (raise x) server = (raise x, server)
    conclude token perf ending (ret t) server = (
      ret ending,
      record server {
        inflight = server.inflight - 1;
        current = token;
        world = process filters (labels, (finish perf t).0) server.world;
      },
    )

    -- The whole call: `actions` and `ending` are what the application does, `perf` the clock at its end.
    unfoldable pub handle :
        Codec F
        → Bool
        → Arrival F
        → List (Action F)
        → Ending
        → F
        → Server W
        → Outcome ShapeError Ending × Server W
    unfolding arrive act_all new_call settle conclude
    handle codec capture arrival actions ending perf server =
        let trace = arrive arrival in
        let opened = record server {
          inflight = server.inflight + 1;
          current = some trace.trace_id;
        } in
        conclude server.current perf ending
          (settle codec capture ending (act_all capture actions (new_call trace))) opened
