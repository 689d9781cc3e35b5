-- ===== src/Middleware/Serve/Balance.antt =====
-- What a traced call of src/vllm_observer/middleware.py leaves behind.
use vllm_observer.Base.{
  ◌+◌, ◌≡◌, refl, ap, ◌∙◌, String, Bool, true, false, ◌&&◌, Option, some, List, if◌then◌else◌,
  arith,
}
use vllm_observer.Base.Float.{Float}
use vllm_observer.Base.Dict.{Dict}
use vllm_observer.Base.Json.{Json}
use vllm_observer.Base.Outcome.{Outcome, ret, raise}
use vllm_observer.Core.Trace.{RequestTrace, Event, new, finish, add}
use vllm_observer.Core.Chain.{Filter, process}
use vllm_observer.Middleware.Headers.{get_trace_id}
use vllm_observer.Middleware.Content.{
  Codec, ShapeError, parse_request, parse_response, unexpected_shape,
}
use vllm_observer.Middleware.Call.{
  Call, new_call, with_status, Action, act_all, Ending, final_status,
}
use vllm_observer.Middleware.Call.Messages.{act_all-trace_id}
use vllm_observer.Middleware.Serve.{
  Server, Labels, Arrival, concat, arrive, with_content, settle, conclude, handle,
}

abbrev pub raises : {A : Type 0} → Outcome ShapeError A → Bool
raises (ret _) = false
raises (raise _) = true

module _ {F : Type 0} ⦃f : Float F⦄ where
  pub read_content :
      (payload : Dict (Json F)) (t : RequestTrace F) (capture : Bool)
      (text : Outcome ShapeError (Option (Json F)))
      → capture && raises text ≡ false
      → (t' : RequestTrace F) × ((if capture then with_content payload t text else ret t) ≡ ret t')
        × (t'.trace_id ≡ t.trace_id)
        × (t'.status ≡ t.status)
  read_content payload t false text h = (t, refl, refl, refl)
  read_content payload t true (ret text) h =
      (record t { request_payload = some payload; response_text = text }, refl, refl, refl)
  read_content payload t true (raise x) h = absurd (ground arith)

  pub read_nothing :
      (payload : Dict (Json F)) (t : RequestTrace F) (capture : Bool)
      (text : Outcome ShapeError (Option (Json F)))
      → capture && raises text ≡ true
      → (if capture then with_content payload t text else ret t) ≡ raise unexpected_shape
  read_nothing payload t false text h = absurd (ground arith)
  read_nothing payload t true (ret text) h = absurd (ground arith)
  read_nothing payload t true (raise unexpected_shape) h = refl

  pub finish_lem :
      (perf : F) (t : RequestTrace F)
      → ((finish perf t).0.trace_id ≡ t.trace_id) × ((finish perf t).0.status ≡ t.status)
  unfolding finish add
  finish_lem perf t = (refl, refl)

module _ {F : Type 0} ⦃f : Float F⦄ {X W : Type 0} (filters : List (Filter X (Labels × Event F) W))
    (labels : Labels) (codec : Codec F) (capture : Bool) (arrival : Arrival F)
    (actions : List (Action F)) (ending : Ending) (perf : F) (server : Server W) where
  abbrev pub call : Call F
  call = act_all capture actions (new_call (arrive arrival))

  -- Whether the body of the response is captured and is no answer that the parser can read.
  abbrev pub is_unreadable : Bool
  is_unreadable = capture && raises (parse_response codec (concat call.response_chunks))

  settle_returns :
      is_unreadable ≡ false
      → (t : RequestTrace F) × (settle codec capture ending call ≡ ret t)
        × (t.trace_id ≡ call.trace.trace_id)
        × (t.status ≡ final_status ending call)
  unfolding settle
  settle_returns h =
      read_content (parse_request codec (concat call.request_chunks) call.trace.route)
        (with_status (final_status ending call) call.trace) capture
        (parse_response codec (concat call.response_chunks)) h

  settle_raises : is_unreadable ≡ true → settle codec capture ending call ≡ raise unexpected_shape
  unfolding settle
  settle_raises h =
      read_nothing (parse_request codec (concat call.request_chunks) call.trace.route)
        (with_status (final_status ending call) call.trace) capture
        (parse_response codec (concat call.response_chunks)) h

  conclude_returns :
      (trace_id : String) (t : RequestTrace F)
      → conclude filters labels server.current perf ending
          (ret t)
          (record server { inflight = server.inflight + 1; current = some trace_id })
        ≡ (
          ret ending,
          record server { world = process filters (labels, (finish perf t).0) server.world },
        )
  unfolding conclude
  conclude_returns trace_id t = ground arith

  arrive_lem : (arrive arrival).trace_id ≡ get_trace_id arrival.fresh arrival.headers
  unfolding arrive new
  arrive_lem = refl

  call_trace_id :
      (new_call (arrive arrival)).trace.trace_id ≡ get_trace_id arrival.fresh arrival.headers
  unfolding new_call
  call_trace_id = arrive_lem

  -- Whatever the application does and however it ends, the call hands its ending on, leaves the
  -- in-flight gauge and the context variable as they were, and gives the filters one event, of this
  -- trace and with the status that the call ended with; if the captured response can be read.
  pub handle_balanced :
      is_unreadable ≡ false
      → (event : Event F) × (handle filters labels codec capture arrival actions ending perf server
          ≡ (ret ending, record server { world = process filters (labels, event) server.world }))
        × (event.trace_id ≡ get_trace_id arrival.fresh arrival.headers)
        × (event.status ≡ final_status ending call)
  unfolding handle
  handle_balanced h =
      let (t, e, same, status) = settle_returns h in
      let opened : Server W = record server {
        inflight = server.inflight + 1;
        current = some (arrive arrival).trace_id;
      } in
      (
        (finish perf t).0,
        ap (λ o. conclude filters labels server.current perf ending o opened) e
            ∙ conclude_returns (arrive arrival).trace_id t,
        (finish_lem perf t).0
            ∙ same
            ∙ act_all-trace_id capture actions (new_call (arrive arrival))
            ∙ call_trace_id,
        (finish_lem perf t).1 ∙ status,
      )

  -- A captured response that the parser cannot read makes the call raise in place of its own ending,
  -- leaves the gauge one higher and the context variable set, and gives the filters no event.
  pub handle_leaks :
      is_unreadable ≡ true
      → handle filters labels codec capture arrival actions ending perf server ≡ (
        raise unexpected_shape,
        record server {
          inflight = server.inflight + 1;
          current = some (get_trace_id arrival.fresh arrival.headers);
        },
      )
  unfolding handle conclude
  handle_leaks h =
      let opened =
        λ (id : String). record server { inflight = server.inflight + 1; current = some id } in
      ap
        (λ o.
          conclude filters labels server.current perf ending o (opened (arrive arrival).trace_id))
        (settle_raises h)
      ∙ ap (λ id. (raise unexpected_shape, opened id)) arrive_lem
