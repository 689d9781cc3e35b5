-- ===== src/Middleware/Call/Messages.antt =====
-- What a traced call of src/vllm_observer/middleware.py captures, sends on and times.
use vllm_observer.Base.{
  ◌+◌, ◌≤◌, ◌≡◌, refl, ap, sym, subst, map, ◌∙◌, String, Bool, not, ◌&&◌, List, [], ◌∷◌, ◌++◌,
  length, filter_by, arith, All, All-append, Bool-cases, inl, inr,
}
use mathlib.Core.List.{append-nil}
use vllm_observer.Base.Float.{Float}
use vllm_observer.Core.Trace.{RequestTrace, add}
use vllm_observer.Middleware.Headers.{Headers, is_named}
use vllm_observer.Middleware.Content.{Bytes}
use vllm_observer.Middleware.Call.{
  request, disconnect, other, Outbound, start, body, extension, Call, traced_receive,
  mark_first_body, traced_send, Action, receives, sends, act, act_all, new_call, total_length,
  content_limit, capture_chunk, untraced, trace_header, bytes_of, is_filled,
}

total_length-append :
    (chunks : List Bytes) (chunk : Bytes)
    → total_length (chunks ++ chunk ∷ []) ≡ total_length chunks + length chunk
total_length-append [] chunk = omega arith
total_length-append (c ∷ chunks) chunk = omega (arith, total_length-append chunks chunk)

capture_chunk_bounded :
    (capture : Bool) (chunk : Bytes) (chunks : List Bytes)
    → total_length chunks ≤ content_limit
    → total_length (capture_chunk capture chunk chunks) ≤ content_limit
capture_chunk_bounded capture chunk chunks h = ground (arith, total_length-append chunks chunk)

-- The headers that are the trace's.
abbrev pub traced : Headers → Headers
traced headers = filter_by (λ h. is_named trace_header h.0) headers

traced-untraced : (headers : Headers) → traced (untraced headers) ≡ []
traced-untraced [] = refl
traced-untraced (h ∷ headers) = ground (arith, traced-untraced headers)

filter_by-append :
    {A : Type 0} (p : A → Bool) (xs ys : List A)
    → filter_by p (xs ++ ys) ≡ filter_by p xs ++ filter_by p ys
filter_by-append p [] ys = refl
filter_by-append p (x ∷ xs) ys = ground (arith, filter_by-append p xs ys)

-- A message that starts a response has one trace header, which holds the trace's identifier.
abbrev pub IsTraced : String → Outbound → Type 0
IsTraced trace_id (start status headers) = traced headers ≡ (trace_header, trace_id) ∷ []
IsTraced trace_id (body content more_body) = Unit
IsTraced trace_id extension = Unit

-- The messages as the application sent them, but for the trace header.
abbrev pub without_trace : Outbound → Outbound
without_trace (start status headers) = start status (untraced headers)
without_trace (body content more_body) = body content more_body
without_trace extension = extension

start-IsTraced :
    (trace_id : String) (headers : Headers)
    → traced (untraced headers ++ (trace_header, trace_id) ∷ []) ≡ (trace_header, trace_id) ∷ []
unfolding is_named
start-IsTraced trace_id headers =
    filter_by-append (λ h. is_named trace_header h.0) (untraced headers)
      ((trace_header, trace_id) ∷ [])
    ∙ ap (λ hs. hs ++ (trace_header, trace_id) ∷ []) (traced-untraced headers)

untraced_idem : (headers : Headers) → untraced (untraced headers) ≡ untraced headers
untraced_idem [] = refl
untraced_idem (h ∷ headers) = ground (arith, untraced_idem headers)

untraced-start :
    (trace_id : String) (headers : Headers)
    → untraced (untraced headers ++ (trace_header, trace_id) ∷ []) ≡ untraced headers
unfolding is_named
untraced-start trace_id headers =
    filter_by-append (λ h. not (is_named trace_header h.0)) (untraced headers)
      ((trace_header, trace_id) ∷ [])
    ∙ ap (λ hs. hs ++ []) (untraced_idem headers)
    ∙ append-nil (untraced headers)

appended :
    (sent : List Outbound) (m m' : Outbound) (rest : List Outbound)
    → without_trace m ≡ without_trace m'
    → map without_trace (sent ++ m ∷ []) ++ map without_trace rest
      ≡ map without_trace sent ++ map without_trace (m' ∷ rest)
appended [] m m' rest e = ap (λ x. x ∷ map without_trace rest) e
appended (s ∷ sent) m m' rest e = ap (λ xs. without_trace s ∷ xs) (appended sent m m' rest e)

module _ {F : Type 0} ⦃f : Float F⦄ where
  mark_first_body-trace_id :
      (perf later : F) (t : RequestTrace F) → (mark_first_body perf later t).trace_id ≡ t.trace_id
  unfolding mark_first_body add
  mark_first_body-trace_id perf later t = refl

  act_bounded :
      (capture : Bool) (a : Action F) (c : Call F)
      → total_length c.request_chunks ≤ content_limit
      → total_length c.response_chunks ≤ content_limit
      → (total_length (act capture a c).request_chunks ≤ content_limit)
        × (total_length (act capture a c).response_chunks ≤ content_limit)
  unfolding traced_receive traced_send
  act_bounded capture (receives (request content)) c h k =
      (capture_chunk_bounded capture (bytes_of content) c.request_chunks h, k)
  act_bounded capture (receives disconnect) c h k = ground arith
  act_bounded capture (receives other) c h k = (h, k)
  act_bounded capture (sends perf later (start status headers)) c h k = (h, k)
  act_bounded capture (sends perf later (body content more_body)) c h k = (
    h,
    capture_chunk_bounded (capture && is_filled (bytes_of content)) (bytes_of content)
        c.response_chunks k,
  )
  act_bounded capture (sends perf later extension) c h k = (h, k)

  act_all_bounded :
      (capture : Bool) (actions : List (Action F)) (c : Call F)
      → total_length c.request_chunks ≤ content_limit
      → total_length c.response_chunks ≤ content_limit
      → let c' = act_all capture actions c in
        (total_length c'.request_chunks ≤ content_limit)
        × (total_length c'.response_chunks ≤ content_limit)
  unfolding act_all
  act_all_bounded capture [] c h k = (h, k)
  act_all_bounded capture (a ∷ actions) c h k =
      let (h', k') = act_bounded capture a c h k in
      act_all_bounded capture actions (act capture a c) h' k'

  -- However long the bodies of a request and its response are, no more than 100,000 bytes of each are
  -- captured.
  pub content_bounded :
      (capture : Bool) (actions : List (Action F)) (trace : RequestTrace F)
      → let c = act_all capture actions (new_call trace) in
        (total_length c.request_chunks ≤ content_limit)
        × (total_length c.response_chunks ≤ content_limit)
  unfolding new_call
  content_bounded capture actions trace =
      act_all_bounded capture actions (new_call trace) (omega arith) (omega arith)

  pub act-trace_id :
      (capture : Bool) (a : Action F) (c : Call F)
      → (act capture a c).trace.trace_id ≡ c.trace.trace_id
  unfolding traced_receive traced_send
  act-trace_id capture (receives message) c = ground arith
  act-trace_id capture (sends perf later message) c =
      ground (arith, mark_first_body-trace_id perf later c.trace)

  act-IsTraced :
      (capture : Bool) (a : Action F) (c : Call F)
      → All (IsTraced c.trace.trace_id) c.sent
      → All (IsTraced c.trace.trace_id) (act capture a c).sent
  unfolding traced_receive traced_send
  act-IsTraced capture (receives (request content)) c h = h
  act-IsTraced capture (receives disconnect) c h = elim (Bool-cases c.complete) [
    | inl done ↦ rw done h
    | inr open_yet ↦ rw open_yet h
  ]
  act-IsTraced capture (receives other) c h = h
  act-IsTraced capture (sends perf later (start status headers)) c h =
      All-append (IsTraced c.trace.trace_id) c.sent _ h
        (start-IsTraced c.trace.trace_id headers, tt)
  act-IsTraced capture (sends perf later (body content more_body)) c h =
      All-append (IsTraced c.trace.trace_id) c.sent _ h (tt, tt)
  act-IsTraced capture (sends perf later extension) c h =
      All-append (IsTraced c.trace.trace_id) c.sent _ h (tt, tt)

  pub act_all-trace_id :
      (capture : Bool) (actions : List (Action F)) (c : Call F)
      → (act_all capture actions c).trace.trace_id ≡ c.trace.trace_id
  unfolding act_all
  act_all-trace_id capture [] c = refl
  act_all-trace_id capture (a ∷ actions) c =
      act_all-trace_id capture actions (act capture a c) ∙ act-trace_id capture a c

  abbrev pub messages_of : List (Action F) → List Outbound
  messages_of [] = []
  messages_of (receives _ ∷ actions) = messages_of actions
  messages_of (sends _ _ message ∷ actions) = message ∷ messages_of actions

  act_all-IsTraced :
      (capture : Bool) (actions : List (Action F)) (c : Call F)
      → All (IsTraced c.trace.trace_id) c.sent
      → All (IsTraced c.trace.trace_id) (act_all capture actions c).sent
  unfolding act_all
  act_all-IsTraced capture [] c h = h
  act_all-IsTraced capture (a ∷ actions) c h =
      subst (λ id. All (IsTraced id) (act_all capture actions (act capture a c)).sent)
        (act-trace_id capture a c)
        (act_all-IsTraced capture actions (act capture a c) (
          subst (λ id. All (IsTraced id) (act capture a c).sent) (sym (act-trace_id capture a c))
            (act-IsTraced capture a c h)))

  act_all-sent :
      (capture : Bool) (actions : List (Action F)) (c : Call F)
      → map without_trace (act_all capture actions c).sent
        ≡ map without_trace c.sent ++ map without_trace (messages_of actions)
  unfolding act_all traced_receive traced_send
  act_all-sent capture [] c = sym (append-nil (map without_trace c.sent))
  act_all-sent capture (receives message ∷ actions) c =
      act_all-sent capture actions (traced_receive capture message c)
      ∙ ap (λ ms. map without_trace ms ++ map without_trace (messages_of actions)) (ground arith)
  act_all-sent capture (sends perf later (start status headers) ∷ actions) c =
      act_all-sent capture actions (traced_send capture perf later (start status headers) c)
      ∙ appended c.sent _ (start status headers) (messages_of actions)
          (ap (start status) (untraced-start c.trace.trace_id headers))
  act_all-sent capture (sends perf later (body content more_body) ∷ actions) c =
      act_all-sent capture actions (traced_send capture perf later (body content more_body) c)
      ∙ appended c.sent (body content more_body) (body content more_body) (messages_of actions) refl
  act_all-sent capture (sends perf later extension ∷ actions) c =
      act_all-sent capture actions (traced_send capture perf later extension c)
      ∙ appended c.sent extension extension (messages_of actions) refl

  -- Every message reaches the client, in order and unchanged but for the trace header: of that name
  -- a message that starts the response has one header, with the identifier of the trace.
  pub sent-IsTraced :
      (capture : Bool) (actions : List (Action F)) (trace : RequestTrace F)
      → let sent = (act_all capture actions (new_call trace)).sent in
        All (IsTraced trace.trace_id) sent
        × (map without_trace sent ≡ map without_trace (messages_of actions))
  unfolding new_call
  sent-IsTraced capture actions trace = (
    act_all-IsTraced capture actions (new_call trace) tt,
    act_all-sent capture actions (new_call trace),
  )
