-- ===== src/Middleware/Call.antt =====
-- One traced call in `ObserverMiddleware.__call__` of src/vllm_observer/middleware.py: what the
-- application receives and sends, and how the call ends.
pub mod Messages
pub mod FirstBody
pub mod Endings
use vllm_observer.Base.{
  ℕ, ◌+◌, String, Bool, true, false, not, ◌&&◌, Option, none, some, List, [], ◌∷◌, ◌++◌, length,
  filter_by, leb, if◌then◌else◌,
}
use vllm_observer.Base.Float.{Float}
use vllm_observer.Core.Trace.{RequestTrace, Status, ok, cancelled, error, add, now_ns}
use vllm_observer.Middleware.Headers.{Headers, is_named}
use vllm_observer.Middleware.Content.{Bytes}

-- `CONTENT_LIMIT`
abbrev pub content_limit : ℕ
content_limit = 100000

-- A message of `receive`; a body is none where the message has none, or None.
pub data Inbound : Type 0 where
  request : (body : Option Bytes) → Inbound
  disconnect other : Inbound

-- A message of `send`.
pub data Outbound : Type 0 where
  start : (status : ℕ) (headers : Headers) → Outbound
  body : (content : Option Bytes) (more_body : Bool) → Outbound
  extension : Outbound

-- The variables that the two wrappers close over, and the messages passed on to `send`.
pub record Call (F : Type 0) : Type 0 where
  pub trace : RequestTrace F
  pub request_chunks : List Bytes
  pub response_chunks : List Bytes
  pub first_body : Bool
  pub complete : Bool
  pub sent : List Outbound

-- `sum(len(c) for c in chunks)`
abbrev pub total_length : List Bytes → ℕ
total_length [] = 0
total_length (chunk ∷ chunks) = length chunk + total_length chunks

abbrev pub capture_chunk : Bool → Bytes → List Bytes → List Bytes
capture_chunk capture chunk chunks =
    if capture && leb (total_length chunks + length chunk) content_limit
    then chunks ++ chunk ∷ []
    else chunks

-- `message.get("body") or b""`
abbrev pub bytes_of : Option Bytes → Bytes
bytes_of none = []
bytes_of (some bytes) = bytes

abbrev pub is_filled : Bytes → Bool
is_filled [] = false
is_filled (_ ∷ _) = true

abbrev pub trace_header : String
trace_header = "x-trace-id"

abbrev pub untraced : Headers → Headers
untraced headers = filter_by (λ h. not (is_named trace_header h.0)) headers

module _ {F : Type 0} where
  unfoldable pub new_call : RequestTrace F → Call F
  new_call trace = record {
    trace = trace;
    request_chunks = [];
    response_chunks = [];
    first_body = false;
    complete = false;
    sent = [];
  }

  abbrev pub with_status : Status → RequestTrace F → RequestTrace F
  with_status status trace = record trace { status = status }

  -- `traced_receive`, once `receive` returned the message.
  unfoldable pub traced_receive : Bool → Inbound → Call F → Call F
  traced_receive capture (request content) c = record c {
    request_chunks = capture_chunk capture (bytes_of content) c.request_chunks;
  }
  traced_receive capture disconnect c =
      if c.complete then c else record c { trace = with_status cancelled c.trace }
  traced_receive capture other c = c

-- What the application does with the two wrappers; sending reads the clock twice at most.
pub data Action (F : Type 0) : Type 0 where
  receives : Inbound → Action F
  sends : (perf later : F) → Outbound → Action F

module _ {F : Type 0} ⦃f : Float F⦄ where
  -- `trace.add("http_first_body", ...)` and `trace.first_body_ns = ...`, at two readings of the clock.
  unfoldable pub mark_first_body : F → F → RequestTrace F → RequestTrace F
  mark_first_body perf later trace =
      let t = add "http_first_body" (f.sub perf trace.started) 1 trace in
      record t { first_body_ns = some (now_ns t later) }

  -- `traced_send`, up to the message that it hands to `send`.
  unfoldable pub traced_send : Bool → F → F → Outbound → Call F → Call F
  unfolding mark_first_body is_named
  traced_send capture perf later (start status headers) c = record c {
    trace = if leb 400 status then with_status error c.trace else c.trace;
    sent = c.sent ++ start status (untraced headers ++ (trace_header, c.trace.trace_id) ∷ []) ∷ [];
  }
  traced_send capture perf later (body content more_body) c =
      let bytes = bytes_of content in
      let first = is_filled bytes && not c.first_body in
      record c {
        trace = if first then mark_first_body perf later c.trace else c.trace;
        response_chunks = capture_chunk (capture && is_filled bytes) bytes c.response_chunks;
        first_body = if first then true else c.first_body;
        complete = not more_body;
        sent = c.sent ++ body content more_body ∷ [];
      }
  traced_send capture perf later extension c = record c { sent = c.sent ++ extension ∷ [] }

  abbrev pub act : Bool → Action F → Call F → Call F
  act capture (receives message) c = traced_receive capture message c
  act capture (sends perf later message) c = traced_send capture perf later message c

  unfoldable pub act_all : Bool → List (Action F) → Call F → Call F
  unfolding traced_receive traced_send
  act_all capture [] c = c
  act_all capture (action ∷ actions) c = act_all capture actions (act capture action c)

-- How the application ends: it returns, is cancelled, raises an `Exception`, or raises another
-- `BaseException`.
pub data Ending : Type 0 where
  returned was_cancelled raised interrupted : Ending

abbrev pub is_ok : Status → Bool
is_ok ok = true
is_ok _ = false

-- The status when the call ends, in the `try` statement around the application.
unfoldable pub final_status : {F : Type 0} → Ending → Call F → Status
final_status returned c =
    if not c.complete && is_ok c.trace.status then cancelled else c.trace.status
final_status was_cancelled c = cancelled
final_status raised c = error
final_status interrupted c = c.trace.status
