-- ===== src/Middleware/Tests.antt =====
-- Calls of the middleware: one that streams and is read by a client that stays, one that is left, and one
-- whose response is a JSON list.
use vllm_observer.Base.{ℕ, ◌+◌, ◌≡◌, refl, String, true, false, none, some, List, [], ◌∷◌, map, All}
use vllm_observer.Base.Int.{ℤ, pos}
use vllm_observer.Base.Float.{nanoseconds}
use vllm_observer.Base.Json.{Json, Items, Fields}
use vllm_observer.Base.Outcome.{ret, raise}
use vllm_observer.Core.Trace.{RequestTrace, Event, new}
use vllm_observer.Core.Chain.{Filter, process}
use vllm_observer.Middleware.Headers.{
  Headers, get_trace_id, trace_parent, is_trace_id, take_hex, is_hex, last_value, is_named,
  header_value, lower, version, after_version, after_id, span_group, ◌>>=◌,
}
use vllm_observer.Middleware.Headers.Identity.{
  IsTraceId, printed, is_trace_id-AreDigits, is_nonzero_lem, get_trace_id-IsTraceId,
}
use vllm_observer.Middleware.Content.{
  Codec, unexpected_shape, parse_response, parts_of, parse_chunk, payload_of, join, splitlines,
  lstrip, rstrip, after_prefix, is_space, is_break, get, first_of, is_truthy, choice_content,
  fields_dict,
}
use vllm_observer.Middleware.Call.{
  request, disconnect, start, body, Action, receives, sends, act_all, act, Call, new_call, returned,
  is_ok, final_status, traced_receive, traced_send,
}
use vllm_observer.Middleware.Call.Endings.{final_status_ok}
use vllm_observer.Middleware.Call.Messages.{IsTraced, without_trace, messages_of, sent-IsTraced}
use vllm_observer.Middleware.Serve.{Server, Labels, Arrival, arrive, handle}
use vllm_observer.Middleware.Serve.Together.{
  Api, admit, dismiss, begin, next, arrives, acts, ends, IsBalanced, requests_accounted,
}
use vllm_observer.Bootstrap.Switches.{Environ}
use vllm_observer.RemoteWrite.Settings.{bad_url}
use vllm_observer.Middleware.Setup.{
  Calls, make_middleware, IsAnnounced, make_middleware-IsAnnounced,
}
use vllm_observer.Middleware.Serve.Balance.{handle_balanced, handle_leaks}

abbrev trace_id : String
trace_id = "0af7651916cd43dd8448eb211c80319c"

abbrev fresh : String
fresh = "11111111111111111111111111111111"

-- A trace parent under a name in mixed case, and a user.
abbrev headers : Headers
headers = ("TraceParent", printed trace_id "b7ad6b7169203331" "01") ∷ ("X-User-Id", "u1") ∷ []

read_headers :
    (get_trace_id fresh headers ≡ trace_id)
    × (get_trace_id fresh (("x-trace-id", "0AF7651916cd43dd8448eb211c80319c") ∷ []) ≡ fresh)
    × (header_value headers "x-user-id" ≡ some "u1")
unfolding get_trace_id header_value last_value is_named lower trace_parent version after_version
    after_id span_group take_hex is_hex is_trace_id ◌>>=◌
read_headers = (refl, refl, refl)

get_trace_id-IsTraceId_example : IsTraceId (get_trace_id fresh headers)
unfolding is_trace_id take_hex is_hex
get_trace_id-IsTraceId_example =
    get_trace_id-IsTraceId fresh headers
      (is_trace_id-AreDigits fresh refl, is_nonzero_lem fresh refl)

abbrev plain_trace : RequestTrace ℤ
plain_trace = new trace_id (pos 1000) (pos 5) "root"

-- The response is streamed in two bodies, and the client disconnects after the last.
abbrev streamed : List (Action ℤ)
streamed =
    receives (request (some (1 ∷ 2 ∷ [])))
    ∷ sends (pos 6) (pos 6) (start 200 (("X-Trace-Id", "mine") ∷ ("a", "b") ∷ []))
    ∷ sends (pos 7) (pos 8) (body (some (3 ∷ [])) true)
    ∷ sends (pos 9) (pos 9) (body (some (4 ∷ [])) false)
    ∷ receives disconnect
    ∷ []

final_status_ok_example :
    is_ok (final_status returned (act_all true streamed (new_call plain_trace))) ≡ true
unfolding new
final_status_ok_example = final_status_ok true returned streamed plain_trace refl

sent-IsTraced_example :
    let sent = (act_all true streamed (new_call plain_trace)).sent in
    All (IsTraced plain_trace.trace_id) sent
    × (map without_trace sent ≡ map without_trace (messages_of streamed))
sent-IsTraced_example = sent-IsTraced true streamed plain_trace

abbrev event_line : String
event_line = "data: {}"

-- Every body decodes to the text of one event of a stream, which is parsed as the JSON value given.
abbrev codec : Json ℤ → Codec ℤ
codec value = record {
  decode = λ raw. some event_line;
  decode_replace = λ raw. event_line;
  loads = λ text. some value;
}

abbrev delta : Json ℤ
delta = Json.obj (
    Fields.field "choices"
      (Json.arr (
        Items.cons
          (Json.obj (
            Fields.field "delta" (Json.obj (Fields.field "content" (Json.str "hi") Fields.end))
              Fields.end))
          Items.nil))
      Fields.end)

stream_content : parse_response (codec delta) (1 ∷ []) ≡ ret (some (Json.str "hi"))
unfolding parse_response parts_of parse_chunk payload_of join splitlines lstrip rstrip after_prefix
    is_space is_break get first_of is_truthy choice_content fields_dict
stream_content = refl

abbrev arrival : Arrival ℤ
arrival = record {
  headers = headers;
  path = "/v1/chat/completions";
  fresh = fresh;
  root = "root";
  started_ns = pos 1000;
  started = pos 5;
}

abbrev labels : Labels
labels = ("vllm", "model", "host")

-- A filter that counts the events.
abbrev counting : List (Filter (Unit {0}) (Labels × Event ℤ) ℕ)
counting = (λ event n. (ret (some event), event, n + 1)) ∷ []

abbrev server : Server ℕ
server = record { inflight = 2; current = none; world = 0 }

handle_balanced_example :
    (event : Event ℤ) × (handle counting labels
        (codec delta)
        true
        arrival
        streamed
        returned
        (pos 20)
        server
      ≡ (ret returned, record server { world = process counting (labels, event) 0 }))
    × (event.trace_id ≡ get_trace_id fresh headers)
    × (event.status ≡ final_status returned (act_all true streamed (new_call (arrive arrival))))
unfolding act_all traced_receive traced_send new_call parse_response parts_of parse_chunk payload_of
    join splitlines lstrip rstrip after_prefix is_space is_break get first_of is_truthy
    choice_content fields_dict
handle_balanced_example =
    handle_balanced counting labels (codec delta) true arrival streamed returned (pos 20) server
      refl

handle_leaks_example :
    handle counting labels
      (codec (Json.arr Items.nil))
      true
      arrival
      streamed
      returned
      (pos 20)
      server
    ≡ (
      raise unexpected_shape,
      record server { inflight = 3; current = some (get_trace_id fresh headers) },
    )
unfolding act_all traced_receive traced_send new_call parse_response parts_of parse_chunk payload_of
    join splitlines lstrip rstrip after_prefix is_space is_break get first_of is_truthy
    choice_content fields_dict
handle_leaks_example =
    handle_leaks counting labels (codec (Json.arr Items.nil)) true arrival streamed returned
      (pos 20) server refl

abbrev empty_api : Api ℤ ℕ
empty_api = record {
  server = record { inflight = 0; current = none; world = 0 };
  calls = [];
  arrived = [];
  delivered = [];
  lost = [];
}

abbrev other_arrival : Arrival ℤ
other_arrival = record arrival { headers = []; root = "other" }

abbrev first_call : Call ℤ
first_call = new_call (arrive arrival)

abbrev other_call : Call ℤ
other_call = new_call (arrive other_arrival)

abbrev answered : Call ℤ
answered = act true (sends (pos 6) (pos 6) (start 200 [])) first_call

-- Two requests run at once, and the one that came first sends its status, and is the first to end.
abbrev together : Api ℤ ℕ
together =
    dismiss counting labels (codec delta) true returned (pos 20) answered (other_call ∷ [])
      (record (admit counting labels (codec delta) true other_arrival
        (admit counting labels (codec delta) true arrival empty_api)) {
          calls = other_call ∷ answered ∷ [];
        })

requests_accounted_example : IsBalanced counting labels (codec delta) true 0 together
unfolding admit
requests_accounted_example = requests_accounted counting labels (codec delta) true (
    next
      (next (next (next (begin none) (arrives arrival)) (arrives other_arrival))
        (acts (sends (pos 6) (pos 6) (start 200 [])) first_call (other_call ∷ []) [] refl))
      (ends returned (pos 20) answered (other_call ∷ []) [] refl))

-- Langfuse is enabled, and its client cannot be made.
abbrev calls : Calls (Unit {0}) (Unit {0}) ℤ ℕ
calls = record { hooks = ret tt; writer = raise bad_url; exporter = raise tt; attached = ret tt }

abbrev environ : Environ
environ = ("OBSERVER_LANGFUSE_ENABLED", "1") ∷ ("OBSERVER_PUSH_ENABLED", "0") ∷ []

make_middleware-IsAnnounced_example : IsAnnounced environ (make_middleware environ true none calls)
make_middleware-IsAnnounced_example = make_middleware-IsAnnounced environ true calls
