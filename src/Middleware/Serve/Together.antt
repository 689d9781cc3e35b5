-- ===== src/Middleware/Serve/Together.antt =====
-- Requests of src/vllm_observer/middleware.py that run at once: they share the in-flight gauge and the
-- chain of filters, while each has its own trace and its own `current_request`.
use vllm_observer.Base.{
  ℕ, ◌+◌, ◌≡◌, ◌⊎◌, inl, inr, refl, sym, ap, ◌∙◌, subst, String, Bool, true, false, ◌&&◌, ◌||◌,
  Option, List, [], ◌∷◌, ◌++◌, length, if◌then◌else◌, str_eq, arith, Bool-cases,
}
use vllm_observer.Base.Float.{Float}
use vllm_observer.Base.Outcome.{Outcome, ret, raise}
use vllm_observer.Core.Trace.{RequestTrace, Event, finish}
use vllm_observer.Core.Chain.{Filter, process}
use vllm_observer.Middleware.Content.{
  Codec, ShapeError, unexpected_shape, parse_request, parse_response,
}
use vllm_observer.Middleware.Call.{Call, new_call, with_status, Action, act, Ending, final_status}
use vllm_observer.Middleware.Call.Messages.{act-trace_id}
use vllm_observer.Middleware.Serve.{Server, Labels, Arrival, concat, arrive, settle, conclude}
use vllm_observer.Middleware.Serve.Balance.{read_content, read_nothing, finish_lem, raises}

-- The requests that are running; of which traces requests arrived; the events of those that ended
-- with one, the last in front; and of which traces requests ended without one.
pub record Api (F W : Type 0) : Type 0 where
  pub server : Server W
  pub calls : List (Call F)
  pub arrived : List String
  pub delivered : List (Event F)
  pub lost : List String

abbrev pub is_nil : {A : Type 0} → List A → Bool
is_nil [] = true
is_nil (_ ∷ _) = false

abbrev pub times : String → List String → ℕ
times id [] = 0
times id (x ∷ xs) = (if str_eq x id then 1 else 0) + times id xs

module _ {F : Type 0} where
  abbrev pub ids : List (Call F) → List String
  ids [] = []
  ids (c ∷ calls) = c.trace.trace_id ∷ ids calls

  times-ids :
      (id : String) (before after : List (Call F)) (c : Call F)
      → times id (ids (before ++ c ∷ after))
        ≡ (if str_eq c.trace.trace_id id then 1 else 0) + times id (ids (before ++ after))
  times-ids id [] after c = omega arith
  times-ids id (b ∷ before) after c = omega (arith, times-ids id before after c)

  length-without :
      (before after : List (Call F)) (c : Call F)
      → length (before ++ c ∷ after) ≡ 1 + length (before ++ after)
  length-without [] after c = omega arith
  length-without (b ∷ before) after c = omega (arith, length-without before after c)

  abbrev pub traces_of : List (Event F) → List String
  traces_of [] = []
  traces_of (event ∷ events) = event.trace_id ∷ traces_of events

module _ {F : Type 0} ⦃f : Float F⦄ where
  abbrev pub delivered_of : F → Outcome ShapeError (RequestTrace F) → List (Event F)
  delivered_of perf (ret t) = (finish perf t).0 ∷ []
  delivered_of perf (raise x) = []

  abbrev pub lost_of : Call F → Outcome ShapeError (RequestTrace F) → List String
  lost_of c (ret t) = []
  lost_of c (raise x) = c.trace.trace_id ∷ []

  settle-cases :
      (codec : Codec F) (capture : Bool) (ending : Ending) (c : Call F)
      → ((t : RequestTrace F) × (settle codec capture ending c ≡ ret t)
          × (t.trace_id ≡ c.trace.trace_id))
        ⊎ ((settle codec capture ending c ≡ raise unexpected_shape) × (capture ≡ true))
  unfolding settle
  settle-cases codec capture ending c =
      let payload = parse_request codec (concat c.request_chunks) c.trace.route in
      let t = with_status (final_status ending c) c.trace in
      let text = parse_response codec (concat c.response_chunks) in
      elim (Bool-cases (capture && raises text)) [
        | inl unreadable ↦ inr (read_nothing payload t capture text unreadable, ground arith)
        | inr readable ↦
            let (u, e, same, _) = read_content payload t capture text readable in inl (u, e, same)
      ]

  -- A result that is the trace of the call; there is none only where bodies are captured.
  abbrev pub IsOwn : Bool → Call F → Outcome ShapeError (RequestTrace F) → Type 0
  IsOwn capture c (ret t) = t.trace_id ≡ c.trace.trace_id
  IsOwn capture c (raise x) = capture ≡ true

  settle-IsOwn :
      (codec : Codec F) (capture : Bool) (ending : Ending) (c : Call F)
      → IsOwn capture c (settle codec capture ending c)
  settle-IsOwn codec capture ending c = elim (settle-cases codec capture ending c) [
    | inl (t, e, same) ↦ subst (IsOwn capture c) (sym e) same
    | inr (e, captures) ↦ subst (IsOwn capture c) (sym e) captures
  ]

  module _ {X W : Type 0} (filters : List (Filter X (Labels × Event F) W)) (labels : Labels)
      (codec : Codec F) (capture : Bool) where
    unfoldable pub admit : Arrival F → Api F W → Api F W
    unfolding arrive new_call
    admit arrival x = record x {
      server = record x.server { inflight = x.server.inflight + 1 };
      calls = new_call (arrive arrival) ∷ x.calls;
      arrived = (arrive arrival).trace_id ∷ x.arrived;
    }

    -- The end of the call `c`, where `others` go on.
    unfoldable pub dismiss : Ending → F → Call F → List (Call F) → Api F W → Api F W
    unfolding settle conclude
    dismiss ending perf c others x =
        let result = settle codec capture ending c in
        record x {
          server = (conclude filters labels x.server.current perf ending result x.server).1;
          calls = others;
          delivered = delivered_of perf result ++ x.delivered;
          lost = lost_of c result ++ x.lost;
        }

    pub data Step (x : Api F W) : Api F W → Type 0 where
      arrives : (arrival : Arrival F) → Step x (admit arrival x)
      acts :
          (action : Action F) (c : Call F) (before after : List (Call F))
          → x.calls ≡ before ++ c ∷ after
          → Step x (record x { calls = before ++ act capture action c ∷ after })
      ends :
          (ending : Ending) (perf : F) (c : Call F) (before after : List (Call F))
          → x.calls ≡ before ++ c ∷ after
          → Step x (dismiss ending perf c (before ++ after) x)

    -- What the filters keep when the chain was given the events, the last of which stands in front.
    abbrev pub fed : W → List (Event F) → W
    fed world [] = world
    fed world (event ∷ events) = process filters (labels, event) (fed world events)

    pub data Reach (world : W) : Api F W → Type 0 where
      begin :
          (current : Option String)
          → Reach world (record {
            server = record { inflight = 0; current = current; world = world };
            calls = [];
            arrived = [];
            delivered = [];
            lost = [];
          })
      next : {x y : Api F W} → Reach world x → Step x y → Reach world y

    pub record IsBalanced (world : W) (x : Api F W) : Type 0 where
      pub handed : x.server.world ≡ fed world x.delivered
      pub gauge : x.server.inflight ≡ length x.calls + length x.lost
      pub accounted :
          (id : String)
          → times id x.arrived
            ≡ times id (ids x.calls) + times id (traces_of x.delivered) + times id x.lost
      pub kept : (capture || is_nil x.lost) ≡ true

    result-IsBalanced :
        (world : W) (ending : Ending) (perf : F) (c : Call F) (before after : List (Call F))
        (x : Api F W) (result : Outcome ShapeError (RequestTrace F))
        → IsOwn capture c result
        → x.calls ≡ before ++ c ∷ after
        → IsBalanced world x
        → IsBalanced world (record x {
          server = (conclude filters labels x.server.current perf ending result x.server).1;
          calls = before ++ after;
          delivered = delivered_of perf result ++ x.delivered;
          lost = lost_of c result ++ x.lost;
        })
    unfolding conclude
    result-IsBalanced world ending perf c before after x (ret t) own e h = record {
      handed = ap (process filters (labels, (finish perf t).0)) h.handed;
      gauge = omega (arith, h.gauge, ap length e, length-without before after c);
      accounted = λ id.
          let same = ap (λ a. times id (a ∷ [])) ((finish_lem perf t).0 ∙ own) in
          omega (
            arith,
            h.accounted id,
            ap (λ cs. times id (ids cs)) e,
            times-ids id before after c,
            same,
          );
      kept = h.kept;
    }
    result-IsBalanced world ending perf c before after x (raise _) own e h = record {
      handed = h.handed;
      gauge = omega (arith, h.gauge, ap length e, length-without before after c);
      accounted = λ id.
          omega
            (arith, h.accounted id, ap (λ cs. times id (ids cs)) e, times-ids id before after c);
      kept = ground arith;
    }

    dismiss-IsBalanced :
        (world : W) (ending : Ending) (perf : F) (c : Call F) (before after : List (Call F))
        (x : Api F W)
        → x.calls ≡ before ++ c ∷ after
        → IsBalanced world x
        → IsBalanced world (dismiss ending perf c (before ++ after) x)
    unfolding dismiss
    dismiss-IsBalanced world ending perf c before after x =
        result-IsBalanced world ending perf c before after x (settle codec capture ending c)
          (settle-IsOwn codec capture ending c)

    ids-act :
        (action : Action F) (c : Call F) (before after : List (Call F))
        → ids (before ++ act capture action c ∷ after) ≡ ids (before ++ c ∷ after)
    ids-act action c [] after = ap (λ id. id ∷ ids after) (act-trace_id capture action c)
    ids-act action c (b ∷ before) after =
        ap (λ is. b.trace.trace_id ∷ is) (ids-act action c before after)

    Step-IsBalanced :
        {world : W} {x y : Api F W} → Step x y → IsBalanced world x → IsBalanced world y
    unfolding admit new_call
    Step-IsBalanced {x = x} (arrives arrival) h = record {
      handed = h.handed;
      gauge = omega (arith, h.gauge);
      accounted = λ id. omega (arith, h.accounted id);
      kept = h.kept;
    }
    Step-IsBalanced {x = x} (acts action c before after e) h = record {
      handed = h.handed;
      gauge = omega (
        arith,
        h.gauge,
        ap length e,
        length-without before after c,
        length-without before after (act capture action c),
      );
      accounted = λ id. omega (
        arith,
        h.accounted id,
        ap (λ cs. times id (ids cs)) e,
        ap (times id) (ids-act action c before after),
      );
      kept = h.kept;
    }
    Step-IsBalanced {world} {x} (ends ending perf c before after e) h =
        dismiss-IsBalanced world ending perf c before after x e h

    -- However requests interleave, from the start of the server: the in-flight gauge is the
    -- number of requests that are running, and of those that have ended without an event; as
    -- often as a trace arrived, it is running, ended with an event, or ended without one; what
    -- the filters keep is what the chain makes of exactly those events, in the order in which the
    -- requests ended; and without the capture of bodies no request ends without an event.
    pub requests_accounted : {world : W} {x : Api F W} → Reach world x → IsBalanced world x
    requests_accounted (begin current) = record {
      handed = refl;
      gauge = refl;
      accounted = λ id. refl;
      kept = ground arith;
    }
    requests_accounted (next r st) = Step-IsBalanced st (requests_accounted r)
