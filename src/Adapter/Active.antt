-- ===== src/Adapter/Active.antt =====
-- `observed_generate` and `observed_update` of src/vllm_observer/adapter.py, and the table `active`
-- that they share. A trace is known by a key, and a generation in it by its identifier: the table,
-- the call that runs and the trace hold the same dict, so a change of one shows in all.
pub mod Calls
pub mod Kept
pub mod Released
pub mod Settled
pub mod Updates
mod Tests
use vllm_observer.Base.{
  ℕ, ◌+◌, ◌-◌, String, Bool, true, false, ◌&&◌, ◌||◌, Option, none, some, List, [], ◌∷◌, ◌++◌, map,
  if◌then◌else◌, str_eq,
}
use vllm_observer.Base.Int.{ℤ}
use vllm_observer.Base.Float.{Float}
use vllm_observer.Base.Json.{Json}
use vllm_observer.Base.Dict.{Dict, lookup, insert, erase}
use vllm_observer.Core.Trace.{
  RequestTrace, Generation, Observation, span, generation, add, begin_generation, now_ns,
}
use vllm_observer.Engine.Registry.{Record}
use vllm_observer.Adapter.{Numerals, Stat, Stats, record_timeline}
use vllm_observer.Adapter.Collect.{record_engine_stages}

-- A call of `generate` that has not ended: its request, and the trace and the generation that it has
-- taken hold of, none without a current trace.
pub record Generating : Type 0 where
  pub request_id : String
  pub target : Option (String × String)

pub record Frontend (F : Type 0) : Type 0 where
  pub traces : Dict (RequestTrace F)
  pub active : Dict (String × String)
  pub running : List Generating

-- How the iteration over the outputs ends.
pub data Exit : Type 0 where
  returned cancelled failed : Exit

-- What `finished_requests[-1]` and the statistics of the request hold.
pub record Finished (F : Type 0) : Type 0 where
  pub request_id : String
  pub queued_time : F
  pub prefill_time : F
  pub decode_time : F
  pub stat : Stat
  pub raw : Stats F
  pub payload : Option String

module _ {F : Type 0} where
  abbrev pub set_status : Exit → Generation F → Generation F
  set_status returned g = g
  set_status cancelled g = record g { metadata = insert "status" (Json.str "cancelled") g.metadata }
  set_status failed g = record g { metadata = insert "status" (Json.str "error") g.metadata }

  -- A change of the generation with the identifier `id`.
  abbrev pub on_observation : String → (Generation F → Generation F) → Observation F → Observation F
  on_observation id h (span s) = span s
  on_observation id h (generation g) = if str_eq g.id id then generation (h g) else generation g

  abbrev pub on_generation :
      String → (Generation F → Generation F) → RequestTrace F → RequestTrace F
  on_generation id h t = record t { observations = map (on_observation id h) t.observations }

  abbrev pub find_generation : String → List (Observation F) → Option (Generation F)
  find_generation id [] = none
  find_generation id (span s ∷ observations) = find_generation id observations
  find_generation id (generation g ∷ observations) =
      if str_eq g.id id then some g else find_generation id observations

  -- A change of the trace with the key `key`.
  abbrev pub on_trace :
      String → (RequestTrace F → RequestTrace F) → Dict (RequestTrace F) → Dict (RequestTrace F)
  on_trace key h [] = []
  on_trace key h ((k, t) ∷ traces) = (k, (if str_eq k key then h t else t)) ∷ on_trace key h traces

module _ {F : Type 0} ⦃f : Float F⦄ where
  -- `observed_generate`, up to its first output; `id` is the fresh identifier of the generation.
  unfoldable pub begin_call : Option String → String → F → String → Frontend F → Frontend F
  unfolding begin_generation
  begin_call none id perf request_id x = record x {
    running = record { request_id = request_id; target = none } ∷ x.running;
  }
  begin_call (some key) id perf request_id x = record {
    traces = on_trace key (λ t. (begin_generation id perf request_id t).1) x.traces;
    active = insert request_id (key, id) x.active;
    running = record { request_id = request_id; target = some (key, id) } ∷ x.running;
  }

  -- `generation["end_ns"] = trace.now_ns()`, behind the handlers.
  unfoldable pub end_generation :
      Exit → F → Option (String × String) → Dict (RequestTrace F) → Dict (RequestTrace F)
  unfolding now_ns
  end_generation ending perf none traces = traces
  end_generation ending perf (some (key, id)) traces =
      on_trace key
        (λ t.
          on_generation id (λ g. record (set_status ending g) { end_ns = some (now_ns t perf) }) t)
        traces

  -- The handlers and the `finally` clauses of a call, where `others` are the calls that go on.
  unfoldable pub end_call : Exit → F → Generating → List Generating → Frontend F → Frontend F
  unfolding end_generation
  end_call ending perf call others x = record {
    traces = end_generation ending perf call.target x.traces;
    active = erase call.request_id x.active;
    running = others;
  }

  module _ (numerals : Numerals F) (fresh : String → String) (loads : String → Option (Record F))
      (perf later : F) where
    -- `record_timeline` and, unless it raises, `record_engine_stages`, on the generation in the trace.
    unfoldable pub collect_stages : String → Finished F → RequestTrace F → RequestTrace F
    collect_stages id done t = elim (find_generation id t.observations) [
      | none ↦ t
      | some g ↦
          let r = record_timeline numerals fresh perf done.stat done.raw g t in
          let c =
            record_engine_stages numerals fresh loads perf later done.payload done.raw.clock
              r.generation r.trace in
          if r.raised
          then on_generation id (λ _. r.generation) r.trace
          else on_generation id (λ _. c.generation) c.trace
    ]

    -- The body of `observed_update` for an active request: a missing number of tokens raises.
    unfoldable pub collect_statistics : String → Finished F → RequestTrace F → RequestTrace F
    unfolding add collect_stages
    collect_statistics id done t =
        let t' =
          add "prefill" done.prefill_time 1 (
            add "queue" done.queued_time 1
              (record t { engine_requests = t.engine_requests + 1 })) in
        elim done.stat.generation_tokens [
          | none ↦ t'
          | some tokens ↦ collect_stages id done (add "decode" done.decode_time (tokens - 1) t')
        ]

    -- `observed_update`, once the wrapped method has returned.
    unfoldable pub observed_update : Finished F → Frontend F → Frontend F
    unfolding collect_statistics
    observed_update done x = elim (lookup done.request_id x.active) [
      | none ↦ x
      | some (key, id) ↦ record x { traces = on_trace key (collect_statistics id done) x.traces }
    ]
