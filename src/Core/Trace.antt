-- ===== src/Core/Trace.antt =====
-- `Aggregate` and `RequestTrace` of src/vllm_observer/core.py. Wall-clock instants are whole
-- nanoseconds; `perf_counter` readings are floats, which each operation takes as an argument, as it
-- does the fresh identifier that `uuid4` gives.
pub mod Stages
pub mod Spans
pub mod Finish
mod Tests
use vllm_observer.Base.{
  ℕ, zero, suc, ◌+◌, String, Bool, true, false, Option, none, some, List, [], ◌∷◌, ◌++◌,
  if◌then◌else◌, ◌==◌,
}
use vllm_observer.Base.Int.{ℤ, pos, ◌+ℤ◌, ltb_ℤ, leb_ℤ}
use vllm_observer.Base.Float.{Float, max_zero}
use vllm_observer.Base.Dict.{Dict, lookup, insert, setdefault, modify, merge}
use vllm_observer.Base.Json.{Json}
use vllm_observer.Base.Outcome.{Outcome, ret, raise}

pub record Aggregate (F : Type 0) : Type 0 where
  pub count : ℕ
  pub total_seconds : F

-- What `Aggregate.export` adds to the fields.
pub record Exported (F : Type 0) : Type 0 where
  pub count : ℕ
  pub total_seconds : F
  pub mean_seconds : F

pub data Status : Type 0 where
  ok cancelled error : Status

-- An observation of type "span".
pub record Span (F : Type 0) : Type 0 where
  pub id : String
  pub parent_id : Option String
  pub name : String
  pub start_ns : ℤ
  pub end_ns : ℤ
  pub metadata : Dict (Json F)

-- An observation of type "generation", whose name is always "generate-response".
pub record Generation (F : Type 0) : Type 0 where
  pub id : String
  pub parent_id : Option String
  pub start_ns : ℤ
  pub end_ns : Option ℤ
  pub metadata : Dict (Json F)
  pub usage : Dict ℕ
  pub completion_start_ns : Option ℤ

pub data Observation (F : Type 0) : Type 0 where
  span : Span F → Observation F
  generation : Generation F → Observation F

pub record RequestTrace (F : Type 0) : Type 0 where
  pub trace_id : String
  pub parent_span_id : Option String
  pub started_ns : ℤ
  pub started : F
  pub status : Status
  pub stages : Dict (Aggregate F)
  pub engine_requests : ℕ
  pub root_span_id : String
  pub observations : List (Observation F)
  pub route : String
  pub first_body_ns : Option ℤ
  pub api_intervals : List (Span F)
  pub request_payload : Option (Dict (Json F))
  pub response_text : Option (Json F)
  pub user_id : Option String
  pub session_id : Option String

-- The event that `finish` hands to the filters.
pub record Event (F : Type 0) : Type 0 where
  pub trace_id : String
  pub parent_span_id : Option String
  pub started_ns : ℤ
  pub status : Status
  pub engine_requests : ℕ
  pub root_span_id : String
  pub route : String
  pub observations : List (Observation F)
  pub stages : Dict (Exported F)
  pub request_payload : Option (Dict (Json F))
  pub response_text : Option (Json F)
  pub first_body_ns : Option ℤ
  pub api_intervals : List (Span F)
  pub user_id : Option String
  pub session_id : Option String

-- `ValueError("Observation end precedes start")`
pub data IntervalError : Type 0 where
  end_precedes_start : IntervalError

module _ {F : Type 0} ⦃f : Float F⦄ where
  -- `Aggregate()`
  unfoldable pub empty_aggregate : Aggregate F
  empty_aggregate = record { count = 0; total_seconds = f.zero }

  -- `Aggregate.add`
  unfoldable pub accumulate : F → ℕ → Aggregate F → Aggregate F
  accumulate duration count a = record {
    count = a.count + count;
    total_seconds = f.add a.total_seconds (max_zero duration);
  }

  -- `Aggregate.export`
  unfoldable pub export : Aggregate F → Exported F
  export a = record {
    count = a.count;
    total_seconds = a.total_seconds;
    mean_seconds = if a.count == 0 then f.zero else f.mean a.total_seconds a.count;
  }

  abbrev pub export_all : Dict (Aggregate F) → Dict (Exported F)
  export_all [] = []
  export_all ((k, a) ∷ d) = (k, export a) ∷ export_all d

  -- `RequestTrace(trace_id)`: the clock readings and the identifier come from the defaults.
  unfoldable pub new : String → ℤ → F → String → RequestTrace F
  new trace_id started_ns started root_span_id = record {
    trace_id = trace_id;
    parent_span_id = none;
    started_ns = started_ns;
    started = started;
    status = ok;
    stages = [];
    engine_requests = 0;
    root_span_id = root_span_id;
    observations = [];
    route = "unknown";
    first_body_ns = none;
    api_intervals = [];
    request_payload = none;
    response_text = none;
    user_id = none;
    session_id = none;
  }

  -- The wall-clock instant at which `perf_counter` shows `perf`.
  unfoldable pub wall_at : RequestTrace F → F → ℤ
  wall_at t perf = t.started_ns +ℤ f.to_ns (f.sub perf t.started)

  -- `now_ns`, at the reading `perf`
  unfoldable pub now_ns : RequestTrace F → F → ℤ
  unfolding wall_at
  now_ns t perf = wall_at t perf

  unfoldable pub begin_generation :
      String → F → String → RequestTrace F → Generation F × RequestTrace F
  unfolding now_ns
  begin_generation id perf request_id t =
      let node : Generation F = record {
        id = id;
        parent_id = some t.root_span_id;
        start_ns = now_ns t perf;
        end_ns = none;
        metadata = ("request_id", Json.str request_id) ∷ [];
        usage = [];
        completion_start_ns = none;
      } in
      (node, record t { observations = t.observations ++ generation node ∷ [] })

  abbrev pub append_span : Span F → RequestTrace F → RequestTrace F
  append_span s t = record t { observations = t.observations ++ span s ∷ [] }

  unfoldable pub interval :
      String
      → Generation F
      → String
      → ℤ
      → ℤ
      → Dict (Json F)
      → RequestTrace F
      → Outcome IntervalError (RequestTrace F)
  interval id parent name start_ns end_ns metadata t =
      let s : Span F = record {
        id = id;
        parent_id = some parent.id;
        name = name;
        start_ns = start_ns;
        end_ns = end_ns;
        metadata = metadata;
      } in
      if ltb_ℤ end_ns start_ns then raise end_precedes_start else ret (append_span s t)

  -- `RequestTrace.add`
  unfoldable pub add : String → F → ℕ → RequestTrace F → RequestTrace F
  unfolding accumulate empty_aggregate
  add stage duration count t = record t {
    stages = modify stage (accumulate duration count) (setdefault stage empty_aggregate t.stages);
  }

  unfoldable pub api_interval :
      String → String → F → F → Dict (Json F) → RequestTrace F → RequestTrace F
  unfolding wall_at
  api_interval id name started_perf ended_perf metadata t =
      let start_ns = wall_at t started_perf in
      let end_ns = wall_at t ended_perf in
      if leb_ℤ start_ns end_ns
      then record t {
        api_intervals =
            t.api_intervals
            ++ record {
              id = id;
              parent_id = some t.root_span_id;
              name = name;
              start_ns = start_ns;
              end_ns = end_ns;
              metadata = merge (("timing_source", Json.str "wall_measured") ∷ []) metadata;
            }
              ∷ [];
      }
      else t

  -- `finish`, at the reading `perf`
  unfoldable pub finish : F → RequestTrace F → Event F × RequestTrace F
  unfolding add export
  finish perf t =
      let t' = add "http_total" (f.sub perf t.started) 1 t in
      (
        record {
          trace_id = t'.trace_id;
          parent_span_id = t'.parent_span_id;
          started_ns = t'.started_ns;
          status = t'.status;
          engine_requests = t'.engine_requests;
          root_span_id = t'.root_span_id;
          route = t'.route;
          observations = t'.observations;
          stages = export_all t'.stages;
          request_payload = t'.request_payload;
          response_text = t'.response_text;
          first_body_ns = t'.first_body_ns;
          api_intervals = t'.api_intervals;
          user_id = t'.user_id;
          session_id = t'.session_id;
        },
        t',
      )
