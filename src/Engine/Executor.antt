-- ===== src/Engine/Executor.antt =====
-- The executor half of src/vllm_observer/stages.py: `_record_execute`, `_TimedFuture` and the
-- wrapper that `_wrap_executor` puts around `execute_model`.
pub mod Retry
use vllm_observer.Base.{
  ℕ, suc, ◌+◌, String, Bool, true, false, Option, none, some, List, [], ◌∷◌, ◌++◌, length, ltb,
  if◌then◌else◌,
}
use vllm_observer.Base.Float.{Float}
use vllm_observer.Base.Dict.{Dict, modify, keys}
use vllm_observer.Base.Outcome.{Outcome, ret, raise}
use vllm_observer.Engine.Registry.{Record, Registry, Scheduled, scheduled_tokens}

-- The most intervals that a record keeps.
abbrev pub interval_limit : ℕ
interval_limit = 512

module _ {F : Type 0} ⦃f : Float F⦄ where
  unfoldable pub mark_executed : F → F → Record F → Record F
  mark_executed started ended r = record r {
    execute_seconds = f.add r.execute_seconds (f.sub ended started);
    execute_steps = r.execute_steps + 1;
    execute_intervals =
        if ltb (length r.execute_intervals) interval_limit
        then r.execute_intervals ++ (started, ended) ∷ []
        else r.execute_intervals;
  }

  -- `_record_execute`
  unfoldable pub record_execute : List String → F → F → Registry F → Registry F
  unfolding mark_executed
  record_execute [] started ended registry = registry
  record_execute (request_id ∷ request_ids) started ended registry =
      record_execute request_ids started ended
        (modify request_id (mark_executed started ended) registry)

  -- `_TimedFuture.result`, whose inner future's `result` returned or raised `inner`.
  unfoldable pub timed_result :
      {X A : Type 0} → Outcome X A → List String → F → F → Registry F → Outcome X A × Registry F
  unfolding record_execute
  timed_result inner request_ids started ended registry =
      (inner, record_execute request_ids started ended registry)

-- What `execute_model` returned: an object with a callable `result`, on which `add_done_callback`
-- succeeds or raises, or any other value.
pub data Future : Type 0 where
  deferred : (attaches : Bool) → Future
  immediate : Future

-- What a call of the wrapped `execute_model` leaves: its outcome, the engine's own state, the
-- registry, and the done-callback that it attached, with the ids and the start that it holds.
pub record Execution (X F S : Type 0) : Type 0 where
  pub outcome : Outcome X Future
  pub engine : S
  pub registry : Registry F
  pub callback : Option (List String × F)

module _ {F : Type 0} ⦃f : Float F⦄ where
  abbrev pub observe_future :
      {X S : Type 0} → Future → List String → F → F → S → Registry F → Execution X F S
  observe_future future [] started ended engine registry = record {
    outcome = ret future;
    engine = engine;
    registry = registry;
    callback = none;
  }
  observe_future immediate (i ∷ ids) started ended engine registry = record {
    outcome = ret immediate;
    engine = engine;
    registry = record_execute (i ∷ ids) started ended registry;
    callback = none;
  }
  observe_future (deferred attaches) (i ∷ ids) started ended engine registry = record {
    outcome = ret (deferred attaches);
    engine = engine;
    registry = registry;
    callback = if attaches then some (i ∷ ids, started) else none;
  }

  -- `timed_execute` of `_wrap_executor`: `execute` is the executor's own method on its state. An
  -- `Exception` of that method is caught with the observer's own, and the method is called again;
  -- `is_exception` tells it from another `BaseException`.
  unfoldable pub timed_execute :
      {X S : Type 0}
      → (X → Bool)
      → (S → Outcome X Future × S)
      → Scheduled
      → F
      → F
      → S
      → Registry F
      → Execution X F S
  timed_execute is_exception execute output started ended engine registry =
      let (r, engine') = execute engine in
      elim r [
        | ret future ↦
            observe_future future (keys (scheduled_tokens output)) started ended engine' registry
        | raise x ↦
            let (again, engine'') = execute engine' in
            if is_exception x
            then record { outcome = again; engine = engine''; registry = registry; callback = none }
            else record {
              outcome = raise x;
              engine = engine';
              registry = registry;
              callback = none;
            }
      ]

  -- The lambda that `timed_execute` attaches, run when the future is done.
  unfoldable pub run_callback : List String × F → F → Registry F → Registry F
  unfolding record_execute
  run_callback (request_ids, started) ended registry =
      record_execute request_ids started ended registry
