-- ===== src/Engine/Invariant/Reachable.antt =====
-- The registry of src/vllm_observer/stages.py, whatever the scheduler, the executor and the engine
-- step do and in whatever order.
use vllm_observer.Base.{◌≡◌, Bool, String, Option, some, List, []}
use vllm_observer.Base.Float.{Float}
use vllm_observer.Base.Outcome.{Outcome}
use vllm_observer.Base.Dict.{lookup, lookup-AllValues}
use vllm_observer.Engine.Registry.{Record, Registry, Scheduled, add_request, schedule}
use vllm_observer.Engine.Executor.{Future, timed_execute, run_callback, timed_result}
use vllm_observer.Engine.Output.{Output, observed_step}
use vllm_observer.Engine.Invariant.{IsConsistent, IsSound}
use vllm_observer.Engine.Invariant.Operations.{
  add_request-IsSound, schedule-IsSound, timed_execute-IsSound, record_execute-IsSound,
  observed_step-IsSound,
}

module _ {F : Type 0} ⦃f : Float F⦄ where
  -- One call of a wrapped method of the EngineCore process, or a done-callback of a future.
  pub data Step (X A S H : Type 0) (dumps : Record F → Option H)
      : Registry F → Registry F → Type 0 where
    adds :
        (inner : Outcome X A) (id : String) (now : F) (registry : Registry F)
        → Step X A S H dumps registry (add_request inner id now registry).1
    schedules :
        (started ended now : F) (inner : Outcome X Scheduled) (registry : Registry F)
        → Step X A S H dumps registry (schedule started ended now inner registry).1
    executes :
        (is_exception : X → Bool) (execute : S → Outcome X Future × S) (output : Scheduled)
        (started ended : F) (engine : S) (registry : Registry F)
        → Step X A S H dumps registry
            (timed_execute is_exception execute output started ended engine registry).registry
    completes :
        (callback : List String × F) (ended : F) (registry : Registry F)
        → Step X A S H dumps registry (run_callback callback ended registry)
    awaits :
        (inner : Outcome X A) (ids : List String) (started ended : F) (registry : Registry F)
        → Step X A S H dumps registry (timed_result inner ids started ended registry).1
    steps :
        (inner : Outcome X (List (List (Output H)))) (registry : Registry F)
        → Step X A S H dumps registry (observed_step dumps inner registry).1

  pub data Reach (X A S H : Type 0) (dumps : Record F → Option H) : Registry F → Type 0 where
    start : Reach X A S H dumps []
    next :
        {r s : Registry F} → Reach X A S H dumps r → Step X A S H dumps r s → Reach X A S H dumps s

  Step-IsSound :
      {X A S H : Type 0} {dumps : Record F → Option H} {r s : Registry F}
      → Step X A S H dumps r s
      → IsSound r
      → IsSound s
  unfolding run_callback timed_result
  Step-IsSound (adds inner id now registry) h = add_request-IsSound inner id now registry h
  Step-IsSound (schedules started ended now inner registry) h =
      schedule-IsSound started ended now inner registry h
  Step-IsSound (executes is_exception execute output started ended engine registry) h =
      timed_execute-IsSound is_exception execute output started ended engine registry h
  Step-IsSound (completes (ids, started) ended registry) h =
      record_execute-IsSound ids started ended registry h
  Step-IsSound (awaits inner ids started ended registry) h =
      record_execute-IsSound ids started ended registry h
  Step-IsSound {dumps = dumps} (steps inner registry) h =
      observed_step-IsSound dumps inner registry h

  Reach-IsSound :
      {X A S H : Type 0} {dumps : Record F → Option H} {r : Registry F}
      → Reach X A S H dumps r
      → IsSound r
  Reach-IsSound start = record { unique = tt; consistent = tt }
  Reach-IsSound (next r st) = Step-IsSound st (Reach-IsSound r)

  -- In every registry that any sequence of calls builds from the empty one, each record has as
  -- many schedule steps as prefill chunks and decode steps together; there is a sequence of
  -- executions, as long as its execute steps, whose first 512 intervals, each with its start and
  -- its end, are those that it keeps, and whose durations, added in their order, are its execute
  -- seconds; it has a first schedule time exactly if it was scheduled, is past its prefill
  -- exactly if it has a decode step, and has seen contention only after a prefill chunk.
  pub registry-IsConsistent :
      {X A S H : Type 0} {dumps : Record F → Option H} {registry : Registry F} (id : String)
      (r : Record F)
      → Reach X A S H dumps registry
      → lookup id registry ≡ some r
      → IsConsistent r
  registry-IsConsistent {registry = registry} id r reached found =
      lookup-AllValues IsConsistent id r registry (Reach-IsSound reached).consistent found
