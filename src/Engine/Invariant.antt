-- ===== src/Engine/Invariant.antt =====
-- What holds of every record of the registry of src/vllm_observer/stages.py, and that each change
-- of one record keeps it.
pub mod Operations
pub mod Reachable
use vllm_observer.Base.{
  ℕ, ◌+◌, ◌<◌, min, ◌≡◌, refl, ◌∙◌, String, Bool, true, false, Option, none, some, List, [], ◌∷◌,
  ◌++◌, arith, length, length-append, take, take-snoc, foldl, sym, ap, if◌then◌else◌, inl, inr,
  Option-cases, ◌⊎◌, ltb,
}
use mathlib.Core.List.{foldl-append}
use vllm_observer.Base.Float.{Float}
use vllm_observer.Base.Outcome.{Outcome-cases, Outcome, ret, raise}
use vllm_observer.Base.Dict.{
  Dict, UniqueKeys, AllValues, insert-AllValues, modify-AllValues, erase-AllValues, setdefault,
  lookup, modify, contains, insert-UniqueKeys, lookup-AllValues, modify-UniqueKeys,
  erase-UniqueKeys, get_or, keys,
}
use vllm_observer.Engine.Registry.{
  Record, Registry, Scheduled, scheduled_tokens, new_record, mark_waiting, add_request,
  mark_scheduled, count_scheduled, mark_contention, each_contention, count_contention, schedule,
  is_some,
}
use vllm_observer.Engine.Executor.{
  interval_limit, mark_executed, record_execute, Future, deferred, immediate, observe_future,
  timed_execute, run_callback, timed_result,
}
use vllm_observer.Engine.Output.{
  Output, truthy_id, attach_stages, attach_outputs, attach_batches, observed_step,
}

module _ {F : Type 0} where
  -- The executions of a request, each with its start and its end: as many as were counted, the first
  -- 512 of them kept, and their durations, added in their order, the execute seconds.
  pub record HasExecuted ⦃f : Float F⦄ (r : Record F) (executions : List (F × F)) : Type 0 where
    pub counted : length executions ≡ r.execute_steps
    pub kept : r.execute_intervals ≡ take 512 executions
    pub charged :
        r.execute_seconds ≡ foldl (λ seconds e. f.add seconds (f.sub e.1 e.0)) f.zero executions

  pub record IsConsistent ⦃f : Float F⦄ (r : Record F) : Type 0 where
    pub steps : r.schedule_steps ≡ r.prefill_chunks + r.decode_steps
    pub executed : (executions : List (F × F)) × HasExecuted r executions
    pub scheduled : is_some r.first_schedule ≡ ltb 0 r.schedule_steps
    pub prefilled : r.prefill_done ≡ ltb 0 r.decode_steps
    pub contended : (r.contention_steps ≡ 0) ⊎ (0 < r.prefill_chunks)

  pub record IsSound ⦃f : Float F⦄ (registry : Registry F) : Type 0 where
    pub unique : UniqueKeys registry
    pub consistent : AllValues IsConsistent registry

module _ {F : Type 0} ⦃f : Float F⦄ where
  pub new_record-IsConsistent : IsConsistent {F = F} new_record
  unfolding new_record
  new_record-IsConsistent = record {
    steps = ground arith;
    executed = ([], record { counted = refl; kept = refl; charged = refl });
    scheduled = ground arith;
    prefilled = ground arith;
    contended = inl refl;
  }

  -- A change that leaves the executions alone.
  same-HasExecuted :
      (r s : Record F) (executions : List (F × F))
      → s.execute_steps ≡ r.execute_steps
      → s.execute_intervals ≡ r.execute_intervals
      → s.execute_seconds ≡ r.execute_seconds
      → HasExecuted r executions
      → HasExecuted s executions
  same-HasExecuted r s executions a b c h = record {
    counted = h.counted ∙ sym a;
    kept = b ∙ h.kept;
    charged = c ∙ h.charged;
  }

  pub mark_waiting-IsConsistent :
      (now : F) (r : Record F) → IsConsistent r → IsConsistent (mark_waiting now r)
  mark_waiting-IsConsistent now r h = record {
    steps = h.steps;
    executed = (h.executed.0, same-HasExecuted r _ h.executed.0 refl refl refl h.executed.1);
    scheduled = h.scheduled;
    prefilled = h.prefilled;
    contended = h.contended;
  }

  pub mark_scheduled-IsConsistent :
      (now duration : F) (scheduled : ℕ) (r : Record F)
      → IsConsistent r
      → IsConsistent (mark_scheduled now duration scheduled r)
  unfolding mark_scheduled
  mark_scheduled-IsConsistent now duration scheduled r h = record {
    steps = ground (arith, h.steps);
    executed = (
      h.executed.0,
      same-HasExecuted r _ h.executed.0 (ground arith) (ground arith) (ground arith) h.executed.1,
    );
    scheduled = ground (arith, h.scheduled);
    prefilled = ground (arith, h.prefilled);
    contended = ground (arith, h.contended);
  }

  pub mark_contention-IsConsistent :
      (duration : F) (tokens : Dict ℕ) (id : String) (r : Record F)
      → IsConsistent r
      → IsConsistent (mark_contention duration tokens id r)
  unfolding mark_contention
  mark_contention-IsConsistent duration tokens id r h = record {
    steps = ground (arith, h.steps);
    executed = (
      h.executed.0,
      same-HasExecuted r _ h.executed.0 (ground arith) (ground arith) (ground arith) h.executed.1,
    );
    scheduled = ground (arith, h.scheduled);
    prefilled = ground (arith, h.prefilled);
    contended = ground (arith, h.contended, h.steps, h.scheduled, h.prefilled);
  }

  mark_executed-HasExecuted :
      (started ended : F) (r : Record F) (executions : List (F × F))
      → HasExecuted r executions
      → HasExecuted (mark_executed started ended r) (executions ++ (started, ended) ∷ [])
  unfolding mark_executed
  mark_executed-HasExecuted started ended r executions h = record {
    counted = ground (arith, length-append executions ((started, ended) ∷ []), h.counted);
    kept = rw h.kept (sym (take-snoc 512 executions (started, ended)));
    charged =
        ap (λ seconds. f.add seconds (f.sub ended started)) h.charged
        ∙ sym (foldl-append _ f.zero executions ((started, ended) ∷ []));
  }

  pub mark_executed-IsConsistent :
      (started ended : F) (r : Record F)
      → IsConsistent r
      → IsConsistent (mark_executed started ended r)
  unfolding mark_executed
  mark_executed-IsConsistent started ended r h = record {
    steps = h.steps;
    executed = (
      h.executed.0 ++ (started, ended) ∷ [],
      mark_executed-HasExecuted started ended r h.executed.0 h.executed.1,
    );
    scheduled = h.scheduled;
    prefilled = h.prefilled;
    contended = h.contended;
  }

  pub modify-IsSound :
      (id : String) (g : Record F → Record F) (registry : Registry F)
      → ((r : Record F) → IsConsistent r → IsConsistent (g r))
      → IsSound registry
      → IsSound (modify id g registry)
  modify-IsSound id g registry keep h = record {
    unique = modify-UniqueKeys id g registry h.unique;
    consistent = modify-AllValues IsConsistent id g registry keep h.consistent;
  }

  pub setdefault-IsSound :
      (id : String) (registry : Registry F)
      → IsSound registry
      → IsSound (setdefault id new_record registry)
  setdefault-IsSound id registry h = elim (Option-cases (lookup id registry)) [
    | inl new ↦
        rw (new, setdefault)
          (record {
            unique = insert-UniqueKeys id new_record registry h.unique;
            consistent =
                insert-AllValues IsConsistent id new_record registry h.consistent
                  new_record-IsConsistent;
          })
    | inr (r, old) ↦ rw (old, setdefault) h
  ]
