-- ===== src/Engine/Executor/Retry.antt =====
-- What the wrapper around `execute_model` calls and records.
use vllm_observer.Base.{
  ℕ, ◌+◌, Bool, length, ltb, ◌++◌, List, ◌≡◌, refl, ap, ◌∙◌, ◌≢◌, String, true, false, none, some,
  [], ◌∷◌, arith, if◌then◌else◌, eq_iff, Bool-cases, inl, inr,
}
use mathlib.Core.Option
use vllm_observer.Base.Float.{Float}
use vllm_observer.Base.Outcome.{Outcome, Outcome-cases, ret, raise}
use vllm_observer.Base.Dict.{Dict, lookup, modify, keys, lookup-modify, contains, UniqueKeys}
use vllm_observer.Engine.Registry.{Record, Registry, Scheduled, scheduled_tokens}
use vllm_observer.Engine.Executor.{
  mark_executed, record_execute, Future, deferred, immediate, Execution, observe_future,
  timed_execute, run_callback,
}

-- The executor with a count of its calls.
abbrev pub counted :
    {X S : Type 0} → (S → Outcome X Future × S) → S × ℕ → Outcome X Future × (S × ℕ)
counted execute (engine, calls) = let (r, engine') = execute engine in (r, (engine', calls + 1))

abbrev pub returns : {X A : Type 0} → Outcome X A → Bool
returns (ret _) = true
returns (raise _) = false

-- The call ended with an `Exception`.
abbrev pub fails : {X A : Type 0} → (X → Bool) → Outcome X A → Bool
fails is_exception (ret _) = false
fails is_exception (raise x) = is_exception x

module _ {F : Type 0} ⦃f : Float F⦄ where
  -- Every request that was scheduled is charged the execution once, and no other is charged.
  lookup-record_execute :
      (id : String) (tokens : Dict ℕ) (started ended : F) (registry : Registry F)
      → UniqueKeys tokens
      → lookup id (record_execute (keys tokens) started ended registry) ≡ (
          if contains id tokens
          then Option.map (mark_executed started ended) (lookup id registry)
          else lookup id registry)
  unfolding record_execute
  lookup-record_execute id [] started ended registry h = refl
  lookup-record_execute id ((k, n) ∷ tokens) started ended registry h =
      let mark = mark_executed started ended in
      ground (
        arith,
        eq_iff k id,
        lookup-modify id k mark registry,
        lookup-record_execute id tokens started ended (modify k mark registry) h.1,
      )

  -- The registry once the future is done, at the time `done`, if it has a callback.
  abbrev pub settled : {X S : Type 0} → F → Execution X F S → Registry F
  settled done x = elim x.callback [
    | none ↦ x.registry
    | some callback ↦ run_callback callback done x.registry
  ]

  -- When the execution ends: at the return of a value, and at `done` for a future.
  abbrev pub end_of : F → F → Future → F
  end_of ended done immediate = ended
  end_of ended done (deferred attaches) = done

  observe_future_lem :
      (X : Type 0) {S : Type 0} (future : Future) (tokens : Dict ℕ) (started ended done : F)
      (engine : S) (registry : Registry F)
      → future ≢ deferred false
      → let x = observe_future {X = X} future (keys tokens) started ended engine registry in
        (x.outcome ≡ ret future)
        × (x.engine ≡ engine)
        × (settled done x
            ≡ record_execute (keys tokens) started (end_of ended done future) registry)
  unfolding record_execute run_callback
  observe_future_lem X future [] started ended done engine registry h = (refl, refl, refl)
  observe_future_lem X immediate (t ∷ tokens) started ended done engine registry h =
      (refl, refl, refl)
  observe_future_lem X (deferred true) (t ∷ tokens) started ended done engine registry h =
      (refl, refl, refl)
  observe_future_lem X (deferred false) (t ∷ tokens) started ended done engine registry h =
      absurd (h refl)

  -- An execution that returns, of a step in which no id stands twice, and whose future takes the
  -- callback if it is one, is called once and its future is passed on. Each request that was
  -- scheduled, if it is registered, is charged it once, at its return or when the future is done:
  -- the time since its start is added to the execute seconds, one step is counted, and its
  -- interval is kept behind the others if they are fewer than 512. No other record changes.
  pub timed_execute_once :
      {X S : Type 0} (is_exception : X → Bool) (execute : S → Outcome X Future × S)
      (output : Scheduled) (started ended done : F) (engine engine' : S) (future : Future)
      (registry : Registry F) (id : String)
      → execute engine ≡ (ret future, engine')
      → future ≢ deferred false
      → UniqueKeys (scheduled_tokens output)
      → let x = timed_execute is_exception execute output started ended engine registry in
        let end = end_of ended done future in
        (x.outcome ≡ ret future)
        × (x.engine ≡ engine')
        × (lookup id (settled done x) ≡ (
            if contains id (scheduled_tokens output)
            then Option.map
                (λ (r : Record F). record r {
                  execute_seconds = f.add r.execute_seconds (f.sub end started);
                  execute_steps = r.execute_steps + 1;
                  execute_intervals =
                      if ltb (length r.execute_intervals) 512
                      then r.execute_intervals ++ (started, end) ∷ []
                      else r.execute_intervals;
                })
                (lookup id registry)
            else lookup id registry))
  unfolding timed_execute run_callback mark_executed
  timed_execute_once is_exception execute output started ended done engine engine' future registry
        id e ok unique =
      let o =
        observe_future_lem _ future (scheduled_tokens output) started ended done (execute engine).1
          registry ok in
      rw (timed_execute, e)
        (
          o.0,
          o.1 ∙ ap (λ r. r.1) e,
          ap (lookup id) o.2
              ∙ lookup-record_execute id (scheduled_tokens output) started
                  (end_of ended done future) registry unique,
        )

  observe_future-outcome :
      (X : Type 0) {S : Type 0} (future : Future) (ids : List String) (started ended : F)
      (engine : S) (registry : Registry F)
      → let x = observe_future {X = X} future ids started ended engine registry in
        (x.engine ≡ engine) × (x.outcome ≡ ret future)
  observe_future-outcome X future [] started ended engine registry = (refl, refl)
  observe_future-outcome X immediate (i ∷ ids) started ended engine registry = (refl, refl)
  observe_future-outcome X (deferred attaches) (i ∷ ids) started ended engine registry =
      (refl, refl)

  -- One step can execute the model twice. For any executor, and any state of it: when the first
  -- call ends with an `Exception`, the wrapper makes exactly one more, from the state that the
  -- first left, and the engine gets what that one returns or raises; otherwise there is no second
  -- call, and the engine gets what the first returned or raised. Unless the first call returns,
  -- no record of the registry changes, then or later, though the second may have run the model.
  pub timed_execute_calls :
      {X S : Type 0} (is_exception : X → Bool) (execute : S → Outcome X Future × S)
      (output : Scheduled) (started ended done : F) (engine : S) (registry : Registry F)
      → let x =
          timed_execute is_exception (counted execute) output started ended (engine, 0) registry in
        let (first, engine') = execute engine in
        let (second, engine'') = execute engine' in
        (x.engine ≡ (if fails is_exception first then (engine'', 2) else (engine', 1)))
        × (x.outcome ≡ (if fails is_exception first then second else first))
        × ((if returns first then registry else settled done x) ≡ registry)
  unfolding timed_execute run_callback
  timed_execute_calls is_exception execute output started ended done engine registry =
      elim (Outcome-cases (execute engine).0) [
        | inl (future, e) ↦
            let o =
              observe_future-outcome _ future (keys (scheduled_tokens output)) started ended
                ((execute engine).1, 1) registry in
            rw (e, timed_execute) (o.0, o.1, refl)
        | inr (x, e) ↦ elim (Bool-cases (is_exception x)) [
          | inl caught ↦ rw (e, timed_execute) (rw caught (refl, refl, refl))
          | inr passed ↦ rw (e, timed_execute) (rw passed (refl, refl, refl))
        ]
      ]
