-- ===== src/Engine/Invariant/Operations.antt =====
-- Each operation of src/vllm_observer/stages.py keeps every record of its registry consistent.
use vllm_observer.Base.{
  ℕ, ◌≡◌, refl, ◌∙◌, String, Bool, true, false, Option, List, [], ◌∷◌, arith, if◌then◌else◌, inl,
  inr, Option-cases, Bool-cases,
}
use vllm_observer.Base.Float.{Float}
use vllm_observer.Base.Outcome.{Outcome-cases, Outcome, ret, raise}
use vllm_observer.Base.Dict.{Dict, erase-AllValues, contains, erase-UniqueKeys, get_or, keys}
use vllm_observer.Engine.Registry.{
  Record, Registry, Scheduled, scheduled_tokens, mark_waiting, add_request, count_scheduled,
  each_contention, count_contention, schedule,
}
use vllm_observer.Engine.Executor.{
  record_execute, Future, deferred, immediate, observe_future, timed_execute,
}
use vllm_observer.Engine.Output.{
  Output, truthy_id, attach_stages, attach_outputs, attach_batches, observed_step,
}
use vllm_observer.Engine.Invariant.{
  IsConsistent, IsSound, mark_waiting-IsConsistent, mark_scheduled-IsConsistent,
  mark_contention-IsConsistent, mark_executed-IsConsistent, modify-IsSound, setdefault-IsSound,
}

module _ {F : Type 0} ⦃f : Float F⦄ where
  pub add_request-IsSound :
      {X A : Type 0} (inner : Outcome X A) (id : String) (now : F) (registry : Registry F)
      → IsSound registry
      → IsSound (add_request inner id now registry).1
  unfolding add_request
  add_request-IsSound (ret a) id now registry h =
      modify-IsSound id (mark_waiting now) _ (mark_waiting-IsConsistent now)
        (setdefault-IsSound id registry h)
  add_request-IsSound (raise x) id now registry h = h

  pub count_scheduled-IsSound :
      (now duration : F) (tokens rest : Dict ℕ) (registry : Registry F)
      → IsSound registry
      → IsSound (count_scheduled now duration tokens rest registry)
  unfolding count_scheduled
  count_scheduled-IsSound now duration tokens [] registry h = h
  count_scheduled-IsSound now duration tokens ((id, n) ∷ rest) registry h =
      count_scheduled-IsSound now duration tokens rest _ (
        modify-IsSound id _ registry (mark_scheduled-IsConsistent now duration (get_or id 0 tokens))
          h)

  contains-each_contention :
      (id : String) (duration : F) (tokens : Dict ℕ) (registry : Registry F)
      → contains id (each_contention duration tokens registry) ≡ contains id registry
  unfolding each_contention
  contains-each_contention id duration tokens [] = refl
  contains-each_contention id duration tokens ((i, r) ∷ registry) =
      ground (arith, contains-each_contention id duration tokens registry)

  pub each_contention-IsSound :
      (duration : F) (tokens : Dict ℕ) (registry : Registry F)
      → IsSound registry
      → IsSound (each_contention duration tokens registry)
  unfolding each_contention
  each_contention-IsSound duration tokens [] h = h
  each_contention-IsSound duration tokens ((i, r) ∷ registry) h =
      let rest : IsSound (each_contention duration tokens registry) =
        each_contention-IsSound duration tokens registry
          (record { unique = h.unique.1; consistent = h.consistent.1 }) in
      record {
        unique = (contains-each_contention i duration tokens registry ∙ h.unique.0, rest.unique);
        consistent =
            (mark_contention-IsConsistent duration tokens i r h.consistent.0, rest.consistent);
      }

  pub count_contention-IsSound :
      (duration : F) (tokens : Dict ℕ) (registry : Registry F)
      → IsSound registry
      → IsSound (count_contention duration tokens registry)
  unfolding count_contention
  count_contention-IsSound duration [] registry h = h
  count_contention-IsSound duration (t ∷ tokens) registry h =
      each_contention-IsSound duration (t ∷ tokens) registry h

  pub schedule-IsSound :
      {X : Type 0} (started ended now : F) (inner : Outcome X Scheduled) (registry : Registry F)
      → IsSound registry
      → IsSound (schedule started ended now inner registry).1
  unfolding schedule
  schedule-IsSound started ended now (raise x) registry h = h
  schedule-IsSound started ended now (ret output) registry h =
      let tokens = scheduled_tokens output in
      count_contention-IsSound (f.sub ended started) tokens _
        (count_scheduled-IsSound now (f.sub ended started) tokens tokens registry h)

  pub record_execute-IsSound :
      (ids : List String) (started ended : F) (registry : Registry F)
      → IsSound registry
      → IsSound (record_execute ids started ended registry)
  unfolding record_execute
  record_execute-IsSound [] started ended registry h = h
  record_execute-IsSound (id ∷ ids) started ended registry h =
      record_execute-IsSound ids started ended _
        (modify-IsSound id _ registry (mark_executed-IsConsistent started ended) h)

  pub observe_future-IsSound :
      (X : Type 0) {S : Type 0} (future : Future) (ids : List String) (started ended : F)
      (engine : S) (registry : Registry F)
      → IsSound registry
      → IsSound (observe_future {X = X} future ids started ended engine registry).registry
  observe_future-IsSound X future [] started ended engine registry h = h
  observe_future-IsSound X immediate (i ∷ ids) started ended engine registry h =
      record_execute-IsSound (i ∷ ids) started ended registry h
  observe_future-IsSound X (deferred a) (i ∷ ids) started ended engine registry h = h

  pub timed_execute-IsSound :
      {X S : Type 0} (is_exception : X → Bool) (execute : S → Outcome X Future × S)
      (output : Scheduled) (started ended : F) (engine : S) (registry : Registry F)
      → IsSound registry
      → IsSound (timed_execute is_exception execute output started ended engine registry).registry
  unfolding timed_execute
  timed_execute-IsSound is_exception execute output started ended engine registry h =
      elim (Outcome-cases (execute engine).0) [
        | inl (future, e) ↦
            rw (timed_execute, e)
              (observe_future-IsSound _ future (keys (scheduled_tokens output)) started ended
                (execute engine).1 registry h)
        | inr (x, e) ↦ elim (Bool-cases (is_exception x)) [
          | inl caught ↦ rw (timed_execute, e) (rw caught h)
          | inr passed ↦ rw (timed_execute, e) (rw passed h)
        ]
      ]

  pub attach_stages-IsSound :
      {H : Type 0} (dumps : Record F → Option H) (output : Output H) (registry : Registry F)
      → IsSound registry
      → IsSound (attach_stages dumps output registry).1
  unfolding attach_stages
  attach_stages-IsSound dumps output registry h =
      elim (Option-cases (truthy_id output.request_id)) [
        | inl anonymous ↦ rw (attach_stages, anonymous) h
        | inr (id, named) ↦
            rw (attach_stages, named)
              (record {
                unique = erase-UniqueKeys id registry h.unique;
                consistent = erase-AllValues IsConsistent id registry h.consistent;
              })
      ]

  pub if-IsSound :
      {H : Type 0} (b : Bool) (x y : Output H × Registry F)
      → IsSound x.1
      → IsSound y.1
      → IsSound (if b then x else y).1
  if-IsSound true x y h k = h
  if-IsSound false x y h k = k

  pub attach_outputs-IsSound :
      {H : Type 0} (dumps : Record F → Option H) (outputs : List (Output H)) (registry : Registry F)
      → IsSound registry
      → IsSound (attach_outputs dumps outputs registry).1
  unfolding attach_outputs
  attach_outputs-IsSound dumps [] registry h = h
  attach_outputs-IsSound dumps (output ∷ outputs) registry h =
      attach_outputs-IsSound dumps outputs _ (
        if-IsSound output.finished (attach_stages dumps output registry) (output, registry)
          (attach_stages-IsSound dumps output registry h) h)

  pub attach_batches-IsSound :
      {H : Type 0} (dumps : Record F → Option H) (batches : List (List (Output H)))
      (registry : Registry F)
      → IsSound registry
      → IsSound (attach_batches dumps batches registry).1
  unfolding attach_batches
  attach_batches-IsSound dumps [] registry h = h
  attach_batches-IsSound dumps (outputs ∷ batches) registry h =
      attach_batches-IsSound dumps batches (attach_outputs dumps outputs registry).1
        (attach_outputs-IsSound dumps outputs registry h)

  pub observed_step-IsSound :
      {X H : Type 0} (dumps : Record F → Option H) (inner : Outcome X (List (List (Output H))))
      (registry : Registry F)
      → IsSound registry
      → IsSound (observed_step dumps inner registry).1
  unfolding observed_step
  observed_step-IsSound dumps (ret batches) registry h =
      attach_batches-IsSound dumps batches registry h
  observed_step-IsSound dumps (raise x) registry h = h
