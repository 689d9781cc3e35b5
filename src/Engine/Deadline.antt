-- ===== src/Engine/Deadline.antt =====
-- src/vllm_observer/deadline.py: requests that are older than a configured deadline are finished
-- before the scheduler batches them.
pub mod Guard
use vllm_observer.Base.{
  ℕ, ◌+◌, String, Bool, true, false, not, ◌&&◌, ◌||◌, Option, none, some, List, [], ◌∷◌, map,
  length, filter_by, if◌then◌else◌, str_eq, ◌≡◌,
}
use vllm_observer.Base.Float.{Float}
use vllm_observer.Base.Outcome.{Outcome, ret, raise}

-- A request of the scheduler; `arrival_time` is none where it has no such attribute.
pub record Request (F : Type 0) : Type 0 where
  pub request_id : String
  pub is_finished : Bool
  pub arrival_time : Option F

abbrev pub mem : String → List String → Bool
mem id [] = false
mem id (j ∷ ids) = str_eq j id || mem id ids

-- vLLM's scheduler, which is not part of the repository: its requests, `finish_requests` with the
-- aborted status, and its own `schedule`. A request that is finished may leave the scheduler, or stay
-- in it with a status that says so: the unfinished requests afterwards are those that were unfinished
-- and are not among the ids, as they were and in their order.
pub record Scheduler (X F S A : Type 0) : Type 0 where
  pub requests : S → List (Request F)
  pub finish_requests : List String → S → Outcome X (Unit {0}) × S
  pub schedule : S → Outcome X A × S
  pub finish_ends :
      (ids : List String) (s : S)
      → (finish_requests ids s).0 ≡ ret tt
      → filter_by (λ r. not r.is_finished) (requests (finish_requests ids s).1)
        ≡ filter_by (λ r. not r.is_finished && not (mem r.request_id ids)) (requests s)

-- What the process is given: `float` on a text (none where it raises), the environment variable,
-- and whether `vllm.v1.request` can be imported.
pub record Config (F : Type 0) : Type 0 where
  pub to_float : String → Option F
  pub deadline : Option String
  pub imports : Bool

abbrev pub is_nil : {A : Type 0} → List A → Bool
is_nil [] = true
is_nil (_ ∷ _) = false

-- What one call returns and leaves: the ids, the scheduler's state, `dropped_total`.
pub record Dropped (S : Type 0) : Type 0 where
  pub ids : List String
  pub state : S
  pub total : ℕ

module _ {F : Type 0} ⦃f : Float F⦄ where
  -- `deadline_seconds`
  unfoldable pub deadline_seconds : Config F → F
  deadline_seconds c = elim (c.to_float (elim c.deadline [ none ↦ "0" | some text ↦ text ])) [
    | none ↦ f.zero
    | some ttl ↦ ttl
  ]

  -- `now - getattr(request, "arrival_time", now)`
  abbrev pub age : F → Request F → F
  age now r = elim r.arrival_time [ none ↦ f.sub now now | some arrival ↦ f.sub now arrival ]

  unfoldable pub is_expired : F → F → Request F → Bool
  is_expired ttl now r = not r.is_finished && f.lt ttl (age now r)

  module _ {X S A : Type 0} (scheduler : Scheduler X F S A) (config : Config F) where
    abbrev pub settle : List String → ℕ → Outcome X (Unit {0}) × S → Dropped S
    settle expired total (ret _, s) = record {
      ids = expired;
      state = s;
      total = total + length expired;
    }
    settle expired total (raise x, s) = record { ids = []; state = s; total = total }

    unfoldable pub expired_ids : F → S → List String
    expired_ids now s =
        map (λ r. r.request_id)
          (filter_by (is_expired (deadline_seconds config) now) (scheduler.requests s))

    -- `drop_expired`, at the wall-clock time `now`
    unfoldable pub drop_expired : F → S → ℕ → Dropped S
    drop_expired now s total =
        let idle : Dropped S = record { ids = []; state = s; total = total } in
        let expired = expired_ids now s in
        if f.le (deadline_seconds config) f.zero || not config.imports || is_nil expired
        then idle
        else settle expired total (scheduler.finish_requests expired s)

    -- `guarded`: the scheduler's own `schedule` runs whatever the guard did.
    unfoldable pub guarded : F → S → ℕ → Outcome X A × S × ℕ
    guarded now s total =
        let d = drop_expired now s total in
        let (r, s') = scheduler.schedule d.state in (r, s', d.total)
