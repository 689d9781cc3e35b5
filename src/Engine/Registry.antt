-- ===== src/Engine/Registry.antt =====
-- The scheduler half of src/vllm_observer/stages.py: per-request counters, kept in a registry by
-- request id, that the wrapped `add_request` and `schedule` update. What the wrapped vLLM method
-- returned, and the readings of the clocks around it, are arguments.
pub mod Pointwise
use vllm_observer.Base.{
  ℕ, suc, ◌+◌, String, Bool, true, false, not, ◌&&◌, Option, none, some, List, [], ◌∷◌, ltb,
  if◌then◌else◌,
}
use vllm_observer.Base.Float.{Float}
use vllm_observer.Base.Dict.{Dict, get_or, contains, setdefault, modify}
use vllm_observer.Base.Outcome.{Outcome, ret, raise}

pub record Record (F : Type 0) : Type 0 where
  pub waiting_enter : Option F
  pub first_schedule : Option F
  pub schedule_steps : ℕ
  pub prefill_chunks : ℕ
  pub decode_steps : ℕ
  pub schedule_seconds : F
  pub execute_seconds : F
  pub execute_steps : ℕ
  pub contention_steps : ℕ
  pub contention_seconds : F
  pub prefill_done : Bool
  pub execute_intervals : List (F × F)

-- `_REGISTRY`
abbrev pub Registry : Type 0 → Type 0
Registry F = Dict (Record F)

-- `num_scheduled_tokens` of a scheduler output; none where the output has no such attribute.
abbrev pub Scheduled : Type 0
Scheduled = Option (Dict ℕ)

-- `getattr(output, "num_scheduled_tokens", {}) or {}`
abbrev pub scheduled_tokens : Scheduled → Dict ℕ
scheduled_tokens none = []
scheduled_tokens (some tokens) = tokens

abbrev pub or_else : {A : Type 0} → Option A → A → A
or_else none b = b
or_else (some a) b = a

abbrev pub is_some : {A : Type 0} → Option A → Bool
is_some none = false
is_some (some _) = true

abbrev pub is_empty : Dict ℕ → Bool
is_empty [] = true
is_empty (_ ∷ _) = false

module _ {F : Type 0} ⦃f : Float F⦄ where
  -- `_new_record`
  unfoldable pub new_record : Record F
  new_record = record {
    waiting_enter = none;
    first_schedule = none;
    schedule_steps = 0;
    prefill_chunks = 0;
    decode_steps = 0;
    schedule_seconds = f.zero;
    execute_seconds = f.zero;
    execute_steps = 0;
    contention_steps = 0;
    contention_seconds = f.zero;
    prefill_done = false;
    execute_intervals = [];
  }

  abbrev pub mark_waiting : F → Record F → Record F
  mark_waiting now r = record r { waiting_enter = some (or_else r.waiting_enter now) }

  -- `observed_add_request`, whose scheduler's own `add_request` returned or raised `inner`. A
  -- request is marked after that call returned.
  unfoldable pub add_request :
      {X A : Type 0} → Outcome X A → String → F → Registry F → Outcome X A × Registry F
  unfolding new_record
  add_request (ret result) request_id now registry =
      (ret result, modify request_id (mark_waiting now) (setdefault request_id new_record registry))
  add_request (raise x) request_id now registry = (raise x, registry)

  -- The first loop of `observed_schedule`, on one record of a request that was scheduled.
  unfoldable pub mark_scheduled : F → F → ℕ → Record F → Record F
  mark_scheduled now duration scheduled r =
      let t : Record F = record r {
        first_schedule = some (or_else r.first_schedule now);
        schedule_steps = r.schedule_steps + 1;
        schedule_seconds = f.add r.schedule_seconds duration;
      } in
      if ltb 1 scheduled
      then record t { prefill_chunks = t.prefill_chunks + 1 }
      else record t { decode_steps = t.decode_steps + 1; prefill_done = true }

  -- Its loop over the request ids: `tokens` is the dict itself, in which each size is looked up.
  unfoldable pub count_scheduled : F → F → Dict ℕ → Dict ℕ → Registry F → Registry F
  unfolding mark_scheduled
  count_scheduled now duration tokens [] registry = registry
  count_scheduled now duration tokens ((request_id, _) ∷ rest) registry =
      count_scheduled now duration tokens rest
        (modify request_id (mark_scheduled now duration (get_or request_id 0 tokens)) registry)

  -- The second loop, on one record.
  unfoldable pub mark_contention : F → Dict ℕ → String → Record F → Record F
  mark_contention duration tokens request_id r =
      if is_some r.first_schedule && not r.prefill_done && not (contains request_id tokens)
      then record r {
        contention_steps = r.contention_steps + 1;
        contention_seconds = f.add r.contention_seconds duration;
      }
      else r

  unfoldable pub each_contention : F → Dict ℕ → Registry F → Registry F
  unfolding mark_contention
  each_contention duration tokens [] = []
  each_contention duration tokens ((request_id, r) ∷ registry) =
      (request_id, mark_contention duration tokens request_id r)
      ∷ each_contention duration tokens registry

  unfoldable pub count_contention : F → Dict ℕ → Registry F → Registry F
  unfolding each_contention
  count_contention duration tokens registry =
      if is_empty tokens then registry else each_contention duration tokens registry

  -- `observed_schedule`: `started` and `ended` are read around the scheduler's own call, `now` after.
  unfoldable pub schedule :
      {X : Type 0} → F → F → F → Outcome X Scheduled → Registry F → Outcome X Scheduled × Registry F
  unfolding count_scheduled count_contention
  schedule started ended now (raise x) registry = (raise x, registry)
  schedule started ended now (ret output) registry =
      let tokens = scheduled_tokens output in
      let duration = f.sub ended started in
      (
        ret output,
        count_contention duration tokens (count_scheduled now duration tokens tokens registry),
      )
