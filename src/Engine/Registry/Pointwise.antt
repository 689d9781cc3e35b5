-- ===== src/Engine/Registry/Pointwise.antt =====
-- What one engine step of the scheduler does to each request's record.
use vllm_observer.Base.{
  eq_refl, ℕ, ◌+◌, ◌≡◌, refl, String, Bool, true, not, ◌&&◌, none, some, [], ◌∷◌, arith, ltb,
  if◌then◌else◌, eq_iff, str_eq, Option-cases, inl, inr,
}
use mathlib.Core.Option
use vllm_observer.Base.Float.{Float}
use vllm_observer.Base.Outcome.{ret}
use vllm_observer.Base.Dict.{
  Dict, UniqueKeys, lookup, get_or, contains, modify, lookup-modify, lookup-insert, insert,
}
use vllm_observer.Engine.Registry.{
  mark_waiting, Record, Registry, Scheduled, scheduled_tokens, mark_scheduled, count_scheduled,
  mark_contention, each_contention, count_contention, schedule, is_some, is_empty, or_else,
  add_request, new_record,
}

module _ {F : Type 0} ⦃f : Float F⦄ where
  lookup-count_scheduled :
      (id : String) (now duration : F) (tokens rest : Dict ℕ) (registry : Registry F)
      → UniqueKeys rest
      → lookup id (count_scheduled now duration tokens rest registry) ≡ (
          if contains id rest
          then Option.map (mark_scheduled now duration (get_or id 0 tokens)) (lookup id registry)
          else lookup id registry)
  unfolding count_scheduled
  lookup-count_scheduled id now duration tokens [] registry h = refl
  lookup-count_scheduled id now duration tokens ((k, n) ∷ rest) registry h =
      let mark = mark_scheduled now duration (get_or k 0 tokens) in
      ground (
        arith,
        eq_iff k id,
        lookup-modify id k mark registry,
        lookup-count_scheduled id now duration tokens rest (modify k mark registry) h.1,
      )

  lookup-each_contention :
      (id : String) (duration : F) (tokens : Dict ℕ) (registry : Registry F)
      → lookup id (each_contention duration tokens registry)
        ≡ Option.map (mark_contention duration tokens id) (lookup id registry)
  unfolding each_contention
  lookup-each_contention id duration tokens [] = refl
  lookup-each_contention id duration tokens ((i, r) ∷ registry) =
      ground (arith, eq_iff i id, lookup-each_contention id duration tokens registry)

  -- A request that has begun its prefill and not ended it.
  abbrev pub is_mid_prefill : Record F → Bool
  is_mid_prefill r = is_some r.first_schedule && not r.prefill_done

module _ {F : Type 0} ⦃f : Float F⦄ (X : Type 0) (started ended now : F) (output : Scheduled)
    (registry : Registry F) (id : String) (r : Record F) where
  abbrev pub after : Registry F
  after = (schedule {X = X} started ended now (ret output) registry).1

  -- When no id stands twice in a step, a registered request that is scheduled for `n` tokens
  -- counts one more step, as a prefill chunk if `n` is more than 1 and as a decode step
  -- otherwise, keeps its first schedule time or gets this one, is charged the step's duration,
  -- and sees no contention.
  pub schedule_scheduled :
      (n : ℕ)
      → UniqueKeys (scheduled_tokens output)
      → lookup id (scheduled_tokens output) ≡ some n
      → lookup id registry ≡ some r
      → lookup id after
        ≡ some (record r {
          first_schedule = some (or_else r.first_schedule now);
          schedule_steps = r.schedule_steps + 1;
          schedule_seconds = f.add r.schedule_seconds (f.sub ended started);
          prefill_chunks = r.prefill_chunks + (if ltb 1 n then 1 else 0);
          decode_steps = r.decode_steps + (if ltb 1 n then 0 else 1);
          prefill_done = (if ltb 1 n then r.prefill_done else true);
        })
  unfolding schedule mark_scheduled mark_contention count_contention
  schedule_scheduled n unique scheduled found = ground (
    arith,
    lookup-each_contention id (f.sub ended started) (scheduled_tokens output) (
        count_scheduled now (f.sub ended started) (scheduled_tokens output)
          (scheduled_tokens output) registry),
    lookup-count_scheduled id now (f.sub ended started) (scheduled_tokens output)
        (scheduled_tokens output) registry unique,
  )

  -- When no id stands twice in a step, a registered request that is not scheduled while others
  -- are counts one step of contention and its duration if it is mid-prefill; nothing else of its
  -- record changes, and nothing at all if the step scheduled no request.
  pub schedule_unscheduled :
      UniqueKeys (scheduled_tokens output)
      → lookup id (scheduled_tokens output) ≡ none
      → lookup id registry ≡ some r
      → lookup id after
        ≡ some (
            if not (is_empty (scheduled_tokens output)) && is_mid_prefill r
            then record r {
              contention_steps = r.contention_steps + 1;
              contention_seconds = f.add r.contention_seconds (f.sub ended started);
            }
            else r)
  unfolding schedule mark_scheduled mark_contention count_contention
  schedule_unscheduled unique absent found = ground (
    arith,
    lookup-each_contention id (f.sub ended started) (scheduled_tokens output) (
        count_scheduled now (f.sub ended started) (scheduled_tokens output)
          (scheduled_tokens output) registry),
    lookup-count_scheduled id now (f.sub ended started) (scheduled_tokens output)
        (scheduled_tokens output) registry unique,
  )

-- Once the scheduler's own `add_request` has returned, the request has a record whose waiting time
-- starts now, or when it was first added; the rest of that record and every other stay as they were.
pub lookup-add_request :
    {F : Type 0} ⦃f : Float F⦄ (X : Type 0) {A : Type 0} (result : A) (id other : String) (now : F)
    (registry : Registry F)
    → let r = get_or id new_record registry in
      lookup other (add_request {X = X} (ret result) id now registry).1 ≡ (
        if str_eq id other
        then some (record r { waiting_enter = some (or_else r.waiting_enter now) })
        else lookup other registry)
unfolding add_request
lookup-add_request X result id other now registry = elim (Option-cases (lookup id registry)) [
  | inl new ↦ ground (
    arith,
    eq_iff id other,
    eq_refl id,
    lookup-modify other id (mark_waiting now) (insert id new_record registry),
    lookup-insert other id new_record registry,
  )
  | inr (r, old) ↦
      ground (arith, eq_iff id other, lookup-modify other id (mark_waiting now) registry)
]
