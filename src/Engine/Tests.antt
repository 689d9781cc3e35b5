-- ===== src/Engine/Tests.antt =====
-- Two requests in the EngineCore process: "a" has begun its prefill, "b" waits.
use vllm_observer.Base.{
  length, false, ℕ, ◌+◌, ◌≡◌, refl, true, false, not, Option, none, some, List, [], ◌∷◌, ◌++◌,
  length, filter_by, if◌then◌else◌, ltb, ◌&&◌, ◌||◌, arith, String,
}
use mathlib.Core.Option
use vllm_observer.Base.Int.{ℤ, pos, ◌+ℤ◌, ◌-ℤ◌}
use vllm_observer.Base.Float.{nanoseconds}
use vllm_observer.Base.Dict.{lookup, contains, UniqueKeys}
use vllm_observer.Base.Outcome.{Outcome, ret, raise}
use vllm_observer.Engine.Registry.{Record, Registry, add_request, schedule, or_else}
use vllm_observer.Engine.Registry.Pointwise.{after, schedule_scheduled}
use vllm_observer.Engine.Executor.{Future, immediate, deferred, timed_execute}
use vllm_observer.Engine.Executor.Retry.{settled, counted, timed_execute_once, timed_execute_calls}
use vllm_observer.Engine.Output.{Output, attach_outputs}
use vllm_observer.Engine.Output.Attach.{Carries, attach_outputs-payload}
use vllm_observer.Engine.Invariant.{IsConsistent}
use vllm_observer.Engine.Invariant.Reachable.{
  adds, schedules, Reach, start, next, registry-IsConsistent,
}
use vllm_observer.Engine.Deadline.{
  Request, Scheduler, Config, mem, deadline_seconds, is_expired, expired_ids, drop_expired,
}
use vllm_observer.Engine.Deadline.Guard.{ids, stays, expires, drop_expired_exact}

abbrev Payload : Type 0
Payload = ℕ

abbrev dumps : Record ℤ → Option Payload
dumps r = some r.schedule_steps

abbrev added : Registry ℤ
added = (add_request {X = Unit {0}} (ret tt) "a" (pos 1) []).1

abbrev both : Registry ℤ
both = (add_request {X = Unit {0}} (ret tt) "b" (pos 2) added).1

-- "a" is scheduled for five tokens, which took three nanoseconds.
abbrev prefilled : Registry ℤ
prefilled = (schedule {X = Unit {0}} (pos 10) (pos 13) (pos 13) (ret (some (("a", 5) ∷ []))) both).1

-- Then only "b" is scheduled: "a" sees contention.
abbrev contended : Registry ℤ
contended =
    (schedule {X = Unit {0}} (pos 20) (pos 24) (pos 24) (ret (some (("b", 1) ∷ []))) prefilled).1

abbrev record_a : Record ℤ
record_a = record {
  waiting_enter = some (pos 1);
  first_schedule = some (pos 13);
  schedule_steps = 1;
  prefill_chunks = 1;
  decode_steps = 0;
  schedule_seconds = pos 3;
  execute_seconds = pos 0;
  execute_steps = 0;
  contention_steps = 1;
  contention_seconds = pos 4;
  prefill_done = false;
  execute_intervals = [];
}

contended_a : lookup "a" contended ≡ some record_a
unfolding add_request schedule ◌+ℤ◌ ◌-ℤ◌
contended_a = refl

contended-Reach : Reach (Unit {0}) (Unit {0}) (Unit {0}) Payload dumps contended
contended-Reach =
    next
      (next (next (next start (adds (ret tt) "a" (pos 1) _)) (adds (ret tt) "b" (pos 2) _))
        (schedules (pos 10) (pos 13) (pos 13) (ret (some (("a", 5) ∷ []))) _))
      (schedules (pos 20) (pos 24) (pos 24) (ret (some (("b", 1) ∷ []))) _)

registry-IsConsistent_example : IsConsistent record_a
registry-IsConsistent_example = registry-IsConsistent "a" record_a contended-Reach contended_a

abbrev waiting_b : Record ℤ
waiting_b = record {
  waiting_enter = some (pos 2);
  first_schedule = none;
  schedule_steps = 0;
  prefill_chunks = 0;
  decode_steps = 0;
  schedule_seconds = pos 0;
  execute_seconds = pos 0;
  execute_steps = 0;
  contention_steps = 0;
  contention_seconds = pos 0;
  prefill_done = false;
  execute_intervals = [];
}

found_b : lookup "b" both ≡ some waiting_b
unfolding add_request
found_b = refl

schedule_scheduled_example :
    lookup "b"
      (after (Unit {0}) (pos 20) (pos 24) (pos 24) (some (("b", 7) ∷ [])) both "b" waiting_b)
    ≡ some (record waiting_b {
      first_schedule = some (or_else waiting_b.first_schedule (pos 24));
      schedule_steps = waiting_b.schedule_steps + 1;
      schedule_seconds =
          nanoseconds.add waiting_b.schedule_seconds (nanoseconds.sub (pos 24) (pos 20));
      prefill_chunks = waiting_b.prefill_chunks + (if ltb 1 7 then 1 else 0);
      decode_steps = waiting_b.decode_steps + (if ltb 1 7 then 0 else 1);
      prefill_done = (if ltb 1 7 then waiting_b.prefill_done else true);
    })
schedule_scheduled_example =
    schedule_scheduled (Unit {0}) (pos 20) (pos 24) (pos 24) (some (("b", 7) ∷ [])) both "b"
      waiting_b 7 (refl, tt) refl found_b

-- An executor that counts its calls, and raises at the first.
abbrev flaky : ℕ → Outcome (Unit {0}) Future × ℕ
flaky calls = (if ltb calls 1 then raise tt else ret immediate, calls + 1)

timed_execute_calls_example :
    let x =
      timed_execute
        (λ _. true)
        (counted flaky)
        (some (("a", 5) ∷ []))
        (pos 1)
        (pos 2)
        (0, 0)
        both in
    (x.engine ≡ (2, 2)) × (x.outcome ≡ ret immediate) × (settled (pos 9) x ≡ both)
timed_execute_calls_example =
    timed_execute_calls (λ _. true) flaky (some (("a", 5) ∷ [])) (pos 1) (pos 2) (pos 9) 0 both

-- An executor whose future takes the callback; it is done at nine nanoseconds.
abbrev later : ℕ → Outcome (Unit {0}) Future × ℕ
later calls = (ret (deferred true), calls + 1)

timed_execute_once_example :
    let x = timed_execute (λ _. true) later (some (("a", 5) ∷ [])) (pos 1) (pos 2) 1 both in
    (x.outcome ≡ ret (deferred true))
    × (x.engine ≡ 2)
    × (lookup "a" (settled (pos 9) x) ≡ (
        if contains {V = ℕ} "a" (("a", 5) ∷ [])
        then Option.map
            (λ (r : Record ℤ). record r {
              execute_seconds = nanoseconds.add r.execute_seconds (nanoseconds.sub (pos 9) (pos 1));
              execute_steps = r.execute_steps + 1;
              execute_intervals =
                  if ltb (length r.execute_intervals) 512
                  then r.execute_intervals ++ (pos 1, pos 9) ∷ []
                  else r.execute_intervals;
            })
            (lookup "a" both)
        else lookup "a" both))
timed_execute_once_example =
    timed_execute_once (λ _. true) later (some (("a", 5) ∷ [])) (pos 1) (pos 2) (pos 9) 1 2
      (deferred true) both "a" refl (λ e. cc) (refl, tt)

abbrev final_a : Output Payload
final_a = record { request_id = some "a"; finished = true; trace_headers = none }

abbrev partial_b : Output Payload
partial_b = record { request_id = some "b"; finished = false; trace_headers = none }

both_unique : UniqueKeys both
unfolding add_request
both_unique = (refl, (refl, tt))

found_a : (r : Record ℤ) × (lookup "a" both ≡ some r)
unfolding add_request
found_a = (_, refl)

attach_outputs-payload_example :
    let (outputs, registry') = attach_outputs dumps ((partial_b ∷ []) ++ final_a ∷ []) both in
    (before' after' : List (Output Payload)) × (output' : Output Payload) × (outputs
      ≡ before' ++ output' ∷ after')
    × (length before' ≡ 1)
    × Carries (dumps found_a.0) final_a output'
    × (lookup "a" registry' ≡ none)
attach_outputs-payload_example =
    attach_outputs-payload dumps "a" (partial_b ∷ []) [] final_a both found_a.0 both_unique refl
      refl found_a.1

-- A scheduler whose state is its requests, in which the finished ones stay.
abbrev finish : List String → List (Request ℤ) → List (Request ℤ)
finish ids [] = []
finish ids (r ∷ rs) =
    record r { is_finished = r.is_finished || mem r.request_id ids } ∷ finish ids rs

finish_lem :
    (ids : List String) (rs : List (Request ℤ))
    → filter_by (λ r. not r.is_finished) (finish ids rs)
      ≡ filter_by (λ r. not r.is_finished && not (mem r.request_id ids)) rs
finish_lem ids [] = refl
finish_lem ids (r ∷ rs) = ground (arith, finish_lem ids rs)

abbrev plain : Scheduler (Unit {0}) ℤ (List (Request ℤ)) ℕ
plain = record {
  requests = λ s. s;
  finish_requests = λ ids s. (ret tt, finish ids s);
  schedule = λ s. (ret (length s), s);
  finish_ends = λ ids s e. finish_lem ids s;
}

-- A deadline of ten nanoseconds.
abbrev ten : Config ℤ
ten = record { to_float = λ text. some (pos 10); deadline = some "1e-8"; imports = true }

abbrev queue : List (Request ℤ)
queue =
    record { request_id = "old"; is_finished = false; arrival_time = some (pos 5) }
    ∷ record { request_id = "over"; is_finished = true; arrival_time = some (pos 3) }
    ∷ record { request_id = "new"; is_finished = false; arrival_time = some (pos 95) }
    ∷ []

drops_old : (drop_expired plain ten (pos 100) queue 3).ids ≡ "old" ∷ []
unfolding drop_expired expired_ids is_expired deadline_seconds ◌-ℤ◌
drops_old = refl

drop_expired_exact_example :
    let d = drop_expired plain ten (pos 100) queue 3 in
    (filter_by (λ r. not r.is_finished) (plain.requests d.state)
      ≡ filter_by (stays (pos 10) (pos 100)) queue)
    × (d.ids ≡ ids (filter_by (expires (pos 10) (pos 100)) queue))
    × (d.total ≡ 3 + length d.ids)
drop_expired_exact_example =
    drop_expired_exact plain ten (pos 100) queue 3 "1e-8" (pos 10) refl refl refl refl
      (refl, (refl, (refl, tt))) refl
