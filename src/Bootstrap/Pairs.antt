-- ===== src/Bootstrap/Pairs.antt =====
-- Two hooks of src/vllm_observer/bootstrap.py that run in turn for one module.
use vllm_observer.Base.{◌≡◌, refl, ap, ap₂, Bool, true, false, Option, none, some, arith}
use vllm_observer.Install.{
  Method, Vllm, Patch, install_scheduler, install_deadline, install_engine_core, install_clock,
  install_async_llm, install_adapter, hook_scheduler, hook_deadline, hook_step, hook_clock,
  hook_clocks,
}
use vllm_observer.Install.Once.{IsOnce, IsStable, install_engine_core-IsOnce, install_clock-IsOnce}
use vllm_observer.Bootstrap.{in_turn, skip, run_when}

pub in_turn-IsOnce : (p q : Patch) → IsOnce p → IsOnce q → IsStable p q → IsOnce (in_turn p q)
unfolding in_turn
in_turn-IsOnce p q once_p once_q stable v = ground (arith, once_p v, once_q (p v).0, stable (p v).0)

-- Where a condition does not hold, the statement under it leaves no trace.
pub in_turn-skip : (p : Patch) (v : Vllm) → in_turn p skip v ≡ p v
unfolding in_turn
in_turn-skip p v = ground arith

-- The guard of the deadline keeps the mark of the stages, and so does the clock's wrapper.
hook_scheduler-deadline :
    (add schedule : Option Method)
    → hook_scheduler add schedule ≡ (add, schedule, false)
    → hook_scheduler add (hook_deadline schedule).0 ≡ (add, (hook_deadline schedule).0, false)
unfolding hook_scheduler hook_deadline
hook_scheduler-deadline none schedule h = cc
hook_scheduler-deadline (some add) none h = cc
hook_scheduler-deadline (some add) (some schedule) h = ground arith

pub install_scheduler-IsStable : IsStable install_scheduler install_deadline
unfolding install_scheduler install_deadline
install_scheduler-IsStable v h =
    ap (λ r. (record v { scheduler_add_request = r.0; schedule = r.1 }, r.2))
      (hook_scheduler-deadline v.scheduler_add_request v.schedule
        (ap (λ r. (r.0.scheduler_add_request, r.0.schedule, r.1)) h))

hook_step-clocks :
    (a b : Option Method)
    → hook_step a ≡ a
    → hook_step b ≡ b
    → (hook_step (hook_clocks a b).0 ≡ (hook_clocks a b).0)
      × (hook_step (hook_clocks a b).1 ≡ (hook_clocks a b).1)
unfolding hook_step hook_clocks hook_clock
hook_step-clocks none b h k = (h, k)
hook_step-clocks (some a) none h k = (h, k)
hook_step-clocks (some a) (some b) h k = (ground arith, ground arith)

install_engine_core-IsStable : IsStable install_engine_core install_clock
unfolding install_engine_core install_clock
install_engine_core-IsStable v h =
    let (a, b) =
      hook_step-clocks v.step v.step_with_batch_queue (ap (λ r. r.0.step) h)
        (ap (λ r. r.0.step_with_batch_queue) h) in
    ap₂ (λ s q. (record v { step = s; step_with_batch_queue = q }, false)) a b

pub install_async_llm-IsStable : IsStable install_async_llm install_adapter
unfolding install_async_llm install_adapter
install_async_llm-IsStable v h =
    let w = (install_adapter v).0 in
    ap
      (λ r. (
        record r.0 {
          generate = w.generate;
          update_finished = w.update_finished;
          update_output = w.update_output;
        },
        r.1,
      ))
      h

pub skip-IsOnce : IsOnce skip
skip-IsOnce v = refl

pub run_when-IsOnce : (b : Bool) (p : Patch) → IsOnce p → IsOnce (run_when b p)
run_when-IsOnce true p h = h
run_when-IsOnce false p h = skip-IsOnce

pub core_hooks-IsOnce : (b : Bool) → IsOnce (in_turn install_engine_core (run_when b install_clock))
core_hooks-IsOnce true =
    in_turn-IsOnce install_engine_core install_clock install_engine_core-IsOnce install_clock-IsOnce
      install_engine_core-IsStable
core_hooks-IsOnce false =
    in_turn-IsOnce install_engine_core skip install_engine_core-IsOnce skip-IsOnce (λ v h. h)
