-- ===== src/Install/Once.antt =====
-- Each of the `install_*` functions does its work once: a second call changes nothing, and raises
-- where the first did.
use vllm_observer.Base.{◌≡◌, refl, String, false, Option, none, some, List, [], ◌∷◌, arith, ap, ap₂}
use vllm_observer.Install.{
  Method, Kind, plain, coroutine, Vllm, Patch, timed_method, hook_round, hook_pair, install_serving,
  install_protocol, hook_one, install_input_processor, hook_submit, install_async_llm,
  hook_scheduler, install_scheduler, hook_deadline, install_deadline, hook_step,
  install_engine_core, hook_clock, hook_clocks, install_clock, hook_adapter, install_adapter,
}

abbrev pub IsOnce : Patch → Type 0
IsOnce p = (v : Vllm) → p (p v).0 ≡ p v

module _ (kind : Kind) (stage : String) (contract : List String) where
  hook_pair_once :
      (first second : Option Method)
      → let (a, b, raised) = hook_pair kind stage contract first second in
        hook_pair kind stage contract a b ≡ (a, b, raised)
  unfolding hook_pair hook_round timed_method
  hook_pair_once none none = refl
  hook_pair_once none (some b) = ground arith
  hook_pair_once (some a) none = ground arith
  hook_pair_once (some a) (some b) = ground arith

  hook_one_once :
      (o : Option Method)
      → let (a, raised) = hook_one kind stage contract o in
        hook_one kind stage contract a ≡ (a, raised)
  unfolding hook_one timed_method
  hook_one_once none = refl
  hook_one_once (some a) = ground arith

hook_submit_once : (o : Option Method) → hook_submit (hook_submit o) ≡ hook_submit o
unfolding hook_submit timed_method
hook_submit_once none = refl
hook_submit_once (some a) = ground arith

hook_scheduler_once :
    (add schedule : Option Method)
    → let (a, b, raised) = hook_scheduler add schedule in hook_scheduler a b ≡ (a, b, raised)
unfolding hook_scheduler
hook_scheduler_once none schedule = refl
hook_scheduler_once (some a) none = refl
hook_scheduler_once (some a) (some b) = ground arith

hook_deadline_once :
    (o : Option Method) → let (a, raised) = hook_deadline o in hook_deadline a ≡ (a, raised)
unfolding hook_deadline
hook_deadline_once none = refl
hook_deadline_once (some a) = ground arith

hook_step_once : (o : Option Method) → hook_step (hook_step o) ≡ hook_step o
unfolding hook_step
hook_step_once none = refl
hook_step_once (some a) = ground arith

hook_adapter_once :
    (generate update output : Option Method)
    → let (a, b, c, raised) = hook_adapter generate update output in
      hook_adapter a b c ≡ (a, b, c, raised)
unfolding hook_adapter
hook_adapter_once none update output = refl
hook_adapter_once (some a) none output = refl
hook_adapter_once (some a) (some b) output = ground arith

pub install_serving-IsOnce : IsOnce install_serving
unfolding install_serving
install_serving-IsOnce v =
    ap (λ r. (record v { render_chat = r.0; render_completion = r.1 }, r.2))
      (hook_pair_once coroutine "render_input" ("request" ∷ []) v.render_chat v.render_completion)

pub install_protocol-IsOnce : IsOnce install_protocol
unfolding install_protocol
install_protocol-IsOnce v =
    ap (λ r. (record v { chat_sampling = r.0; completion_sampling = r.1 }, r.2))
      (hook_pair_once plain "sampling_params" ("self" ∷ []) v.chat_sampling v.completion_sampling)

pub install_input_processor-IsOnce : IsOnce install_input_processor
unfolding install_input_processor
install_input_processor-IsOnce v =
    ap (λ r. (record v { process_inputs = r.0 }, r.1))
      (hook_one_once plain "input_process" ("request_id" ∷ "prompt" ∷ "params" ∷ [])
        v.process_inputs)

pub install_async_llm-IsOnce : IsOnce install_async_llm
unfolding install_async_llm
install_async_llm-IsOnce v =
    ap₂ (λ s r. (record v { public_add_request = s; private_add_request = r.0 }, r.1))
      (hook_submit_once v.public_add_request)
      (hook_one_once coroutine "output_processor_add" ("request" ∷ []) v.private_add_request)

pub install_scheduler-IsOnce : IsOnce install_scheduler
unfolding install_scheduler
install_scheduler-IsOnce v =
    ap (λ r. (record v { scheduler_add_request = r.0; schedule = r.1 }, r.2))
      (hook_scheduler_once v.scheduler_add_request v.schedule)

pub install_deadline-IsOnce : IsOnce install_deadline
unfolding install_deadline
install_deadline-IsOnce v =
    ap (λ r. (record v { schedule = r.0 }, r.1)) (hook_deadline_once v.schedule)

pub install_engine_core-IsOnce : IsOnce install_engine_core
unfolding install_engine_core
install_engine_core-IsOnce v =
    ap₂ (λ a b. (record v { step = a; step_with_batch_queue = b }, false)) (hook_step_once v.step)
      (hook_step_once v.step_with_batch_queue)

hook_clocks_once :
    (a b : Option Method)
    → let (a', b', raised) = hook_clocks a b in hook_clocks a' b' ≡ (a', b', raised)
unfolding hook_clocks hook_clock
hook_clocks_once none b = refl
hook_clocks_once (some a) none = refl
hook_clocks_once (some a) (some b) = ground arith

pub install_clock-IsOnce : IsOnce install_clock
unfolding install_clock
install_clock-IsOnce v =
    ap (λ r. (record v { step = r.0; step_with_batch_queue = r.1 }, r.2))
      (hook_clocks_once v.step v.step_with_batch_queue)

pub install_adapter-IsOnce : IsOnce install_adapter
unfolding install_adapter
install_adapter-IsOnce v =
    ap (λ r. (record v { generate = r.0; update_finished = r.1; update_output = r.2 }, r.3))
      (hook_adapter_once v.generate v.update_finished v.update_output)

-- One patch after the other: the first must find its work done when the second has run.
abbrev pub IsStable : Patch → Patch → Type 0
IsStable p q = (v : Vllm) → p v ≡ (v, false) → p (q v).0 ≡ ((q v).0, false)
