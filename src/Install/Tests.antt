-- ===== src/Install/Tests.antt =====
-- A class with methods that vLLM has, and a method that is timed as `render_input`.
use vllm_observer.Base.{◌≡◌, refl, true, false, none, some, List, [], ◌∷◌}
use vllm_observer.Base.Int.{ℤ, pos}
use vllm_observer.Base.Float.{nanoseconds}
use vllm_observer.Base.Outcome.{Outcome, raise}
use vllm_observer.Core.Trace.{RequestTrace, new}
use vllm_observer.Install.{
  Method, Vllm, Kind, coroutine, plain, hook_pair, hook_round, timed_method, install_serving, timed,
}

abbrev pub method : Kind → Method
method kind = record {
  params = "self" ∷ "request" ∷ "request_id" ∷ [];
  kind = kind;
  stages_mark = false;
  deadline_mark = false;
  clock_mark = false;
  observer_mark = false;
  wrappers = [];
}

abbrev pub vllm : Vllm
vllm = record {
  render_chat = some (method coroutine);
  render_completion = none;
  chat_sampling = none;
  completion_sampling = none;
  process_inputs = some (method plain);
  public_add_request = some (method coroutine);
  private_add_request = some (method coroutine);
  scheduler_add_request = some (method plain);
  schedule = some (method plain);
  step = some (method plain);
  step_with_batch_queue = some (method plain);
  generate = none;
  update_finished = none;
  update_output = none;
}

-- The only hook of the module is wrapped, and a class without hooks is refused.
serving :
    ((install_serving vllm).0.render_chat
      ≡ some
          (record (method coroutine) { stages_mark = true; wrappers = timed "render_input" ∷ [] }))
    × ((install_serving vllm).1 ≡ false)
    × ((install_serving (record vllm { render_chat = none })).1 ≡ true)
unfolding install_serving hook_pair hook_round timed_method
serving = (refl, refl, refl)

abbrev trace : RequestTrace ℤ
trace = new "t" (pos 1000) (pos 5) "root"

-- A rendering that raises.
abbrev failing : RequestTrace ℤ → Outcome (List ℤ) ℤ × RequestTrace ℤ
failing t = (raise [], t)
