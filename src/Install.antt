-- ===== src/Install.antt =====
-- How the wrappers get onto vLLM's classes: the `install_*` functions of src/vllm_observer/stages.py,
-- and `install` of src/vllm_observer/deadline.py, src/vllm_observer/engine_clock.py and
-- src/vllm_observer/adapter.py. A method is described by what they read of it and by the wrappers
-- around it; `functools.wraps` passes the marks and the signature of a method on to its wrapper.
pub mod Once
pub mod Timed
mod Tests
use vllm_observer.Base.{
  String, Bool, true, false, not, ◌&&◌, ◌||◌, Option, none, some, List, [], ◌∷◌, if◌then◌else◌,
  str_eq,
}
use mathlib.Core.Option

pub data Kind : Type 0 where
  plain coroutine generator : Kind

-- A wrapper, by the function that it is the inner function of.
pub data Wrapper : Type 0 where
  timed : String → Wrapper
  registry : Wrapper
  attach : Wrapper
  deadline : Wrapper
  clock : Wrapper
  adapter : Wrapper

pub record Method : Type 0 where
  pub params : List String
  pub kind : Kind
  pub stages_mark : Bool
  pub deadline_mark : Bool
  pub clock_mark : Bool
  pub observer_mark : Bool
  pub wrappers : List Wrapper

-- The attributes that the functions look up, none where the class or the attribute is missing.
pub record Vllm : Type 0 where
  pub render_chat : Option Method
  pub render_completion : Option Method
  pub chat_sampling : Option Method
  pub completion_sampling : Option Method
  pub process_inputs : Option Method
  pub public_add_request : Option Method
  pub private_add_request : Option Method
  pub scheduler_add_request : Option Method
  pub schedule : Option Method
  pub step : Option Method
  pub step_with_batch_queue : Option Method
  pub generate : Option Method
  pub update_finished : Option Method
  pub update_output : Option Method

-- What a call leaves of the classes, and whether it raised.
abbrev pub Patch : Type 0
Patch = Vllm → Vllm × Bool

abbrev pub is_in : String → List String → Bool
is_in name [] = false
is_in name (n ∷ names) = str_eq n name || is_in name names

-- `all(name in signature.parameters for name in contract)`
abbrev pub accepts : List String → Method → Bool
accepts [] m = true
accepts (name ∷ names) m = is_in name m.params && accepts names m

-- `_timed_async` and `_timed_sync`, as `kind` says; none where they raise `RuntimeError`.
unfoldable pub timed_method : Kind → String → List String → Method → Option Method
timed_method kind stage contract m =
    if accepts contract m
    then some (record m { kind = kind; stages_mark = true; wrappers = timed stage ∷ m.wrappers })
    else none

-- One round of the loop of `install_serving` and `install_protocol`: the attribute afterwards, and
-- whether it was appended to `installed`; none where it raises.
unfoldable pub hook_round :
    Kind → String → List String → Option Method → Option (Option Method × Bool)
unfolding timed_method
hook_round kind stage contract none = some (none, false)
hook_round kind stage contract (some m) =
    if m.stages_mark
    then some (some m, true)
    else Option.map (λ m'. (some m', true)) (timed_method kind stage contract m)

-- The loop over two attributes, and the check that follows it.
unfoldable pub hook_pair :
    Kind
    → String
    → List String
    → Option Method
    → Option Method
    → Option Method × Option Method × Bool
unfolding hook_round
hook_pair kind stage contract first second = elim (hook_round kind stage contract first) [
  | none ↦ (first, second, true)
  | some (first', a) ↦ elim (hook_round kind stage contract second) [
    | none ↦ (first', second, true)
    | some (second', b) ↦ (first', second', not (a || b))
  ]
]

unfoldable pub install_serving : Patch
unfolding hook_pair
install_serving v =
    let (chat, completion, raised) =
      hook_pair coroutine "render_input" ("request" ∷ []) v.render_chat v.render_completion in
    (record v { render_chat = chat; render_completion = completion }, raised)

unfoldable pub install_protocol : Patch
unfolding hook_pair
install_protocol v =
    let (chat, completion, raised) =
      hook_pair plain "sampling_params" ("self" ∷ []) v.chat_sampling v.completion_sampling in
    (record v { chat_sampling = chat; completion_sampling = completion }, raised)

-- A method that is wrapped unless it is missing or marked, and whether its contract is refused.
unfoldable pub hook_one : Kind → String → List String → Option Method → Option Method × Bool
unfolding timed_method
hook_one kind stage contract none = (none, false)
hook_one kind stage contract (some m) =
    if m.stages_mark then (some m, false) else elim (timed_method kind stage contract m) [
      | none ↦ (some m, true)
      | some m' ↦ (some m', false)
    ]

unfoldable pub install_input_processor : Patch
unfolding hook_one
install_input_processor v =
    let (inputs, raised) =
      hook_one plain "input_process" ("request_id" ∷ "prompt" ∷ "params" ∷ []) v.process_inputs in
    (record v { process_inputs = inputs }, raised)

abbrev pub is_coroutine : Kind → Bool
is_coroutine coroutine = true
is_coroutine _ = false

abbrev pub is_generator : Kind → Bool
is_generator generator = true
is_generator _ = false

-- The public `add_request`, whose refused contract is only logged.
unfoldable pub hook_submit : Option Method → Option Method
unfolding timed_method
hook_submit none = none
hook_submit (some m) =
    if is_coroutine m.kind && not m.stages_mark
    then elim (timed_method coroutine "submit_engine" ("self" ∷ []) m) [
      | none ↦ some m
      | some m' ↦ some m'
    ]
    else some m

unfoldable pub install_async_llm : Patch
unfolding hook_submit hook_one
install_async_llm v =
    let submit = hook_submit v.public_add_request in
    let (private, raised) =
      hook_one coroutine "output_processor_add" ("request" ∷ []) v.private_add_request in
    (record v { public_add_request = submit; private_add_request = private }, raised)

abbrev pub wrap_stages : Wrapper → Method → Method
wrap_stages w m = record m { stages_mark = true; wrappers = w ∷ m.wrappers }

-- `install_scheduler`, on the two methods of `Scheduler`
unfoldable pub hook_scheduler : Option Method → Option Method → Option Method × Option Method × Bool
hook_scheduler none schedule = (none, schedule, true)
hook_scheduler (some add) none = (some add, none, true)
hook_scheduler (some add) (some schedule) =
    if schedule.stages_mark
    then (some add, some schedule, false)
    else (some (wrap_stages registry add), some (wrap_stages registry schedule), false)

unfoldable pub install_scheduler : Patch
unfolding hook_scheduler
install_scheduler v =
    let (add, schedule, raised) = hook_scheduler v.scheduler_add_request v.schedule in
    (record v { scheduler_add_request = add; schedule = schedule }, raised)

-- `install` of deadline.py
unfoldable pub hook_deadline : Option Method → Option Method × Bool
hook_deadline none = (none, true)
hook_deadline (some m) =
    if m.deadline_mark
    then (some m, false)
    else (some (record m { deadline_mark = true; wrappers = deadline ∷ m.wrappers }), false)

unfoldable pub install_deadline : Patch
unfolding hook_deadline
install_deadline v =
    let (schedule, raised) = hook_deadline v.schedule in (record v { schedule = schedule }, raised)

unfoldable pub hook_step : Option Method → Option Method
hook_step none = none
hook_step (some m) = if m.stages_mark then some m else some (wrap_stages attach m)

unfoldable pub install_engine_core : Patch
unfolding hook_step
install_engine_core v = (
  record v { step = hook_step v.step; step_with_batch_queue = hook_step v.step_with_batch_queue },
  false,
)

unfoldable pub hook_clock : Method → Method
hook_clock m =
    if m.clock_mark then m else record m { clock_mark = true; wrappers = clock ∷ m.wrappers }

-- `install` of engine_clock.py, behind the check of `_instrument` that both attributes are there.
unfoldable pub hook_clocks : Option Method → Option Method → Option Method × Option Method × Bool
unfolding hook_clock
hook_clocks none queue = (none, queue, true)
hook_clocks (some step) none = (some step, none, true)
hook_clocks (some step) (some queue) = (some (hook_clock step), some (hook_clock queue), false)

unfoldable pub install_clock : Patch
unfolding hook_clocks
install_clock v =
    let (step, queue, raised) = hook_clocks v.step v.step_with_batch_queue in
    (record v { step = step; step_with_batch_queue = queue }, raised)

abbrev pub adapt : Method → Method
adapt m = record m { wrappers = adapter ∷ m.wrappers }

abbrev pub adapt_generate : Method → Method
adapt_generate m = record m { observer_mark = true; wrappers = adapter ∷ m.wrappers }

-- `install` of adapter.py on `generate`, `update_from_finished_request` and `update_from_output`:
-- the first two must be there.
unfoldable pub hook_adapter :
    Option Method
    → Option Method
    → Option Method
    → Option Method × Option Method × Option Method × Bool
hook_adapter none update output = (none, update, output, true)
hook_adapter (some generate) none output = (some generate, none, output, not generate.observer_mark)
hook_adapter (some generate) (some update) output =
    if generate.observer_mark
    then (some generate, some update, output, false)
    else (if is_in "request_id" generate.params
          && is_generator generate.kind
          && is_in "request_id" update.params
        then (some (adapt_generate generate), some (adapt update), Option.map adapt output, false)
        else (some generate, some update, output, true))

unfoldable pub install_adapter : Patch
unfolding hook_adapter
install_adapter v =
    let (generate, update, output, raised) =
      hook_adapter v.generate v.update_finished v.update_output in
    (record v { generate = generate; update_finished = update; update_output = output }, raised)
