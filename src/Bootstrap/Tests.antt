-- ===== src/Bootstrap/Tests.antt =====
-- A module of the scheduler and one of the application, in a process where the observer is enabled.
use vllm_observer.Base.{
  ◌≡◌, ◌≤◌, refl, ℕ, max, String, true, false, Option, none, some, List, [], ◌∷◌, if◌then◌else◌,
  ◌&&◌,
}
use vllm_observer.Base.Outcome.{Outcome, ret, raise}
use vllm_observer.Install.{
  Vllm, Method, Kind, plain, is_in, install_scheduler, install_deadline, hook_scheduler,
  hook_deadline, registry, deadline,
}
use vllm_observer.Bootstrap.Switches.{Environ, is_on}
use vllm_observer.Bootstrap.{
  scheduler, targets, in_turn, run_hooks, instrument_engine, Module, instrument,
}
use vllm_observer.Bootstrap.App.{
  Framework, missing, original, Asgi, Cls, AddError, already_started, build_app,
}
use vllm_observer.Bootstrap.Once.{instrument_once}
use vllm_observer.Bootstrap.Startup.{
  observers, count_observers, instrument_times, build_app_observed,
}
use vllm_observer.Bootstrap.Finder.{
  observer, own, observing, Spec, other, wrap_spec, resolve, first_spec, find_spec, register,
  Process,
}
use vllm_observer.Bootstrap.Finder.Resolution.{map_spec, installs, install_transparent}

abbrev pub method : Kind → Method
method kind = record {
  params = "self" ∷ "request" ∷ [];
  kind = kind;
  stages_mark = false;
  deadline_mark = false;
  clock_mark = false;
  observer_mark = false;
  wrappers = [];
}

abbrev vllm : Vllm
vllm = record {
  render_chat = none;
  render_completion = none;
  chat_sampling = none;
  completion_sampling = none;
  process_inputs = none;
  public_add_request = none;
  private_add_request = none;
  scheduler_add_request = some (method plain);
  schedule = some (method plain);
  step = none;
  step_with_batch_queue = none;
  generate = none;
  update_finished = none;
  update_output = none;
}

-- Applications are the classes of their middleware; one with three or more has started.
abbrev add_class : Cls → List Cls → Outcome AddError (List Cls)
add_class c (c1 ∷ c2 ∷ c3 ∷ cs) = raise already_started
add_class c cs = ret (c ∷ cs)

add_class_lem :
    (c : Cls) (a b cs : List Cls)
    → ◌≡◌ {A = Option (List Cls)} (some a) (some cs)
    → add_class c a ≡ ret b
    → ◌≡◌ {A = Option (List Cls)} (some b) (some (c ∷ cs))
add_class_lem c [] b cs h k = cc
add_class_lem c (c1 ∷ []) b cs h k = cc
add_class_lem c (c1 ∷ c2 ∷ []) b cs h k = cc
add_class_lem c (c1 ∷ c2 ∷ c3 ∷ a) b cs h k = cc

abbrev framework : Framework (List Cls)
framework = record {
  user_middleware = some;
  add_middleware = add_class;
  user_middleware-add = add_class_lem;
}

abbrev cors : Cls
cors = record {
  observer_middleware = false;
  module_name = "starlette.middleware.cors";
  name = "CORSMiddleware";
}

abbrev App : Type 0
App = List Cls

abbrev build : ℕ → Outcome String App
build n = ret (cors ∷ [])

abbrev module_ : Module String App ℕ
module_ = record { name = scheduler; builder = missing }

-- The guard of the deadline stands around the wrapper of the stages.
scheduled :
    (instrument [] false module_ vllm).1.schedule
    ≡ some (record (method plain) {
      stages_mark = true;
      deadline_mark = true;
      wrappers = deadline ∷ registry ∷ [];
    })
unfolding instrument instrument_engine run_hooks in_turn is_on install_scheduler install_deadline
    hook_scheduler hook_deadline
scheduled = refl

instrument_once_example :
    let r = instrument [] false module_ vllm in instrument [] false r.0 r.1 ≡ r
instrument_once_example = instrument_once [] false module_ vllm

build_app_observed_example :
    (x : Asgi App) × (build_app framework [] (instrument_times 2 (original build)) 0 ≡ some (ret x))
    × (1 ≤ observers framework x)
    × (observers framework x ≤ max 1 (count_observers (cors ∷ [])))
unfolding is_on
build_app_observed_example =
    build_app_observed framework 2 [] build 0 (cors ∷ []) (cors ∷ []) refl refl refl (λ h. cc)

abbrev path_finder : String → Outcome String (Option Spec)
path_finder name = ret (some (record { origin = name; loader = some (own true) }))

abbrev process : Process String App ℕ
process = record { meta_path = other path_finder ∷ []; modules = []; vllm = vllm }

abbrev enabled : Environ
enabled = ("OBSERVER_ENABLED", "1") ∷ []

found :
    resolve (register process.meta_path) scheduler (register process.meta_path)
    ≡ ret (some (record { origin = scheduler; loader = some (observing (own true)) }))
unfolding resolve register find_spec first_spec
found = refl

install_transparent_example :
    let path = (installs enabled (targets ∷ targets ∷ []) process).meta_path in
    (path ≡ (
      if is_on "OBSERVER_ENABLED" "0" enabled
      then observer ∷ process.meta_path
      else process.meta_path))
    × (resolve path scheduler path ≡ (
        if is_on "OBSERVER_ENABLED" "0" enabled && is_in scheduler targets
        then map_spec wrap_spec (resolve process.meta_path scheduler process.meta_path)
        else resolve process.meta_path scheduler process.meta_path))
install_transparent_example =
    install_transparent enabled targets (targets ∷ []) process scheduler refl
