-- ===== src/Bootstrap.antt =====
-- src/vllm_observer/bootstrap.py: which hook runs for which module of vLLM, and what an import of
-- the module and a start of the application see of it.
pub mod Switches
pub mod App
pub mod Finder
pub mod Pairs
pub mod Once
pub mod Startup
mod Tests
use vllm_observer.Base.{
  String, Bool, true, false, not, ◌&&◌, ◌||◌, List, [], ◌∷◌, if◌then◌else◌, str_eq,
}
use vllm_observer.Base.Dict.{Dict, get_or}
use vllm_observer.Base.Outcome.{Outcome, ret, raise}
use vllm_observer.Install.{
  Vllm, Patch, is_in, install_serving, install_protocol, install_input_processor, install_scheduler,
  install_deadline, install_engine_core, install_clock, install_async_llm, install_adapter,
}
use vllm_observer.Bootstrap.App.{Builder, instrument_app}
use vllm_observer.Bootstrap.Switches.{Environ, is_on}

abbrev pub core : String
core = "vllm.v1.engine.core"

abbrev pub engine : String
engine = "vllm.v1.engine.async_llm"

abbrev pub stats : String
stats = "vllm.v1.metrics.stats"

abbrev pub input_processor : String
input_processor = "vllm.v1.engine.input_processor"

abbrev pub scheduler : String
scheduler = "vllm.v1.core.sched.scheduler"

abbrev pub serving_chat : String
serving_chat = "vllm.entrypoints.openai.chat_completion.serving"

abbrev pub serving_completion : String
serving_completion = "vllm.entrypoints.openai.completion.serving"

abbrev pub protocol_chat : String
protocol_chat = "vllm.entrypoints.openai.chat_completion.protocol"

abbrev pub protocol_completion : String
protocol_completion = "vllm.entrypoints.openai.completion.protocol"

abbrev pub apps : List String
apps = "vllm.entrypoints.launchers.app" ∷ "vllm.entrypoints.openai.api_server" ∷ []

-- A set, whose order is not fixed.
abbrev pub targets : List String
targets =
    core ∷ engine ∷ stats ∷ input_processor ∷ scheduler ∷ serving_chat ∷ serving_completion
    ∷ protocol_chat ∷ protocol_completion ∷ apps

-- A statement after another: not reached where the first raised.
unfoldable pub in_turn : Patch → Patch → Patch
in_turn p q v = let (v', raised) = p v in if raised then (v', true) else q v'

abbrev pub skip : Patch
skip v = (v, false)

abbrev pub run_when : Bool → Patch → Patch
run_when b p = if b then p else skip

-- The statements of `_instrument` behind the check of OBSERVER_ENGINE_ENABLED. `loaded` says that
-- both classes of the adapter can be found in `sys.modules`.
unfoldable pub run_hooks : Environ → Bool → String → Patch
unfolding in_turn is_on
run_hooks env loaded name =
    in_turn (run_when (str_eq name serving_chat || str_eq name serving_completion) install_serving)
      (in_turn
        (run_when (str_eq name protocol_chat || str_eq name protocol_completion) install_protocol)
        (in_turn (run_when (str_eq name input_processor) install_input_processor) (
          in_turn (run_when (str_eq name scheduler) (in_turn install_scheduler install_deadline)) (
            in_turn (run_when (str_eq name core) install_engine_core) (
              in_turn
                (run_when (str_eq name core && is_on "OBSERVER_LANGFUSE_ENABLED" "0" env)
                  install_clock)
                (run_when ((str_eq name engine || str_eq name stats) && loaded)
                  (in_turn install_async_llm install_adapter)))))))

unfoldable pub instrument_engine : Environ → Bool → String → Patch
unfolding run_hooks is_on
instrument_engine env loaded name =
    run_when (is_on "OBSERVER_ENGINE_ENABLED" "1" env) (run_hooks env loaded name)

pub record Module (E A Args : Type 0) : Type 0 where
  pub name : String
  pub builder : Builder E A Args

module _ {E A Args : Type 0} where
  -- `_instrument`: an exception of a hook is logged, and ends the call.
  unfoldable pub instrument : Environ → Bool → Module E A Args → Vllm → Module E A Args × Vllm
  unfolding instrument_engine instrument_app
  instrument env loaded m v = (
    record m { builder = if is_in m.name apps then instrument_app m.builder else m.builder },
    (instrument_engine env loaded m.name v).0,
  )

  -- `_ObserverLoader.exec_module`, on what the module's own loader does.
  unfoldable pub exec_module :
      Environ → Bool → Outcome E (Module E A Args) → Vllm → Outcome E (Module E A Args) × Vllm
  unfolding instrument
  exec_module env loaded (raise e) v = (raise e, v)
  exec_module env loaded (ret m) v = let (m', v') = instrument env loaded m v in (ret m', v')
