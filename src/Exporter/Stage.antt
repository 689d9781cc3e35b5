-- ===== src/Exporter/Stage.antt =====
-- The exported names of stages in src/vllm_observer/exporter.py.
use Prim.Native.String.{◌++◌}
use vllm_observer.Base.{String, none, some, [], ◌∷◌}
use vllm_observer.Base.Dict.{Dict, lookup}

-- `TIMELINE_MODULE`
abbrev pub timeline_module : String
timeline_module = "vllm-observer.timeline"

-- `MODULE_BY_STAGE`
abbrev pub module_by_stage : Dict String
module_by_stage =
    ("api_prepare", "api-server")
    ∷ ("render_input", "api-server")
    ∷ ("sampling_params", "api-server")
    ∷ ("input_process", "api-server")
    ∷ ("submit_engine", "api-server")
    ∷ ("output_processor_add", "api-server")
    ∷ ("response_transfer", "api-server")
    ∷ ("engine_handoff", "engine-core")
    ∷ ("waiting_to_first_schedule", "engine-core")
    ∷ ("prefill", "engine-core")
    ∷ ("decode", "engine-core")
    ∷ ("engine_finalize", "engine-core")
    ∷ []

unfoldable pub module_prefixed : String → String
module_prefixed name = elim (lookup name module_by_stage) [
  | none ↦ name
  | some module_name ↦ module_name ++ "." ++ name
]
