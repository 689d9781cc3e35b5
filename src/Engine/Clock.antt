-- ===== src/Engine/Clock.antt =====
-- `stamp_outputs` of src/vllm_observer/engine_clock.py: the calibration of the engine's clock, sent along
-- with the last output of a request.
use vllm_observer.Base.{String, some, List, [], ◌∷◌, map, if◌then◌else◌}
use vllm_observer.Base.Dict.{Dict, merge}
use vllm_observer.Engine.Registry.{or_else}
use vllm_observer.Engine.Output.{Output}

abbrev pub clock_mono : String
clock_mono = "x-observer-clock-monotonic"

abbrev pub clock_unix : String
clock_unix = "x-observer-clock-unix-ns"

abbrev pub clock_error : String
clock_error = "x-observer-clock-error-ns"

-- The three readings as texts: `str((before + after) / 2e9)`, `str(wall)` and `str(after - before)`.
pub record Calibration : Type 0 where
  pub mono : String
  pub unix : String
  pub error : String

abbrev pub calibration_headers : Calibration → Dict String
calibration_headers c = (clock_mono, c.mono) ∷ (clock_unix, c.unix) ∷ (clock_error, c.error) ∷ []

-- `output.trace_headers = {**(output.trace_headers or {}), **calibration}`
unfoldable pub stamp_output : Calibration → Output String → Output String
stamp_output c output = record output {
  trace_headers = some (merge (or_else output.trace_headers []) (calibration_headers c));
}

-- `stamp_outputs`, on the outputs of all batches: those that are finished are stamped.
unfoldable pub stamp_outputs :
    Calibration → List (List (Output String)) → List (List (Output String))
unfolding stamp_output
stamp_outputs c batches =
    map (λ outputs. map (λ o. if o.finished then stamp_output c o else o) outputs) batches
