-- ===== src/Engine/Output.antt =====
-- The output half of src/vllm_observer/stages.py: `_attach_stages`, which moves a finished request's
-- record onto its last output, and the wrapped engine step that calls it.
pub mod Attach
use vllm_observer.Base.{
  String, Bool, true, false, Option, none, some, List, [], ◌∷◌, str_eq, if◌then◌else◌,
}
use vllm_observer.Base.Dict.{Dict, lookup, insert, erase}
use vllm_observer.Base.Outcome.{Outcome, ret, raise}
use vllm_observer.Engine.Registry.{Record, Registry, or_else}

-- One request's output of an engine step; `trace_headers` is none where it is None or absent.
pub record Output (H : Type 0) : Type 0 where
  pub request_id : Option String
  pub finished : Bool
  pub trace_headers : Option (Dict H)

abbrev pub stages_header : String
stages_header = "x-observer-engine-stages"

-- `request_id` where it is true as a condition: neither None nor empty.
abbrev pub truthy_id : Option String → Option String
truthy_id none = none
truthy_id (some id) = if str_eq id "" then none else some id

-- `output.trace_headers = {**(headers or {}), STAGES_HEADER: payload}`; none where `json.dumps` raised.
abbrev pub set_header : {H : Type 0} → Option H → Output H → Output H
set_header none output = output
set_header (some payload) output = record output {
  trace_headers = some (insert stages_header payload (or_else output.trace_headers []));
}

-- `dumps` is `json.dumps` of a record: none where it raises.
module _ {F H : Type 0} (dumps : Record F → Option H) where
  abbrev pub attach_record : Option (Record F) → Output H → Output H
  attach_record none output = output
  attach_record (some r) output = set_header (dumps r) output

  -- `_attach_stages`
  unfoldable pub attach_stages : Output H → Registry F → Output H × Registry F
  attach_stages output registry = elim (truthy_id output.request_id) [
    | none ↦ (output, registry)
    | some id ↦ (attach_record (lookup id registry) output, erase id registry)
  ]

  -- The loop of `step` over the outputs of a batch that `_finished_outputs` yields.
  unfoldable pub attach_outputs : List (Output H) → Registry F → List (Output H) × Registry F
  unfolding attach_stages
  attach_outputs [] registry = ([], registry)
  attach_outputs (output ∷ outputs) registry =
      let (output', registry') =
        if output.finished then attach_stages output registry else (output, registry) in
      let (outputs', registry'') = attach_outputs outputs registry' in
      (output' ∷ outputs', registry'')

  -- A batch is its outputs; `attach_batches` walks the values of the dict of batches.
  unfoldable pub attach_batches :
      List (List (Output H)) → Registry F → List (List (Output H)) × Registry F
  unfolding attach_outputs
  attach_batches [] registry = ([], registry)
  attach_batches (outputs ∷ batches) registry =
      let (outputs', registry') = attach_outputs outputs registry in
      let (batches', registry'') = attach_batches batches registry' in
      (outputs' ∷ batches', registry'')

  -- `step` of `install_engine_core`, after the engine's own step returned or raised.
  unfoldable pub observed_step :
      {X : Type 0}
      → Outcome X (List (List (Output H)))
      → Registry F
      → Outcome X (List (List (Output H))) × Registry F
  unfolding attach_batches
  observed_step (raise x) registry = (raise x, registry)
  observed_step (ret batches) registry =
      let (batches', registry') = attach_batches batches registry in (ret batches', registry')
