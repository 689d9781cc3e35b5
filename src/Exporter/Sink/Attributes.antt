-- ===== src/Exporter/Sink/Attributes.antt =====
-- The attributes that `LangfuseSink.__call__` of src/vllm_observer/exporter.py sets on a span: of two
-- settings of one key the later holds. A value that the code prints with `json.dumps` is the value
-- that it prints; an instant that it prints in ISO format is the instant.
pub mod Root
pub mod Spares
pub mod Keys
use vllm_observer.Base.{
  ℕ, zero, suc, ◌==◌, String, Bool, true, false, not, ◌&&◌, ◌||◌, Option, none, some, List, [], ◌∷◌,
  ◌++◌, if◌then◌else◌, str_eq,
}
use Prim.Native.String
use mathlib.Core.Option
use vllm_observer.Base.Int.{ℤ, pos, ◌-ℤ◌}
use vllm_observer.Base.Float.{Float}
use vllm_observer.Base.Json.{Json, Fields, end, field}
use vllm_observer.Base.Dict.{Dict, lookup, insert}
use vllm_observer.Core.Trace.{Span, Generation, Observation, span, generation, Event, Exported}
use vllm_observer.Metrics.{status_text}
use vllm_observer.Exporter.Settings.{Decimals, milliseconds_metadata, to_milliseconds}
use vllm_observer.Exporter.Sink.{metadata_of, root_of}

pub data Attribute (F : Type 0) : Type 0 where
  value : Json F → Attribute F
  texts : List String → Attribute F
  dumped : Json F → Attribute F
  instant : ℤ → Attribute F

-- What `handle` of the middleware adds to the event, none where it does not.
pub record Labels : Type 0 where
  pub service : Option String
  pub model : Option String
  pub instance_id : Option String

abbrev pub text : {F : Type 0} → String → Attribute F
text s = value (Json.str s)

abbrev pub metadata_key : String → String
metadata_key key = String.◌++◌ "langfuse.observation.metadata." key

abbrev pub nonzero_ns : ℤ → Bool
nonzero_ns (pos zero) = false
nonzero_ns _ = true

abbrev pub parameter_keys : List String
parameter_keys = "temperature" ∷ "top_p" ∷ "top_k" ∷ "max_tokens" ∷ "stream" ∷ "n" ∷ "stop" ∷ []

abbrev pub given_model : Labels → String
given_model labels = elim labels.model [ none ↦ "unknown" | some m ↦ m ]

module _ {F : Type 0} where
  -- `set_attribute`, over and over.
  abbrev pub set_all : Dict (Attribute F) → List (String × Attribute F) → Dict (Attribute F)
  set_all d [] = d
  set_all d ((key, attribute) ∷ rest) = set_all (insert key attribute d) rest

  abbrev pub optional_text : String → Option String → List (String × Attribute F)
  optional_text key none = []
  optional_text key (some s) = (key, text s) ∷ []

  abbrev pub label_settings : Labels → List (String × Attribute F)
  label_settings labels =
      optional_text (metadata_key "service") labels.service
      ++ (optional_text (metadata_key "model") labels.model
          ++ optional_text (metadata_key "instance_id") labels.instance_id)

  abbrev pub prefixed : Dict (Json F) → List (String × Attribute F)
  prefixed [] = []
  prefixed ((key, v) ∷ d) = (metadata_key key, value v) ∷ prefixed d

  abbrev pub fields_of : Dict (Json F) → Fields F
  fields_of [] = end
  fields_of ((key, v) ∷ d) = field key v (fields_of d)

  abbrev pub payload_object : Option (Dict (Json F)) → Json F
  payload_object none = Json.obj end
  payload_object (some d) = Json.obj (fields_of d)

  abbrev pub or_null : Option (Json F) → Json F
  or_null none = Json.null
  or_null (some v) = v

  abbrev pub count_or_null : Option ℕ → Json F
  count_or_null none = Json.null
  count_or_null (some n) = Json.int (pos n)

  abbrev pub usage_fields : Dict ℕ → Fields F
  usage_fields [] = end
  usage_fields ((key, n) ∷ d) = field key (Json.int (pos n)) (usage_fields d)

  abbrev pub count_attribute : String → Option ℕ → List (String × Attribute F)
  count_attribute key none = []
  count_attribute key (some n) = (key, value (Json.int (pos n))) ∷ []

  abbrev pub completion_start : Option ℤ → List (String × Attribute F)
  completion_start none = []
  completion_start (some n) =
      if nonzero_ns n then ("langfuse.observation.completion_start_time", instant n) ∷ [] else []

  -- The parameters of the model, in the order of the code.
  abbrev pub parameters_in : List String → Dict (Json F) → Fields F
  parameters_in [] payload = end
  parameters_in (key ∷ keys) payload =
      let rest = parameters_in keys payload in
      elim (lookup key payload) [ none ↦ rest | some v ↦ field key v rest ]

  abbrev pub dump_fields : Fields F → List (String × Attribute F)
  dump_fields end = []
  dump_fields fields = ("langfuse.observation.model.parameters", dumped (Json.obj fields)) ∷ []

  abbrev pub model_parameters : Option (Dict (Json F)) → List (String × Attribute F)
  model_parameters none = []
  model_parameters (some payload) = dump_fields (parameters_in parameter_keys payload)

  abbrev pub generation_input : Option (Dict (Json F)) → Dict ℕ → Json F
  generation_input none usage =
      Json.obj (field "input_tokens" (count_or_null (lookup "input" usage)) end)
  generation_input (some payload) usage = Json.obj (fields_of payload)

  -- What is set on a generation, whose status is `status`.
  unfoldable pub generation_attributes :
      Labels
      → Option (Dict (Json F))
      → Option (Json F)
      → Json F
      → Generation F
      → List (String × Attribute F)
  generation_attributes labels payload response status g =
      ("langfuse.observation.model.name", text (given_model labels))
      ∷ ("gen_ai.request.model", text (given_model labels))
      ∷ (count_attribute "gen_ai.usage.prompt_tokens" (lookup "input" g.usage)
          ++ (count_attribute "gen_ai.usage.completion_tokens" (lookup "output" g.usage)
              ++ (("langfuse.observation.usage_details", dumped (Json.obj (usage_fields g.usage)))
                  ∷ (completion_start g.completion_start_ns
                      ++ (("langfuse.observation.input", dumped (generation_input payload g.usage))
                          ∷ (
                            "langfuse.observation.output",
                            dumped (
                                Json.obj (
                                  field "output_tokens" (count_or_null (lookup "output" g.usage)) (
                                    field "content" (or_null response)
                                      (field "status" status end)))),
                          )
                          ∷ model_parameters payload)))))

  -- `node.get("metadata", {}).get("status", event["status"])`
  unfoldable pub status_of : Event F → Observation F → Json F
  status_of event node = elim (lookup "status" (metadata_of node)) [
    | none ↦ Json.str (status_text event.status)
    | some status ↦ status
  ]

  -- `status != "ok"`: the span gets the status code ERROR.
  abbrev pub is_failed : Json F → Bool
  is_failed (Json.str status) = not (str_eq status "ok")
  is_failed _ = true

  abbrev pub kind_of : Observation F → String
  kind_of (span s) = "span"
  kind_of (generation g) = "generation"

  abbrev pub for_generation :
      Labels → Event F → Json F → Observation F → List (String × Attribute F)
  for_generation labels event status (span s) = []
  for_generation labels event status (generation g) =
      generation_attributes labels event.request_payload event.response_text status g

module _ {F : Type 0} ⦃f : Float F⦄ (decimals : Decimals F) where
  -- What is set on every node: the trace's identifier behind the metadata of the node.
  unfoldable pub common_attributes :
      String → Labels → Event F → Observation F → List (String × Attribute F)
  unfolding status_of
  common_attributes environment labels event node =
      ("langfuse.observation.type", text (kind_of node))
      ∷ ("langfuse.trace.name", text "serve-model-request")
      ∷ ("langfuse.environment", text environment)
      ∷ ("observer.status", value (status_of event node))
      ∷ (label_settings labels
          ++ (prefixed (milliseconds_metadata decimals (metadata_of node))
              ++ ((metadata_key "traceId", text event.trace_id)
                  ∷ for_generation labels event (status_of event node) node)))
