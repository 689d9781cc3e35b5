-- ===== src/Exporter/Sink/Attributes/Root.antt =====
-- What `LangfuseSink.__call__` of src/vllm_observer/exporter.py sets on the root of a timeline
-- besides, and all the settings of a span.
use vllm_observer.Base.{
  ◌==◌, String, Bool, true, ◌||◌, Option, none, some, List, [], ◌∷◌, ◌++◌, if◌then◌else◌, str_eq,
}
use Prim.Native.String
use vllm_observer.Base.Int.{ℤ, pos, ◌-ℤ◌}
use vllm_observer.Base.Float.{Float}
use vllm_observer.Base.Json.{Json, Fields, end, field}
use vllm_observer.Base.Dict.{Dict, lookup}
use vllm_observer.Core.Trace.{Span, Observation, span, generation, Event, Exported}
use vllm_observer.Exporter.Settings.{Decimals, milliseconds_metadata, to_milliseconds}
use vllm_observer.Exporter.Sink.Attributes.{
  Attribute, value, texts, dumped, Labels, text, set_all, fields_of, payload_object, or_null,
  nonzero_ns, status_of, common_attributes,
}

abbrev pub tag : Option String → List String
tag none = []
tag (some s) = if str_eq s "" then [] else s ∷ []

abbrev pub stage_key : String → String → String
stage_key name key = String.◌++◌ "observer." (String.◌++◌ name (String.◌++◌ "." key))

module _ {F : Type 0} where
  abbrev pub nonempty_text : String → Option String → List (String × Attribute F)
  nonempty_text key none = []
  nonempty_text key (some s) = if str_eq s "" then [] else (key, text s) ∷ []

  abbrev pub exported_dict : Exported F → Dict (Json F)
  exported_dict e =
      ("count", Json.int (pos e.count))
      ∷ ("total_seconds", Json.float e.total_seconds)
      ∷ ("mean_seconds", Json.float e.mean_seconds)
      ∷ []

  -- The first observation that tells how long the request waited.
  abbrev pub waiting_node : List (Observation F) → Option (Span F)
  waiting_node [] = none
  waiting_node (generation g ∷ observations) = waiting_node observations
  waiting_node (span s ∷ observations) =
      if str_eq s.name "waiting_to_first_schedule" || str_eq s.name "queue"
      then some s
      else waiting_node observations

module _ {F : Type 0} ⦃f : Float F⦄ (decimals : Decimals F) where
  abbrev pub stage_entries : String → Dict (Json F) → List (String × Attribute F)
  stage_entries name [] = []
  stage_entries name ((key, v) ∷ d) =
      let pair = to_milliseconds decimals key v in
      (stage_key name pair.0, value pair.1) ∷ stage_entries name d

  abbrev pub stage_attributes : Dict (Exported F) → List (String × Attribute F)
  stage_attributes [] = []
  stage_attributes ((name, e) ∷ stages) =
      stage_entries name (exported_dict e) ++ stage_attributes stages

  abbrev pub ttft : ℤ → Option ℤ → List (String × Attribute F)
  ttft start_ns none = []
  ttft start_ns (some n) =
      if nonzero_ns n
      then (
        "observer.ttft_ms",
        value (Json.float (decimals.millionth_of (decimals.of_int (n -ℤ start_ns)))),
      )
        ∷ []
      else []

  abbrev pub as_object : Dict (Json F) → Json F
  as_object d = Json.obj (fields_of (milliseconds_metadata decimals d))

  abbrev pub stage_details : List String → Dict (Exported F) → Fields F
  stage_details [] stages = end
  stage_details (name ∷ names) stages =
      let rest = stage_details names stages in
      elim (lookup name stages) [
        | none ↦ rest
        | some e ↦ field name (as_object (exported_dict e)) rest
      ]

  abbrev pub slow_details : List (Observation F) → Dict (Exported F) → Fields F
  slow_details observations stages =
      let rest =
        stage_details ("queue" ∷ "schedule_total" ∷ "execute_model" ∷ "prefill" ∷ []) stages in
      elim (waiting_node observations) [
        | none ↦ rest
        | some s ↦ field "waiting" (as_object s.metadata) rest
      ]

  -- The time for each output token, and what there is to say if it is above the threshold.
  abbrev pub tpot_at :
      F
      → Dict (Exported F)
      → List (Observation F)
      → Option (Exported F)
      → List (String × Attribute F)
  tpot_at threshold stages observations none = []
  tpot_at threshold stages observations (some decode) =
      let tpot = f.mean decode.total_seconds decode.count in
      if decode.count == 0
      then []
      else ("observer.tpot_ms", value (Json.float (decimals.thousandfold tpot)))
        ∷ (if f.lt threshold tpot
            then ("observer.slow_tpot", value (Json.bool true))
              ∷ ("observer.tpot_threshold_ms", value (Json.float (decimals.thousandfold threshold)))
              ∷ ("observer.slow_tpot_details", dumped (Json.obj (slow_details observations stages)))
              ∷ []
            else [])

  abbrev pub residual_attribute : ℤ → List (String × Attribute F)
  residual_attribute residual =
      if nonzero_ns residual
      then (
        "observer.clock_calibration_error_ms",
        value (Json.float (decimals.millionth_of (decimals.of_int residual))),
      )
        ∷ []
      else []

  -- What is set on the root besides. `sampled` tells why the event is exported.
  unfoldable pub root_attributes :
      String → F → ℤ → Labels → Event F → Observation F → List (String × Attribute F)
  unfolding status_of
  root_attributes sampled threshold residual labels event node =
      nonempty_text "langfuse.user.id" event.user_id
      ++ (nonempty_text "langfuse.session.id" event.session_id
          ++ ((
            "langfuse.trace.tags",
            texts (
                tag labels.service
                ++ (tag labels.model
                    ++ (tag labels.instance_id ++ String.◌++◌ "sampled=" sampled ∷ []))),
          )
              ∷ (residual_attribute residual
                  ++ (("langfuse.observation.input", dumped (payload_object event.request_payload))
                      ∷ (
                        "langfuse.observation.output",
                        dumped (
                            Json.obj (
                              field "status" (status_of event node) (
                                field "engine_requests" (Json.int (pos event.engine_requests))
                                  (field "content" (or_null event.response_text) end)))),
                      )
                      ∷ (stage_attributes event.stages
                          ++ (ttft event.started_ns event.first_body_ns
                              ++ ((
                                "observer.timeline_partition",
                                text "api_prepare + generate-response + response_transfer = total",
                              )
                                  ∷ tpot_at threshold event.stages event.observations
                                      (lookup "decode" event.stages))))))))

  -- All settings of one span; `is_root` is `node is root`.
  unfoldable pub attributes :
      String → F → ℤ → String → Labels → Event F → Bool → Observation F → Dict (Attribute F)
  unfolding common_attributes root_attributes
  attributes sampled threshold residual environment labels event is_root node = set_all [] (
      common_attributes decimals environment labels event node
      ++ (if is_root then root_attributes sampled threshold residual labels event node else []))
