-- ===== src/Exporter/Sink/Attributes/Keys.antt =====
-- Which settings of a span hold, in `LangfuseSink.__call__` of src/vllm_observer/exporter.py.
use vllm_observer.Base.{
  ℕ, ◌==◌, ◌≡◌, refl, sym, ap, ◌∙◌, String, Bool, true, false, Option, none, some, List, [], ◌∷◌,
  ◌++◌, arith, if◌then◌else◌, inl, inr, All, All-append, Bool-cases, str_eq, eq_iff,
}
use Prim.Native.String
use Prim.Native.Char.{code}
use package.text.Mathlib.TextLemmas.{cons-append}
use vllm_observer.Base.Int.{ℤ}
use vllm_observer.Base.Float.{Float}
use vllm_observer.Base.Dict.{Dict, lookup}
use vllm_observer.Base.Json.{Json}
use vllm_observer.Core.Trace.{Observation, Event, Exported}
use vllm_observer.Exporter.Settings.{Decimals, milliseconds_metadata, to_milliseconds}
use vllm_observer.Exporter.Sink.{metadata_of}
use vllm_observer.Exporter.Sink.Attributes.{
  Attribute, value, kind_of, label_settings, prefixed, Labels, text, set_all, common_attributes,
  for_generation, status_of, nonzero_ns,
}
use vllm_observer.Exporter.Sink.Attributes.Root.{
  attributes, root_attributes, stage_attributes, stage_entries, stage_key, exported_dict, ttft,
  tpot_at, residual_attribute, nonempty_text,
}
use vllm_observer.Exporter.Sink.Attributes.Spares.{
  trace_key, Spares, lookup-set_all_other, set_all-append, lookup-set_all_last,
  for_generation-Spares,
}

-- A key of a stage starts with another letter.
abbrev first_code : String → ℕ
first_code String.[] = 0
first_code (String.◌∷◌ c s) = code c

stage_key-ne-trace_key : (name key : String) → str_eq (stage_key name key) trace_key ≡ false
stage_key-ne-trace_key name key = elim (Bool-cases (str_eq (stage_key name key) trace_key)) [
  | inl same ↦
      let rest = String.◌++◌ name (String.◌++◌ "." key) in
      let e : 111 ≡ first_code trace_key =
        ap first_code (
          sym (cons-append "o" "bserver." rest) ∙ (eq_iff (stage_key name key) trace_key).0 same) in
      absurd (omega arith)
  | inr other ↦ other
]

module _ {F : Type 0} ⦃f : Float F⦄ (decimals : Decimals F) where
  stage_entries-Spares :
      (name : String) (d : Dict (Json F)) → All Spares (stage_entries decimals name d)
  stage_entries-Spares name [] = tt
  stage_entries-Spares name ((key, v) ∷ d) =
      (stage_key-ne-trace_key name (to_milliseconds decimals key v).0, stage_entries-Spares name d)

  stage_attributes-Spares :
      (stages : Dict (Exported F)) → All Spares (stage_attributes decimals stages)
  stage_attributes-Spares [] = tt
  stage_attributes-Spares ((name, e) ∷ stages) =
      All-append Spares (stage_entries decimals name (exported_dict e)) _
        (stage_entries-Spares name (exported_dict e)) (stage_attributes-Spares stages)

  when-Spares :
      (b : Bool) (e : String × Attribute F) → Spares e → All Spares (if b then e ∷ [] else [])
  when-Spares true e h = (h, tt)
  when-Spares false e h = tt

  nonempty-Spares :
      (key : String) (o : Option String)
      → str_eq key trace_key ≡ false
      → All (Spares {F = F}) (nonempty_text key o)
  nonempty-Spares key none h = tt
  nonempty-Spares key (some s) h = elim (Bool-cases (str_eq s "")) [
    | inl blank ↦ rw blank tt
    | inr given ↦ rw given (h, tt)
  ]

  ttft-Spares : (start : ℤ) (n : Option ℤ) → All Spares (ttft decimals start n)
  ttft-Spares start none = tt
  ttft-Spares start (some n) = when-Spares (nonzero_ns n) _ refl

  tpot-Spares :
      (threshold : F) (stages : Dict (Exported F)) (observations : List (Observation F))
      (decode : Option (Exported F))
      → All Spares (tpot_at decimals threshold stages observations decode)
  tpot-Spares threshold stages observations none = tt
  tpot-Spares threshold stages observations (some decode) = elim (Bool-cases (decode.count == 0)) [
    | inl never ↦ rw never tt
    | inr decoded ↦ elim (Bool-cases (f.lt threshold (f.mean decode.total_seconds decode.count))) [
      | inl slow ↦ rw decoded (rw slow (refl, (refl, (refl, (refl, tt)))))
      | inr fast ↦ rw decoded (rw fast (refl, tt))
    ]
  ]

  root_attributes-Spares :
      (sampled : String) (threshold : F) (residual : ℤ) (labels : Labels) (event : Event F)
      (node : Observation F)
      → All Spares (root_attributes decimals sampled threshold residual labels event node)
  unfolding root_attributes
  root_attributes-Spares sampled threshold residual labels event node =
      All-append Spares (nonempty_text "langfuse.user.id" event.user_id) _
        (nonempty-Spares "langfuse.user.id" event.user_id refl)
        (All-append Spares (nonempty_text "langfuse.session.id" event.session_id) _
          (nonempty-Spares "langfuse.session.id" event.session_id refl)
          (
            refl,
            All-append Spares (residual_attribute decimals residual) _
                (when-Spares (nonzero_ns residual) _ refl)
                (
                  refl,
                  (
                    refl,
                    All-append Spares (stage_attributes decimals event.stages) _
                        (stage_attributes-Spares event.stages)
                        (All-append Spares (ttft decimals event.started_ns event.first_body_ns) _
                          (ttft-Spares event.started_ns event.first_body_ns)
                          (
                            refl,
                            tpot-Spares threshold event.stages event.observations
                                (lookup "decode" event.stages),
                          )),
                  ),
                ),
          ))

  lookup-common_attributes :
      (environment : String) (labels : Labels) (event : Event F) (node : Observation F)
      → lookup trace_key (set_all [] (common_attributes decimals environment labels event node))
        ≡ some (text event.trace_id)
  unfolding common_attributes
  lookup-common_attributes environment labels event node =
      let status = status_of event node in
      let first : List (String × Attribute F) =
        ("langfuse.observation.type", text (kind_of node))
        ∷ ("langfuse.trace.name", text "serve-model-request")
        ∷ ("langfuse.environment", text environment)
        ∷ ("observer.status", value status)
        ∷ [] in
      let own = prefixed (milliseconds_metadata decimals (metadata_of node)) in
      let more = for_generation labels event status node in
      ap (lookup trace_key) (
        set_all-append (set_all [] first) (label_settings labels)
          (own ++ (trace_key, text event.trace_id) ∷ more))
      ∙ lookup-set_all_last (set_all (set_all [] first) (label_settings labels)) own more
          (text event.trace_id) (for_generation-Spares labels event status node)

  -- Every span of a timeline carries the identifier of the trace under `traceId`, whatever keys the metadata of
  -- its node, the labels and the stages of the event have.
  pub lookup-attributes :
      (sampled : String) (threshold : F) (residual : ℤ) (environment : String) (labels : Labels)
      (event : Event F) (is_root : Bool) (node : Observation F)
      → lookup "langfuse.observation.metadata.traceId"
          (attributes decimals sampled threshold residual environment labels event is_root node)
        ≡ some (text event.trace_id)
  unfolding attributes
  lookup-attributes sampled threshold residual environment labels event is_root node =
      let common = common_attributes decimals environment labels event node in
      let more : List (String × Attribute F) =
        if is_root
        then root_attributes decimals sampled threshold residual labels event node
        else [] in
      ap (lookup trace_key) (set_all-append [] common more)
      ∙ lookup-set_all_other (set_all [] common) more (more_spares is_root)
      ∙ lookup-common_attributes environment labels event node
    where
      more_spares :
          (b : Bool)
          → All (Spares {F = F}) (
              if b
              then root_attributes decimals sampled threshold residual labels event node
              else [])
      more_spares true = root_attributes-Spares sampled threshold residual labels event node
      more_spares false = tt
