-- ===== src/Exporter/Sink/Attributes/Spares.antt =====
-- The attributes of src/vllm_observer/exporter.py that spare the identifier of the trace.
use vllm_observer.Base.{
  ℕ, ◌≡◌, refl, ap, ◌∙◌, String, Bool, true, false, Option, none, some, List, [], ◌∷◌, ◌++◌,
  if◌then◌else◌, All, All-append, str_eq,
}
use vllm_observer.Base.Int.{ℤ}
use vllm_observer.Base.Dict.{Dict, lookup, insert, lookup-insert}
use vllm_observer.Base.Json.{Json, Fields, end, field}
use vllm_observer.Core.Trace.{Observation, span, generation, Event}
use vllm_observer.Exporter.Sink.Attributes.{
  Attribute, instant, Labels, metadata_key, set_all, generation_attributes, for_generation,
  count_attribute, completion_start, model_parameters, dump_fields, parameters_in, parameter_keys,
  nonzero_ns,
}

abbrev pub trace_key : String
trace_key = metadata_key "traceId"

module _ {F : Type 0} where
  -- The setting is of another key.
  abbrev pub Spares : String × Attribute F → Type 0
  Spares e = str_eq e.0 trace_key ≡ false

  pub lookup-set_all_other :
      (d : Dict (Attribute F)) (es : List (String × Attribute F))
      → All Spares es
      → lookup trace_key (set_all d es) ≡ lookup trace_key d
  lookup-set_all_other d [] h = refl
  lookup-set_all_other d ((key, a) ∷ es) h =
      lookup-set_all_other (insert key a d) es h.1 ∙ lookup-insert trace_key key a d ∙ rw h.0 refl

  pub set_all-append :
      (d : Dict (Attribute F)) (xs ys : List (String × Attribute F))
      → set_all d (xs ++ ys) ≡ set_all (set_all d xs) ys
  set_all-append d [] ys = refl
  set_all-append d ((key, a) ∷ xs) ys = set_all-append (insert key a d) xs ys

  pub lookup-set_all_last :
      (d : Dict (Attribute F)) (xs ys : List (String × Attribute F)) (a : Attribute F)
      → All Spares ys
      → lookup trace_key (set_all d (xs ++ (trace_key, a) ∷ ys)) ≡ some a
  lookup-set_all_last d xs ys a h =
      ap (lookup trace_key) (set_all-append d xs ((trace_key, a) ∷ ys))
      ∙ lookup-set_all_other (insert trace_key a (set_all d xs)) ys h
      ∙ lookup-insert trace_key trace_key a (set_all d xs)

module _ (F : Type 0) where
  count-Spares :
      (key : String) (n : Option ℕ)
      → str_eq key trace_key ≡ false
      → All Spares (count_attribute {F = F} key n)
  count-Spares key none h = tt
  count-Spares key (some n) h = (h, tt)

  completion_start-Spares : (n : Option ℤ) → All (Spares {F = F}) (completion_start n)
  completion_start-Spares none = tt
  completion_start-Spares (some n) = started (nonzero_ns n)
    where
      started :
          (b : Bool)
          → All
              (Spares {F = F})
              (if b then ("langfuse.observation.completion_start_time", instant n) ∷ [] else [])
      started true = (refl, tt)
      started false = tt

module _ {F : Type 0} where
  dump_fields-Spares : (fields : Fields F) → All Spares (dump_fields fields)
  dump_fields-Spares end = tt
  dump_fields-Spares (field k v r) = (refl, tt)

  model_parameters-Spares :
      (payload : Option (Dict (Json F))) → All Spares (model_parameters payload)
  model_parameters-Spares none = tt
  model_parameters-Spares (some payload) = dump_fields-Spares (parameters_in parameter_keys payload)

  pub for_generation-Spares :
      (labels : Labels) (event : Event F) (status : Json F) (node : Observation F)
      → All Spares (for_generation labels event status node)
  unfolding generation_attributes
  for_generation-Spares labels event status (span s) = tt
  for_generation-Spares labels event status (generation g) =
      let prompt = count_attribute "gen_ai.usage.prompt_tokens" (lookup "input" g.usage) in
      let completion = count_attribute "gen_ai.usage.completion_tokens" (lookup "output" g.usage) in
      let start = completion_start g.completion_start_ns in
      (
        refl,
        (
          refl,
          All-append Spares prompt _
              (count-Spares F "gen_ai.usage.prompt_tokens" (lookup "input" g.usage) refl)
              (All-append Spares completion _
                (count-Spares F "gen_ai.usage.completion_tokens" (lookup "output" g.usage) refl)
                (
                  refl,
                  All-append Spares start _ (completion_start-Spares F g.completion_start_ns)
                      (refl, (refl, model_parameters-Spares event.request_payload)),
                )),
        ),
      )
