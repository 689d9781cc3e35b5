-- ===== src/Engine/Output/Attach.antt =====
-- A record leaves the registry with the request's last output.
use vllm_observer.Base.{
  ◌≡◌, refl, ap, suc, ◌∙◌, String, Bool, true, false, ◌&&◌, ◌||◌, Option, none, some, List, [], ◌∷◌,
  ◌++◌, arith, if◌then◌else◌, eq_iff, str_eq, Option-cases, inl, inr, length,
}
use vllm_observer.Base.Dict.{
  Dict, lookup-insert, UniqueKeys, lookup, lookup-erase_self, lookup-erase_ne, erase-UniqueKeys,
}
use vllm_observer.Engine.Registry.{Record, Registry, or_else}
use vllm_observer.Engine.Output.{
  Output, truthy_id, set_header, attach_stages, attach_outputs, attach_batches,
}

-- The output is the last one of the request `id`.
abbrev pub is_last_of : {H : Type 0} → String → Output H → Bool
is_last_of id output =
    output.finished && elim (truthy_id output.request_id) [ none ↦ false | some j ↦ str_eq j id ]

abbrev pub ends : {H : Type 0} → String → List (Output H) → Bool
ends id [] = false
ends id (output ∷ outputs) = is_last_of id output || ends id outputs

abbrev pub ends_in : {H : Type 0} → String → List (List (Output H)) → Bool
ends_in id [] = false
ends_in id (outputs ∷ batches) = ends id outputs || ends_in id batches

abbrev pub headers_of : {H : Type 0} → Output H → Dict H
headers_of output = or_else output.trace_headers []

-- The output with one more header, under the name of the stages, and every other header as it was.
pub record HasHeader {H : Type 0} (payload : H) (old new : Output H) : Type 0 where
  pub same_id : new.request_id ≡ old.request_id
  pub same_end : new.finished ≡ old.finished
  pub headers :
      (key : String)
      → lookup key (headers_of new) ≡ (
          if str_eq "x-observer-engine-stages" key
          then some payload
          else lookup key (headers_of old))

-- The output with the record, if it can be dumped, and else as it was.
abbrev pub Carries : {H : Type 0} → Option H → Output H → Output H → Type 0
Carries none old new = new ≡ old
Carries (some payload) old new = HasHeader payload old new

set_header-Carries :
    {H : Type 0} (payload : Option H) (output : Output H)
    → Carries payload output (set_header payload output)
set_header-Carries none output = refl
set_header-Carries (some payload) output = record {
  same_id = refl;
  same_end = refl;
  headers = λ key. lookup-insert key "x-observer-engine-stages" payload (headers_of output);
}

module _ {F H : Type 0} (dumps : Record F → Option H) where
  -- The step of the loop of `attach_outputs` on one output.
  abbrev attach_one : Output H → Registry F → Output H × Registry F
  attach_one output registry =
      if output.finished then attach_stages dumps output registry else (output, registry)

  lookup-attach_one :
      (id : String) (output : Output H) (registry : Registry F)
      → UniqueKeys registry
      → lookup id (attach_one output registry).1
        ≡ (if is_last_of id output then none else lookup id registry)
  unfolding attach_stages
  lookup-attach_one id output registry h = elim (Option-cases (truthy_id output.request_id)) [
    | inl anonymous ↦ ground arith
    | inr (j, named) ↦
        ground (arith, eq_iff j id, lookup-erase_self j registry h, lookup-erase_ne id j registry)
  ]

  attach_one-UniqueKeys :
      (output : Output H) (registry : Registry F)
      → UniqueKeys registry
      → UniqueKeys (attach_one output registry).1
  unfolding attach_stages
  attach_one-UniqueKeys output registry h = elim (Option-cases (truthy_id output.request_id)) [
    | inl anonymous ↦ ground arith
    | inr (j, named) ↦ ground (arith, erase-UniqueKeys j registry h)
  ]

  attach_outputs-UniqueKeys :
      (outputs : List (Output H)) (registry : Registry F)
      → UniqueKeys registry
      → UniqueKeys (attach_outputs dumps outputs registry).1
  unfolding attach_outputs
  attach_outputs-UniqueKeys [] registry h = h
  attach_outputs-UniqueKeys (output ∷ outputs) registry h =
      attach_outputs-UniqueKeys outputs (attach_one output registry).1
        (attach_one-UniqueKeys output registry h)

  lookup-attach_outputs :
      (id : String) (outputs : List (Output H)) (registry : Registry F)
      → UniqueKeys registry
      → lookup id (attach_outputs dumps outputs registry).1
        ≡ (if ends id outputs then none else lookup id registry)
  unfolding attach_outputs
  lookup-attach_outputs id [] registry h = refl
  lookup-attach_outputs id (output ∷ outputs) registry h =
      lookup-attach_outputs id outputs (attach_one output registry).1
        (attach_one-UniqueKeys output registry h)
      ∙ ground (arith, lookup-attach_one id output registry h)

  -- If no id stands twice in the registry, then after an engine step it holds no request that the
  -- step's outputs finished, and every other request's record as it was.
  pub lookup-attach_batches :
      (id : String) (batches : List (List (Output H))) (registry : Registry F)
      → UniqueKeys registry
      → lookup id (attach_batches dumps batches registry).1
        ≡ (if ends_in id batches then none else lookup id registry)
  unfolding attach_batches
  lookup-attach_batches id [] registry h = refl
  lookup-attach_batches id (outputs ∷ batches) registry h =
      lookup-attach_batches id batches (attach_outputs dumps outputs registry).1
        (attach_outputs-UniqueKeys outputs registry h)
      ∙ ground (arith, lookup-attach_outputs id outputs registry h)

  attach_one-payload :
      (id : String) (output : Output H) (registry : Registry F) (r : Record F)
      → is_last_of id output ≡ true
      → lookup id registry ≡ some r
      → (attach_one output registry).0 ≡ set_header (dumps r) output
  unfolding attach_stages
  attach_one-payload id output registry r last found =
      elim (Option-cases (truthy_id output.request_id)) [
        | inl anonymous ↦ ground arith
        | inr (j, named) ↦ ground (arith, eq_iff j id)
      ]

  first_output :
      (id : String) (before after : List (Output H)) (output : Output H) (registry : Registry F)
      (r : Record F)
      → UniqueKeys registry
      → ends id before ≡ false
      → is_last_of id output ≡ true
      → lookup id registry ≡ some r
      → (before' after' : List (Output H)) × ((attach_outputs dumps
            (before ++ output ∷ after)
            registry).0
          ≡ before' ++ set_header (dumps r) output ∷ after')
        × (length before' ≡ length before)
  unfolding attach_outputs
  first_output id [] after output registry r h none_before last found = (
    [],
    (attach_outputs dumps after (attach_one output registry).1).0,
    ap (λ x. x ∷ (attach_outputs dumps after (attach_one output registry).1).0)
        (attach_one-payload id output registry r last found),
    refl,
  )
  first_output id (first ∷ before) after output registry r h none_before last found =
      let (before', after', e, l) =
        first_output id before after output (attach_one first registry).1 r
          (attach_one-UniqueKeys first registry h) (ground arith) last
          (lookup-attach_one id first registry h ∙ ground arith) in
      (
        (attach_one first registry).0 ∷ before',
        after',
        ap (λ xs. (attach_one first registry).0 ∷ xs) e,
        ap suc l,
      )

  ends-append :
      (id : String) (before after : List (Output H)) (output : Output H)
      → is_last_of id output ≡ true
      → ends id (before ++ output ∷ after) ≡ true
  ends-append id [] after output last = ground arith
  ends-append id (first ∷ before) after output last =
      ground (arith, ends-append id before after output last)

  -- In a registry in which no id stands twice, the first output that finishes a registered
  -- request carries that request's record under the header `x-observer-engine-stages`, with every
  -- other header, its id and its end as they were; where the record cannot be dumped, the output
  -- is as it was. In both cases the record has left the registry, and the output keeps its place.
  pub attach_outputs-payload :
      (id : String) (before after : List (Output H)) (output : Output H) (registry : Registry F)
      (r : Record F)
      → UniqueKeys registry
      → ends id before ≡ false
      → is_last_of id output ≡ true
      → lookup id registry ≡ some r
      → let (outputs, registry') = attach_outputs dumps (before ++ output ∷ after) registry in
        (before' after' : List (Output H)) × (output' : Output H) × (outputs
          ≡ before' ++ output' ∷ after')
        × (length before' ≡ length before)
        × Carries (dumps r) output output'
        × (lookup id registry' ≡ none)
  attach_outputs-payload id before after output registry r unique none_before last found =
      let (before', after', e, l) =
        first_output id before after output registry r unique none_before last found in
      (
        before',
        after',
        set_header (dumps r) output,
        e,
        l,
        set_header-Carries (dumps r) output,
        lookup-attach_outputs id (before ++ output ∷ after) registry unique
            ∙ rw (ends-append id before after output last) refl,
      )
