-- ===== src/Exporter/Nodes.antt =====
-- All nodes that `_timeline_nodes` of src/vllm_observer/exporter.py returns, and their order.
pub mod Sort
pub mod Keys
pub mod Order
pub mod Partition
use vllm_observer.Base.{
  ℕ, String, Bool, true, false, ◌&&◌, ◌||◌, Option, none, some, List, [], ◌∷◌, ◌++◌, map,
  if◌then◌else◌, str_eq,
}
use mathlib.Core.Option
use vllm_observer.Base.Int.{ℤ, ◌-ℤ◌, ltb_ℤ, leb_ℤ}
use vllm_observer.Base.Json.{Json}
use vllm_observer.Core.Trace.{Span, Generation, Observation, span, generation}
use vllm_observer.Exporter.Stage.{module_prefixed}
use vllm_observer.Exporter.Timeline.{engine_of, segment, end_or, generation_segments}
use vllm_observer.Exporter.Details.{Detail, details_of}

-- A node with its sort key: the start, and the duration, of which the longer comes first.
pub record Keyed (F : Type 0) : Type 0 where
  pub start_ns : ℤ
  pub duration : ℤ
  pub node : Observation F

module _ {F : Type 0} where
  -- The key of a node; a generation that has no end raises `TypeError`.
  unfoldable pub keyed : Observation F → Option (Keyed F)
  keyed (span s) =
      some (record { start_ns = s.start_ns; duration = s.end_ns -ℤ s.start_ns; node = span s })
  keyed (generation g) = elim g.end_ns [
    | none ↦ none
    | some end_ns ↦
        some
          (record { start_ns = g.start_ns; duration = end_ns -ℤ g.start_ns; node = generation g })
  ]

  unfoldable pub keyed_all : List (Observation F) → Option (List (Keyed F))
  unfolding keyed
  keyed_all [] = some []
  keyed_all (o ∷ observations) = elim (keyed o) [
    | none ↦ none
    | some k ↦ elim (keyed_all observations) [ none ↦ none | some ks ↦ some (k ∷ ks) ]
  ]

  abbrev pub key_le : Keyed F → Keyed F → Bool
  key_le a b =
      ltb_ℤ a.start_ns b.start_ns || leb_ℤ a.start_ns b.start_ns && leb_ℤ b.duration a.duration

  -- `sorted`, which keeps the order of equal keys.
  unfoldable pub insert_sorted : Keyed F → List (Keyed F) → List (Keyed F)
  insert_sorted k [] = k ∷ []
  insert_sorted k (j ∷ ks) = if key_le k j then k ∷ j ∷ ks else j ∷ insert_sorted k ks

  unfoldable pub sorted : List (Keyed F) → List (Keyed F)
  unfolding insert_sorted
  sorted [] = []
  sorted (k ∷ ks) = insert_sorted k (sorted ks)

  abbrev pub generation_start : Option (Generation F) → ℤ → ℤ
  generation_start none end_ns = end_ns
  generation_start (some g) end_ns = g.start_ns

  abbrev pub generation_end : Option (Generation F) → ℤ → ℤ
  generation_end none end_ns = end_ns
  generation_end (some g) end_ns = end_or g.end_ns end_ns

  unfoldable pub api_segment : (String → String) → Span F → ℤ → Span F
  unfolding segment module_prefixed
  api_segment fresh root gen_start =
      segment (fresh "api_prepare") (some root.id) (module_prefixed "api_prepare") root.start_ns
        gen_start (("note", Json.str "routing + render + sampling + submit; details nested") ∷ [])

  unfoldable pub transfer_segment : (String → String) → Span F → ℤ → Span F
  unfolding segment module_prefixed
  transfer_segment fresh root gen_end =
      segment (fresh "response_transfer") (some root.id) (module_prefixed "response_transfer")
        gen_end root.end_ns (("note", Json.str "detokenize + SSE flush + response completion") ∷ [])

  abbrev pub spans : List (Span F) → List (Observation F)
  spans = map span

  abbrev pub generation_node : Span F → Option (Generation F) → List (Observation F)
  generation_node root none = []
  generation_node root (some g) = generation (record g { parent_id = some root.id }) ∷ []

  abbrev pub segments_of :
      (String → String) → List (Observation F) → Option (Generation F) → ℤ → ℤ → List (Span F)
  segments_of fresh observations none gen_start gen_end = []
  segments_of fresh observations (some g) gen_start gen_end =
      generation_segments fresh (engine_of observations) g.id gen_start gen_end

  -- The nodes behind the root, before they are sorted.
  unfoldable pub unsorted_nodes :
      (String → String)
      → List (Observation F)
      → List (Span F)
      → Span F
      → Option (Generation F)
      → List (Observation F)
  unsorted_nodes fresh observations api_intervals root g =
      let gen_start = generation_start g root.end_ns in
      let gen_end = generation_end g root.end_ns in
      let api = api_segment fresh root gen_start in
      let transfer = transfer_segment fresh root gen_end in
      let segments = segments_of fresh observations g gen_start gen_end in
      let details = details_of (api ∷ transfer ∷ segments) api_intervals in
      span api
      ∷ ((if ltb_ℤ transfer.start_ns transfer.end_ns then span transfer ∷ [] else [])
          ++ (generation_node root g ++ (spans segments ++ spans (map (λ d. d.node) details))))

  -- `_timeline_nodes`; none where a sort key raises `TypeError`.
  unfoldable pub timeline_nodes :
      (String → String)
      → List (Observation F)
      → List (Span F)
      → Span F
      → Option (Generation F)
      → Option (List (Observation F))
  timeline_nodes fresh observations api_intervals root g =
      elim (keyed_all (unsorted_nodes fresh observations api_intervals root g)) [
        | none ↦ none
        | some ks ↦ some (span root ∷ map (λ k. k.node) (sorted ks))
      ]
