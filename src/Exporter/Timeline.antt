-- ===== src/Exporter/Timeline.antt =====
-- `_timeline_nodes` of src/vllm_observer/exporter.py: the spans of one finished request, cut so that
-- they partition it. `fresh` gives the identifier that `uuid4` makes for the segment of a name.
pub mod Tiles
use vllm_observer.Base.{
  ℕ, zero, suc, String, Bool, true, false, not, ◌&&◌, ◌||◌, Option, none, some, List, [], ◌∷◌, ◌++◌,
  map, filter_by, find_first, foldl, if◌then◌else◌, str_eq,
}
use mathlib.Core.Option
use vllm_observer.Base.Int.{ℤ, pos, negsuc, ◌+ℤ◌, ◌-ℤ◌, half_ℤ, ltb_ℤ, leb_ℤ, max_ℤ, min_ℤ}
use vllm_observer.Base.Dict.{Dict, lookup, get_or, insert, erase, merge}
use vllm_observer.Base.Json.{Json}
use vllm_observer.Core.Trace.{Span, Generation, Observation, span, generation, Event}
use vllm_observer.Exporter.Stage.{module_prefixed, timeline_module}

-- The segment of the generation that is to be cut, under its exported name.
pub record Boundary : Type 0 where
  pub name : String
  pub start_ns : ℤ
  pub end_ns : ℤ

-- `a or b`
abbrev pub or_other : {A : Type 0} → Option A → Option A → Option A
or_other none b = b
or_other (some a) b = some a

module _ {F : Type 0} where
  -- `_segment`
  unfoldable pub segment : String → Option String → String → ℤ → ℤ → Dict (Json F) → Span F
  segment id parent_id name start_ns end_ns metadata = record {
    id = id;
    parent_id = parent_id;
    name = name;
    start_ns = start_ns;
    end_ns = end_ns;
    metadata =
        merge
          (("timing_source", Json.str "boundary_partition")
            ∷ ("module", Json.str timeline_module)
            ∷ [])
          metadata;
  }

  -- The dict `engine`: of the spans of one name, the last.
  unfoldable pub engine_node : String → List (Observation F) → Option (Span F)
  engine_node name [] = none
  engine_node name (generation g ∷ observations) = engine_node name observations
  engine_node name (span s ∷ observations) = elim (engine_node name observations) [
    | none ↦ if str_eq s.name name then some s else none
    | some later ↦ some later
  ]

-- `node.get("end_ns") or end`: zero counts as missing, too.
unfoldable pub end_or : Option ℤ → ℤ → ℤ
end_or none end_ns = end_ns
end_or (some (pos zero)) end_ns = end_ns
end_or (some (pos (suc n))) end_ns = pos (suc n)
end_or (some (negsuc n)) end_ns = negsuc n

unfoldable pub clamp : ℤ → ℤ → ℤ → ℤ
clamp value lo hi = max_ℤ lo (min_ℤ value hi)

-- The loop that cuts the boundaries: `previous` is `seen[-1]`, and what is empty is left out.
unfoldable pub cut : ℤ → ℤ → List Boundary → List Boundary
cut gen_end previous [] = []
cut gen_end previous (b ∷ boundaries) =
    let seg_start = max_ℤ b.start_ns previous in
    let seg_end = max_ℤ seg_start (min_ℤ b.end_ns gen_end) in
    let rest = cut gen_end seg_end boundaries in
    if leb_ℤ seg_end seg_start
    then rest
    else record { name = b.name; start_ns = seg_start; end_ns = seg_end } ∷ rest

-- What the engine reported of one request: the spans that `_timeline_nodes` reads.
pub record Engine (F : Type 0) : Type 0 where
  pub queue : Option (Span F)
  pub waiting : Option (Span F)
  pub prefill : Option (Span F)
  pub decode : Option (Span F)

module _ {F : Type 0} where
  unfoldable pub engine_of : List (Observation F) → Engine F
  unfolding engine_node
  engine_of observations = record {
    queue = engine_node "queue" observations;
    waiting =
        or_other (engine_node "waiting_to_first_schedule" observations)
          (engine_node "queue" observations);
    prefill = engine_node "prefill" observations;
    decode = engine_node "decode" observations;
  }

  abbrev start_or : Option (Span F) → ℤ → ℤ
  start_or none default = default
  start_or (some s) default = s.start_ns

  abbrev span_end_or : Option (Span F) → ℤ → ℤ
  span_end_or none default = default
  span_end_or (some s) default = s.end_ns

  -- `boundaries`, from the start of the generation to its end
  unfoldable pub boundaries_of : Engine F → ℤ → ℤ → List Boundary
  unfolding clamp
  boundaries_of engine gen_start gen_end =
      let w_start = start_or engine.waiting gen_start in
      let p_start = start_or engine.prefill w_start in
      let d_start = start_or engine.decode p_start in
      let d_end = span_end_or engine.decode (span_end_or engine.prefill d_start) in
      let w = clamp w_start gen_start gen_end in
      let p = clamp p_start gen_start gen_end in
      let d = clamp d_start gen_start gen_end in
      let e = clamp d_end gen_start gen_end in
      record { name = module_prefixed "engine_handoff"; start_ns = gen_start; end_ns = w }
      ∷ record { name = module_prefixed "waiting_to_first_schedule"; start_ns = w; end_ns = p }
      ∷ record { name = module_prefixed "prefill"; start_ns = p; end_ns = d }
      ∷ record { name = module_prefixed "decode"; start_ns = d; end_ns = e }
      ∷ record { name = module_prefixed "engine_finalize"; start_ns = e; end_ns = gen_end }
      ∷ []

  abbrev pub without : String → Dict (Json F) → Dict (Json F)
  without key d = filter_by (λ e. not (str_eq e.0 key)) d

  -- `extra` for the waiting segment: the metadata of the waiting span, and the queue's duration.
  unfoldable pub waiting_metadata : Engine F → Span F → Dict (Json F)
  waiting_metadata engine waiting =
      let extra = erase "timing_source" waiting.metadata in
      let queue_meta : Dict (Json F) = elim engine.queue [ none ↦ [] | some q ↦ q.metadata ] in
      elim (lookup "total_seconds" queue_meta) [
        | none ↦ extra
        | some seconds ↦ insert "queue_total_seconds" seconds extra
      ]

  abbrev metadata_when : Bool → Option (Dict (Json F)) → Dict (Json F) → Dict (Json F)
  metadata_when true (some metadata) extra = metadata
  metadata_when true none extra = extra
  metadata_when false metadata extra = extra

  -- The three `if` statements of the loop that set `extra`, in their order.
  unfoldable pub extra_metadata : Engine F → String → Dict (Json F)
  unfolding waiting_metadata
  extra_metadata engine name =
      metadata_when (str_eq name (module_prefixed "decode"))
        (Option.map (λ s. without "timing_source" s.metadata) engine.decode)
        (metadata_when (str_eq name (module_prefixed "prefill"))
          (Option.map (λ s. without "timing_source" s.metadata) engine.prefill)
          (metadata_when (str_eq name (module_prefixed "waiting_to_first_schedule"))
            (Option.map (waiting_metadata engine) engine.waiting) []))

  -- The segments of the generation that are not empty.
  unfoldable pub generation_segments : (String → String) → Engine F → String → ℤ → ℤ → List (Span F)
  unfolding boundaries_of cut segment extra_metadata
  generation_segments fresh engine gen_id gen_start gen_end =
      map
        (λ b.
          segment (fresh b.name) (some gen_id) b.name b.start_ns b.end_ns
            (extra_metadata engine b.name))
        (cut gen_end gen_start (boundaries_of engine gen_start gen_end))
