-- ===== src/Exporter/Timeline/Tiles.antt =====
-- The segments of a generation partition it.
use vllm_observer.Base.{
  ◌≡◌, refl, ◌∙◌, subst, String, some, List, [], ◌∷◌, ◌++◌, map, arith, Bool-cases, inl, inr,
}
use vllm_observer.Base.Int.{
  ℤ, pos, ◌+ℤ◌, ◌-ℤ◌, ◌≤ℤ◌, ◌<ℤ◌, leb_ℤ, max_ℤ, min_ℤ, eq_of_parts, +ℤ_telescope,
}
use vllm_observer.Core.Trace.{Span}
use vllm_observer.Exporter.Timeline.{
  Boundary, Engine, cut, clamp, boundaries_of, segment, extra_metadata, generation_segments,
}

-- Each boundary ends by `hi` and begins where the one before it ends, the first at `lo`, the last ends at `hi`.
abbrev Chained : ℤ → ℤ → List Boundary → Type 0
Chained lo hi [] = lo ≡ hi
Chained lo hi (b ∷ bs) = (b.start_ns ≡ lo) × (b.end_ns ≤ℤ hi) × Chained b.end_ns hi bs

-- Nothing between `lo` and `hi` is left out, nothing is covered twice, and no piece is empty.
abbrev pub Tiles : {F : Type 0} → ℤ → ℤ → List (Span F) → Type 0
Tiles lo hi [] = lo ≡ hi
Tiles lo hi (s ∷ ss) = (s.start_ns ≡ lo) × (lo <ℤ s.end_ns) × Tiles s.end_ns hi ss

abbrev BoundaryTiles : ℤ → ℤ → List Boundary → Type 0
BoundaryTiles lo hi [] = lo ≡ hi
BoundaryTiles lo hi (b ∷ bs) = (b.start_ns ≡ lo) × (lo <ℤ b.end_ns) × BoundaryTiles b.end_ns hi bs

-- The bounds that the loop of `cut` gives one boundary, when it begins where the last one ended.
cut_start :
    (b : Boundary) (lo previous : ℤ)
    → b.start_ns ≡ lo
    → lo ≤ℤ previous
    → max_ℤ b.start_ns previous ≡ previous
cut_start b lo previous e h = ground (arith, eq_of_parts lo previous)

cut_end_le :
    (end_ns gen_end previous : ℤ)
    → end_ns ≤ℤ gen_end
    → previous ≤ℤ gen_end
    → let seg_end = max_ℤ previous (min_ℤ end_ns gen_end) in
      (end_ns ≤ℤ seg_end) × (seg_end ≤ℤ gen_end) × (previous ≤ℤ seg_end)
cut_end_le end_ns gen_end previous h k = (ground arith, ground arith, ground arith)

cut-BoundaryTiles :
    (gen_end lo previous : ℤ) (bs : List Boundary)
    → Chained lo gen_end bs
    → lo ≤ℤ previous
    → previous ≤ℤ gen_end
    → BoundaryTiles previous gen_end (cut gen_end previous bs)
unfolding cut
cut-BoundaryTiles gen_end lo previous [] c h k = eq_of_parts previous gen_end (ground arith)
cut-BoundaryTiles gen_end lo previous (b ∷ bs) c h k =
    let e : max_ℤ b.start_ns previous ≡ previous = cut_start b lo previous c.0 h in
    let seg_end = max_ℤ previous (min_ℤ b.end_ns gen_end) in
    let bounds = cut_end_le b.end_ns gen_end previous c.1 k in
    let rest : BoundaryTiles seg_end gen_end (cut gen_end seg_end bs) =
      cut-BoundaryTiles gen_end b.end_ns seg_end bs c.2 bounds.0 bounds.1 in
    rw e (elim (Bool-cases (leb_ℤ seg_end previous)) [
      | inl empty ↦ rw empty (
          subst (λ x. BoundaryTiles x gen_end (cut gen_end seg_end bs))
            (eq_of_parts seg_end previous (ground arith)) rest)
      | inr full ↦ rw full (refl, ground arith, rest)
    ])

clamp_bounds : (value lo hi : ℤ) → lo ≤ℤ hi → (lo ≤ℤ clamp value lo hi) × (clamp value lo hi ≤ℤ hi)
unfolding clamp
clamp_bounds value lo hi h = (ground arith, ground arith)

-- How long the spans last together.
abbrev pub total_ns : {F : Type 0} → List (Span F) → ℤ
total_ns [] = pos 0
total_ns (s ∷ ss) = (s.end_ns -ℤ s.start_ns) +ℤ total_ns ss

pub total_ns-Tiles_append :
    {F : Type 0} (lo mid hi : ℤ) (ss rest : List (Span F))
    → Tiles lo mid ss
    → mid +ℤ total_ns rest ≡ hi
    → lo +ℤ total_ns (ss ++ rest) ≡ hi
total_ns-Tiles_append lo mid hi [] rest t h = rw t h
total_ns-Tiles_append lo mid hi (s ∷ ss) rest t h = rw t.0 (
    +ℤ_telescope lo s.end_ns (total_ns (ss ++ rest))
    ∙ total_ns-Tiles_append s.end_ns mid hi ss rest t.2 h)

module _ {F : Type 0} (fresh : String → String) (engine : Engine F) (gen_id : String) where
  boundaries_of-Chained :
      (gen_start gen_end : ℤ)
      → gen_start ≤ℤ gen_end
      → Chained gen_start gen_end (boundaries_of engine gen_start gen_end)
  unfolding boundaries_of
  boundaries_of-Chained gen_start gen_end h =
      let below = λ (value : ℤ). (clamp_bounds value gen_start gen_end h).1 in
      (refl, below _, (refl, below _, (refl, below _, (refl, below _, (refl, omega arith, refl)))))

  to_segment : Boundary → Span F
  to_segment b =
      segment (fresh b.name) (some gen_id) b.name b.start_ns b.end_ns (extra_metadata engine b.name)

  map-Tiles :
      (lo hi : ℤ) (bs : List Boundary) → BoundaryTiles lo hi bs → Tiles lo hi (map to_segment bs)
  unfolding segment to_segment
  map-Tiles lo hi [] t = t
  map-Tiles lo hi (b ∷ bs) t = (t.0, t.1, map-Tiles b.end_ns hi bs t.2)

  -- Whatever instants the engine reported, the segments of a generation that does not end before it
  -- starts cover it from its start to its end, each beginning where the one before it ends, and none
  -- of them is empty.
  pub generation_segments-Tiles :
      (gen_start gen_end : ℤ)
      → gen_start ≤ℤ gen_end
      → Tiles gen_start gen_end (generation_segments fresh engine gen_id gen_start gen_end)
  unfolding generation_segments to_segment
  generation_segments-Tiles gen_start gen_end h = map-Tiles gen_start gen_end _ (
      cut-BoundaryTiles gen_end gen_start gen_start (boundaries_of engine gen_start gen_end)
        (boundaries_of-Chained gen_start gen_end h) (omega arith) h)
