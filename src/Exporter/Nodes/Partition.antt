-- ===== src/Exporter/Nodes/Partition.antt =====
-- What the nodes of a timeline add up to.
use vllm_observer.Base.{◌≡◌, refl, ◌∙◌, String, Option, none, some, List, [], ◌∷◌, ◌++◌}
use vllm_observer.Base.Int.{◌+ℤ◌, ◌≤ℤ◌, +ℤ_telescope, +ℤ_zero, pos}
use vllm_observer.Core.Trace.{Span, Generation, Observation}
use vllm_observer.Exporter.Timeline.{segment, end_or, engine_of}
use vllm_observer.Exporter.Timeline.Tiles.{
  Tiles, total_ns, total_ns-Tiles_append, generation_segments-Tiles,
}
use vllm_observer.Exporter.Nodes.{
  generation_start, generation_end, api_segment, transfer_segment, segments_of,
}

module _ {F : Type 0} (fresh : String → String) (observations : List (Observation F))
    (api_intervals : List (Span F)) (root : Span F) where
  segments_of-Tiles :
      (g : Option (Generation F))
      → let gen_start = generation_start g root.end_ns in
        let gen_end = generation_end g root.end_ns in
        gen_start ≤ℤ gen_end
        → Tiles gen_start gen_end (segments_of fresh observations g gen_start gen_end)
  segments_of-Tiles none h = refl
  segments_of-Tiles (some g) h =
      generation_segments-Tiles fresh (engine_of observations) g.id g.start_ns
        (end_or g.end_ns root.end_ns) h

  -- In a request whose generation does not end before it starts, the API segment, the segments of the generation and
  -- the transfer segment share their boundaries and last, together, exactly as long as the
  -- request.
  pub timeline_partition :
      (g : Option (Generation F))
      → let gen_start = generation_start g root.end_ns in
        let gen_end = generation_end g root.end_ns in
        let api = api_segment fresh root gen_start in
        let transfer = transfer_segment fresh root gen_end in
        let segments = segments_of fresh observations g gen_start gen_end in
        gen_start ≤ℤ gen_end
        → (api.start_ns ≡ root.start_ns)
          × (api.end_ns ≡ gen_start)
          × Tiles gen_start gen_end segments
          × (transfer.start_ns ≡ gen_end)
          × (transfer.end_ns ≡ root.end_ns)
          × (root.start_ns +ℤ total_ns (api ∷ segments ++ transfer ∷ []) ≡ root.end_ns)
  unfolding api_segment transfer_segment segment
  timeline_partition g h =
      let gen_start = generation_start g root.end_ns in
      let gen_end = generation_end g root.end_ns in
      let tiles = segments_of-Tiles g h in
      (
        refl,
        refl,
        tiles,
        refl,
        refl,
        +ℤ_telescope root.start_ns gen_start _
            ∙ total_ns-Tiles_append gen_start gen_end root.end_ns _ _ tiles
                (+ℤ_telescope gen_end root.end_ns (pos 0) ∙ +ℤ_zero root.end_ns),
      )
