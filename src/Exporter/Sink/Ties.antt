-- ===== src/Exporter/Sink/Ties.antt =====
-- Two API intervals that are cut to the same time: `LangfuseSink` of src/vllm_observer/exporter.py
-- meets the inner one first.
use vllm_observer.Base.{
  ◌≡◌, refl, Bool, true, false, none, some, List, [], ◌∷◌, map, arith, str_eq, eq_refl, ◌&&◌,
}
use vllm_observer.Base.Int.{ℤ, ◌+ℤ◌, ◌-ℤ◌, half_ℤ, leb_ℤ, ltb_ℤ, max_ℤ, min_ℤ}
use vllm_observer.Base.Outcome.{raise}
use vllm_observer.Core.Trace.{Span, span}
use vllm_observer.Exporter.Stage.{module_prefixed}
use vllm_observer.Exporter.Details.{
  Detail, clip, assign, assign_all, assigned, contains_instant, nest_all, nest_stage, reparent_last,
  details_of, set_parent,
}
use vllm_observer.Exporter.Nodes.{Keyed, key_le, insert_sorted, sorted}
use vllm_observer.Exporter.Sink.{
  open_all, is_valid, valid_nodes, at_opened, export_nodes, Opened, key_error,
}

leb_refl : (a : ℤ) → leb_ℤ a a ≡ true
leb_refl a = ground arith

max_ℤ_covered : (a b : ℤ) → leb_ℤ a b ≡ true → max_ℤ a b ≡ b
max_ℤ_covered a b h = ground arith

min_ℤ_covered : (a b : ℤ) → leb_ℤ b a ≡ true → min_ℤ a b ≡ b
min_ℤ_covered a b h = ground arith

module _ {F : Type 0} where
  abbrev pub covers : Span F → Span F → Bool
  covers node c =
      leb_ℤ node.start_ns c.start_ns
      && leb_ℤ c.end_ns node.end_ns
      && ltb_ℤ c.start_ns c.end_ns
      && contains_instant (half_ℤ (node.start_ns +ℤ node.end_ns)) c

  -- `node`, cut to the container.
  abbrev pub cut_to : Span F → Span F → Detail F
  cut_to c node = record {
    stage = node.name;
    node = record node {
      start_ns = c.start_ns;
      end_ns = c.end_ns;
      parent_id = some c.id;
      name = module_prefixed node.name;
    };
  }

  clip_covering :
      (c node : Span F)
      → leb_ℤ node.start_ns c.start_ns ≡ true
      → leb_ℤ c.end_ns node.end_ns ≡ true
      → ltb_ℤ c.start_ns c.end_ns ≡ true
      → clip node c ≡ some (cut_to c node)
  unfolding clip
  clip_covering c node h k l =
      rw (max_ℤ_covered node.start_ns c.start_ns h)
        (rw (min_ℤ_covered node.end_ns c.end_ns k) (ground arith))

  assign_covering :
      (c node : Span F) → covers node c ≡ true → assign (c ∷ []) node ≡ some (cut_to c node)
  unfolding assign
  assign_covering c node h = ground (arith, clip_covering c node)

  assign_all_covering :
      (c inner outer : Span F)
      → covers inner c ≡ true
      → covers outer c ≡ true
      → assign_all (c ∷ []) (inner ∷ outer ∷ []) ≡ cut_to c inner ∷ cut_to c outer ∷ []
  unfolding assign_all
  assign_all_covering c inner outer h k =
      ground (arith, assign_covering c inner h, assign_covering c outer k)

  abbrev pub adding : Span F → Span F
  adding s = record s { name = "output_processor_add" }

  abbrev pub submitting : Span F → Span F
  submitting s = record s { name = "submit_engine" }

  -- The two details, the inner one under the outer.
  details_covering :
      (c inner outer : Span F)
      → covers inner c ≡ true
      → covers outer c ≡ true
      → details_of (c ∷ []) (adding inner ∷ submitting outer ∷ [])
        ≡ set_parent outer.id (cut_to c (adding inner)) ∷ cut_to c (submitting outer) ∷ []
  unfolding details_of assigned nest_all nest_stage reparent_last
  details_covering c inner outer h k =
      rw (assign_all_covering c (adding inner) (submitting outer) h k, details_of)
        (ground (arith, leb_refl c.start_ns, leb_refl c.end_ns))

  key_le_same :
      (a b : Keyed F) → a.start_ns ≡ b.start_ns → a.duration ≡ b.duration → key_le a b ≡ true
  key_le_same a b h k = ground arith

  abbrev pub key : Span F → Keyed F
  key s = record { start_ns = s.start_ns; duration = s.end_ns -ℤ s.start_ns; node = span s }

  sorted_ties :
      (a b c : Keyed F)
      → key_le a b ≡ true
      → key_le b c ≡ true
      → sorted (a ∷ b ∷ c ∷ []) ≡ a ∷ b ∷ c ∷ []
  unfolding sorted insert_sorted
  sorted_ties a b c h k = ground arith

  -- If two API intervals, of `output_processor_add` and of the submission to the engine, both cover
  -- a container that their midpoints lie in, the submission being the later in the list, then both are cut to the container, the first is put
  -- under the second and still sorted before it: of the root, the container and these two nothing is
  -- exported, since the context of the submission is missing.
  pub covering_pair_lost :
      (exports : List (Opened F) → Bool) (end_ns : ℤ) (root c inner outer : Span F)
      → covers inner c ≡ true
      → covers outer c ≡ true
      → root.parent_id ≡ none
      → c.parent_id ≡ some root.id
      → is_valid end_ns (span root) ≡ true
      → is_valid end_ns (span c) ≡ true
      → str_eq root.id outer.id ≡ false
      → str_eq c.id outer.id ≡ false
      → export_nodes exports end_ns (
          span root
          ∷ map
              (λ k. k.node)
              (sorted (
                key c
                ∷ map
                    (λ d. key d.node)
                    (details_of (c ∷ []) (adding inner ∷ submitting outer ∷ [])))))
        ≡ raise key_error
  unfolding export_nodes at_opened open_all valid_nodes
  covering_pair_lost exports end_ns root c inner outer h k top child valid_root valid_c other_root
        other_c =
      let a = set_parent outer.id (cut_to c (adding inner)) in
      let b = cut_to c (submitting outer) in
      rw (details_covering c inner outer h k) (
        rw
          (sorted_ties (key c) (key a.node) (key b.node)
            (key_le_same (key c) (key a.node) refl refl)
            (key_le_same (key a.node) (key b.node) refl refl))
          (rw valid_root (
            rw valid_c
              (rw top (rw child (rw (eq_refl root.id) (rw other_c (rw other_root refl))))))))
