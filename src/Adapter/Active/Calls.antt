-- ===== src/Adapter/Active/Calls.antt =====
-- The start and the end of a call of `observed_generate` in src/vllm_observer/adapter.py, and the
-- generations and the table `active` that it leaves.
use vllm_observer.Base.{
  ◌≡◌, refl, subst, String, true, false, Option, none, some, List, [], ◌∷◌, ◌++◌, arith, inl, inr,
  All, All-append, All-mono, Bool-cases, eq_iff, eq_refl,
}
use vllm_observer.Base.Int.{ℤ}
use vllm_observer.Base.Float.{Float}
use vllm_observer.Base.Dict.{Dict, insert-UniqueKeys, erase-UniqueKeys}
use vllm_observer.Core.Trace.{
  RequestTrace, Generation, Observation, span, generation, begin_generation,
}
use vllm_observer.Adapter.Active.{
  Generating, Frontend, Exit, begin_call, end_generation, end_call, set_status,
}
use vllm_observer.Adapter.Active.Settled.{
  is_ended, holds, is_settled, is_called, AllTraces, IsSettled, IsTracked, AllTraces-on_trace,
  AllTraces-mono, settled_more, on_observation-settled, held_drop, called_drop, All-erase,
  All-insert,
}

module _ {F : Type 0} ⦃f : Float F⦄ where
  pub begin_call-IsTracked :
      (current : Option String) (id : String) (perf : F) (request_id : String) (x : Frontend F)
      → IsTracked x
      → IsTracked (begin_call current id perf request_id x)
  unfolding begin_call begin_generation
  begin_call-IsTracked none id perf request_id x h =
      let c : Generating = record { request_id = request_id; target = none } in
      record {
        settled =
            AllTraces-mono _ _ x.traces
              (λ k t all. All-mono _ _ t.observations (settled_more k c x.running) all) h.settled;
        called = All-mono _ _ x.active (λ e p. ground arith) h.called;
        unique = h.unique;
      }
  begin_call-IsTracked (some key) id perf request_id x h =
      let c : Generating = record { request_id = request_id; target = some (key, id) } in
      record {
        settled =
            AllTraces-on_trace (IsSettled x.running) (IsSettled (c ∷ x.running)) key
              (λ t. (begin_generation id perf request_id t).1) x.traces
              (λ t all.
                All-append _ t.observations _
                  (All-mono _ _ t.observations (settled_more key c x.running) all)
                  (rw (eq_refl key) (rw (eq_refl id) refl), tt))
              (λ k t other all. All-mono _ _ t.observations (settled_more k c x.running) all)
              h.settled;
        called =
            All-insert _ request_id (key, id) x.active
              (λ j w same. ground (arith, eq_iff j request_id, eq_refl request_id))
              (All-mono _ _ x.active (λ e p. ground arith) h.called);
        unique = insert-UniqueKeys request_id (key, id) x.active h.unique;
      }

  settled_drop :
      (key : String) (c : Generating) (before after : List Generating) (g : Generation F)
      → holds key g.id c ≡ false
      → is_settled key (before ++ c ∷ after) (generation g) ≡ true
      → is_settled key (before ++ after) (generation g) ≡ true
  settled_drop key c before after g h k = elim (Bool-cases (is_ended g)) [
    | inl ended ↦ rw ended refl
    | inr open_ ↦ rw open_ (held_drop key g.id c before after h (rw open_ at k))
  ]

  all_drop :
      (key : String) (c : Generating) (before after : List Generating) (os : List (Observation F))
      → ((id : String) → holds key id c ≡ false)
      → All (λ o. is_settled key (before ++ c ∷ after) o ≡ true) os
      → All (λ o. is_settled key (before ++ after) o ≡ true) os
  all_drop key c before after [] h all = tt
  all_drop key c before after (span s ∷ os) h all = (refl, all_drop key c before after os h all.1)
  all_drop key c before after (generation g ∷ os) h all =
      (settled_drop key c before after g (h g.id) all.0, all_drop key c before after os h all.1)

  ended-settled :
      (ending : Exit) (n : ℤ) (key : String) (calls : List Generating) (g : Generation F)
      → is_settled key calls (generation (record (set_status ending g) { end_ns = some n })) ≡ true
  ended-settled ending n key calls g = refl

  end_generation-settled :
      (ending : Exit) (perf : F) (c : Generating) (target : Option (String × String))
      (before after : List Generating) (traces : Dict (RequestTrace F))
      → c.target ≡ target
      → AllTraces (IsSettled (before ++ c ∷ after)) traces
      → AllTraces (IsSettled (before ++ after)) (end_generation ending perf target traces)
  unfolding end_generation
  end_generation-settled ending perf c none before after traces e h =
      AllTraces-mono _ _ traces
        (λ k t all. all_drop k c before after t.observations (λ id. rw (e, holds) refl) all) h
  end_generation-settled ending perf c (some (key, id)) before after traces e h =
      AllTraces-on_trace _ _ key _ traces
        (λ t all.
          on_observation-settled key id (before ++ c ∷ after) (before ++ after) _ t.observations
            (λ g same k. refl)
            (λ g other k.
              settled_drop key c before after g (ground (arith, eq_iff id g.id, eq_iff g.id id)) k)
            all)
        (λ k t other all.
          all_drop k c before after t.observations (λ i. ground (arith, eq_iff key k, eq_iff k key))
            all)
        h

  pub end_call-IsTracked :
      (ending : Exit) (perf : F) (c : Generating) (before after : List Generating) (x : Frontend F)
      → x.running ≡ before ++ c ∷ after
      → IsTracked x
      → IsTracked (end_call ending perf c (before ++ after) x)
  unfolding end_call
  end_call-IsTracked ending perf c before after x e h = record {
    settled =
        end_generation-settled ending perf c c.target before after x.traces refl
          (subst (λ calls. AllTraces (IsSettled calls) x.traces) e h.settled);
    called =
        All-erase _ _ c.request_id x.active
          (λ a other p.
            called_drop a.0 c before after
              (ground (arith, eq_iff c.request_id a.0, eq_iff a.0 c.request_id))
              (subst (λ calls. is_called a.0 calls ≡ true) e p))
          h.unique h.called;
    unique = erase-UniqueKeys c.request_id x.active h.unique;
  }
