-- ===== src/Adapter/Active/Released.antt =====
-- What holds of the calls of `generate` and of the table `active` of src/vllm_observer/adapter.py, in
-- whatever order calls start and end and requests finish.
use vllm_observer.Base.{
  ◌≡◌, refl, sym, subst, String, Bool, true, Option, List, [], ◌∷◌, ◌++◌, arith, All,
}
use vllm_observer.Base.Float.{Float}
use vllm_observer.Base.Dict.{Dict}
use vllm_observer.Core.Trace.{RequestTrace, Observation, span, generation}
use vllm_observer.Engine.Registry.{Record}
use vllm_observer.Adapter.{Numerals}
use vllm_observer.Adapter.Active.{
  Generating, Frontend, Exit, Finished, begin_call, end_call, observed_update,
}
use vllm_observer.Adapter.Active.Settled.{
  is_ended, is_settled, is_called, AllTraces, IsSettled, IsTracked, AllTraces-mono,
}
use vllm_observer.Adapter.Active.Calls.{begin_call-IsTracked, end_call-IsTracked}
use vllm_observer.Adapter.Active.Updates.{observed_update-IsTracked}

module _ {F : Type 0} ⦃f : Float F⦄ (numerals : Numerals F) (fresh : String → String)
    (loads : String → Option (Record F)) where
  -- What can happen next: a request gets its trace, a call of `generate` starts or ends, or the
  -- statistics of a finished request come in.
  pub data Step (x : Frontend F) : Frontend F → Type 0 where
    opens :
        (key : String) (t : RequestTrace F)
        → t.observations ≡ []
        → Step x (record x { traces = (key, t) ∷ x.traces })
    starts :
        (current : Option String) (id : String) (perf : F) (request_id : String)
        → Step x (begin_call current id perf request_id x)
    finishes :
        (ending : Exit) (perf : F) (c : Generating) (before after : List Generating)
        → x.running ≡ before ++ c ∷ after
        → Step x (end_call ending perf c (before ++ after) x)
    updates :
        (perf later : F) (done : Finished F)
        → Step x (observed_update numerals fresh loads perf later done x)

  pub data Reach : Frontend F → Type 0 where
    begin : Reach (record { traces = []; active = []; running = [] })
    next : {x y : Frontend F} → Reach x → Step x y → Reach y

  Step-IsTracked : {x y : Frontend F} → Step x y → IsTracked x → IsTracked y
  Step-IsTracked {x} (opens key t none_yet) h = record {
    settled = (subst (All (λ o. is_settled key x.running o ≡ true)) (sym none_yet) tt, h.settled);
    called = h.called;
    unique = h.unique;
  }
  Step-IsTracked {x} (starts current id perf request_id) h =
      begin_call-IsTracked current id perf request_id x h
  Step-IsTracked {x} (finishes ending perf c before after e) h =
      end_call-IsTracked ending perf c before after x e h
  Step-IsTracked {x} (updates perf later done) h =
      observed_update-IsTracked numerals fresh loads perf later done x h

  pub Reach-IsTracked : {x : Frontend F} → Reach x → IsTracked x
  Reach-IsTracked begin = record { settled = tt; called = tt; unique = tt }
  Reach-IsTracked (next r st) = Step-IsTracked st (Reach-IsTracked r)

abbrev pub has_ended : {F : Type 0} → Observation F → Bool
has_ended (span s) = true
has_ended (generation g) = is_ended g

none_called :
    (active : Dict (String × String)) → All (λ e. is_called e.0 [] ≡ true) active → active ≡ []
none_called [] h = refl
none_called (e ∷ active) h = cc (h.0)

module _ {F : Type 0} where
  settled_ended :
      (key : String) (os : List (Observation F))
      → All (λ o. is_settled key [] o ≡ true) os
      → All (λ o. has_ended o ≡ true) os
  settled_ended key [] h = tt
  settled_ended key (span s ∷ os) h = (refl, settled_ended key os h.1)
  settled_ended key (generation g ∷ os) h = (ground arith, settled_ended key os h.1)

module _ {F : Type 0} ⦃f : Float F⦄ (numerals : Numerals F) (fresh : String → String)
    (loads : String → Option (Record F)) where
  -- In whatever order traces are opened, calls of `generate` start, return, fail and are
  -- cancelled, with the same or different requests and traces, and statistics of requests come
  -- in: whenever no call is running, the table of active requests is empty, and every generation
  -- of every trace has an end.
  pub idle_released :
      {x : Frontend F}
      → Reach numerals fresh loads x
      → x.running ≡ []
      → (x.active ≡ []) × AllTraces (λ key t. All (λ o. has_ended o ≡ true) t.observations) x.traces
  idle_released {x} r idle =
      let h = Reach-IsTracked numerals fresh loads r in
      (
        none_called x.active
            (subst (λ calls. All (λ e. is_called e.0 calls ≡ true) x.active) idle h.called),
        AllTraces-mono _ _ x.traces (λ k t all. settled_ended k t.observations all)
            (subst (λ calls. AllTraces (IsSettled calls) x.traces) idle h.settled),
      )
