-- ===== src/Core/Trace/Finish.antt =====
-- The event that `RequestTrace.finish` of src/vllm_observer/core.py ends a trace in.
use vllm_observer.Base.{ℕ, ◌≡◌, refl, subst, eq_refl, ◌∙◌, String, true, some, [], ◌∷◌, arith, All}
use vllm_observer.Base.Int.{ℤ}
use vllm_observer.Base.Float.{Float}
use vllm_observer.Base.Dict.{Dict, AllValues, contains}
use vllm_observer.Core.Trace.Stages.{lookup-add}
use vllm_observer.Core.Trace.{
  Aggregate, Exported, RequestTrace, export, export_all, new, begin_generation, interval, add,
  api_interval, finish,
}
use vllm_observer.Core.Trace.Spans.{
  IsOrdered, IsWellFormed, IsNonnegative, IsSound, Step, begins, observes, times, measures, Reach,
  here, next, add-IsSound, Reach-IsSound, new-IsSound,
}

module _ {F : Type 0} ⦃f : Float F⦄ where
  abbrev pub IsExportedNonnegative : Exported F → Type 0
  IsExportedNonnegative x = f.le f.zero x.total_seconds ≡ true

  export_all_nonneg :
      (d : Dict (Aggregate F))
      → AllValues IsNonnegative d
      → AllValues IsExportedNonnegative (export_all d)
  unfolding export
  export_all_nonneg [] h = tt
  export_all_nonneg ((k, a) ∷ d) h = (h.0, export_all_nonneg d h.1)

  contains-export_all :
      (k : String) (d : Dict (Aggregate F)) → contains k (export_all d) ≡ contains k d
  contains-export_all k [] = refl
  contains-export_all k ((i, a) ∷ d) = ground (arith, contains-export_all k d)

  contains-add :
      (k : String) (duration : F) (count : ℕ) (t : RequestTrace F)
      → contains k (add k duration count t).stages ≡ true
  contains-add k duration count t = ground (arith, eq_refl k, lookup-add k k duration count t)

  -- What no call on a trace changes.
  abbrev SameRequest : RequestTrace F → RequestTrace F → Type 0
  SameRequest t u =
      (u.trace_id ≡ t.trace_id) × (u.root_span_id ≡ t.root_span_id) × (u.started_ns ≡ t.started_ns)

  Step-SameRequest : {t u : RequestTrace F} → Step t u → SameRequest t u
  unfolding begin_generation interval add api_interval
  Step-SameRequest (begins id perf request t) = (refl, refl, refl)
  Step-SameRequest (observes id g name start_ns end_ns metadata t u e) = ground arith
  Step-SameRequest (times stage duration count t) = (refl, refl, refl)
  Step-SameRequest (measures id name started ended metadata t) = ground arith

  Reach-SameRequest : {s t : RequestTrace F} → Reach s t → SameRequest s t
  Reach-SameRequest here = (refl, refl, refl)
  Reach-SameRequest (next r st) = ground (arith, Reach-SameRequest r, Step-SameRequest st)

  -- Whatever calls are made on a new trace, the event that it ends in names the same request, and
  -- has only spans that do not end before they start, generations and API intervals under the root,
  -- stage totals that are not negative, and an entry for "http_total".
  pub finish_sound :
      (id : String) (ns : ℤ) (started : F) (root : String) (perf : F) (t : RequestTrace F)
      → Reach (new id ns started root) t
      → let event = (finish perf t).0 in
        (event.trace_id ≡ id)
        × (event.root_span_id ≡ root)
        × All (IsWellFormed root) event.observations
        × All (λ s. IsOrdered s × (s.parent_id ≡ some root)) event.api_intervals
        × AllValues IsExportedNonnegative event.stages
        × (contains "http_total" event.stages ≡ true)
  unfolding finish new
  finish_sound id ns started root perf t r =
      let h : IsSound t = Reach-IsSound (new-IsSound id ns started root) r in
      let duration : F = f.sub perf t.started in
      let h' : IsSound (add "http_total" duration 1 t) = add-IsSound "http_total" duration 1 t h in
      let same = Reach-SameRequest r in
      (
        same.0,
        same.1,
        subst (λ x. All (IsWellFormed x) t.observations) same.1 h.observed,
        subst (λ x. All (λ s. IsOrdered s × (s.parent_id ≡ some x)) t.api_intervals) same.1
            h.intervals,
        export_all_nonneg _ h'.nonnegative,
        contains-export_all "http_total" (add "http_total" duration 1 t).stages
            ∙ contains-add "http_total" duration 1 t,
      )
