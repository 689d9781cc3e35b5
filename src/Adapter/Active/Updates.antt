-- ===== src/Adapter/Active/Updates.antt =====
-- `observed_update` of src/vllm_observer/adapter.py and the generations that it leaves.
use vllm_observer.Base.{
  ◌≡◌, ◌∙◌, String, true, Option, List, arith, inl, inr, Bool-cases, Option-cases,
}
use vllm_observer.Base.Float.{Float}
use vllm_observer.Base.Dict.{lookup}
use vllm_observer.Core.Trace.{RequestTrace, Generation, generation, add}
use vllm_observer.Engine.Registry.{Record}
use vllm_observer.Adapter.Collect.{record_engine_stages}
use vllm_observer.Adapter.{Numerals, record_timeline}
use vllm_observer.Adapter.Active.Kept.{
  IsKept, record_timeline-IsKept, record_engine_stages-IsKept, record_timeline-OnlySpans,
  record_engine_stages-OnlySpans,
}
use vllm_observer.Adapter.Active.{
  Generating, Frontend, Finished, on_generation, find_generation, observed_update,
  collect_statistics, collect_stages,
}
use vllm_observer.Adapter.Active.Settled.{
  is_settled, IsSettled, IsTracked, AllTraces-on_trace, OnlySpans-settled, on_observation-settled,
  find_generation-settled,
}

module _ {F : Type 0} ⦃f : Float F⦄ (numerals : Numerals F) (fresh : String → String)
    (loads : String → Option (Record F)) where
  replaced :
      (key id : String) (calls : List Generating) (g g' : Generation F) (t : RequestTrace F)
      → IsKept g g'
      → is_settled key calls (generation g) ≡ true
      → IsSettled calls key t
      → IsSettled calls key (on_generation id (λ _. g') t)
  replaced key id calls g g' t kept found all =
      on_observation-settled key id calls calls (λ _. g') t.observations
        (λ g0 same k. ground (arith, kept.0, kept.1)) (λ g0 other k. k) all

  collect_stages-settled :
      (perf later : F) (key id : String) (calls : List Generating) (done : Finished F)
      (t : RequestTrace F)
      → IsSettled calls key t
      → IsSettled calls key (collect_stages numerals fresh loads perf later id done t)
  unfolding collect_stages
  collect_stages-settled perf later key id calls done t all =
      elim (Option-cases (find_generation id t.observations)) [
        | inl absent ↦ rw (absent, collect_stages) all
        | inr (g, found) ↦
            let settled = find_generation-settled key id calls g t.observations found all in
            let r = record_timeline numerals fresh perf done.stat done.raw g t in
            let kept = record_timeline-IsKept numerals fresh perf done.stat done.raw g t in
            let (ss, e) = record_timeline-OnlySpans numerals fresh perf done.stat done.raw g t in
            let after_timeline = OnlySpans-settled key calls t r.trace ss e all in
            elim (Bool-cases r.raised) [
              | inl raised ↦
                  rw (found, collect_stages)
                    (rw raised
                      (replaced key id calls g r.generation r.trace kept settled after_timeline))
              | inr fine ↦
                  let c =
                    record_engine_stages numerals fresh loads perf later done.payload done.raw.clock
                      r.generation r.trace in
                  let kept_too =
                    record_engine_stages-IsKept numerals fresh loads perf later done.payload
                      done.raw.clock r.generation r.trace in
                  let (ss', e') =
                    record_engine_stages-OnlySpans numerals fresh loads perf later done.payload
                      done.raw.clock r.generation r.trace in
                  rw (found, collect_stages)
                    (rw fine (
                      replaced key id calls g c.generation c.trace
                        (kept_too.0 ∙ kept.0, kept_too.1 ∙ kept.1) settled
                        (OnlySpans-settled key calls r.trace c.trace ss' e' after_timeline)))
            ]
      ]

  collect_statistics-settled :
      (perf later : F) (key id : String) (calls : List Generating) (done : Finished F)
      (t : RequestTrace F)
      → IsSettled calls key t
      → IsSettled calls key (collect_statistics numerals fresh loads perf later id done t)
  unfolding collect_statistics add
  collect_statistics-settled perf later key id calls done t all =
      elim (Option-cases done.stat.generation_tokens) [
        | inl unknown ↦ rw (unknown, collect_statistics) all
        | inr (n, known) ↦
            rw (known, collect_statistics)
              (collect_stages-settled perf later key id calls done _ all)
      ]

  pub observed_update-IsTracked :
      (perf later : F) (done : Finished F) (x : Frontend F)
      → IsTracked x
      → IsTracked (observed_update numerals fresh loads perf later done x)
  unfolding observed_update
  observed_update-IsTracked perf later done x h =
      elim (Option-cases (lookup done.request_id x.active)) [
        | inl absent ↦ rw (absent, observed_update) h
        | inr ((key, id), found) ↦
            rw (found, observed_update)
              (record {
                settled =
                    AllTraces-on_trace _ _ key
                      (collect_statistics numerals fresh loads perf later id done) x.traces
                      (λ t all. collect_statistics-settled perf later key id x.running done t all)
                      (λ k t other all. all) h.settled;
                called = h.called;
                unique = h.unique;
              })
      ]
