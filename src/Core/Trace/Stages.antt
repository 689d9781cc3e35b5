-- ===== src/Core/Trace/Stages.antt =====
-- What `RequestTrace.add` does to the stage aggregates.
use vllm_observer.Base.{
  ℕ, ◌≡◌, String, some, arith, if◌then◌else◌, str_eq, eq_iff, eq_refl, Option-cases, inl, inr,
}
use vllm_observer.Base.Float.{Float}
use vllm_observer.Base.Dict.{lookup, get_or, insert, lookup-insert, lookup-modify}
use vllm_observer.Core.Trace.{Aggregate, RequestTrace, empty_aggregate, accumulate, add}

module _ {F : Type 0} ⦃f : Float F⦄ where
  -- The aggregate of a stage, empty where the stage was never timed.
  abbrev pub aggregate_of : String → RequestTrace F → Aggregate F
  aggregate_of stage t = get_or stage empty_aggregate t.stages

  -- Timing a stage accumulates into its aggregate, which starts out empty, and into no other.
  pub lookup-add :
      (stage other : String) (duration : F) (count : ℕ) (t : RequestTrace F)
      → lookup other (add stage duration count t).stages ≡ (
          if str_eq stage other
          then some (accumulate duration count (aggregate_of stage t))
          else lookup other t.stages)
  unfolding add
  lookup-add stage other duration count t = elim (Option-cases (lookup stage t.stages)) [
    | inl new ↦ ground (
      arith,
      eq_iff stage other,
      eq_refl stage,
      lookup-modify other stage (accumulate duration count) (insert stage empty_aggregate t.stages),
      lookup-insert other stage empty_aggregate t.stages,
    )
    | inr (a, old) ↦
        ground (
          arith,
          eq_iff stage other,
          lookup-modify other stage (accumulate duration count) t.stages,
        )
  ]
