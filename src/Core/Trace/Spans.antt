-- ===== src/Core/Trace/Spans.antt =====
-- The spans of a request's trace in src/vllm_observer/core.py: what holds of every trace that the
-- calls on it build.
use vllm_observer.Base.{
  ℕ, ◌≡◌, refl, subst, String, true, some, arith, All, All-append, Bool-cases, inl, inr,
}
use vllm_observer.Base.Int.{ℤ, ◌≤ℤ◌, ltb_ℤ, leb_ℤ}
use vllm_observer.Base.Float.{Float, max_zero, max_zero_nonneg}
use vllm_observer.Base.Json.{Json}
use vllm_observer.Base.Outcome.{ret}
use vllm_observer.Base.Dict.{
  Dict, setdefault, UniqueKeys, AllValues, insert-AllValues, modify-AllValues,
  setdefault-UniqueKeys, modify-UniqueKeys,
}
use vllm_observer.Core.Trace.{
  Aggregate, RequestTrace, Span, span, Generation, Observation, generation, empty_aggregate,
  accumulate, new, wall_at, begin_generation, interval, add, api_interval, append_span,
}

module _ {F : Type 0} ⦃f : Float F⦄ where
  abbrev pub IsOrdered : Span F → Type 0
  IsOrdered s = s.start_ns ≤ℤ s.end_ns

  -- A span does not end before it starts; a generation is a child of the root.
  abbrev pub IsWellFormed : String → Observation F → Type 0
  IsWellFormed root (span s) = IsOrdered s
  IsWellFormed root (generation g) = g.parent_id ≡ some root

  abbrev pub IsNonnegative : Aggregate F → Type 0
  IsNonnegative a = f.le f.zero a.total_seconds ≡ true

  pub record IsSound (t : RequestTrace F) : Type 0 where
    pub unique : UniqueKeys t.stages
    pub nonnegative : AllValues IsNonnegative t.stages
    pub observed : All (IsWellFormed t.root_span_id) t.observations
    pub intervals : All (λ s. IsOrdered s × (s.parent_id ≡ some t.root_span_id)) t.api_intervals

  -- The calls that the rest of the program makes on a trace while it is open; `raise` leaves it.
  pub data Step : RequestTrace F → RequestTrace F → Type 0 where
    begins :
        (id : String) (perf : F) (request : String) (t : RequestTrace F)
        → Step t (begin_generation id perf request t).1
    observes :
        (id : String) (g : Generation F) (name : String) (start_ns end_ns : ℤ)
        (metadata : Dict (Json F)) (t u : RequestTrace F)
        → interval id g name start_ns end_ns metadata t ≡ ret u
        → Step t u
    times :
        (stage : String) (duration : F) (count : ℕ) (t : RequestTrace F)
        → Step t (add stage duration count t)
    measures :
        (id name : String) (started ended : F) (metadata : Dict (Json F)) (t : RequestTrace F)
        → Step t (api_interval id name started ended metadata t)

  pub data Reach (s : RequestTrace F) : RequestTrace F → Type 0 where
    here : Reach s s
    next : {t u : RequestTrace F} → Reach s t → Step t u → Reach s u

  accumulate_nonneg :
      (duration : F) (count : ℕ) (a : Aggregate F)
      → IsNonnegative a
      → IsNonnegative (accumulate duration count a)
  unfolding accumulate
  accumulate_nonneg duration count a h =
      f.add_nonneg a.total_seconds (max_zero duration) h (max_zero_nonneg duration)

  setdefault_nonneg :
      (stage : String) (d : Dict (Aggregate F))
      → AllValues IsNonnegative d
      → AllValues IsNonnegative (setdefault stage empty_aggregate d)
  unfolding empty_aggregate
  setdefault_nonneg stage d h =
      ground (arith, insert-AllValues IsNonnegative stage empty_aggregate d h f.le_zero)

  pub add-IsSound :
      (stage : String) (duration : F) (count : ℕ) (t : RequestTrace F)
      → IsSound t
      → IsSound (add stage duration count t)
  unfolding add
  add-IsSound stage duration count t h = record {
    unique =
        modify-UniqueKeys stage (accumulate duration count) _
          (setdefault-UniqueKeys stage empty_aggregate t.stages h.unique);
    nonnegative =
        modify-AllValues IsNonnegative stage (accumulate duration count) _
          (accumulate_nonneg duration count) (setdefault_nonneg stage t.stages h.nonnegative);
    observed = h.observed;
    intervals = h.intervals;
  }

  append_span-IsSound :
      (s : Span F) (t : RequestTrace F) → IsOrdered s → IsSound t → IsSound (append_span s t)
  append_span-IsSound s t ordered h = record {
    unique = h.unique;
    nonnegative = h.nonnegative;
    observed = All-append (IsWellFormed t.root_span_id) t.observations _ h.observed (ordered, tt);
    intervals = h.intervals;
  }

  interval-IsSound :
      (id : String) (g : Generation F) (name : String) (start_ns end_ns : ℤ)
      (metadata : Dict (Json F)) (t u : RequestTrace F)
      → interval id g name start_ns end_ns metadata t ≡ ret u
      → IsSound t
      → IsSound u
  unfolding interval
  interval-IsSound id g name start_ns end_ns metadata t u e h =
      elim (Bool-cases (ltb_ℤ end_ns start_ns)) [
        | inl late ↦ absurd (ground arith)
        | inr ordered ↦
            subst IsSound
              {x = append_span
                (record {
                  id = id;
                  parent_id = some g.id;
                  name = name;
                  start_ns = start_ns;
                  end_ns = end_ns;
                  metadata = metadata;
                })
                t}
              (ground arith) (append_span-IsSound _ t (ground arith) h)
      ]

  api_interval-IsSound :
      (id name : String) (started ended : F) (metadata : Dict (Json F)) (t : RequestTrace F)
      → IsSound t
      → IsSound (api_interval id name started ended metadata t)
  unfolding api_interval
  api_interval-IsSound id name started ended metadata t h =
      elim (Bool-cases (leb_ℤ (wall_at t started) (wall_at t ended))) [
        | inl ordered ↦ rw ordered (record {
          unique = h.unique;
          nonnegative = h.nonnegative;
          observed = h.observed;
          intervals = All-append _ t.api_intervals _ h.intervals ((ground arith, refl), tt);
        })
        | inr late ↦ rw late h
      ]

  Step-IsSound : {t u : RequestTrace F} → Step t u → IsSound t → IsSound u
  unfolding begin_generation
  Step-IsSound (begins id perf request t) h = record {
    unique = h.unique;
    nonnegative = h.nonnegative;
    observed = All-append (IsWellFormed t.root_span_id) t.observations _ h.observed (refl, tt);
    intervals = h.intervals;
  }
  Step-IsSound (observes id g name start_ns end_ns metadata t u e) h =
      interval-IsSound id g name start_ns end_ns metadata t u e h
  Step-IsSound (times stage duration count t) h = add-IsSound stage duration count t h
  Step-IsSound (measures id name started ended metadata t) h =
      api_interval-IsSound id name started ended metadata t h

  pub Reach-IsSound : {s t : RequestTrace F} → IsSound s → Reach s t → IsSound t
  Reach-IsSound h here = h
  Reach-IsSound h (next r st) = Step-IsSound st (Reach-IsSound h r)

  pub new-IsSound :
      (id : String) (ns : ℤ) (perf : F) (root : String) → IsSound (new id ns perf root)
  unfolding new
  new-IsSound id ns perf root = record {
    unique = tt;
    nonnegative = tt;
    observed = tt;
    intervals = tt;
  }
