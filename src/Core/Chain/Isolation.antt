-- ===== src/Core/Chain/Isolation.antt =====
-- Filters are isolated from one another's failures.
use vllm_observer.Base.{
  Option, none, some, List, [], ◌∷◌, ◌++◌, ◌≡◌, refl, ap, ◌∙◌, All, Option-cases, inl, inr, foldl,
}
use vllm_observer.Base.Outcome.{Outcome, ret, raise}
use vllm_observer.Core.Chain.{Filter, next_event, process}

abbrev pub keep : {E W : Type 0} → E → W → E × W
keep event w = (event, w)

module _ {X E W : Type 0} where
  -- A filter that returns the event as it was given, or raises and has left it so.
  abbrev pub IsObserver : Filter X E W → Type 0
  IsObserver item = (event : E) (w : W) → next_event (item event w).0 (item event w).1 ≡ some event

  -- A filter that raises at every event, and changes the event and what the filters keep by `touch`
  -- before it does.
  abbrev pub IsBroken : (E → W → E × W) → Filter X E W → Type 0
  IsBroken touch item =
      (event : E) (w : W)
      → (x : X) × (item event w ≡ (raise x, (touch event w).0, (touch event w).1))

  -- The filter that makes the same changes and returns the event.
  abbrev pub quiet : (E → W → E × W) → Filter X E W
  quiet touch event w = let (event', w') = touch event w in (ret (some event'), event', w')

  process_observer :
      (item : Filter X E W) (filters : List (Filter X E W)) (event : E) (w : W)
      → IsObserver item
      → process (item ∷ filters) event w ≡ process filters event (item event w).2
  unfolding process
  process_observer item filters event w h = rw (h event w, process)

  -- When each filter returns the event or raises, and none changes it, every filter is called once,
  -- in order, with the event as it was given.
  pub process-observers :
      (filters : List (Filter X E W)) (event : E) (w : W)
      → All IsObserver filters
      → process filters event w ≡ foldl (λ v item. (item event v).2) w filters
  unfolding process
  process-observers [] event w h = refl
  process-observers (item ∷ filters) event w h =
      process_observer item filters event w h.0
      ∙ process-observers filters event (item event w).2 h.1

  -- Two filters that do the same to the chain behind them do the same in every chain.
  process-exchange :
      (before after : List (Filter X E W)) (one other : Filter X E W) (event : E) (w : W)
      → ((e : E) (v : W) → process (one ∷ after) e v ≡ process (other ∷ after) e v)
      → process (before ++ one ∷ after) event w ≡ process (before ++ other ∷ after) event w
  unfolding process
  process-exchange [] after one other event w h = h event w
  process-exchange (item ∷ before) after one other event w h =
      elim (Option-cases (next_event (item event w).0 (item event w).1)) [
        | inl ends ↦ rw (ends, process)
        | inr (event', on) ↦
            rw (on, process) (process-exchange before after one other event' (item event w).2 h)
      ]

  process-quiet :
      (touch : E → W → E × W) (after : List (Filter X E W)) (broken : Filter X E W) (event : E)
      (w : W)
      → IsBroken touch broken
      → process (broken ∷ after) event w ≡ process (quiet touch ∷ after) event w
  unfolding process
  process-quiet touch after broken event w h =
      let (x, e) = h event w in
      ap
        (λ (r : Outcome X (Option E) × E × W). elim (next_event r.0 r.1) [
          | none ↦ r.2
          | some event' ↦ process after event' r.2
        ])
        e

  process-keep :
      (before after : List (Filter X E W)) (event : E) (w : W)
      → process (before ++ quiet keep ∷ after) event w ≡ process (before ++ after) event w
  unfolding process
  process-keep [] after event w = refl
  process-keep (item ∷ before) after event w =
      elim (Option-cases (next_event (item event w).0 (item event w).1)) [
        | inl ends ↦ rw (ends, process)
        | inr (event', on) ↦ rw (on, process) (process-keep before after event' (item event w).2)
      ]

  -- A filter that always raises does not end the chain, wherever it stands: the chain goes on as
  -- with a filter in its place that returns the event, with what the filter had changed of the
  -- event and of what the filters keep before it raised. Where that is nothing, the chain goes on
  -- as without the filter.
  pub process-broken :
      (touch : E → W → E × W) (before after : List (Filter X E W)) (broken : Filter X E W)
      (event : E) (w : W)
      → IsBroken touch broken
      → (process (before ++ broken ∷ after) event w
          ≡ process (before ++ quiet touch ∷ after) event w)
        × (process (before ++ quiet keep ∷ after) event w ≡ process (before ++ after) event w)
  process-broken touch before after broken event w h = (
    process-exchange before after broken (quiet touch) event w
        (λ e v. process-quiet touch after broken e v h),
    process-keep before after event w,
  )
