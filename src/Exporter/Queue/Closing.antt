-- ===== src/Exporter/Queue/Closing.antt =====
-- `close` of `AsyncExportFilter` in src/vllm_observer/exporter.py while requests go on: the event loop
-- does not wait for the export thread, and may stand anywhere in `process`.
use vllm_observer.Base.{
  ℕ, ◌+◌, ◌-◌, ◌*◌, ◌≤◌, ◌≡◌, refl, Bool, true, List, [], ◌∷◌, ◌++◌, length, length-append, arith,
}
use vllm_observer.Exporter.Queue.{Worker, testing, fetching, ended, sinking, put, work, stop}
use vllm_observer.Exporter.Queue.Drain.{actions}
use vllm_observer.Exporter.Queue.Interleaving.{
  Producer, idle, putting, Run, pending, offer_step, put_step, work_step, Reach, next, offers, puts,
  works, stops, Reach-IsConsistent, ended_handled,
}

-- What a thread does next: `process` is called with an event and tests `stopping`, it puts the event
-- that it holds, or the export thread acts.
pub data Act (E : Type 0) : Type 0 where
  calls : E → Act E
  hands : Act E
  exports : Bool → Act E

module _ {E : Type 0} where
  -- The event loop makes one call of `process` at a time.
  unfoldable pub run_act : Act E → Run E → Run E
  unfolding put work
  run_act (calls event) r = elim r.producer [ idle ↦ offer_step event r | putting _ ↦ r ]
  run_act hands r = elim r.producer [ idle ↦ r | putting event ↦ put_step event r ]
  run_act (exports raises) r = work_step raises r

  unfoldable pub run_acts : List (Act E) → Run E → Run E
  unfolding run_act
  run_acts [] r = r
  run_acts (act ∷ acts) r = run_acts acts (run_act act r)

  -- `close`, where `meanwhile` is what both threads do until `join` returns.
  unfoldable pub close_run : List (Act E) → Run E → Run E
  unfolding stop run_acts
  close_run meanwhile r = run_acts meanwhile (record r { exporter = stop r.exporter })

  -- How often the export thread acts.
  abbrev pub exports_in : List (Act E) → ℕ
  exports_in [] = 0
  exports_in (calls event ∷ acts) = exports_in acts
  exports_in (hands ∷ acts) = exports_in acts
  exports_in (exports raises ∷ acts) = 1 + exports_in acts

  pub run_act-Reach : (act : Act E) (r : Run E) → Reach r → Reach (run_act act r)
  unfolding run_act
  run_act-Reach (calls event) r h = calling r.producer refl
    where
      calling :
          (p : Producer E)
          → r.producer ≡ p
          → Reach (elim p [ idle ↦ offer_step event r | putting _ ↦ r ])
      calling idle e = next h (offers event r e)
      calling (putting _) e = h
  run_act-Reach hands r h = handing r.producer refl
    where
      handing :
          (p : Producer E)
          → r.producer ≡ p
          → Reach (elim p [ idle ↦ r | putting event ↦ put_step event r ])
      handing idle e = h
      handing (putting event) e = next h (puts event r e)
  run_act-Reach (exports raises) r h = next h (works raises r)

  run_acts-Reach : (acts : List (Act E)) (r : Run E) → Reach r → Reach (run_acts acts r)
  unfolding run_acts
  run_acts-Reach [] r h = h
  run_acts-Reach (act ∷ acts) r h = run_acts-Reach acts (run_act act r) (run_act-Reach act r h)

  pub run_act-capacity :
      (act : Act E) (r : Run E) → (run_act act r).exporter.capacity ≡ r.exporter.capacity
  unfolding run_act put work
  run_act-capacity (calls event) r = ground arith
  run_act-capacity hands r = ground arith
  run_act-capacity (exports raises) r = ground arith

  -- How many actions the export thread still needs at most, once it has to stop.
  abbrev left : Worker E → List E → ℕ → ℕ
  left ended queue held = 0
  left testing queue held = actions testing queue + 3 * held
  left fetching queue held = actions fetching queue + 3 * held
  left (sinking event) queue held = actions (sinking event) queue + 3 * held

  abbrev remaining : Run E → ℕ
  remaining r = left r.exporter.worker r.exporter.queue (pending r.producer)

  left-ended :
      (worker : Worker E) (queue : List E) (held : ℕ) → left worker queue held ≤ 0 → worker ≡ ended
  left-ended ended queue held h = refl
  left-ended testing queue held h = absurd (omega arith)
  left-ended fetching [] held h = absurd (omega arith)
  left-ended fetching (event ∷ queue) held h = absurd (omega arith)
  left-ended (sinking event) queue held h = absurd (omega arith)

  left-append :
      (worker : Worker E) (queue : List E) (event : E)
      → left worker (queue ++ event ∷ []) 0 ≤ left worker queue 1
  left-append testing queue event = omega (arith, length-append queue (event ∷ []))
  left-append fetching [] event = omega arith
  left-append fetching (e ∷ queue) event = omega (arith, length-append queue (event ∷ []))
  left-append ended queue event = omega arith
  left-append (sinking e) queue event = omega (arith, length-append queue (event ∷ []))

  left_bound :
      (worker : Worker E) (queue : List E) (held : ℕ)
      → left worker queue held ≤ 3 * length queue + 2 + 3 * held
  left_bound testing queue held = omega arith
  left_bound fetching [] held = omega arith
  left_bound fetching (e ∷ queue) held = omega arith
  left_bound ended queue held = omega arith
  left_bound (sinking e) queue held = omega arith

  run_act-remaining :
      (act : Act E) (r : Run E)
      → r.exporter.stopping ≡ true
      → ((run_act act r).exporter.stopping ≡ true)
        × (remaining (run_act act r) ≤ remaining r - exports_in (act ∷ []))
  unfolding run_act put work
  run_act-remaining (calls event) r h = ground arith
  run_act-remaining hands r h = handing r.producer refl
    where
      handing :
          (p : Producer E)
          → r.producer ≡ p
          → let s = elim p as (λ _. Run E) [ idle ↦ r | putting event ↦ put_step event r ] in
            (s.exporter.stopping ≡ true) × (remaining s ≤ remaining r - 0)
      handing idle e = (h, omega arith)
      handing (putting event) e =
          ground (arith, e, left-append r.exporter.worker r.exporter.queue event)
  run_act-remaining (exports raises) r h = ground arith

  run_acts_end :
      (acts : List (Act E)) (r : Run E)
      → r.exporter.stopping ≡ true
      → remaining r ≤ exports_in acts
      → (run_acts acts r).exporter.worker ≡ ended
  unfolding run_acts
  run_acts_end [] r h fits = left-ended r.exporter.worker r.exporter.queue (pending r.producer) fits
  run_acts_end (act ∷ acts) r h fits =
      let (stopped, less) = run_act-remaining act r h in
      run_acts_end acts (run_act act r) stopped (enough act less fits)
    where
      enough :
          (a : Act E) {m n : ℕ}
          → m ≤ n - exports_in (a ∷ [])
          → n ≤ exports_in (a ∷ acts)
          → m ≤ exports_in acts
      enough (calls event) less fits = omega (arith, less, fits)
      enough hands less fits = omega (arith, less, fits)
      enough (exports raises) less fits = omega (arith, less, fits)

  -- The export thread has ended, and the sink is done with what the queue took but at most one event,
  -- which was put when the thread had ended.
  pub record IsDrained (r : Run E) : Type 0 where
    pub over : r.exporter.worker ≡ ended
    pub handled : r.accepted ≡ r.handled ++ r.late
    pub late : length r.late ≤ 1

  pub close_run-IsDrained :
      (meanwhile : List (Act E)) (r : Run E)
      → Reach r
      → 3 * r.exporter.capacity + 5 ≤ exports_in meanwhile
      → IsDrained (close_run meanwhile r)
  unfolding close_run stop
  close_run-IsDrained meanwhile r h fits =
      let k = Reach-IsConsistent h in
      let s : Run E = record r { exporter = stop r.exporter } in
      let over = run_acts_end meanwhile s refl (
        omega (
          arith,
          fits,
          left_bound r.exporter.worker r.exporter.queue (pending r.producer),
          k.bounded,
          k.single,
        )) in
      let (_, handled, late) = ended_handled (run_acts-Reach meanwhile s (next h (stops r))) over in
      record { over = over; handled = handled; late = late }
