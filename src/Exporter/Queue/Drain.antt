-- ===== src/Exporter/Queue/Drain.antt =====
-- `close` lets the export thread finish what is queued.
use vllm_observer.Base.{ℕ, ◌+◌, ◌-◌, ◌*◌, ◌≤◌, ◌≡◌, ◌≢◌, Bool, true, List, [], ◌∷◌, length, arith}
use vllm_observer.Exporter.Queue.{
  Worker, testing, fetching, ended, sinking, Exporter, work, stop, run, close,
}

module _ {E : Type 0} where
  -- How many actions the export thread needs before it ends, once it has to stop.
  abbrev pub actions : Worker E → List E → ℕ
  actions testing queue = 3 * length queue + 1
  actions fetching [] = 2
  actions fetching (event ∷ queue) = 3 * length queue + 3
  actions (sinking event) queue = 3 * length queue + 2
  actions ended queue = 0

  record IsStopping (x : Exporter E) : Type 0 where
    stops : x.stopping ≡ true
    emptied : x.worker ≡ ended → x.queue ≡ []

  work-IsStopping : (raises : Bool) (x : Exporter E) → IsStopping x → IsStopping (work raises x)
  unfolding work
  work-IsStopping raises x h = ground arith

  actions-work :
      (raises : Bool) (x : Exporter E)
      → IsStopping x
      → actions (work raises x).worker (work raises x).queue ≤ actions x.worker x.queue - 1
  unfolding work
  actions-work raises x h = ground arith

  run_drains :
      (answers : List Bool) (x : Exporter E)
      → IsStopping x
      → actions x.worker x.queue ≤ length answers
      → ((run answers x).worker ≡ ended) × ((run answers x).queue ≡ [])
  unfolding run
  run_drains [] x h fits = ground arith
  run_drains (raises ∷ answers) x h fits =
      run_drains answers (work raises x) (work-IsStopping raises x h)
        (omega (arith, actions-work raises x h))

  -- If the export thread has not ended and is given three actions for each queued event and two
  -- more, `close` reports that it has ended, and by then the queue is empty, whether or not the
  -- sink raises.
  pub close_drains :
      (answers : List Bool) (x : Exporter E)
      → x.worker ≢ ended
      → 3 * length x.queue + 2 ≤ length answers
      → let (y, done) = close answers x in (done ≡ true) × (y.worker ≡ ended) × (y.queue ≡ [])
  unfolding close stop
  close_drains answers x running fits =
      let ready : IsStopping (stop x) = ground arith in
      let (e, q) = run_drains answers (stop x) ready (ground arith) in (ground arith, e, q)
