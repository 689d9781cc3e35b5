-- ===== src/Middleware/Lifespan/Closed.antt =====
-- What is left of the writer and the exporter of src/vllm_observer/middleware.py when the lifespan of
-- the application is over.
use vllm_observer.Base.{ℕ, ◌+◌, ◌*◌, ◌≤◌, ◌≡◌, refl, subst, String, Bool, false, List, ◌++◌}
use vllm_observer.Base.Dict.{Dict}
use vllm_observer.RemoteWrite.Series.{Sample}
use vllm_observer.RemoteWrite.{Gauges}
use vllm_observer.RemoteWrite.Task.{close_task}
use vllm_observer.RemoteWrite.Task.Phases.{IsUnstarted, unstarted, IsClosed, close_task-IsClosed}
use vllm_observer.Exporter.Queue.Closing.{Act, close_run, exports_in, IsDrained}
use vllm_observer.Middleware.Call.{Ending}
use vllm_observer.Middleware.Lifespan.{Process, Closing, Happening, happen_all, lifespan}
use vllm_observer.Middleware.Lifespan.Live.{
  IsRunning, OnSome, messages_of, is_started, IsLive, close_running, or_false, OnSome-mono,
  OnSome-on_some, happen_all-IsLive, happen_all-sent,
}

module _ {F E : Type 0} (collect : Gauges F → List (Sample F)) (identity : Dict String)
    (capacity : ℕ) where
  -- Before the lifespan: the push task was not created, and the exporter has this capacity;
  -- requests may have ended before.
  pub record IsFresh (p : Process F E) : Type 0 where
    pub writer : OnSome (IsUnstarted collect identity) p.writer p.writer
    pub exporter : OnSome (IsRunning capacity) p.exporter p.exporter

  -- Afterwards: the writer is closed, the export thread has ended, and the sink is done with what
  -- the queue took but at most one event.
  pub record IsShut (started : Bool) (before p : Process F E) : Type 0 where
    pub writer : OnSome (IsClosed collect identity started) before.writer p.writer
    pub exporter : OnSome IsDrained before.exporter p.exporter

  -- Whatever the application sends during its lifespan, whatever the push task, the requests and
  -- the export thread do meanwhile, also while the exporter is closed, and however the
  -- application ends: its messages are passed on unchanged and its ending is the result; where it
  -- told that its start-up is complete, the push task has ended and left the gauges of an
  -- instance that is neither alive nor healthy, and every batch shows a living instance but the
  -- last, which shows one that is not alive; where it did not, no task was created and no batch
  -- sent; and the export thread has ended, and the sink is done with every event that the queue
  -- took but at most one, which was put when the thread had ended, if the thread has the time for
  -- three actions per place in the queue and five more.
  pub lifespan_shuts :
      {X : Type 0} (happenings : List (Happening X F E)) (ending : Ending) (closing : Closing X F)
      (meanwhile : List (Act E)) (p : Process F E)
      → IsFresh p
      → 3 * capacity + 5 ≤ exports_in meanwhile
      → let (result, q) = lifespan collect happenings ending closing meanwhile p in
        (result ≡ ending)
        × (q.sent ≡ p.sent ++ messages_of happenings)
        × IsShut (is_started (messages_of happenings)) p q
  unfolding lifespan
  lifespan_shuts happenings ending closing meanwhile p fresh fits =
      let live =
        subst (λ b. IsLive collect identity capacity b p (happen_all collect happenings p))
          (or_false (is_started (messages_of happenings)))
          (happen_all-IsLive collect identity capacity happenings false p p (record {
            writer = OnSome-mono _ _ p.writer p.writer (λ x. unstarted) fresh.writer;
            exporter = fresh.exporter;
          })) in
      (
        refl,
        happen_all-sent collect identity capacity happenings p,
        record {
          writer =
              OnSome-on_some _ _ (close_task collect closing.under_way closing.last) _ _
                (λ x k. close_task-IsClosed collect identity closing.under_way closing.last x _ k)
                live.writer;
          exporter =
              OnSome-on_some _ _ (close_run meanwhile) _ _
                (λ r. close_running capacity meanwhile r fits) live.exporter;
        },
      )
