-- ===== src/Middleware/Lifespan.antt =====
-- `ObserverMiddleware.__call__` of src/vllm_observer/middleware.py for the lifespan of the application,
-- and `health_check`. The push task, the export thread and the requests act while the application runs.
pub mod Closed
pub mod Live
mod Tests
use vllm_observer.Base.{
  ℕ, Bool, true, false, ◌&&◌, ◌||◌, Option, none, some, List, [], ◌∷◌, ◌++◌, leb, ltb,
}
use vllm_observer.Base.Outcome.{Outcome, ret, raise}
use vllm_observer.RemoteWrite.Series.{Sample}
use vllm_observer.RemoteWrite.{Gauges, Attempt}
use vllm_observer.RemoteWrite.Task.{Task, start_task, proceed, close_task}
use vllm_observer.Exporter.Queue.Interleaving.{Run}
use vllm_observer.Exporter.Queue.Closing.{Act, run_act, close_run}
use vllm_observer.Middleware.Call.{Outbound, start, body, extension, Ending}

-- A message of `lifecycle_send`.
pub data Lifecycle : Type 0 where
  startup_complete startup_failed shutdown_complete shutdown_failed : Lifecycle

-- `status` in `health_check`, after the messages that the application sent.
abbrev pub last_status : ℕ → List Outbound → ℕ
last_status status [] = status
last_status status (start code headers ∷ messages) = last_status code messages
last_status status (body content more_body ∷ messages) = last_status status messages
last_status status (extension ∷ messages) = last_status status messages

-- `health_check`, by what the application does with the request of /health: it sends messages, or it
-- raises or takes too long.
unfoldable pub health_check : {X : Type 0} → Outcome X (List Outbound) → Outcome X Bool
health_check (raise x) = raise x
health_check (ret messages) =
    let status = last_status 503 messages in ret (leb 200 status && ltb status 300)

-- `self.writer` and `self.exporter`, with the history of its events, and the messages that were passed on to `send`.
pub record Process (F E : Type 0) : Type 0 where
  pub writer : Option (Task F)
  pub exporter : Option (Run E)
  pub sent : List Lifecycle

-- What `close` of the writer meets: a round under way, by its health check and its push, and the last
-- push.
pub record Closing (X F : Type 0) : Type 0 where
  pub under_way : Option (Outcome X Bool × Attempt X F)
  pub last : Attempt X F

-- What happens during the lifespan, in its order: the application sends a message, the push task
-- goes round, or one of the two threads at the exporter acts: the event loop, on which the
-- requests end, or the export thread.
pub data Happening (X F E : Type 0) : Type 0 where
  sends : Lifecycle → Closing X F → Happening X F E
  pushes : Outcome X (List Outbound) → Attempt X F → Happening X F E
  acts : Act E → Happening X F E

abbrev pub on_some : {A : Type 0} → (A → A) → Option A → Option A
on_some h none = none
on_some h (some x) = some (h x)

module _ {X F : Type 0} (collect : Gauges F → List (Sample F)) where
  -- The writer in `lifecycle_send`.
  unfoldable pub on_message : Lifecycle → Closing X F → Task F → Task F
  unfolding start_task close_task
  on_message startup_complete closing x = start_task x
  on_message startup_failed closing x = x
  on_message shutdown_complete closing x = close_task collect closing.under_way closing.last x
  on_message shutdown_failed closing x = x

module _ {X F E : Type 0} (collect : Gauges F → List (Sample F)) where
  unfoldable pub happen : Happening X F E → Process F E → Process F E
  unfolding on_message proceed health_check run_act
  happen (sends message closing) p = record p {
    writer = on_some (on_message collect message closing) p.writer;
    sent = p.sent ++ message ∷ [];
  }
  happen (pushes health attempt) p = record p {
    writer = on_some (proceed collect (health_check health) attempt) p.writer;
  }
  happen (acts act) p = record p { exporter = on_some (run_act act) p.exporter }

  unfoldable pub happen_all : List (Happening X F E) → Process F E → Process F E
  unfolding happen
  happen_all [] p = p
  happen_all (h ∷ happenings) p = happen_all happenings (happen h p)

  -- The whole lifespan: `ending` is how the application ends, and `meanwhile` what the event loop
  -- and the export thread do while `close` of the exporter waits, in a thread of its own, until
  -- the export thread ends or its timeout is over.
  unfoldable pub lifespan :
      List (Happening X F E)
      → Ending
      → Closing X F
      → List (Act E)
      → Process F E
      → Ending × Process F E
  unfolding happen_all close_task close_run
  lifespan happenings ending closing meanwhile p =
      let q = happen_all happenings p in
      (
        ending,
        record q {
          writer = on_some (close_task collect closing.under_way closing.last) q.writer;
          exporter = on_some (close_run meanwhile) q.exporter;
        },
      )
