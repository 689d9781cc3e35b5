-- ===== src/RemoteWrite.antt =====
-- `RemoteWriter` of src/vllm_observer/remote_write.py: snapshots of the metrics, pushed by a task that
-- lives as long as the application. The registry's `collect` and the HTTP request are third-party
-- code, which the functions take as arguments.
pub mod Series
pub mod Timestamps
pub mod Lifecycle
pub mod Settings
pub mod Task
mod Tests
use vllm_observer.Base.{
  ℕ, ◌+◌, ◌/◌, max, String, Bool, true, false, not, ◌&&◌, ◌||◌, Option, none, some, List, [], ◌∷◌,
  ◌++◌, leb, ltb, if◌then◌else◌,
}
use vllm_observer.Base.Dict.{Dict}
use vllm_observer.Base.Outcome.{Outcome, ret, raise}
use vllm_observer.RemoteWrite.Series.{Sample, TimeSeries, encode_registry}

-- The four metrics that the writer adds to the registry.
pub record Gauges (F : Type 0) : Type 0 where
  pub heartbeat : F
  pub alive : ℕ
  pub healthy : ℕ
  pub failures : ℕ

-- The writer, and the batches that it has sent so far.
pub record RemoteWriter (F : Type 0) : Type 0 where
  pub identity : Dict String
  pub last_timestamp : ℕ
  pub stop : Bool
  pub running : Bool
  pub gauges : Gauges F
  pub sent : List (List (TimeSeries F))

-- What one push reads and gets: `time.time()`, `time.time_ns()`, and the status of the response, or the
-- exception of the request.
pub record Attempt (X F : Type 0) : Type 0 where
  pub now : F
  pub now_ns : ℕ
  pub response : Outcome X ℕ

-- One round of `_run`: what the health check returned or raised, the push, and whether `close` set
-- `stop` before the wait of the round was over.
pub record Round (X F : Type 0) : Type 0 where
  pub health : Outcome X Bool
  pub attempt : Attempt X F
  pub stops : Bool

abbrev pub accepted : {X : Type 0} → Outcome X ℕ → Bool
accepted (ret status) = leb 200 status && ltb status 300
accepted (raise x) = false

abbrev pub bit : Bool → ℕ
bit true = 1
bit false = 0

abbrev pub is_healthy : {X : Type 0} → Outcome X Bool → Bool
is_healthy (ret healthy) = healthy
is_healthy (raise x) = false

module _ {F : Type 0} where
  unfoldable pub set_alive : ℕ → RemoteWriter F → RemoteWriter F
  set_alive n w = record w { gauges = record w.gauges { alive = n } }

  unfoldable pub set_healthy : ℕ → RemoteWriter F → RemoteWriter F
  set_healthy n w = record w { gauges = record w.gauges { healthy = n } }

  -- `start`: the task is created once.
  unfoldable pub start : RemoteWriter F → RemoteWriter F
  unfolding set_alive
  start w = if w.running then w else record (set_alive 1 w) { running = true }

module _ {X F : Type 0} (collect : Gauges F → List (Sample F)) where
  -- `_push_snapshot`, up to the request, which reads the registry with the new heartbeat.
  unfoldable pub push_snapshot : Attempt X F → RemoteWriter F → RemoteWriter F
  unfolding encode_registry
  push_snapshot a w =
      let timestamp = max (w.last_timestamp + 1) (a.now_ns / 1000000) in
      let gauges : Gauges F = record w.gauges { heartbeat = a.now } in
      record w {
        gauges = gauges;
        last_timestamp = timestamp;
        sent = w.sent ++ encode_registry (collect gauges) w.identity timestamp ∷ [];
      }

  -- `push`
  unfoldable pub push : Attempt X F → RemoteWriter F → RemoteWriter F
  unfolding push_snapshot
  push a w =
      let w' = push_snapshot a w in
      if accepted a.response
      then w'
      else record w' { gauges = record w'.gauges { failures = w'.gauges.failures + 1 } }

  -- The body of the loop in `_run`.
  unfoldable pub round : Round X F → RemoteWriter F → RemoteWriter F
  unfolding push set_healthy
  round r w =
      let w' = push r.attempt (set_healthy (bit (is_healthy r.health)) w) in
      record w' { stop = w'.stop || r.stops }

  -- What `_run` does behind its loop.
  unfoldable pub retire : Attempt X F → RemoteWriter F → RemoteWriter F
  unfolding push set_alive set_healthy
  retire last w = push last (set_healthy 0 (set_alive 0 w))

  -- `_run`; none where the rounds are over and `stop` is not set yet.
  unfoldable pub run : List (Round X F) → Attempt X F → RemoteWriter F → Option (RemoteWriter F)
  unfolding round retire
  run [] last w = if w.stop then some (retire last w) else none
  run (r ∷ rounds) last w =
      let rest = run rounds last (round r w) in if w.stop then some (retire last w) else rest
