-- ===== src/RemoteWrite/Task.antt =====
-- The task of `RemoteWriter` in src/vllm_observer/remote_write.py while the application lives: `start`,
-- the loop of `_run` one test at a time, and `close`.
pub mod Batches
pub mod Phases
use vllm_observer.Base.{ℕ, Bool, true, false, not, ◌&&◌, Option, none, some, List, if◌then◌else◌}
use vllm_observer.Base.Outcome.{Outcome}
use vllm_observer.RemoteWrite.Series.{Sample}
use vllm_observer.RemoteWrite.{Gauges, RemoteWriter, Attempt, Round, start, round, retire}

-- The writer, and whether its task has returned; the task is None as long as it is not `running`.
pub record Task (F : Type 0) : Type 0 where
  pub writer : RemoteWriter F
  pub ended : Bool

abbrev pub is_active : {F : Type 0} → Task F → Bool
is_active x = x.writer.running && not x.ended

-- `start`
unfoldable pub start_task : {F : Type 0} → Task F → Task F
unfolding start
start_task x = record x { writer = start x.writer }

module _ {X F : Type 0} (collect : Gauges F → List (Sample F)) where
  -- A round during which `close` is not called.
  abbrev pub unstopped : Outcome X Bool → Attempt X F → Round X F
  unstopped health attempt = record { health = health; attempt = attempt; stops = false }

  -- The next test of the loop, and what the task does then.
  unfoldable pub proceed : Outcome X Bool → Attempt X F → Task F → Task F
  unfolding round retire
  proceed health attempt x =
      if is_active x
      then if x.writer.stop
        then record { writer = retire collect attempt x.writer; ended = true }
        else record x { writer = round collect (unstopped health attempt) x.writer }
      else x

  -- What is left of a round that is under way.
  abbrev pub rest_of_round : Option (Outcome X Bool × Attempt X F) → RemoteWriter F → RemoteWriter F
  rest_of_round none w = w
  rest_of_round (some (health, attempt)) w = round collect (unstopped health attempt) w

  -- `close`, which waits for the task: `under_way` is what a round under way still gets.
  unfoldable pub close_task : Option (Outcome X Bool × Attempt X F) → Attempt X F → Task F → Task F
  unfolding round retire
  close_task under_way last x =
      let w : RemoteWriter F = record x.writer { stop = true } in
      if is_active x
      then record { writer = retire collect last (rest_of_round under_way w); ended = true }
      else record x { writer = w }
