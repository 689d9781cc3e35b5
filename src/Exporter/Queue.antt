-- ===== src/Exporter/Queue.antt =====
-- `AsyncExportFilter` of src/vllm_observer/exporter.py: a bounded queue between the thread that
-- finishes requests and the thread that exports them. Each function is one atomic action of a thread.
pub mod Interleaving
pub mod Drain
pub mod Closing
use vllm_observer.Base.{
  ℕ, zero, suc, ◌+◌, Bool, true, false, not, ◌||◌, Option, none, some, List, [], ◌∷◌, ◌++◌, length,
  ltb, if◌then◌else◌,
}

-- Where the export thread stands in `_run`: before the test of its loop, before `queue.get`, in the
-- sink with an event, or behind the loop.
pub data Worker (E : Type 0) : Type 0 where
  testing fetching ended : Worker E
  sinking : E → Worker E

pub record Exporter (E : Type 0) : Type 0 where
  pub capacity : ℕ
  pub queue : List E
  pub dropped : ℕ
  pub failed : ℕ
  pub stopping : Bool
  pub worker : Worker E

abbrev pub is_empty : {A : Type 0} → List A → Bool
is_empty [] = true
is_empty (_ ∷ _) = false

module _ {E : Type 0} where
  -- `AsyncExportFilter(sink, capacity)`; none is the `ValueError`.
  unfoldable pub new_exporter : ℕ → Option (Exporter E)
  new_exporter zero = none
  new_exporter (suc n) = some (record {
    capacity = suc n;
    queue = [];
    dropped = 0;
    failed = 0;
    stopping = false;
    worker = testing;
  })

  abbrev pub drop_event : Exporter E → Exporter E
  drop_event x = record x { dropped = x.dropped + 1 }

  -- `queue.put_nowait`, with the handler of `queue.Full`
  unfoldable pub put : E → Exporter E → Exporter E
  put event x =
      if ltb (length x.queue) x.capacity
      then record x { queue = x.queue ++ event ∷ [] }
      else drop_event x

  -- `process`, when no other thread acts in between.
  unfoldable pub process : E → Exporter E → Exporter E
  unfolding put
  process event x = if x.stopping then drop_event x else put event x

  abbrev fetch : List E → Exporter E → Exporter E
  fetch [] x = record x { worker = testing }
  fetch (event ∷ queue) x = record x { queue = queue; worker = sinking event }

  abbrev work_at : Worker E → Bool → Exporter E → Exporter E
  work_at testing raises x = record x {
    worker = if not x.stopping || not (is_empty x.queue) then fetching else ended;
  }
  work_at fetching raises x = fetch x.queue x
  work_at (sinking event) raises x = record x {
    worker = testing;
    failed = x.failed + (if raises then 1 else 0);
  }
  work_at ended raises x = x

  -- One action of `_run`. `get` times out where the queue is empty; `raises` tells how the sink ends.
  unfoldable pub work : Bool → Exporter E → Exporter E
  work raises x = work_at x.worker raises x

  -- `self.stopping.set()` of `close`
  unfoldable pub stop : Exporter E → Exporter E
  stop x = record x { stopping = true }

  -- The export thread alone, one action for each answer of the sink.
  unfoldable pub run : List Bool → Exporter E → Exporter E
  unfolding work
  run [] x = x
  run (raises ∷ answers) x = run answers (work raises x)

  abbrev pub has_ended : Worker E → Bool
  has_ended ended = true
  has_ended _ = false

  -- `close`: the export thread makes as many actions as the timeout of `join` leaves it, and the
  -- result tells whether it has ended by then.
  unfoldable pub close : List Bool → Exporter E → Exporter E × Bool
  unfolding stop run
  close answers x = let y = run answers (stop x) in (y, has_ended y.worker)
