-- ===== src/Exporter/Queue/Interleaving.antt =====
-- Both threads of the exporter, interleaved in any order, with a history of the events.
use vllm_observer.Base.{
  ℕ, zero, suc, ◌+◌, ◌≤◌, ◌<◌, ◌≡◌, ◌≢◌, refl, Bool, true, false, some, List, [], ◌∷◌, ◌++◌, length,
  ltb, if◌then◌else◌, arith, length-append,
}
use mathlib.Core.List.{append-nil, append_assoc}
use vllm_observer.Exporter.Queue.{
  Worker, ended, sinking, Exporter, new_exporter, drop_event, put, work, stop,
}

-- The thread that calls `process`: between two calls, or behind the test of `stopping`.
pub data Producer (E : Type 0) : Type 0 where
  idle : Producer E
  putting : E → Producer E

-- The exporter, its producer and what happened so far: how many events were offered, which ones the
-- queue took, which ones the sink was done with, and which ones were put after the export thread ended.
pub record Run (E : Type 0) : Type 0 where
  pub exporter : Exporter E
  pub producer : Producer E
  pub offered : ℕ
  pub accepted : List E
  pub handled : List E
  pub late : List E

module _ {E : Type 0} where
  abbrev pub in_hand : Worker E → List E
  in_hand (sinking event) = event ∷ []
  in_hand _ = []

  abbrev pub pending : Producer E → ℕ
  pending idle = 0
  pending (putting _) = 1

  abbrev pub when_ended : Worker E → E → List E
  when_ended ended event = event ∷ []
  when_ended _ event = []

  abbrev pub takes : Exporter E → Bool
  takes x = ltb (length x.queue) x.capacity

  -- The test of `stopping` in `process`.
  abbrev pub offer_step : E → Run E → Run E
  offer_step event r =
      if r.exporter.stopping
      then record r { exporter = drop_event r.exporter; offered = r.offered + 1 }
      else record r { producer = putting event; offered = r.offered + 1 }

  -- `put_nowait` in `process`.
  abbrev pub put_step : E → Run E → Run E
  put_step event r =
      let s : Run E = record r { exporter = put event r.exporter; producer = idle } in
      if takes r.exporter
      then record s {
        accepted = r.accepted ++ event ∷ [];
        late = r.late ++ when_ended r.exporter.worker event;
      }
      else s

  abbrev pub work_step : Bool → Run E → Run E
  work_step raises r = record r {
    exporter = work raises r.exporter;
    handled = r.handled ++ in_hand r.exporter.worker;
  }

  pub data Step : Run E → Run E → Type 0 where
    offers : (event : E) (r : Run E) → r.producer ≡ idle → Step r (offer_step event r)
    puts : (event : E) (r : Run E) → r.producer ≡ putting event → Step r (put_step event r)
    works : (raises : Bool) (r : Run E) → Step r (work_step raises r)
    stops : (r : Run E) → Step r (record r { exporter = stop r.exporter })

  pub data Reach : Run E → Type 0 where
    starts :
        (capacity : ℕ) (x : Exporter E)
        → new_exporter capacity ≡ some x
        → Reach (record {
          exporter = x;
          producer = idle;
          offered = 0;
          accepted = [];
          handled = [];
          late = [];
        })
    next : {r s : Run E} → Reach r → Step r s → Reach s

  pub record IsConsistent (r : Run E) : Type 0 where
    pub bounded : length r.exporter.queue ≤ r.exporter.capacity
    pub fifo : r.accepted ≡ r.handled ++ (in_hand r.exporter.worker ++ r.exporter.queue)
    pub counted : r.offered ≡ length r.accepted + r.exporter.dropped + pending r.producer
    pub failures : r.exporter.failed ≤ length r.handled
    pub stopped : r.exporter.worker ≡ ended → r.exporter.stopping ≡ true
    pub left : r.exporter.worker ≡ ended → r.exporter.queue ≡ r.late
    pub early : r.exporter.worker ≢ ended → r.late ≡ []
    pub single : length r.late + pending r.producer ≤ 1

  offer_step-IsConsistent :
      (event : E) (r : Run E)
      → r.producer ≡ idle
      → IsConsistent r
      → IsConsistent (offer_step event r)
  offer_step-IsConsistent event r e h = ground arith

  put_step-IsConsistent :
      (event : E) (r : Run E)
      → r.producer ≡ putting event
      → IsConsistent r
      → IsConsistent (put_step event r)
  unfolding put
  put_step-IsConsistent event r e h = ground (
    arith,
    length-append r.accepted (event ∷ []),
    length-append r.exporter.queue (event ∷ []),
    length-append r.late (event ∷ []),
    append-nil r.late,
    append_assoc r.handled (in_hand r.exporter.worker ++ r.exporter.queue) (event ∷ []),
    append_assoc (in_hand r.exporter.worker) r.exporter.queue (event ∷ []),
  )

  work_step-IsConsistent :
      (raises : Bool) (r : Run E) → IsConsistent r → IsConsistent (work_step raises r)
  unfolding work
  work_step-IsConsistent raises r h = ground (
    arith,
    append-nil r.handled,
    append_assoc r.handled (in_hand r.exporter.worker) r.exporter.queue,
    length-append r.handled (in_hand r.exporter.worker),
  )

  stop-IsConsistent :
      (r : Run E) → IsConsistent r → IsConsistent (record r { exporter = stop r.exporter })
  unfolding stop
  stop-IsConsistent r h = ground arith

  Step-IsConsistent : {r s : Run E} → Step r s → IsConsistent r → IsConsistent s
  Step-IsConsistent (offers event r e) h = offer_step-IsConsistent event r e h
  Step-IsConsistent (puts event r e) h = put_step-IsConsistent event r e h
  Step-IsConsistent (works raises r) h = work_step-IsConsistent raises r h
  Step-IsConsistent (stops r) h = stop-IsConsistent r h

  starts-IsConsistent :
      (capacity : ℕ) (x : Exporter E)
      → new_exporter capacity ≡ some x
      → IsConsistent (record {
        exporter = x;
        producer = idle;
        offered = 0;
        accepted = [];
        handled = [];
        late = [];
      })
  unfolding new_exporter
  starts-IsConsistent zero x e = absurd (ground arith)
  starts-IsConsistent (suc n) x e = ground arith

  pub Reach-IsConsistent : {r : Run E} → Reach r → IsConsistent r
  Reach-IsConsistent (starts capacity x e) = starts-IsConsistent capacity x e
  Reach-IsConsistent (next r st) = Step-IsConsistent st (Reach-IsConsistent r)

  -- In every interleaving the queue keeps to its capacity; the events that it took are those that
  -- the sink is done with, the one in its hands and those in the queue, in this order; and every event
  -- that was offered was taken, or counted as dropped, or is about to be put.
  pub events_accounted :
      {r : Run E}
      → Reach r
      → (length r.exporter.queue ≤ r.exporter.capacity)
        × (r.accepted ≡ r.handled ++ (in_hand r.exporter.worker ++ r.exporter.queue))
        × (r.offered ≡ length r.accepted + r.exporter.dropped + pending r.producer)
        × (r.exporter.failed ≤ length r.handled)
  events_accounted reached =
      let h = Reach-IsConsistent reached in (h.bounded, h.fifo, h.counted, h.failures)

  -- The export thread ends only after `close`, and then the sink is done with every event that the
  -- queue took but at most one: an event that was put when the thread had ended.
  pub ended_handled :
      {r : Run E}
      → Reach r
      → r.exporter.worker ≡ ended
      → (r.exporter.stopping ≡ true) × (r.accepted ≡ r.handled ++ r.late) × (length r.late ≤ 1)
  ended_handled reached e =
      let h = Reach-IsConsistent reached in
      (h.stopped e, ground (arith, h.fifo, h.left e), omega (arith, h.single))

  -- With any positive capacity, an event can be lost: one whose `process` saw no stop, and was
  -- put after `close` and the end of the export thread, is in the queue's history, and neither
  -- handled nor counted as dropped or failed.
  pub late_put_lost :
      (capacity : ℕ) (event : E)
      → 0 < capacity
      → (r : Run E) × Reach r
        × (r.exporter.worker ≡ ended)
        × (r.accepted ≡ event ∷ [])
        × (r.handled ≡ [])
        × (r.exporter.dropped ≡ 0)
        × (r.exporter.failed ≡ 0)
  unfolding new_exporter work put stop
  late_put_lost zero event h = elim h [ ]
  late_put_lost (suc n) event h = (
    _,
    next
        (next (next (next (starts (suc n) _ refl) (offers event _ refl)) (stops _)) (works false _))
        (puts event _ refl),
    ground arith,
    ground arith,
    ground arith,
    ground arith,
    ground arith,
  )
