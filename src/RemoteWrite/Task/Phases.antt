-- ===== src/RemoteWrite/Task/Phases.antt =====
-- Where the push task of src/vllm_observer/remote_write.py stands: not created, making its rounds, or
-- over.
use vllm_observer.Base.{
  String, inl, inr, ◌≡◌, refl, sym, ap, ap₂, subst, Bool, true, false, not, ◌&&◌, Option, none,
  some, List, [], All, Bool-cases, if◌then◌else◌, arith,
}
use vllm_observer.Base.Dict.{Dict}
use vllm_observer.Base.Outcome.{Outcome}
use vllm_observer.RemoteWrite.Series.{Sample}
use vllm_observer.RemoteWrite.{Gauges, RemoteWriter, Attempt, set_alive, start}
use vllm_observer.RemoteWrite.Task.{
  Task, is_active, start_task, unstopped, proceed, rest_of_round, close_task,
}
use vllm_observer.RemoteWrite.Task.Batches.{Shows, IsAlive, IsGone, round-IsAlive, retire-IsGone}

module _ {A : Type 0} (P : A → Type 0) where
  if_so : (b : Bool) (u v : A) → b ≡ true → P u → P (if b then u else v)
  if_so true u v e p = p
  if_so false u v e p = absurd (ground arith)

  if_not : (b : Bool) (u v : A) → b ≡ false → P v → P (if b then u else v)
  if_not true u v e p = absurd (ground arith)
  if_not false u v e p = p

module _ {F : Type 0} (collect : Gauges F → List (Sample F)) (identity : Dict String) where
  -- The task was not created.
  pub record IsUnstarted (x : Task F) : Type 0 where
    pub named : x.writer.identity ≡ identity
    pub idle : x.writer.running ≡ false
    pub waiting : x.ended ≡ false
    pub dead : x.writer.gauges.alive ≡ 0
    pub unhealthy : x.writer.gauges.healthy ≡ 0
    pub silent : x.writer.sent ≡ []

  -- Where the task stands, by whether `start` was called.
  pub data Phase (x : Task F) : Bool → Type 0 where
    unstarted : IsUnstarted x → Phase x false
    looping : x.ended ≡ false → IsAlive collect identity x.writer → Phase x true
    over : x.ended ≡ true → IsGone collect identity x.writer → Phase x true

  pub start_task-Phase : (x : Task F) (started : Bool) → Phase x started → Phase (start_task x) true
  unfolding start_task start set_alive
  start_task-Phase x false (unstarted h) =
      if_not (λ w. Phase (record x { writer = w }) true) x.writer.running _ _ h.idle
        (looping h.waiting (record {
          named = h.named;
          running = refl;
          alive = refl;
          lived = subst (All (Shows collect identity 1)) (sym h.silent) tt;
        }))
  start_task-Phase x true (looping waiting h) =
      if_so (λ w. Phase (record x { writer = w }) true) x.writer.running _ _ h.running
        (looping waiting h)
  start_task-Phase x true (over ended h) =
      if_so (λ w. Phase (record x { writer = w }) true) x.writer.running _ _ h.running
        (over ended h)

  pub proceed-Phase :
      {X : Type 0} (health : Outcome X Bool) (attempt : Attempt X F) (x : Task F) (started : Bool)
      → Phase x started
      → Phase (proceed collect health attempt x) started
  unfolding proceed
  proceed-Phase health attempt x false (unstarted h) =
      if_not (λ y. Phase y false) (is_active x) _ _ (ap (λ b. b && not x.ended) h.idle)
        (unstarted h)
  proceed-Phase health attempt x true (looping waiting h) =
      if_so (λ y. Phase y true) (is_active x) _ _ (ap₂ (λ b c. b && not c) h.running waiting)
        (elim (Bool-cases x.writer.stop) [
          | inl stopped ↦
              if_so (λ y. Phase y true) x.writer.stop _ _ stopped
                (over refl (retire-IsGone collect identity attempt x.writer h))
          | inr goes_on ↦
              if_not (λ y. Phase y true) x.writer.stop _ _ goes_on
                (looping waiting
                  (round-IsAlive collect identity (unstopped collect health attempt) x.writer h))
        ])
  proceed-Phase health attempt x true (over ended h) =
      if_not (λ y. Phase y true) (is_active x) _ _ (ap₂ (λ b c. b && not c) h.running ended)
        (over ended h)

  -- What is left when `close` has returned: no task was ever created, or it has said farewell.
  abbrev pub IsClosed : Bool → Task F → Type 0
  IsClosed true x = (x.ended ≡ true) × IsGone collect identity x.writer
  IsClosed false x = IsUnstarted x

  pub IsClosed-Phase : (started : Bool) (x : Task F) → IsClosed started x → Phase x started
  IsClosed-Phase true x h = over h.0 h.1
  IsClosed-Phase false x h = unstarted h

  rest-IsAlive :
      {X : Type 0} (under_way : Option (Outcome X Bool × Attempt X F)) (w : RemoteWriter F)
      → IsAlive collect identity w
      → IsAlive collect identity (rest_of_round collect under_way w)
  rest-IsAlive none w h = h
  rest-IsAlive (some (health, attempt)) w h =
      round-IsAlive collect identity (unstopped collect health attempt) w h

  pub close_task-IsClosed :
      {X : Type 0} (under_way : Option (Outcome X Bool × Attempt X F)) (last : Attempt X F)
      (x : Task F) (started : Bool)
      → Phase x started
      → IsClosed started (close_task collect under_way last x)
  unfolding close_task
  close_task-IsClosed under_way last x false (unstarted h) =
      if_not IsUnstarted (is_active x) _ _ (ap (λ b. b && not x.ended) h.idle) (record {
        named = h.named;
        idle = h.idle;
        waiting = h.waiting;
        dead = h.dead;
        unhealthy = h.unhealthy;
        silent = h.silent;
      })
  close_task-IsClosed under_way last x true (looping waiting h) =
      if_so (IsClosed true) (is_active x) _ _ (ap₂ (λ b c. b && not c) h.running waiting) (
        refl,
        retire-IsGone collect identity last
            (rest_of_round collect under_way (record x.writer { stop = true }))
            (rest-IsAlive under_way (record x.writer { stop = true })
              (record { named = h.named; running = h.running; alive = h.alive; lived = h.lived })),
      )
  close_task-IsClosed under_way last x true (over ended h) =
      if_not (IsClosed true) (is_active x) _ _ (ap₂ (λ b c. b && not c) h.running ended) (
        ended,
        record {
          named = h.named;
          running = h.running;
          dead = h.dead;
          unhealthy = h.unhealthy;
          batches = h.batches;
        },
      )
