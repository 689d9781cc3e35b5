-- ===== src/Middleware/Lifespan/Live.antt =====
-- The writer and the exporter of src/vllm_observer/middleware.py while the application runs.
use vllm_observer.Base.{
  ℕ, ◌+◌, ◌*◌, ◌≤◌, ◌≡◌, refl, sym, ◌∙◌, subst, String, Bool, true, false, ◌||◌, Option, none, some,
  List, [], ◌∷◌, ◌++◌, arith,
}
use mathlib.Core.List.{append-nil, append_assoc}
use vllm_observer.Base.Dict.{Dict}
use vllm_observer.RemoteWrite.Series.{Sample}
use vllm_observer.RemoteWrite.{Gauges}
use vllm_observer.RemoteWrite.Task.{Task, proceed}
use vllm_observer.RemoteWrite.Task.Phases.{
  Phase, IsClosed-Phase, start_task-Phase, proceed-Phase, close_task-IsClosed,
}
use vllm_observer.Exporter.Queue.Interleaving.{Run, Reach}
use vllm_observer.Exporter.Queue.Closing.{
  Act, run_act, close_run, exports_in, IsDrained, run_act-Reach, run_act-capacity,
  close_run-IsDrained,
}
use vllm_observer.Middleware.Lifespan.{
  Lifecycle, startup_complete, startup_failed, shutdown_complete, shutdown_failed, Process, Closing,
  Happening, sends, pushes, acts, on_some, on_message, happen, happen_all, health_check,
}

-- What holds of the component after, if there was one before.
pub data OnSome {A : Type 0} (P : A → Type 0) : Option A → Option A → Type 0 where
  nothing : OnSome P none none
  just : (x y : A) → P y → OnSome P (some x) (some y)

module _ {E : Type 0} where
  -- An exporter of this capacity, after any interleaving of its threads.
  abbrev pub IsRunning : ℕ → Run E → Type 0
  IsRunning capacity r = Reach r × (r.exporter.capacity ≡ capacity)

  run_act-IsRunning :
      (capacity : ℕ) (act : Act E) (r : Run E)
      → IsRunning capacity r
      → IsRunning capacity (run_act act r)
  run_act-IsRunning capacity act r h = (run_act-Reach act r h.0, run_act-capacity act r ∙ h.1)

  pub close_running :
      (capacity : ℕ) (meanwhile : List (Act E)) (r : Run E)
      → 3 * capacity + 5 ≤ exports_in meanwhile
      → IsRunning capacity r
      → IsDrained (close_run meanwhile r)
  close_running capacity meanwhile r fits h =
      close_run-IsDrained meanwhile r h.0 (omega (arith, fits, h.1))

module _ {X F E : Type 0} where
  abbrev pub messages_of : List (Happening X F E) → List Lifecycle
  messages_of [] = []
  messages_of (sends message closing ∷ happenings) = message ∷ messages_of happenings
  messages_of (_ ∷ happenings) = messages_of happenings

abbrev pub is_startup : Lifecycle → Bool
is_startup startup_complete = true
is_startup _ = false

-- Whether the application has told that its start-up is complete.
abbrev pub is_started : List Lifecycle → Bool
is_started [] = false
is_started (message ∷ messages) = is_startup message || is_started messages

module _ {X F E : Type 0} where
  abbrev starts : Happening X F E → Bool
  starts (sends message closing) = is_startup message
  starts _ = false

  later :
      (h : Happening X F E) (happenings : List (Happening X F E)) (started : Bool)
      → (is_started (messages_of happenings) || (starts h || started))
        ≡ (is_started (messages_of (h ∷ happenings)) || started)
  later (sends message closing) happenings started = ground arith
  later (pushes health attempt) happenings started = refl
  later (acts act) happenings started = refl

module _ {F : Type 0} (collect : Gauges F → List (Sample F)) (identity : Dict String) where
  on_message-Phase :
      {X : Type 0} (message : Lifecycle) (closing : Closing X F) (started : Bool) (x : Task F)
      → Phase collect identity x started
      → Phase collect identity
          (on_message collect message closing x)
          (is_startup message || started)
  unfolding on_message
  on_message-Phase startup_complete closing started x h =
      start_task-Phase collect identity x started h
  on_message-Phase startup_failed closing started x h = h
  on_message-Phase shutdown_complete closing started x h =
      IsClosed-Phase collect identity started _
        (close_task-IsClosed collect identity closing.under_way closing.last x started h)
  on_message-Phase shutdown_failed closing started x h = h

pub or_false : (b : Bool) → (b || false) ≡ b
or_false true = refl
or_false false = refl

pub OnSome-mono :
    {A : Type 0} (P Q : A → Type 0) (a b : Option A)
    → ((x : A) → P x → Q x)
    → OnSome P a b
    → OnSome Q a b
OnSome-mono P Q a b f nothing = nothing
OnSome-mono P Q a b f (just x y p) = just x y (f y p)

pub OnSome-on_some :
    {A : Type 0} (P Q : A → Type 0) (h : A → A) (a b : Option A)
    → ((x : A) → P x → Q (h x))
    → OnSome P a b
    → OnSome Q a (on_some h b)
OnSome-on_some P Q h a b f nothing = nothing
OnSome-on_some P Q h a b f (just x y p) = just x (h y) (f y p)

module _ {F E : Type 0} (collect : Gauges F → List (Sample F)) (identity : Dict String)
    (capacity : ℕ) where
  -- The writer and the exporter while the application runs.
  pub record IsLive (started : Bool) (before p : Process F E) : Type 0 where
    pub writer : OnSome (λ x. Phase collect identity x started) before.writer p.writer
    pub exporter : OnSome (IsRunning capacity) before.exporter p.exporter

  happen-IsLive :
      {X : Type 0} (h : Happening X F E) (started : Bool) (before p : Process F E)
      → IsLive started before p
      → IsLive (starts h || started) before (happen collect h p)
  unfolding happen
  happen-IsLive (sends message closing) started before p k = record {
    writer =
        OnSome-on_some _ _ (on_message collect message closing) _ _
          (λ x. on_message-Phase collect identity message closing started x) k.writer;
    exporter = k.exporter;
  }
  happen-IsLive (pushes health attempt) started before p k = record {
    writer =
        OnSome-on_some _ _ (proceed collect (health_check health) attempt) _ _
          (λ x. proceed-Phase collect identity (health_check health) attempt x started) k.writer;
    exporter = k.exporter;
  }
  happen-IsLive (acts act) started before p k = record {
    writer = k.writer;
    exporter = OnSome-on_some _ _ (run_act act) _ _ (run_act-IsRunning capacity act) k.exporter;
  }

  pub happen_all-IsLive :
      {X : Type 0} (happenings : List (Happening X F E)) (started : Bool) (before p : Process F E)
      → IsLive started before p
      → IsLive
          (is_started (messages_of happenings) || started)
          before
          (happen_all collect happenings p)
  unfolding happen_all
  happen_all-IsLive [] started before p k = k
  happen_all-IsLive (h ∷ happenings) started before p k =
      subst (λ b. IsLive b before (happen_all collect happenings (happen collect h p)))
        (later h happenings started)
        (happen_all-IsLive happenings (starts h || started) before (happen collect h p)
          (happen-IsLive h started before p k))

  pub happen_all-sent :
      {X : Type 0} (happenings : List (Happening X F E)) (p : Process F E)
      → (happen_all collect happenings p).sent ≡ p.sent ++ messages_of happenings
  unfolding happen_all happen
  happen_all-sent [] p = sym (append-nil p.sent)
  happen_all-sent (sends message closing ∷ happenings) p =
      happen_all-sent happenings _ ∙ append_assoc p.sent (message ∷ []) (messages_of happenings)
  happen_all-sent (pushes health attempt ∷ happenings) p = happen_all-sent happenings _
  happen_all-sent (acts act ∷ happenings) p = happen_all-sent happenings _
