-- ===== src/Middleware/Setup.antt =====
-- `ObserverMiddleware.__init__` of src/vllm_observer/middleware.py: the hooks, the writer and the
-- filters, in the order in which they are made.
use vllm_observer.Base.{
  ◌≡◌, Bool, true, false, not, ◌&&◌, ◌||◌, Option, none, some, List, [], ◌∷◌, ◌++◌, arith,
  if◌then◌else◌, Bool-cases, inl, inr,
}
use vllm_observer.Base.Outcome.{Outcome, ret, raise}
use vllm_observer.RemoteWrite.Task.{Task}
use vllm_observer.RemoteWrite.Settings.{SettingError}
use vllm_observer.Exporter.Queue.{Exporter}
use vllm_observer.Bootstrap.Switches.{Environ, is_on}

-- The filters of the chain.
pub data Part : Type 0 where
  metrics console export other : Part

pub record Made (F E : Type 0) : Type 0 where
  pub writer : Option (Task F)
  pub exporter : Option (Exporter E)
  pub filters : List Part
  pub langfuse_unavailable : Bool

-- What the constructor raises: what the hooks raise, or what the writer raises.
pub data SetupError (H : Type 0) : Type 0 where
  of_hooks : H → SetupError H
  of_writer : SettingError → SetupError H

-- What the calls of the constructor give: `install()`, `RemoteWriter.from_env`, `AsyncExportFilter` with
-- its sink, and `attach_exporter`.
pub record Calls (H S F E : Type 0) : Type 0 where
  pub hooks : Outcome H (Unit {0})
  pub writer : Outcome SettingError (Task F)
  pub exporter : Outcome S (Exporter E)
  pub attached : Outcome S (Unit {0})

module _ {H S F E : Type 0} where
  -- The branch for Langfuse, with its handler.
  unfoldable pub add_exporter : Calls H S F E → Made F E → Made F E
  add_exporter calls m = elim calls.exporter [
    | raise _ ↦ record m { langfuse_unavailable = true }
    | ret x ↦ elim calls.attached [
      | raise _ ↦ record m { exporter = some x; langfuse_unavailable = true }
      | ret _ ↦ record m { exporter = some x; filters = m.filters ++ export ∷ [] }
    ]
  ]

  -- The filters, where `given` are the caller's.
  unfoldable pub make_filters :
      Environ → Option (List Part) → Calls H S F E → Option (Task F) → Made F E
  unfolding is_on add_exporter
  make_filters env (some filters) calls writer = record {
    writer = writer;
    exporter = none;
    filters = filters;
    langfuse_unavailable = false;
  }
  make_filters env none calls writer =
      let m : Made F E = record {
        writer = writer;
        exporter = none;
        filters = metrics ∷ console ∷ [];
        langfuse_unavailable = false;
      } in
      if is_on "OBSERVER_LANGFUSE_ENABLED" "0" env then add_exporter calls m else m

  unfoldable pub make_writer :
      Environ → Option (List Part) → Calls H S F E → Outcome (SetupError H) (Made F E)
  unfolding make_filters
  make_writer env given calls =
      if is_on "OBSERVER_PUSH_ENABLED" "1" env
      then elim calls.writer [
        | raise e ↦ raise (of_writer e)
        | ret x ↦ ret (make_filters env given calls (some x))
      ]
      else ret (make_filters env given calls none)

  -- The whole constructor.
  unfoldable pub make_middleware :
      Environ → Bool → Option (List Part) → Calls H S F E → Outcome (SetupError H) (Made F E)
  unfolding make_writer
  make_middleware env instrument given calls =
      if instrument && is_on "OBSERVER_ENGINE_ENABLED" "1" env
      then elim calls.hooks [ raise e ↦ raise (of_hooks e) | ret _ ↦ make_writer env given calls ]
      else make_writer env given calls

abbrev pub is_export : Part → Bool
is_export export = true
is_export _ = false

abbrev pub exports : List Part → Bool
exports [] = false
exports (part ∷ filters) = is_export part || exports filters

-- With Langfuse enabled and no filters given, the exporter is in the chain, or the metrics say that it
-- is not.
abbrev pub IsAnnounced : {H F E : Type 0} → Environ → Outcome (SetupError H) (Made F E) → Type 0
IsAnnounced env (raise e) = Unit
IsAnnounced env (ret m) =
    m.langfuse_unavailable ≡ (is_on "OBSERVER_LANGFUSE_ENABLED" "0" env && not (exports m.filters))

module _ {H S F E : Type 0} where
  make_filters-IsAnnounced :
      (env : Environ) (calls : Calls H S F E) (writer : Option (Task F))
      → IsAnnounced {H = H} env (ret (make_filters env none calls writer))
  unfolding make_filters add_exporter
  make_filters-IsAnnounced env calls writer = ground arith

  make_writer-IsAnnounced :
      (env : Environ) (calls : Calls H S F E) → IsAnnounced env (make_writer env none calls)
  unfolding make_writer
  make_writer-IsAnnounced env calls = elim (Bool-cases (is_on "OBSERVER_PUSH_ENABLED" "1" env)) [
    | inl pushes ↦ rw (pushes, make_writer) (by_writer calls.writer)
    | inr quiet ↦ rw (quiet, make_writer) (make_filters-IsAnnounced env calls none)
  ]
    where
      by_writer :
          (w : Outcome SettingError (Task F))
          → IsAnnounced env (elim w as (λ _. Outcome (SetupError H) (Made F E)) [
            | raise e ↦ raise (of_writer e)
            | ret x ↦ ret (make_filters env none calls (some x))
          ])
      by_writer (raise e) = tt
      by_writer (ret x) = make_filters-IsAnnounced env calls (some x)

  -- With no filters given, the constructor raises, or makes a middleware whose metrics say that
  -- Langfuse is unavailable exactly when it is enabled and the exporter is not in the chain.
  pub make_middleware-IsAnnounced :
      (env : Environ) (instrument : Bool) (calls : Calls H S F E)
      → IsAnnounced env (make_middleware env instrument none calls)
  unfolding make_middleware
  make_middleware-IsAnnounced env instrument calls =
      elim (Bool-cases (instrument && is_on "OBSERVER_ENGINE_ENABLED" "1" env)) [
        | inl hooked ↦ rw (hooked, make_middleware) (by_hooks calls.hooks)
        | inr unhooked ↦ rw (unhooked, make_middleware) (make_writer-IsAnnounced env calls)
      ]
    where
      by_hooks :
          (h : Outcome H (Unit {0}))
          → IsAnnounced env (elim h as (λ _. Outcome (SetupError H) (Made F E)) [
            | raise e ↦ raise (of_hooks e)
            | ret _ ↦ make_writer env none calls
          ])
      by_hooks (raise e) = tt
      by_hooks (ret x) = make_writer-IsAnnounced env calls
