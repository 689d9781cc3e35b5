-- ===== src/Bootstrap/Once.antt =====
-- Instrumenting a module of vLLM again, after `_instrument` of src/vllm_observer/bootstrap.py has run
-- for it.
use vllm_observer.Base.{
  ◌≡◌, refl, ap, ap₂, sym, subst, ◌∙◌, ◌≡⟨◌⟩◌, ◌∎, inl, inr, String, Bool, true, false, Bool-cases,
  str_eq, eq_iff, if◌then◌else◌,
}
use mathlib.Core.Path.{fun_ext}
use vllm_observer.Install.{
  Vllm, Patch, install_serving, install_protocol, install_input_processor, install_scheduler,
  install_deadline, install_engine_core, install_clock, install_async_llm, install_adapter, is_in,
}
use vllm_observer.Install.Once.{
  IsOnce, install_serving-IsOnce, install_protocol-IsOnce, install_input_processor-IsOnce,
  install_scheduler-IsOnce, install_deadline-IsOnce, install_async_llm-IsOnce,
  install_adapter-IsOnce,
}
use vllm_observer.Bootstrap.{
  core, engine, stats, input_processor, scheduler, serving_chat, serving_completion, protocol_chat,
  protocol_completion, apps, in_turn, skip, run_when, run_hooks, instrument_engine, Module,
  instrument,
}
use vllm_observer.Bootstrap.Switches.{Environ, is_on}
use vllm_observer.Bootstrap.App.{instrument_app, missing, original, observed, Builder}
use vllm_observer.Bootstrap.Pairs.{
  in_turn-IsOnce, in_turn-skip, install_scheduler-IsStable, install_async_llm-IsStable, skip-IsOnce,
  run_when-IsOnce, core_hooks-IsOnce,
}

-- What `run_hooks` comes to for a name.
data Runs (p : Patch) : Type 0 where
  runs : (q : Patch) → IsOnce q → ((v : Vllm) → p v ≡ q v) → Runs p

Runs-IsOnce : (p : Patch) → Runs p → IsOnce p
Runs-IsOnce p (runs q once same) v =
    p (p v).0
    ≡⟨ ap (λ r. p r.0) (same v) ⟩ p (q v).0
    ≡⟨ same (q v).0 ⟩ q (q v).0
    ≡⟨ once v ⟩ q v
    ≡⟨ sym (same v) ⟩ p v ∎

-- The names that `run_hooks` compares with.
abbrev IsOther : String → Type 0
IsOther name =
    (str_eq name core ≡ false)
    × (str_eq name engine ≡ false)
    × (str_eq name stats ≡ false)
    × (str_eq name input_processor ≡ false)
    × (str_eq name scheduler ≡ false)
    × (str_eq name serving_chat ≡ false)
    × (str_eq name serving_completion ≡ false)
    × (str_eq name protocol_chat ≡ false)
    × (str_eq name protocol_completion ≡ false)

by_name :
    (P : String → Type 0)
    → P core
    → P engine
    → P stats
    → P input_processor
    → P scheduler
    → P serving_chat
    → P serving_completion
    → P protocol_chat
    → P protocol_completion
    → ((name : String) → IsOther name → P name)
    → (name : String) → P name
by_name P a0 a1 a2 a3 a4 a5 a6 a7 a8 other name = elim (Bool-cases (str_eq name core)) [
  | inl same ↦ subst P (sym ((eq_iff name core).0 same)) a0
  | inr h0 ↦ elim (Bool-cases (str_eq name engine)) [
    | inl same ↦ subst P (sym ((eq_iff name engine).0 same)) a1
    | inr h1 ↦ elim (Bool-cases (str_eq name stats)) [
      | inl same ↦ subst P (sym ((eq_iff name stats).0 same)) a2
      | inr h2 ↦ elim (Bool-cases (str_eq name input_processor)) [
        | inl same ↦ subst P (sym ((eq_iff name input_processor).0 same)) a3
        | inr h3 ↦ elim (Bool-cases (str_eq name scheduler)) [
          | inl same ↦ subst P (sym ((eq_iff name scheduler).0 same)) a4
          | inr h4 ↦ elim (Bool-cases (str_eq name serving_chat)) [
            | inl same ↦ subst P (sym ((eq_iff name serving_chat).0 same)) a5
            | inr h5 ↦ elim (Bool-cases (str_eq name serving_completion)) [
              | inl same ↦ subst P (sym ((eq_iff name serving_completion).0 same)) a6
              | inr h6 ↦ elim (Bool-cases (str_eq name protocol_chat)) [
                | inl same ↦ subst P (sym ((eq_iff name protocol_chat).0 same)) a7
                | inr h7 ↦ elim (Bool-cases (str_eq name protocol_completion)) [
                  | inl same ↦ subst P (sym ((eq_iff name protocol_completion).0 same)) a8
                  | inr h8 ↦ other name (h0, h1, h2, h3, h4, h5, h6, h7, h8)
                ]
              ]
            ]
          ]
        ]
      ]
    ]
  ]
]

module _ (env : Environ) (loaded : Bool) where
  run_hooks_other :
      (name : String) → IsOther name → (v : Vllm) → run_hooks env loaded name v ≡ (v, false)
  unfolding run_hooks in_turn
  run_hooks_other name (h0, h1, h2, h3, h4, h5, h6, h7, h8) v =
      rw h0 (rw h1 (rw h2 (rw h3 (rw h4 (rw h5 (rw h6 (rw h7 (rw h8 refl))))))))

  adapter_hooks-IsOnce : IsOnce (run_when loaded (in_turn install_async_llm install_adapter))
  adapter_hooks-IsOnce = run_when-IsOnce loaded (in_turn install_async_llm install_adapter) (
      in_turn-IsOnce install_async_llm install_adapter install_async_llm-IsOnce
        install_adapter-IsOnce install_async_llm-IsStable)

  core_row : IsOnce (run_hooks env loaded core)
  unfolding run_hooks
  core_row =
      let langfuse = is_on "OBSERVER_LANGFUSE_ENABLED" "0" env in
      Runs-IsOnce (run_hooks env loaded core) (
        runs (in_turn install_engine_core (run_when langfuse install_clock))
          (core_hooks-IsOnce langfuse)
          (λ v.
            ap (λ q. in_turn install_engine_core q v)
              (fun_ext (in_turn-skip (run_when langfuse install_clock)))))

  engine_row : IsOnce (run_hooks env loaded engine)
  unfolding run_hooks
  engine_row = Runs-IsOnce (run_hooks env loaded engine) (
      runs (run_when loaded (in_turn install_async_llm install_adapter)) adapter_hooks-IsOnce
        (λ v. refl))

  stats_row : IsOnce (run_hooks env loaded stats)
  unfolding run_hooks
  stats_row = Runs-IsOnce (run_hooks env loaded stats) (
      runs (run_when loaded (in_turn install_async_llm install_adapter)) adapter_hooks-IsOnce
        (λ v. refl))

  scheduler_row : IsOnce (run_hooks env loaded scheduler)
  unfolding run_hooks
  scheduler_row =
      let both = in_turn install_scheduler install_deadline in
      Runs-IsOnce (run_hooks env loaded scheduler) (
        runs both
          (in_turn-IsOnce install_scheduler install_deadline install_scheduler-IsOnce
            install_deadline-IsOnce install_scheduler-IsStable)
          (in_turn-skip both))

  -- A row with one hook, in front of which all conditions compute to false.
  one_hook : (p q : Patch) → IsOnce q → ((v : Vllm) → p v ≡ in_turn q skip v) → IsOnce p
  one_hook p q once same = Runs-IsOnce p (runs q once (λ v. same v ∙ in_turn-skip q v))

  input_row : IsOnce (run_hooks env loaded input_processor)
  unfolding run_hooks
  input_row =
      one_hook (run_hooks env loaded input_processor) install_input_processor
        install_input_processor-IsOnce (λ v. refl)

  serving_rows :
      IsOnce (run_hooks env loaded serving_chat) × IsOnce (run_hooks env loaded serving_completion)
  unfolding run_hooks
  serving_rows = (
    one_hook (run_hooks env loaded serving_chat) install_serving install_serving-IsOnce (λ v. refl),
    one_hook (run_hooks env loaded serving_completion) install_serving install_serving-IsOnce
        (λ v. refl),
  )

  protocol_rows :
      IsOnce (run_hooks env loaded protocol_chat)
      × IsOnce (run_hooks env loaded protocol_completion)
  unfolding run_hooks
  protocol_rows = (
    one_hook (run_hooks env loaded protocol_chat) install_protocol install_protocol-IsOnce
        (λ v. refl),
    one_hook (run_hooks env loaded protocol_completion) install_protocol install_protocol-IsOnce
        (λ v. refl),
  )

  run_hooks-IsOnce : (name : String) → IsOnce (run_hooks env loaded name)
  run_hooks-IsOnce =
      by_name (λ name. IsOnce (run_hooks env loaded name)) core_row engine_row stats_row input_row
        scheduler_row serving_rows.0 serving_rows.1 protocol_rows.0 protocol_rows.1
        (λ name other.
          Runs-IsOnce (run_hooks env loaded name)
            (runs skip skip-IsOnce (run_hooks_other name other)))

  instrument_engine-IsOnce : (name : String) → IsOnce (instrument_engine env loaded name)
  unfolding instrument_engine
  instrument_engine-IsOnce name =
      run_when-IsOnce (is_on "OBSERVER_ENGINE_ENABLED" "1" env) (run_hooks env loaded name)
        (run_hooks-IsOnce name)

module _ {E A Args : Type 0} where
  instrument_app_once :
      (b : Builder E A Args) → instrument_app (instrument_app b) ≡ instrument_app b
  unfolding instrument_app
  instrument_app_once missing = refl
  instrument_app_once (original build) = refl
  instrument_app_once (observed build) = refl

  app_once :
      (app : Bool) (b : Builder E A Args)
      → let b' = if app then instrument_app b else b in (if app then instrument_app b' else b') ≡ b'
  app_once true b = instrument_app_once b
  app_once false b = refl

  -- Instrumenting a module of any name a second time, in the same environment, changes nothing, be it
  -- that all hooks of the module took or that one of them failed: no method and no `build_app` is wrapped twice.
  pub instrument_once :
      (env : Environ) (loaded : Bool) (m : Module E A Args) (v : Vllm)
      → let (m', v') = instrument env loaded m v in instrument env loaded m' v' ≡ (m', v')
  unfolding instrument
  instrument_once env loaded m v =
      ap₂ (λ b w. (record m { builder = b }, w)) (app_once (is_in m.name apps) m.builder)
        (ap (λ r. r.0) (instrument_engine-IsOnce env loaded m.name v))
