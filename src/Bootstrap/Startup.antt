-- ===== src/Bootstrap/Startup.antt =====
-- A start of the application through the `build_app` that src/vllm_observer/bootstrap.py wraps.
use vllm_observer.Base.{
  ℕ, zero, suc, ◌+◌, ◌≤◌, max, ◌≡◌, ◌≢◌, ◌⊎◌, inl, inr, refl, ap, true, false, Option, none, some,
  List, [], ◌∷◌, if◌then◌else◌, arith, Bool-cases,
}
use vllm_observer.Base.Outcome.{Outcome, ret, raise, Outcome-cases}
use vllm_observer.Bootstrap.Switches.{Environ, is_on}
use vllm_observer.Bootstrap.App.{
  Framework, Builder, original, observed, Asgi, direct, wrapped, AddError, already_started,
  other_error, Cls, is_observer, any_observer, optional_cls, instrument_app, observe_app,
  at_configured, build_app, at_added,
}

abbrev pub count_observers : List Cls → ℕ
count_observers [] = 0
count_observers (c ∷ cs) = (if is_observer c then 1 else 0) + count_observers cs

abbrev pub count_in : Option (List Cls) → ℕ
count_in none = 0
count_in (some cs) = count_observers cs

any_observer_count : (cs : List Cls) → any_observer cs ≡ false → count_observers cs ≡ 0
any_observer_count [] h = refl
any_observer_count (c ∷ cs) h = ground (arith, any_observer_count cs)

count_any_observer : (cs : List Cls) → any_observer cs ≡ true → 1 ≤ count_observers cs
count_any_observer [] h = cc
count_any_observer (c ∷ cs) h = ground (arith, count_any_observer cs)

-- `_instrument_app`, run n + 1 times.
abbrev pub instrument_times : {E A Args : Type 0} → ℕ → Builder E A Args → Builder E A Args
instrument_times zero b = instrument_app b
instrument_times (suc n) b = instrument_app (instrument_times n b)

instrument_times_observed :
    {E A Args : Type 0} (n : ℕ) (build : Args → Outcome E A)
    → instrument_times n (original build) ≡ observed build
unfolding instrument_app
instrument_times_observed zero build = refl
instrument_times_observed (suc n) build = ap instrument_app (instrument_times_observed n build)

module _ {A : Type 0} (f : Framework A) where
  -- How many observers a request to the application passes.
  abbrev pub observers : Asgi A → ℕ
  observers (direct a) = count_in (f.user_middleware a)
  observers (wrapped a) = suc (count_in (f.user_middleware a))

  -- What the caller of `build_app` may get: the application that vLLM built, that application
  -- behind the fallback, or what the framework made of it when it was given the observer.
  abbrev pub Delivers : A → Asgi A → Type 0
  Delivers a x =
      (x ≡ direct a)
      ⊎ (x ≡ wrapped a)
      ⊎ ((b : A) × (f.add_middleware optional_cls a ≡ ret b) × (x ≡ direct b))

  at_configured-Delivers : (a : A) (cs : Option (List Cls)) → Delivers a (at_configured f a cs)
  unfolding at_configured
  at_configured-Delivers a none = inl refl
  at_configured-Delivers a (some cs) = elim (Bool-cases (any_observer cs)) [
    | inl there ↦ rw there (inl refl)
    | inr absent ↦ elim (Outcome-cases (f.add_middleware optional_cls a)) [
      | inl (b, e) ↦ rw absent (rw e (inr (inr (b, refl, refl))))
      | inr (already_started, e) ↦ rw absent (rw e (inr (inl refl)))
      | inr (other_error, e) ↦ rw absent (rw e (inl refl))
    ]
  ]

  observe_app-Delivers : (env : Environ) (a : A) → Delivers a (observe_app f env a)
  unfolding observe_app
  observe_app-Delivers env a = elim (Bool-cases (is_on "OBSERVER_HTTP_ENABLED" "1" env)) [
    | inl enabled ↦ rw enabled (at_configured-Delivers a (f.user_middleware a))
    | inr disabled ↦ rw disabled (inl refl)
  ]

  Bounds : List Cls → Asgi A → Type 0
  Bounds cs x = (1 ≤ observers x) × (observers x ≤ max 1 (count_observers cs))

  at_added-Bounds :
      (a : A) (cs : List Cls) (o : Outcome AddError A)
      → f.user_middleware a ≡ some cs
      → any_observer cs ≡ false
      → f.add_middleware optional_cls a ≡ o
      → o ≢ raise other_error
      → Bounds cs (at_added f a o)
  unfolding Bounds
  at_added-Bounds a cs (ret b) h absent added ne =
      rw (f.user_middleware-add optional_cls a b cs h added)
        (omega (arith, any_observer_count cs absent))
  at_added-Bounds a cs (raise already_started) h absent added ne =
      rw h (omega (arith, any_observer_count cs absent))
  at_added-Bounds a cs (raise other_error) h absent added ne = absurd (ne refl)

  module _ {E Args : Type 0} where
    -- When HTTP observation is on, vLLM's `build_app` returns an application whose middleware can
    -- be read, and the framework does not refuse the observer for another reason than that the
    -- application has started, then `build_app`, instrumented once or more often, returns an
    -- application in which a request passes at least one observer, and no more than one, or than vLLM's own configuration has.
    pub build_app_observed :
        (n : ℕ) (env : Environ) (build : Args → Outcome E A) (args : Args) (a : A) (cs : List Cls)
        → is_on "OBSERVER_HTTP_ENABLED" "1" env ≡ true
        → build args ≡ ret a
        → f.user_middleware a ≡ some cs
        → f.add_middleware optional_cls a ≢ raise other_error
        → (x : Asgi A) × (build_app f env (instrument_times n (original build)) args ≡ some (ret x))
          × (1 ≤ observers x)
          × (observers x ≤ max 1 (count_observers cs))
    unfolding build_app observe_app at_configured Bounds
    build_app_observed n env build args a cs enabled built h ne =
        rw (instrument_times_observed n build) (
          rw built (elim (Bool-cases (any_observer cs)) [
            | inl there ↦ (
              direct a,
              rw enabled (rw h (rw there refl)),
              rw h (count_any_observer cs there),
              rw h (omega arith),
            )
            | inr absent ↦
                let (low, high) =
                  at_added-Bounds a cs (f.add_middleware optional_cls a) h absent refl ne in
                (
                  at_added f a (f.add_middleware optional_cls a),
                  rw enabled (rw h (rw absent refl)),
                  low,
                  high,
                )
          ]))

    -- An exception of vLLM's `build_app` reaches the caller of the instrumented one; otherwise the
    -- caller gets the application that vLLM built, bare, behind the fallback, or with the observer
    -- added by the framework: no failure of the observer's own is raised.
    pub build_app_isolated :
        (n : ℕ) (env : Environ) (build : Args → Outcome E A) (args : Args)
        → ((e : E) × (build args ≡ raise e)
            × (build_app f env (instrument_times n (original build)) args ≡ some (raise e)))
          ⊎ ((a : A) × (x : Asgi A) × (build args ≡ ret a)
              × (build_app f env (instrument_times n (original build)) args ≡ some (ret x))
              × Delivers a x)
    unfolding build_app
    build_app_isolated n env build args = elim (Outcome-cases (build args)) [
      | inl (a, built) ↦ inr (
        a,
        observe_app f env a,
        built,
        rw (instrument_times_observed n build) (rw built refl),
        observe_app-Delivers env a,
      )
      | inr (e, failed) ↦ inl (e, failed, rw (instrument_times_observed n build) (rw failed refl))
    ]
