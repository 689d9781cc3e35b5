-- ===== src/Bootstrap/Finder/Resolution.antt =====
-- What the import hook changes in how Python finds a module.
use vllm_observer.Base.{
  ◌≡◌, refl, ◌∙◌, inl, inr, String, true, false, Option, none, some, List, [], ◌∷◌, if◌then◌else◌,
  arith, Bool-cases, Option-cases, ◌&&◌,
}
use mathlib.Core.Option
use vllm_observer.Base.Dict.{lookup}
use vllm_observer.Base.Outcome.{Outcome, ret, raise}
use vllm_observer.Install.{is_in}
use vllm_observer.Bootstrap.Switches.{Environ, is_on}
use vllm_observer.Bootstrap.{targets}
use vllm_observer.Bootstrap.Finder.{
  Spec, Finder, observer, other, wrap_spec, first_spec, find_spec, resolve, has_observer, register,
  Process, instrument_target, instrument_targets, install,
}

abbrev pub map_spec :
    {E : Type 0} → (Spec → Spec) → Outcome E (Option Spec) → Outcome E (Option Spec)
map_spec g (raise e) = raise e
map_spec g (ret o) = ret (Option.map g o)

module _ {E : Type 0} where
  -- Without an observer, the path that the finders see does not matter.
  resolve_plain :
      (p q : List (Finder E)) (name : String) (finders : List (Finder E))
      → has_observer finders ≡ false
      → resolve p name finders ≡ resolve q name finders
  unfolding resolve
  resolve_plain p q name [] h = refl
  resolve_plain p q name (observer ∷ finders) h = cc
  resolve_plain p q name (other find ∷ finders) h =
      elim (find name)
        as (λ o.
          elim o [
            | raise e ↦ raise e
            | ret none ↦ resolve p name finders
            | ret (some s) ↦ ret (some s)
          ]
          ≡ elim o [
            | raise e ↦ raise e
            | ret none ↦ resolve q name finders
            | ret (some s) ↦ ret (some s)
          ]) [ raise e ↦ refl | ret none ↦ resolve_plain p q name finders h | ret (some s) ↦ refl ]

  first_spec-eq-resolve :
      (p : List (Finder E)) (name : String) (finders : List (Finder E))
      → has_observer finders ≡ false
      → first_spec name finders ≡ map_spec wrap_spec (resolve p name finders)
  unfolding first_spec resolve
  first_spec-eq-resolve p name [] h = refl
  first_spec-eq-resolve p name (observer ∷ finders) h = cc
  first_spec-eq-resolve p name (other find ∷ finders) h =
      ground (arith, first_spec-eq-resolve p name finders)

  resolve_target :
      (path : List (Finder E)) (name : String)
      → has_observer path ≡ false
      → is_in name targets ≡ true
      → resolve (observer ∷ path) name (observer ∷ path)
        ≡ map_spec wrap_spec (resolve path name path)
  unfolding resolve find_spec first_spec
  resolve_target path name h t =
      rw (t, resolve)
        (ground (
          arith,
          first_spec-eq-resolve path name path h,
          resolve_plain (observer ∷ path) path name path h,
        ))

  resolve_other :
      (path : List (Finder E)) (name : String)
      → has_observer path ≡ false
      → is_in name targets ≡ false
      → resolve (observer ∷ path) name (observer ∷ path) ≡ resolve path name path
  unfolding resolve find_spec
  resolve_other path name h t = rw (t, resolve) (resolve_plain (observer ∷ path) path name path h)

  resolve-register :
      (path : List (Finder E)) (name : String)
      → has_observer path ≡ false
      → resolve (register path) name (register path) ≡ (
          if is_in name targets
          then map_spec wrap_spec (resolve path name path)
          else resolve path name path)
  unfolding register
  resolve-register path name h = rw h elim (Bool-cases (is_in name targets)) [
    | inl target ↦ rw target (resolve_target path name h target)
    | inr foreign ↦ rw foreign (resolve_other path name h foreign)
  ]

  register_new :
      (path : List (Finder E)) → has_observer path ≡ false → register path ≡ observer ∷ path
  unfolding register
  register_new path h = rw h refl

  register_once : (path : List (Finder E)) → register (register path) ≡ register path
  unfolding register
  register_once path = ground arith

module _ {E A Args : Type 0} where
  -- The calls of `install`, each with the order in which it goes through the targets.
  abbrev pub installs : Environ → List (List String) → Process E A Args → Process E A Args
  installs env [] p = p
  installs env (order ∷ orders) p = installs env orders (install env order p).0

  meta_path-instrument_target :
      (env : Environ) (p : Process E A Args) (name : String)
      → (instrument_target env p name).meta_path ≡ p.meta_path
  unfolding instrument_target
  meta_path-instrument_target env p name = elim (Option-cases (lookup name p.modules)) [
    | inl absent ↦ rw (absent, instrument_target) refl
    | inr (l, present) ↦ elim (Bool-cases l.initializing) [
      | inl running ↦ rw (present, instrument_target) (rw running refl)
      | inr done ↦ rw (present, instrument_target) (rw done refl)
    ]
  ]

  meta_path-instrument_targets :
      (env : Environ) (p : Process E A Args) (names : List String)
      → (instrument_targets env p names).meta_path ≡ p.meta_path
  unfolding instrument_targets
  meta_path-instrument_targets env p [] = refl
  meta_path-instrument_targets env p (name ∷ names) =
      meta_path-instrument_targets env (instrument_target env p name) names
      ∙ meta_path-instrument_target env p name

  meta_path-install :
      (env : Environ) (order : List String) (p : Process E A Args)
      → (install env order p).0.meta_path
        ≡ (if is_on "OBSERVER_ENABLED" "0" env then register p.meta_path else p.meta_path)
  unfolding install
  meta_path-install env order p = elim (Bool-cases (is_on "OBSERVER_ENABLED" "0" env)) [
    | inl enabled ↦
        rw enabled
          (meta_path-instrument_targets env (record p { meta_path = register p.meta_path }) order)
    | inr disabled ↦ rw disabled refl
  ]

  meta_path-installs :
      (env : Environ) (order : List String) (orders : List (List String)) (p : Process E A Args)
      → (installs env (order ∷ orders) p).meta_path
        ≡ (if is_on "OBSERVER_ENABLED" "0" env then register p.meta_path else p.meta_path)
  meta_path-installs env order [] p = meta_path-install env order p
  meta_path-installs env order (next ∷ orders) p =
      meta_path-installs env next orders (install env order p).0
      ∙ ground (arith, meta_path-install env order p, register_once p.meta_path)

  -- After one or more calls of `install` on a process whose `sys.meta_path` has no observer yet, one
  -- observer stands first in it if the observer is enabled, and none otherwise. `import` finds
  -- every module where it found it before, and raises what it raised before; only the loader of a
  -- target is another, namely the observer's around the one that was found, and that only if the
  -- observer is enabled.
  pub install_transparent :
      (env : Environ) (order : List String) (orders : List (List String)) (p : Process E A Args)
      (name : String)
      → has_observer p.meta_path ≡ false
      → let path = (installs env (order ∷ orders) p).meta_path in
        (path ≡ (if is_on "OBSERVER_ENABLED" "0" env then observer ∷ p.meta_path else p.meta_path))
        × (resolve path name path ≡ (
            if is_on "OBSERVER_ENABLED" "0" env && is_in name targets
            then map_spec wrap_spec (resolve p.meta_path name p.meta_path)
            else resolve p.meta_path name p.meta_path))
  install_transparent env order orders p name h =
      elim (Bool-cases (is_on "OBSERVER_ENABLED" "0" env)) [
        | inl enabled ↦
            rw (meta_path-installs env order orders p)
              (rw enabled (register_new p.meta_path h, resolve-register p.meta_path name h))
        | inr disabled ↦ rw (meta_path-installs env order orders p) (rw disabled (refl, refl))
      ]
