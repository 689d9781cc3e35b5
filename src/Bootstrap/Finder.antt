-- ===== src/Bootstrap/Finder.antt =====
-- The import hook of src/vllm_observer/bootstrap.py: `_ObserverFinder`, `_ObserverLoader` and
-- `install`, and the loop over `sys.meta_path` in which Python asks the finders.
pub mod Resolution
use vllm_observer.Base.{
  String, Bool, true, false, not, ◌&&◌, ◌||◌, Option, none, some, List, [], ◌∷◌, if◌then◌else◌,
}
use vllm_observer.Base.Dict.{Dict, lookup, insert}
use vllm_observer.Base.Outcome.{Outcome, ret, raise}
use vllm_observer.Install.{Vllm, is_in}
use vllm_observer.Bootstrap.Switches.{Environ, is_on}
use vllm_observer.Bootstrap.App.{Builder}
use vllm_observer.Bootstrap.{targets, engine, stats, Module, instrument}

-- A loader of Python's own, which may have `exec_module`, or `_ObserverLoader` around one.
pub data Loader : Type 0 where
  own : Bool → Loader
  observing : Loader → Loader

pub record Spec : Type 0 where
  pub origin : String
  pub loader : Option Loader

-- An entry of `sys.meta_path`. `find_spec` returns a spec or None, or raises; a finder without the
-- method is one that always returns None.
pub data Finder (E : Type 0) : Type 0 where
  observer : Finder E
  other : (String → Outcome E (Option Spec)) → Finder E

abbrev pub has_exec : Loader → Bool
has_exec (own b) = b
has_exec (observing l) = true

abbrev pub wrap_loader : Option Loader → Option Loader
wrap_loader none = none
wrap_loader (some l) = if has_exec l then some (observing l) else some l

abbrev pub wrap_spec : Spec → Spec
wrap_spec s = record s { loader = wrap_loader s.loader }

module _ {E : Type 0} where
  -- The loop of `find_spec` over the other finders.
  unfoldable pub first_spec : String → List (Finder E) → Outcome E (Option Spec)
  first_spec name [] = ret none
  first_spec name (observer ∷ finders) = first_spec name finders
  first_spec name (other find ∷ finders) = elim (find name) [
    | raise e ↦ raise e
    | ret none ↦ first_spec name finders
    | ret (some s) ↦ ret (some (wrap_spec s))
  ]

  -- `_ObserverFinder.find_spec`, on `sys.meta_path`
  unfoldable pub find_spec : List (Finder E) → String → Outcome E (Option Spec)
  unfolding first_spec
  find_spec meta_path name = if is_in name targets then first_spec name meta_path else ret none

  -- What `import` makes of the finders that are left, while `sys.meta_path` is `meta_path`.
  unfoldable pub resolve : List (Finder E) → String → List (Finder E) → Outcome E (Option Spec)
  unfolding find_spec
  resolve meta_path name [] = ret none
  resolve meta_path name (observer ∷ finders) = elim (find_spec meta_path name) [
    | raise e ↦ raise e
    | ret none ↦ resolve meta_path name finders
    | ret (some s) ↦ ret (some s)
  ]
  resolve meta_path name (other find ∷ finders) = elim (find name) [
    | raise e ↦ raise e
    | ret none ↦ resolve meta_path name finders
    | ret (some s) ↦ ret (some s)
  ]

  abbrev pub has_observer : List (Finder E) → Bool
  has_observer [] = false
  has_observer (observer ∷ finders) = true
  has_observer (other find ∷ finders) = has_observer finders

  -- The second statement of `install`.
  unfoldable pub register : List (Finder E) → List (Finder E)
  register meta_path = if has_observer meta_path then meta_path else observer ∷ meta_path

-- An entry of `sys.modules`: whether its import is still running, and whether it has the class
-- that the adapter looks for in it.
pub record Loaded (E A Args : Type 0) : Type 0 where
  pub module_ : Module E A Args
  pub initializing : Bool
  pub has_class : Bool

pub record Process (E A Args : Type 0) : Type 0 where
  pub meta_path : List (Finder E)
  pub modules : Dict (Loaded E A Args)
  pub vllm : Vllm

module _ {E A Args : Type 0} where
  abbrev pub class_at : String → Dict (Loaded E A Args) → Bool
  class_at name modules = elim (lookup name modules) [ none ↦ false | some l ↦ l.has_class ]

  -- One round of the loop of `install`.
  unfoldable pub instrument_target : Environ → Process E A Args → String → Process E A Args
  unfolding instrument
  instrument_target env p name = elim (lookup name p.modules) [
    | none ↦ p
    | some l ↦
        if l.initializing
        then p
        else (let loaded = class_at engine p.modules && class_at stats p.modules in
            let (m, v) = instrument env loaded l.module_ p.vllm in
            record p { modules = insert name (record l { module_ = m }) p.modules; vllm = v })
  ]

  unfoldable pub instrument_targets : Environ → Process E A Args → List String → Process E A Args
  unfolding instrument_target
  instrument_targets env p [] = p
  instrument_targets env p (name ∷ names) =
      instrument_targets env (instrument_target env p name) names

  -- `install`, on the targets in some order, and what it returns.
  unfoldable pub install : Environ → List String → Process E A Args → Process E A Args × Bool
  unfolding is_on register instrument_targets
  install env order p =
      if is_on "OBSERVER_ENABLED" "0" env
      then (instrument_targets env (record p { meta_path = register p.meta_path }) order, true)
      else (p, false)
