-- ===== src/Bootstrap/App.antt =====
-- `_instrument_app` of src/vllm_observer/bootstrap.py: the wrapper of `build_app`, which puts the
-- observer around the application. The application framework is a parameter.
use vllm_observer.Base.{
  ◌≡◌, String, Bool, true, false, ◌&&◌, ◌||◌, Option, none, some, List, [], ◌∷◌, if◌then◌else◌,
  str_eq,
}
use vllm_observer.Base.Outcome.{Outcome, ret, raise}
use vllm_observer.Bootstrap.Switches.{Environ, is_on}

-- A class of `app.user_middleware`: its mark, its module and its name.
pub record Cls : Type 0 where
  pub observer_middleware : Bool
  pub module_name : String
  pub name : String

-- `OptionalObserverMiddleware`
abbrev pub optional_cls : Cls
optional_cls = record {
  observer_middleware = true;
  module_name = "vllm_observer.bootstrap";
  name = "OptionalObserverMiddleware";
}

-- How `add_middleware` can fail: with `RuntimeError`, or otherwise.
pub data AddError : Type 0 where
  already_started other_error : AddError

-- Starlette: `user_middleware` is none where it cannot be read; a class that was added stands first.
pub record Framework (A : Type 0) : Type 0 where
  pub user_middleware : A → Option (List Cls)
  pub add_middleware : Cls → A → Outcome AddError A
  pub user_middleware-add :
      (c : Cls) (a b : A) (cs : List Cls)
      → user_middleware a ≡ some cs
      → add_middleware c a ≡ ret b
      → user_middleware b ≡ some (c ∷ cs)

-- What `build_app` returns: the application, or `_WrappedASGIApp` around it.
pub data Asgi (A : Type 0) : Type 0 where
  direct : A → Asgi A
  wrapped : A → Asgi A

-- The attribute `build_app` of a module: missing, vLLM's own function, or the wrapper around it,
-- which is marked.
pub data Builder (E A Args : Type 0) : Type 0 where
  missing : Builder E A Args
  original : (Args → Outcome E A) → Builder E A Args
  observed : (Args → Outcome E A) → Builder E A Args

-- The test of `configured`.
abbrev pub is_observer : Cls → Bool
is_observer c =
    c.observer_middleware
    || str_eq c.module_name "vllm_observer.middleware" && str_eq c.name "ObserverMiddleware"

abbrev pub any_observer : List Cls → Bool
any_observer [] = false
any_observer (c ∷ cs) = is_observer c || any_observer cs

module _ {E A Args : Type 0} where
  -- `_instrument_app`
  unfoldable pub instrument_app : Builder E A Args → Builder E A Args
  instrument_app missing = missing
  instrument_app (original build) = observed build
  instrument_app (observed build) = observed build

module _ {A : Type 0} (f : Framework A) where
  abbrev pub at_added : A → Outcome AddError A → Asgi A
  at_added a (ret b) = direct b
  at_added a (raise already_started) = wrapped a
  at_added a (raise other_error) = direct a

  unfoldable pub at_configured : A → Option (List Cls) → Asgi A
  at_configured a none = direct a
  at_configured a (some cs) =
      if any_observer cs then direct a else at_added a (f.add_middleware optional_cls a)

  -- The body of the wrapper, behind the call of the original.
  unfoldable pub observe_app : Environ → A → Asgi A
  unfolding is_on at_configured
  observe_app env a =
      if is_on "OBSERVER_HTTP_ENABLED" "1" env
      then at_configured a (f.user_middleware a)
      else direct a

  abbrev pub map_outcome : {E B : Type 0} → (A → B) → Outcome E A → Outcome E B
  map_outcome g (ret a) = ret (g a)
  map_outcome g (raise e) = raise e

  module _ {E Args : Type 0} where
    -- A call of `build_app`; none where there is none.
    unfoldable pub build_app : Environ → Builder E A Args → Args → Option (Outcome E (Asgi A))
    unfolding observe_app
    build_app env missing args = none
    build_app env (original build) args = some (map_outcome direct (build args))
    build_app env (observed build) args = some (map_outcome (observe_app env) (build args))

-- `OptionalObserverMiddleware`: the application behind the observer's middleware, or the
-- application itself where the middleware cannot be made.
unfoldable pub optional_app : {X A : Type 0} → (A → Outcome X A) → A → A
optional_app observer a = elim (observer a) [ ret b ↦ b | raise x ↦ a ]
