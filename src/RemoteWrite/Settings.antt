-- ===== src/RemoteWrite/Settings.antt =====
-- The constructor of `RemoteWriter` in src/vllm_observer/remote_write.py, and `from_env`.
use vllm_observer.Base.{
  ◌==◌, ◌≡◌, refl, inl, inr, arith, String, Bool, true, false, ◌&&◌, ◌||◌, Option, none, some, List,
  [], ◌∷◌, if◌then◌else◌, Bool-cases,
}
use Prim.Native.Char.{code}
use vllm_observer.Base.Float.{Float}
use vllm_observer.Base.Dict.{Dict, get_or}
use vllm_observer.Base.Outcome.{Outcome, ret, raise}
use vllm_observer.RemoteWrite.Series.{Sample}
use vllm_observer.RemoteWrite.{Gauges}
use vllm_observer.RemoteWrite.Task.{Task}
use vllm_observer.RemoteWrite.Task.Phases.{IsUnstarted}

-- What the writer is given beside the metrics.
pub record Settings (F : Type 0) : Type 0 where
  pub url : String
  pub interval : F
  pub timeout : F

-- The three `ValueError`s: of `float`, and of the two tests.
pub data SettingError : Type 0 where
  not_a_number bad_duration bad_url : SettingError

-- `text.startswith(prefix)`
unfoldable pub starts_with : String → String → Bool
starts_with String.[] s = true
starts_with (String.◌∷◌ c p) String.[] = false
starts_with (String.◌∷◌ c p) (String.◌∷◌ d s) =
    let rest = starts_with p s in if code c == code d then rest else false

unfoldable pub is_http : String → Bool
unfolding starts_with
is_http url = starts_with "http://" url || starts_with "https://" url

-- `metrics.labels` under their names, and the job.
abbrev pub identity_of : String × String × String → Dict String
identity_of (service, model, instance_id) =
    ("service", service)
    ∷ ("model", model)
    ∷ ("instance_id", instance_id)
    ∷ ("job", "observer")
    ∷ []

module _ {F : Type 0} ⦃f : Float F⦄ where
  unfoldable pub is_duration : F → Bool
  is_duration x = f.finite x && f.lt f.zero x

  abbrev pub new_task : String × String × String → Task F
  new_task labels = record {
    writer = record {
      identity = identity_of labels;
      last_timestamp = 0;
      stop = false;
      running = false;
      gauges = record { heartbeat = f.zero; alive = 0; healthy = 0; failures = 0 };
      sent = [];
    };
    ended = false;
  }

  -- `RemoteWriter(metrics, url, interval=..., timeout=...)`
  unfoldable pub new_writer :
      String × String × String → Settings F → Outcome SettingError (Settings F × Task F)
  unfolding is_duration is_http
  new_writer labels s =
      if is_duration s.interval && is_duration s.timeout
      then (if is_http s.url then ret (s, new_task labels) else raise bad_url)
      else raise bad_duration

  -- `from_env`, where `to_float` is Python's `float`, none where it raises.
  unfoldable pub from_env :
      (String → Option F)
      → Dict String
      → String × String × String
      → Outcome SettingError (Settings F × Task F)
  unfolding new_writer
  from_env to_float env labels =
      elim (to_float (get_or "OBSERVER_PUSH_INTERVAL_SECONDS" "10" env)) [
        | none ↦ raise not_a_number
        | some interval ↦ elim (to_float (get_or "OBSERVER_PUSH_TIMEOUT_SECONDS" "2" env)) [
          | none ↦ raise not_a_number
          | some timeout ↦ new_writer labels (record {
            url = get_or "OBSERVER_REMOTE_WRITE_URL" "http://localhost:9090/api/v1/write" env;
            interval = interval;
            timeout = timeout;
          })
        ]
      ]

  -- A writer that was made: its settings are usable, and its task is not yet created.
  pub record IsUsable (collect : Gauges F → List (Sample F)) (labels : String × String × String)
      (made : Settings F × Task F) : Type 0 where
    pub interval : is_duration made.0.interval ≡ true
    pub timeout : is_duration made.0.timeout ≡ true
    pub url : is_http made.0.url ≡ true
    pub unstarted : IsUnstarted collect (identity_of labels) made.1

  -- What the result of the constructor tells of the settings.
  abbrev pub IsChecked :
      (Gauges F → List (Sample F))
      → String × String × String
      → Settings F
      → Outcome SettingError (Settings F × Task F)
      → Type 0
  IsChecked collect labels s (ret made) = (made.0 ≡ s) × IsUsable collect labels made
  IsChecked collect labels s (raise not_a_number) = ⊥
  IsChecked collect labels s (raise bad_duration) =
      (is_duration s.interval && is_duration s.timeout) ≡ false
  IsChecked collect labels s (raise bad_url) = is_http s.url ≡ false

  pub new_writer-IsChecked :
      (collect : Gauges F → List (Sample F)) (labels : String × String × String) (s : Settings F)
      → IsChecked collect labels s (new_writer labels s)
  unfolding new_writer
  new_writer-IsChecked collect labels s =
      elim (Bool-cases (is_duration s.interval && is_duration s.timeout)) [
        | inl measured ↦ elim (Bool-cases (is_http s.url)) [
          | inl http ↦
              rw (measured, http, new_writer)
                (
                  refl,
                  record {
                    interval = ground arith;
                    timeout = ground arith;
                    url = http;
                    unstarted = record {
                      named = refl;
                      idle = refl;
                      waiting = refl;
                      dead = refl;
                      unhealthy = refl;
                      silent = refl;
                    };
                  },
                )
          | inr other ↦ rw (measured, other, new_writer) other
        ]
        | inr unmeasured ↦ rw (unmeasured, new_writer) unmeasured
      ]
