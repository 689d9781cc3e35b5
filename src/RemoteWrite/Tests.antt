-- ===== src/RemoteWrite/Tests.antt =====
-- A writer that pushes one sample, against a clock that goes back and a server that refuses once.
use vllm_observer.Base.{ℕ, ◌≡◌, refl, String, true, false, some, List, [], ◌∷◌, length}
use vllm_observer.Base.Dict.{Dict}
use vllm_observer.Base.Outcome.{Outcome, ret, raise}
use vllm_observer.RemoteWrite.Series.{
  Sample, TimeSeries, encode_sample, labels_of, sort_labels, insert_label,
}
use vllm_observer.RemoteWrite.{Gauges, RemoteWriter, Attempt, Round, run}
use vllm_observer.RemoteWrite.Timestamps.{Rising, push_all, push_all-Rising}
use vllm_observer.RemoteWrite.Settings.{is_http, starts_with}
use vllm_observer.RemoteWrite.Lifecycle.{IsRetired, run_retires}

abbrev identity : Dict String
identity = ("service", "vllm") ∷ ("job", "observer") ∷ []

-- The registry shows the gauge of the lifecycle, with a label that the identity replaces.
abbrev collect : Gauges ℕ → List (Sample ℕ)
collect g =
    record { name = "alive"; labels = ("job", "mine") ∷ ("a", "b") ∷ []; value = g.alive } ∷ []

abbrev sample : Sample ℕ
sample = record { name = "alive"; labels = ("job", "mine") ∷ []; value = 1 }

abbrev writer : RemoteWriter ℕ
writer = record {
  identity = identity;
  last_timestamp = 5;
  stop = false;
  running = true;
  gauges = record { heartbeat = 0; alive = 1; healthy = 0; failures = 0 };
  sent = [];
}

abbrev attempt : ℕ → Outcome (Unit {0}) ℕ → Attempt (Unit {0}) ℕ
attempt now_ns response = record { now = 7; now_ns = now_ns; response = response }

abbrev attempts : List (Attempt (Unit {0}) ℕ)
attempts = attempt 9000000 (ret 204) ∷ attempt 2000000 (ret 500) ∷ attempt 30000000 (raise tt) ∷ []

sorted_labels :
    (encode_sample identity 8 sample).labels
    ≡ ("__name__", "alive") ∷ ("job", "observer") ∷ ("service", "vllm") ∷ []
unfolding encode_sample labels_of sort_labels insert_label
sorted_labels = refl

push_all-Rising_example :
    (batches : List (List (TimeSeries ℕ))) × ((push_all collect attempts writer).sent ≡ batches)
    × (length batches ≡ 3)
    × Rising 5 batches
    × ((push_all collect attempts writer).gauges.failures ≡ 2)
push_all-Rising_example = push_all-Rising collect attempts writer

abbrev rounds : List (Round (Unit {0}) ℕ)
rounds =
    record { health = ret true; attempt = attempt 9000000 (ret 204); stops = false }
    ∷ record { health = raise tt; attempt = attempt 9000000 (raise tt); stops = true }
    ∷ record { health = ret true; attempt = attempt 9000000 (ret 204); stops = false }
    ∷ []

run_retires_example :
    (w : RemoteWriter ℕ) × (run collect rounds (attempt 1 (ret 204)) writer ≡ some w)
    × IsRetired collect 2 (attempt 1 (ret 204)) w
run_retires_example = run_retires collect rounds (attempt 1 (ret 204)) writer refl

urls :
    (is_http "https://push" ≡ true)
    × (is_http "http://push" ≡ true)
    × (is_http "ftp://push" ≡ false)
unfolding is_http starts_with
urls = (refl, refl, refl)
