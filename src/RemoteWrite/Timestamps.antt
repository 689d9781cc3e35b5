-- ===== src/RemoteWrite/Timestamps.antt =====
-- The timestamps of the batches of src/vllm_observer/remote_write.py, and the count of failed pushes.
use vllm_observer.Base.{
  ℕ, ◌+◌, ◌/◌, ◌<◌, max, ◌≡◌, refl, sym, subst, suc, String, ◌∙◌, ap, List, [], ◌∷◌, ◌++◌, length,
  if◌then◌else◌, arith, All,
}
use mathlib.Core.List.{append-nil, append_assoc}
use vllm_observer.Base.Dict.{Dict}
use vllm_observer.RemoteWrite.Series.{Sample, TimeSeries, encode_registry, encode_sample}
use vllm_observer.RemoteWrite.{Gauges, RemoteWriter, Attempt, accepted, push_snapshot, push}

-- All series of a batch are stamped alike, each batch later than the one before it.
abbrev pub Rising : {F : Type 0} → ℕ → List (List (TimeSeries F)) → Type 0
Rising last [] = Unit
Rising last (batch ∷ batches) =
    (t : ℕ) × (last < t) × All (λ s. s.timestamp ≡ t) batch × Rising t batches

encode_stamps :
    {F : Type 0} (samples : List (Sample F)) (identity : Dict String) (t : ℕ)
    → All (λ s. s.timestamp ≡ t) (encode_registry samples identity t)
unfolding encode_registry encode_sample
encode_stamps [] identity t = tt
encode_stamps (s ∷ samples) identity t = (refl, encode_stamps samples identity t)

module _ {X F : Type 0} (collect : Gauges F → List (Sample F)) where
  abbrev pub push_all : List (Attempt X F) → RemoteWriter F → RemoteWriter F
  push_all [] w = w
  push_all (a ∷ attempts) w = push_all attempts (push collect a w)

  abbrev pub refusals : List (Attempt X F) → ℕ
  refusals [] = 0
  refusals (a ∷ attempts) = (if accepted a.response then 0 else 1) + refusals attempts

  pub push_lem :
      (a : Attempt X F) (w : RemoteWriter F)
      → (batch : List (TimeSeries F)) × ((push collect a w).sent ≡ w.sent ++ batch ∷ [])
        × (w.last_timestamp < (push collect a w).last_timestamp)
        × All (λ s. s.timestamp ≡ (push collect a w).last_timestamp) batch
        × ((push collect a w).gauges.failures
            ≡ w.gauges.failures + (if accepted a.response then 0 else 1))
  unfolding push push_snapshot
  push_lem a w =
      let timestamp = max (w.last_timestamp + 1) (a.now_ns / 1000000) in
      let samples = collect (record w.gauges { heartbeat = a.now }) in
      (
        encode_registry samples w.identity timestamp,
        ground arith,
        ground arith,
        stamps timestamp samples (ground arith),
        ground arith,
      )
    where
      stamps :
          (timestamp : ℕ) (samples : List (Sample F))
          → timestamp ≡ (push collect a w).last_timestamp
          → All
              (λ s. s.timestamp ≡ (push collect a w).last_timestamp)
              (encode_registry samples w.identity timestamp)
      stamps timestamp samples e =
          subst (λ t. All (λ s. s.timestamp ≡ t) (encode_registry samples w.identity timestamp)) e
            (encode_stamps samples w.identity timestamp)

  -- Whatever the clock shows and however the requests end, each push sends one batch, all of it
  -- stamped later than the batch before it, and the counter of failures grows by the number of
  -- pushes that raised or got a status other than 2xx.
  pub push_all-Rising :
      (attempts : List (Attempt X F)) (w : RemoteWriter F)
      → (batches : List (List (TimeSeries F))) × ((push_all attempts w).sent ≡ w.sent ++ batches)
        × (length batches ≡ length attempts)
        × Rising w.last_timestamp batches
        × ((push_all attempts w).gauges.failures ≡ w.gauges.failures + refusals attempts)
  push_all-Rising [] w = ([], sym (append-nil w.sent), refl, tt, omega arith)
  push_all-Rising (a ∷ attempts) w =
      let (batch, e, later, stamped, counted) = push_lem a w in
      let (batches, e', l, rising, counted') = push_all-Rising attempts (push collect a w) in
      (
        batch ∷ batches,
        e' ∙ ap (λ s. s ++ batches) e ∙ append_assoc w.sent (batch ∷ []) batches,
        ap suc l,
        ((push collect a w).last_timestamp, later, stamped, rising),
        omega (arith, counted, counted'),
      )
