-- ===== src/RemoteWrite/Lifecycle.antt =====
-- The push task of src/vllm_observer/remote_write.py, from its first round to its last batch.
use vllm_observer.Base.{
  ℕ, ◌+◌, ◌≡◌, refl, ap, subst, ◌∙◌, Bool, true, false, ◌||◌, some, List, [], ◌∷◌, ◌++◌, length,
  length-append, arith,
}
use vllm_observer.RemoteWrite.Series.{Sample, TimeSeries, encode_registry}
use vllm_observer.RemoteWrite.Timestamps.{push_lem}
use vllm_observer.RemoteWrite.{
  Gauges, RemoteWriter, Attempt, Round, push_snapshot, push, set_alive, set_healthy, round, retire,
  run, bit, is_healthy,
}

module _ {X F : Type 0} (collect : Gauges F → List (Sample F)) where
  -- How many rounds are made until one sees that `stop` is set, and whether one does.
  abbrev pub rounds_made : Bool → List (Round X F) → ℕ
  rounds_made true rounds = 0
  rounds_made false [] = 0
  rounds_made false (r ∷ rounds) = 1 + rounds_made r.stops rounds

  abbrev pub is_stopped : Bool → List (Round X F) → Bool
  is_stopped true rounds = true
  is_stopped false [] = false
  is_stopped false (r ∷ rounds) = is_stopped r.stops rounds

  -- The writer has retired: its last batch shows an instance that is not alive and not healthy.
  pub record IsRetired (before : ℕ) (last : Attempt X F) (w : RemoteWriter F) : Type 0 where
    pub dead : w.gauges.alive ≡ 0
    pub unhealthy : w.gauges.healthy ≡ 0
    pub batches : length w.sent ≡ before + 1
    pub farewell :
        (sent : List (List (TimeSeries F))) × (failures : ℕ) × (w.sent
          ≡ sent
            ++ encode_registry
                (collect
                  (record { heartbeat = last.now; alive = 0; healthy = 0; failures = failures }))
                w.identity
                w.last_timestamp
              ∷ [])

  length-push :
      (a : Attempt X F) (w : RemoteWriter F) → length (push collect a w).sent ≡ length w.sent + 1
  length-push a w =
      let (batch, e, _, _, _) = push_lem collect a w in
      ap length e ∙ length-append w.sent (batch ∷ [])

  retire-IsRetired :
      (last : Attempt X F) (w : RemoteWriter F)
      → IsRetired (length w.sent) last (retire collect last w)
  unfolding retire push push_snapshot set_alive set_healthy
  retire-IsRetired last w = record {
    dead = ground arith;
    unhealthy = ground arith;
    batches = length-push last (set_healthy 0 (set_alive 0 w));
    farewell = (w.sent, w.gauges.failures, ground arith);
  }

  round_lem :
      (r : Round X F) (w : RemoteWriter F)
      → ((round collect r w).stop ≡ (w.stop || r.stops))
        × (length (round collect r w).sent ≡ length w.sent + 1)
  unfolding round push push_snapshot set_healthy
  round_lem r w = (ground arith, length-push r.attempt (set_healthy (bit (is_healthy r.health)) w))

  run_lem :
      (rounds : List (Round X F)) (last : Attempt X F) (w : RemoteWriter F) (before : ℕ)
      (stop : Bool)
      → w.stop ≡ stop
      → is_stopped stop rounds ≡ true
      → before ≡ length w.sent + rounds_made stop rounds
      → (w' : RemoteWriter F) × (run collect rounds last w ≡ some w') × IsRetired before last w'
  unfolding run
  run_lem [] last w before true e h k = (
    retire collect last w,
    ground arith,
    subst (λ n. IsRetired n last (retire collect last w)) (omega (arith, k))
        (retire-IsRetired last w),
  )
  run_lem [] last w before false e h k = absurd (ground arith)
  run_lem (r ∷ rounds) last w before true e h k = (
    retire collect last w,
    ground arith,
    subst (λ n. IsRetired n last (retire collect last w)) (omega (arith, k))
        (retire-IsRetired last w),
  )
  run_lem (r ∷ rounds) last w before false e h k =
      let (stops, sends) = round_lem r w in
      let (w', result, retired) =
        run_lem rounds last (round collect r w) before r.stops (stops ∙ ground arith) h
          (omega (arith, k, sends)) in
      (w', ground (arith, result), retired)

  -- Once `close` is called, at the start or during any round, the task makes no further round: it
  -- ends, after one last batch, in which the instance is neither alive nor healthy, and one batch was sent for
  -- each round before.
  pub run_retires :
      (rounds : List (Round X F)) (last : Attempt X F) (w : RemoteWriter F)
      → is_stopped w.stop rounds ≡ true
      → (w' : RemoteWriter F) × (run collect rounds last w ≡ some w')
        × IsRetired (length w.sent + rounds_made w.stop rounds) last w'
  run_retires rounds last w h = run_lem rounds last w _ w.stop refl h refl
