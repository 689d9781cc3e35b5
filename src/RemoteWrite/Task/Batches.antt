-- ===== src/RemoteWrite/Task/Batches.antt =====
-- What the batches of the push task of src/vllm_observer/remote_write.py say of the instance.
use vllm_observer.Base.{
  ℕ, String, inl, inr, max, ◌/◌, ◌+◌, ◌≡◌, refl, sym, ap, ◌∙◌, subst, true, List, [], ◌∷◌, ◌++◌,
  All, All-append, Bool-cases,
}
use vllm_observer.Base.Dict.{Dict}
use vllm_observer.RemoteWrite.Series.{Sample, TimeSeries, encode_registry}
use vllm_observer.RemoteWrite.{
  Gauges, RemoteWriter, Attempt, Round, push, push_snapshot, set_alive, set_healthy, round, retire,
  bit, is_healthy, accepted,
}

module _ {F : Type 0} (collect : Gauges F → List (Sample F)) (identity : Dict String) where
  -- A batch of the metrics, at a moment when the gauge of the lifecycle was `alive`.
  pub record Shows (alive : ℕ) (batch : List (TimeSeries F)) : Type 0 where
    pub gauges : Gauges F
    pub timestamp : ℕ
    pub lifecycle : gauges.alive ≡ alive
    pub encoded : batch ≡ encode_registry (collect gauges) identity timestamp

  -- The last of the batches is the farewell: an instance that is not alive.
  pub record HasFarewell (batches : List (List (TimeSeries F))) : Type 0 where
    pub before : List (List (TimeSeries F))
    pub farewell : List (TimeSeries F)
    pub split : batches ≡ before ++ farewell ∷ []
    pub lived : All (Shows 1) before
    pub gone : Shows 0 farewell

  -- The batch that a push sends, and what it leaves of the writer.
  record IsPushed {X : Type 0} (a : Attempt X F) (w w' : RemoteWriter F) : Type 0 where
    named : w'.identity ≡ w.identity
    same : w'.running ≡ w.running
    alive : w'.gauges.alive ≡ w.gauges.alive
    healthy : w'.gauges.healthy ≡ w.gauges.healthy
    stop : w'.stop ≡ w.stop
    sent :
        w'.sent
        ≡ w.sent
          ++ encode_registry
              (collect (record w.gauges { heartbeat = a.now }))
              w.identity
              (max (w.last_timestamp + 1) (a.now_ns / 1000000))
            ∷ []

  push-IsPushed :
      {X : Type 0} (a : Attempt X F) (w : RemoteWriter F) → IsPushed a w (push collect a w)
  unfolding push push_snapshot
  push-IsPushed a w = elim (Bool-cases (accepted a.response)) [
    | inl fine ↦
        rw (fine, push)
          (record {
            named = refl;
            same = refl;
            alive = refl;
            healthy = refl;
            stop = refl;
            sent = refl;
          })
    | inr refused ↦
        rw (refused, push)
          (record {
            named = refl;
            same = refl;
            alive = refl;
            healthy = refl;
            stop = refl;
            sent = refl;
          })
  ]

  shown :
      {X : Type 0} (alive : ℕ) (a : Attempt X F) (w : RemoteWriter F)
      → w.identity ≡ identity
      → w.gauges.alive ≡ alive
      → (batch : List (TimeSeries F)) × ((push collect a w).sent ≡ w.sent ++ batch ∷ [])
        × Shows alive batch
  shown alive a w named e =
      let p = push-IsPushed a w in
      (
        encode_registry (collect (record w.gauges { heartbeat = a.now })) w.identity
            (max (w.last_timestamp + 1) (a.now_ns / 1000000)),
        p.sent,
        record {
          gauges = record w.gauges { heartbeat = a.now };
          timestamp = max (w.last_timestamp + 1) (a.now_ns / 1000000);
          lifecycle = e;
          encoded =
              ap
                (λ i.
                  encode_registry (collect (record w.gauges { heartbeat = a.now })) i
                    (max (w.last_timestamp + 1) (a.now_ns / 1000000)))
                named;
        },
      )

  -- A writer whose task makes its rounds.
  pub record IsAlive (w : RemoteWriter F) : Type 0 where
    pub named : w.identity ≡ identity
    pub running : w.running ≡ true
    pub alive : w.gauges.alive ≡ 1
    pub lived : All (Shows 1) w.sent

  pub round-IsAlive :
      {X : Type 0} (r : Round X F) (w : RemoteWriter F) → IsAlive w → IsAlive (round collect r w)
  unfolding round set_healthy
  round-IsAlive r w h =
      let w' = set_healthy (bit (is_healthy r.health)) w in
      let p = push-IsPushed r.attempt w' in
      let (batch, sent, shows) = shown 1 r.attempt w' h.named h.alive in
      record {
        named = p.named ∙ h.named;
        running = p.same ∙ h.running;
        alive = p.alive ∙ h.alive;
        lived =
            subst (All (Shows 1)) (sym sent) (All-append _ w.sent (batch ∷ []) h.lived (shows, tt));
      }

  -- A writer whose task has sent its farewell.
  pub record IsGone (w : RemoteWriter F) : Type 0 where
    pub named : w.identity ≡ identity
    pub running : w.running ≡ true
    pub dead : w.gauges.alive ≡ 0
    pub unhealthy : w.gauges.healthy ≡ 0
    pub batches : HasFarewell w.sent

  pub retire-IsGone :
      {X : Type 0} (last : Attempt X F) (w : RemoteWriter F)
      → IsAlive w
      → IsGone (retire collect last w)
  unfolding retire set_alive set_healthy
  retire-IsGone last w h =
      let w' = set_healthy 0 (set_alive 0 w) in
      let p = push-IsPushed last w' in
      let (batch, sent, shows) = shown 0 last w' h.named refl in
      record {
        named = p.named ∙ h.named;
        running = p.same ∙ h.running;
        dead = p.alive;
        unhealthy = p.healthy;
        batches = record {
          before = w.sent;
          farewell = batch;
          split = sent;
          lived = h.lived;
          gone = shows;
        };
      }
