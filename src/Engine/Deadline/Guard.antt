-- ===== src/Engine/Deadline/Guard.antt =====
-- The deadline guard finishes the expired requests, and no others.
use vllm_observer.Base.{
  ◌⊎◌, ◌&&◌, none, some, ap, ℕ, ◌+◌, ◌≡◌, refl, ◌∙◌, sym, subst, String, Bool, true, false, not,
  List, [], ◌∷◌, map, length, filter_by, eq_iff, eq_refl, All, arith, Bool-cases, inl, inr,
}
use vllm_observer.Base.Float.{Float}
use vllm_observer.Base.Outcome.{ret}
use vllm_observer.Engine.Deadline.{
  Request, mem, Scheduler, Config, deadline_seconds, is_expired, expired_ids, drop_expired, is_nil,
}

abbrev pub ids : {F : Type 0} → List (Request F) → List String
ids rs = map (λ r. r.request_id) rs

-- `scheduler.requests` is a dict by request id.
abbrev pub UniqueIds : {F : Type 0} → List (Request F) → Type 0
UniqueIds [] = Unit
UniqueIds (r ∷ rs) = (mem r.request_id (ids rs) ≡ false) × UniqueIds rs

module _ {F : Type 0} (p : Request F → Bool) where
  mem-filter_by :
      (id : String) (rs : List (Request F))
      → mem id (ids rs) ≡ false
      → mem id (ids (filter_by p rs)) ≡ false
  mem-filter_by id [] h = refl
  mem-filter_by id (r ∷ rs) h = ground (arith, mem-filter_by id rs)

  -- Adding to the chosen ids that of a request outside `xs` changes nothing for `xs`.
  mem_extend :
      (r : Request F) (chosen : List String) (xs : List (Request F))
      → mem r.request_id (ids xs) ≡ false
      → All (λ x. mem x.request_id chosen ≡ p x) xs
      → All (λ x. mem x.request_id (r.request_id ∷ chosen) ≡ p x) xs
  mem_extend r chosen [] h a = tt
  mem_extend r chosen (x ∷ xs) h a = (
    ground (arith, eq_iff r.request_id x.request_id, eq_iff x.request_id r.request_id),
    mem_extend r chosen xs (ground arith) a.1,
  )

  -- In a list with no id twice the ids of the chosen requests single those out.
  mem_chosen :
      (rs : List (Request F))
      → UniqueIds rs
      → All (λ r. mem r.request_id (ids (filter_by p rs)) ≡ p r) rs
  mem_chosen [] h = tt
  mem_chosen (r ∷ rs) h = elim (Bool-cases (p r)) [
    | inl chosen ↦
        let q : r.request_id ∷ ids (filter_by p rs) ≡ ids (filter_by p (r ∷ rs)) = ground arith in
        (
          ground (arith, eq_refl r.request_id),
          subst (λ cs. All (λ x. mem x.request_id cs ≡ p x) rs) q
              (mem_extend r (ids (filter_by p rs)) rs h.0 (mem_chosen rs h.1)),
        )
    | inr spared ↦
        let q : ids (filter_by p rs) ≡ ids (filter_by p (r ∷ rs)) = ground arith in
        (
          ground (arith, mem-filter_by r.request_id rs h.0),
          subst (λ cs. All (λ x. mem x.request_id cs ≡ p x) rs) q (mem_chosen rs h.1),
        )
  ]

  filter_by_ext :
      (q : Request F → Bool) (rs : List (Request F))
      → All (λ r. p r ≡ q r) rs
      → filter_by p rs ≡ filter_by q rs
  filter_by_ext q [] h = refl
  filter_by_ext q (r ∷ rs) h = ground (arith, filter_by_ext q rs h.1)

module _ {F : Type 0} ⦃f : Float F⦄ where
  -- Whether the request arrived more than `ttl` before `now`; one without an arrival has just arrived.
  abbrev pub is_late : F → F → Request F → Bool
  is_late ttl now r =
      f.lt ttl (f.sub now (elim r.arrival_time [ none ↦ now | some arrival ↦ arrival ]))

  abbrev pub stays : F → F → Request F → Bool
  stays ttl now r = not r.is_finished && not (is_late ttl now r)

  abbrev pub expires : F → F → Request F → Bool
  expires ttl now r = not r.is_finished && is_late ttl now r

  is_expired_lem :
      (ttl now : F) (rs : List (Request F)) → All (λ r. is_expired ttl now r ≡ expires ttl now r) rs
  unfolding is_expired
  is_expired_lem ttl now [] = tt
  is_expired_lem ttl now (r ∷ rs) = (ground arith, is_expired_lem ttl now rs)

  stays_lem :
      (ttl now : F) (chosen : List String) (rs : List (Request F))
      → All (λ r. mem r.request_id chosen ≡ expires ttl now r) rs
      → All (λ r. (not r.is_finished && not (mem r.request_id chosen)) ≡ stays ttl now r) rs
  stays_lem ttl now chosen [] h = tt
  stays_lem ttl now chosen (r ∷ rs) h = (ground (arith, h.0), stays_lem ttl now chosen rs h.1)

  -- The unfinished requests whose ids were not chosen are those that stay.
  filter_by_unchosen :
      (ttl now : F) (rs : List (Request F))
      → UniqueIds rs
      → filter_by
          (λ r. not r.is_finished && not (mem r.request_id (ids (filter_by (expires ttl now) rs))))
          rs
        ≡ filter_by (stays ttl now) rs
  filter_by_unchosen ttl now rs h = filter_by_ext _ (stays ttl now) rs (
      stays_lem ttl now (ids (filter_by (expires ttl now) rs)) rs
        (mem_chosen (expires ttl now) rs h))

  filter_by_none :
      (ttl now : F) (rs : List (Request F))
      → ids (filter_by (expires ttl now) rs) ≡ []
      → filter_by (λ r. not r.is_finished) rs ≡ filter_by (stays ttl now) rs
  filter_by_none ttl now [] h = refl
  filter_by_none ttl now (r ∷ rs) h = ground (arith, filter_by_none ttl now rs)

module _ {F X S A : Type 0} ⦃f : Float F⦄ (scheduler : Scheduler X F S A) (config : Config F)
    (now : F) (s : S) (total : ℕ) where
  drop_expired_idle :
      f.le (deadline_seconds config) f.zero ≡ false
      → config.imports ≡ true
      → is_nil (expired_ids scheduler config now s) ≡ true
      → (drop_expired scheduler config now s total ≡ record { ids = []; state = s; total = total })
        × (expired_ids scheduler config now s ≡ [])
  unfolding drop_expired
  drop_expired_idle positive imports empty = (ground arith, ground arith)

  drop_expired_finishes :
      f.le (deadline_seconds config) f.zero ≡ false
      → config.imports ≡ true
      → is_nil (expired_ids scheduler config now s) ≡ false
      → let expired = expired_ids scheduler config now s in
        (scheduler.finish_requests expired s).0 ≡ ret tt
        → drop_expired scheduler config now s total ≡ record {
          ids = expired;
          state = (scheduler.finish_requests expired s).1;
          total = total + length expired;
        }
  unfolding drop_expired
  drop_expired_finishes positive imports some_expired finished = ground arith

  deadline_lem :
      (text : String) (ttl : F)
      → config.deadline ≡ some text
      → config.to_float text ≡ some ttl
      → deadline_seconds config ≡ ttl
  unfolding deadline_seconds
  deadline_lem text ttl given read = rw (given, read, deadline_seconds) refl

  expired_ids_lem :
      (ttl : F)
      → deadline_seconds config ≡ ttl
      → expired_ids scheduler config now s
        ≡ ids (filter_by (expires ttl now) (scheduler.requests s))
  unfolding expired_ids
  expired_ids_lem ttl e = rw e (
      ap ids (
        filter_by_ext _ (expires ttl now) (scheduler.requests s)
          (is_expired_lem ttl now (scheduler.requests s))))

  -- With a positive deadline that can be read, requests of different ids, and vLLM's status class
  -- at hand, the guard asks the scheduler to finish the unfinished requests that arrived longer
  -- ago than the deadline, and reports their ids in their order. If the scheduler does not raise,
  -- the unfinished requests that it goes on with are the other unfinished requests, in their
  -- order, and the total of dropped requests grows by as many as were reported.
  pub drop_expired_exact :
      (text : String) (ttl : F)
      → config.deadline ≡ some text
      → config.to_float text ≡ some ttl
      → f.le ttl f.zero ≡ false
      → config.imports ≡ true
      → UniqueIds (scheduler.requests s)
      → (scheduler.finish_requests (ids (filter_by (expires ttl now) (scheduler.requests s))) s).0
        ≡ ret tt
      → let d = drop_expired scheduler config now s total in
        (filter_by (λ r. not r.is_finished) (scheduler.requests d.state)
          ≡ filter_by (stays ttl now) (scheduler.requests s))
        × (d.ids ≡ ids (filter_by (expires ttl now) (scheduler.requests s)))
        × (d.total ≡ total + length d.ids)
  drop_expired_exact text ttl given read positive imports unique finished =
      let rs = scheduler.requests s in
      let deadline = deadline_lem text ttl given read in
      let chosen = expired_ids_lem ttl deadline in
      let positive' : f.le (deadline_seconds config) f.zero ≡ false = rw deadline positive in
      elim (Bool-cases (is_nil (expired_ids scheduler config now s))) [
        | inl empty ↦
            let (idle, none_expired) = drop_expired_idle positive' imports empty in
            rw idle (
              filter_by_none ttl now rs (sym chosen ∙ none_expired),
              sym none_expired ∙ chosen,
              omega arith,
            )
        | inr some_expired ↦
            let finished' : (scheduler.finish_requests (expired_ids scheduler config now s) s).0
                ≡ ret tt =
              rw chosen finished in
            rw (drop_expired_finishes positive' imports some_expired finished') (
              scheduler.finish_ends (expired_ids scheduler config now s) s finished'
                  ∙ rw chosen (filter_by_unchosen ttl now rs unique),
              chosen,
              refl,
            )
      ]

  -- Whatever the scheduler does, the total of dropped requests grows by the number of ids that the
  -- guard reports, and it reports either none, or all the requests that are older than a positive
  -- deadline, which the scheduler has finished by then without raising.
  pub drop_expired_reports :
      let d = drop_expired scheduler config now s total in
      (d.total ≡ total + length d.ids)
      × ((d.ids ≡ [])
          ⊎ ((d.ids ≡ expired_ids scheduler config now s)
              × (f.le (deadline_seconds config) f.zero ≡ false)
              × ((scheduler.finish_requests (expired_ids scheduler config now s) s).0 ≡ ret tt)))
  unfolding drop_expired
  drop_expired_reports = ground arith
