-- ===== src/Metrics/Counts.antt =====
-- What one event adds to the counters of src/vllm_observer/metrics.py.
use vllm_observer.Base.{
  ℕ, ◌+◌, ◌≡◌, refl, ap, subst, Bool-cases, ◌∙◌, String, Bool, false, ◌||◌, Option, none, some,
  List, [], ◌∷◌, ◌++◌, if◌then◌else◌, arith, str_eq, eq_iff, inl, inr,
}
use vllm_observer.Base.Float.{Float}
use vllm_observer.Base.Dict.{Dict, lookup, get_or, lookup-insert}
use vllm_observer.Base.Outcome.{ret}
use vllm_observer.Core.Trace.{Event, Exported}
use vllm_observer.Metrics.{
  Metrics, status_text, reported_stages, increase, observe_tpot, observe_stage, observe_stages,
  process,
}

abbrev pub is_among : String → List String → Bool
is_among name [] = false
is_among name (n ∷ names) = str_eq n name || is_among name names

abbrev NoRepeats : List String → Type 0
NoRepeats [] = Unit
NoRepeats (n ∷ names) = (is_among n names ≡ false) × NoRepeats names

abbrev pub count_of : {F : Type 0} → Option (Exported F) → ℕ
count_of none = 0
count_of (some value) = value.count

get_or-increase :
    (k key : String) (n : ℕ) (counter : Dict ℕ)
    → get_or k 0 (increase key n counter) ≡ get_or k 0 counter + (if str_eq key k then n else 0)
get_or-increase k key n counter =
    ground (arith, eq_iff key k, lookup-insert k key (get_or key 0 counter + n) counter)

counted :
    {F : Type 0} (k name : String) (names : List String) (at_k at_name : Option (Exported F))
    (n n' : ℕ)
    → (name ≡ k → at_name ≡ at_k)
    → is_among name names ≡ false
    → n' ≡ n + (if str_eq name k then count_of at_name else 0)
    → n' + (if is_among k names then count_of at_k else 0)
      ≡ n + (if str_eq name k || is_among k names then count_of at_k else 0)
counted k name names at_k at_name n n' same once e = elim (Bool-cases (str_eq name k)) [
  | inl here ↦
      let p : name ≡ k = ground (arith, eq_iff name k) in
      ground (arith, same p, subst (λ x. is_among x names ≡ false) p once)
  | inr other ↦ ground arith
]

module _ {F : Type 0} ⦃f : Float F⦄ (thousandfold : F → F) (threshold : F) where
  observe_stage_count :
      (k name : String) (value : Option (Exported F)) (m : Metrics F)
      → get_or k 0 (observe_stage thousandfold threshold name value m).stage_count
        ≡ get_or k 0 m.stage_count + (if str_eq name k then count_of value else 0)
  unfolding observe_stage
  observe_stage_count k name none m = ground arith
  observe_stage_count k name (some value) m = get_or-increase k name value.count m.stage_count

  observe_stages_count :
      (k : String) (names : List String) (stages : Dict (Exported F)) (m : Metrics F)
      → NoRepeats names
      → get_or k 0 (observe_stages thousandfold threshold names stages m).stage_count
        ≡ get_or k 0 m.stage_count + (if is_among k names then count_of (lookup k stages) else 0)
  unfolding observe_stages
  observe_stages_count k [] stages m h = omega arith
  observe_stages_count k (name ∷ names) stages m h =
      observe_stages_count k names stages
        (observe_stage thousandfold threshold name (lookup name stages) m) h.1
      ∙ counted k name names (lookup k stages) (lookup name stages) _ _ (ap (λ n. lookup n stages))
          h.0 (observe_stage_count k name (lookup name stages) m)

  observe_tpot_count :
      (k : String) (decode : Option (Exported F)) (m : Metrics F)
      → (get_or k 0 (observe_tpot thousandfold threshold decode m).stage_count
          ≡ get_or k 0 m.stage_count)
        × ((observe_tpot thousandfold threshold decode m).requests ≡ m.requests)
        × ((observe_tpot thousandfold threshold decode m).duration ≡ m.duration)
  unfolding observe_tpot
  observe_tpot_count k none m = (refl, refl, refl)
  observe_tpot_count k (some decode) m = (ground arith, ground arith, ground arith)

  observe_stages_rest :
      (names : List String) (stages : Dict (Exported F)) (m : Metrics F)
      → ((observe_stages thousandfold threshold names stages m).requests ≡ m.requests)
        × ((observe_stages thousandfold threshold names stages m).duration ≡ m.duration)
  unfolding observe_stages observe_stage
  observe_stages_rest [] stages m = (refl, refl)
  observe_stages_rest (name ∷ names) stages m =
      let (r, d) =
        observe_stages_rest names stages
          (observe_stage thousandfold threshold name (lookup name stages) m) in
      (r ∙ ground arith, d ∙ ground arith)

  -- An event with a total is passed on; it is counted once under its status and under no other, its
  -- duration is observed once, and the counter of each of the ten reported stages grows by the count that the
  -- event has for it, that of any other stage not at all.
  pub process_counts :
      (event : Event F) (total : Exported F) (m : Metrics F) (status stage : String)
      → lookup "http_total" event.stages ≡ some total
      → let (result, m') = process thousandfold threshold event m in
        (result ≡ ret event)
        × (get_or status 0 m'.requests
            ≡ get_or status 0 m.requests
              + (if str_eq (status_text event.status) status then 1 else 0))
        × (m'.duration ≡ m.duration ++ thousandfold total.total_seconds ∷ [])
        × (get_or stage 0 m'.stage_count
            ≡ get_or stage 0 m.stage_count
              + (if is_among stage reported_stages
                  then count_of (lookup stage event.stages)
                  else 0))
  unfolding process
  process_counts event total m status stage found =
      let m1 : Metrics F = record m {
        requests = increase (status_text event.status) 1 m.requests;
        duration = m.duration ++ thousandfold total.total_seconds ∷ [];
      } in
      let m2 = observe_tpot thousandfold threshold (lookup "decode" event.stages) m1 in
      let (c, r, d) = observe_tpot_count stage (lookup "decode" event.stages) m1 in
      let (r', d') = observe_stages_rest reported_stages event.stages m2 in
      rw found (
        refl,
        ap (get_or status 0) (r' ∙ r)
            ∙ get_or-increase status (status_text event.status) 1 m.requests,
        d' ∙ d,
        observe_stages_count stage reported_stages event.stages m2
              (refl, (refl, (refl, (refl, (refl, (refl, (refl, (refl, (refl, (refl, tt))))))))))
            ∙ ap
                (λ n.
                  n
                  + (if is_among stage reported_stages
                      then count_of (lookup stage event.stages)
                      else 0))
                c,
      )
