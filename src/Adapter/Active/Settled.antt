-- ===== src/Adapter/Active/Settled.antt =====
-- A generation of `observed_generate` in src/vllm_observer/adapter.py that has an end or is held by a
-- running call, and how changes of a trace, of the calls and of the table `active` keep that.
use vllm_observer.Base.{
  ◌≡◌, refl, sym, subst, String, Bool, true, false, ◌&&◌, ◌||◌, none, some, List, [], ◌∷◌, ◌++◌,
  map, arith, inl, inr, All, All-append, Bool-cases, str_eq, eq_iff, eq_refl,
}
use vllm_observer.Base.Dict.{Dict, insert, erase, contains, UniqueKeys}
use vllm_observer.Core.Trace.{RequestTrace, Generation, Span, Observation, span, generation}
use vllm_observer.Adapter.Active.{Generating, Frontend, on_observation, on_trace, find_generation}

abbrev pub is_ended : {F : Type 0} → Generation F → Bool
is_ended g = elim g.end_ns [ none ↦ false | some _ ↦ true ]

abbrev pub holds : String → String → Generating → Bool
holds key id c = elim c.target [ none ↦ false | some (k, i) ↦ str_eq k key && str_eq i id ]

abbrev pub is_held : String → String → List Generating → Bool
is_held key id [] = false
is_held key id (c ∷ calls) = holds key id c || is_held key id calls

-- A generation has an end, or a running call holds it.
abbrev pub is_settled : {F : Type 0} → String → List Generating → Observation F → Bool
is_settled key calls (span s) = true
is_settled key calls (generation g) = is_ended g || is_held key g.id calls

abbrev pub is_called : String → List Generating → Bool
is_called request_id [] = false
is_called request_id (c ∷ calls) = str_eq c.request_id request_id || is_called request_id calls

module _ {F : Type 0} where
  abbrev pub AllTraces : (String → RequestTrace F → Type 0) → Dict (RequestTrace F) → Type 0
  AllTraces P [] = Unit
  AllTraces P ((key, t) ∷ traces) = P key t × AllTraces P traces

  abbrev pub IsSettled : List Generating → String → RequestTrace F → Type 0
  IsSettled calls key t = All (λ o. is_settled key calls o ≡ true) t.observations

  pub record IsTracked (x : Frontend F) : Type 0 where
    pub settled : AllTraces (IsSettled x.running) x.traces
    pub called : All (λ e. is_called e.0 x.running ≡ true) x.active
    pub unique : UniqueKeys x.active

  pub AllTraces-on_trace :
      (P Q : String → RequestTrace F → Type 0) (key : String) (h : RequestTrace F → RequestTrace F)
      (traces : Dict (RequestTrace F))
      → ((t : RequestTrace F) → P key t → Q key (h t))
      → ((k : String) (t : RequestTrace F) → str_eq k key ≡ false → P k t → Q k t)
      → AllTraces P traces
      → AllTraces Q (on_trace key h traces)
  AllTraces-on_trace P Q key h [] here there all = tt
  AllTraces-on_trace P Q key h ((k, t) ∷ traces) here there all = elim (Bool-cases (str_eq k key)) [
    | inl same ↦ rw same (
      subst (λ j. Q j (h t)) (sym ((eq_iff k key).0 same))
          (here t (subst (λ j. P j t) ((eq_iff k key).0 same) all.0)),
      AllTraces-on_trace P Q key h traces here there all.1,
    )
    | inr other ↦
        rw other (there k t other all.0, AllTraces-on_trace P Q key h traces here there all.1)
  ]

  pub AllTraces-mono :
      (P Q : String → RequestTrace F → Type 0) (traces : Dict (RequestTrace F))
      → ((k : String) (t : RequestTrace F) → P k t → Q k t)
      → AllTraces P traces
      → AllTraces Q traces
  AllTraces-mono P Q [] h all = tt
  AllTraces-mono P Q ((k, t) ∷ traces) h all = (h k t all.0, AllTraces-mono P Q traces h all.1)

  pub settled_more :
      (key : String) (c : Generating) (calls : List Generating) (o : Observation F)
      → is_settled key calls o ≡ true
      → is_settled key (c ∷ calls) o ≡ true
  settled_more key c calls (span s) h = refl
  settled_more key c calls (generation g) h = ground arith

  -- Traces that grow by spans stay settled.
  spans-settled :
      (key : String) (calls : List Generating) (ss : List (Span F))
      → All (λ o. is_settled key calls o ≡ true) (map span ss)
  spans-settled key calls [] = tt
  spans-settled key calls (s ∷ ss) = (refl, spans-settled key calls ss)

  pub OnlySpans-settled :
      (key : String) (calls : List Generating) (t u : RequestTrace F) (ss : List (Span F))
      → u.observations ≡ t.observations ++ map span ss
      → IsSettled calls key t
      → IsSettled calls key u
  OnlySpans-settled key calls t u ss e h =
      subst (All (λ o. is_settled key calls o ≡ true)) (sym e)
        (All-append _ t.observations (map span ss) h (spans-settled key calls ss))

  pub on_observation-settled :
      (key id : String) (calls others : List Generating) (h : Generation F → Generation F)
      (os : List (Observation F))
      → ((g : Generation F)
          → str_eq g.id id ≡ true
          → is_settled key calls (generation g) ≡ true
          → is_settled key others (generation (h g)) ≡ true)
      → ((g : Generation F)
          → str_eq g.id id ≡ false
          → is_settled key calls (generation g) ≡ true
          → is_settled key others (generation g) ≡ true)
      → All (λ o. is_settled key calls o ≡ true) os
      → All (λ o. is_settled key others o ≡ true) (map (on_observation id h) os)
  on_observation-settled key id calls others h [] here there all = tt
  on_observation-settled key id calls others h (span s ∷ os) here there all =
      (refl, on_observation-settled key id calls others h os here there all.1)
  on_observation-settled key id calls others h (generation g ∷ os) here there all =
      elim (Bool-cases (str_eq g.id id)) [
        | inl same ↦
            rw same
              (here g same all.0, on_observation-settled key id calls others h os here there all.1)
        | inr other ↦
            rw other (
              there g other all.0,
              on_observation-settled key id calls others h os here there all.1,
            )
      ]

  pub find_generation-settled :
      (key id : String) (calls : List Generating) (g : Generation F) (os : List (Observation F))
      → find_generation id os ≡ some g
      → All (λ o. is_settled key calls o ≡ true) os
      → is_settled key calls (generation g) ≡ true
  find_generation-settled key id calls g [] e h = cc
  find_generation-settled key id calls g (span s ∷ os) e h =
      find_generation-settled key id calls g os e h.1
  find_generation-settled key id calls g (generation g' ∷ os) e h =
      elim (Bool-cases (str_eq g'.id id)) [
        | inl same ↦
            subst (λ x. is_settled key calls (generation x) ≡ true) {x = g'} {y = g} (ground arith)
              h.0
        | inr other ↦ find_generation-settled key id calls g os (rw other at e) h.1
      ]

pub held_drop :
    (key id : String) (c : Generating) (before after : List Generating)
    → holds key id c ≡ false
    → is_held key id (before ++ c ∷ after) ≡ true
    → is_held key id (before ++ after) ≡ true
held_drop key id c [] after h k = ground arith
held_drop key id c (b ∷ before) after h k = ground (arith, held_drop key id c before after)

pub called_drop :
    (request_id : String) (c : Generating) (before after : List Generating)
    → str_eq c.request_id request_id ≡ false
    → is_called request_id (before ++ c ∷ after) ≡ true
    → is_called request_id (before ++ after) ≡ true
called_drop request_id c [] after h k = ground arith
called_drop request_id c (b ∷ before) after h k =
    ground (arith, called_drop request_id c before after)

module _ {V : Type 0} where
  absent_keys : (k : String) (d : Dict V) → contains k d ≡ false → All (λ e. str_eq e.0 k ≡ false) d
  absent_keys k [] h = tt
  absent_keys k ((j, v) ∷ d) h = elim (Bool-cases (str_eq j k)) [
    | inl same ↦ absurd (ground arith)
    | inr other ↦ (other, absent_keys k d (ground arith))
  ]

  All-absent :
      (P Q : String × V → Type 0) (k : String) (d : Dict V)
      → ((e : String × V) → str_eq e.0 k ≡ false → P e → Q e)
      → All (λ e. str_eq e.0 k ≡ false) d
      → All P d
      → All Q d
  All-absent P Q k [] f absent all = tt
  All-absent P Q k (e ∷ d) f absent all = (f e absent.0 all.0, All-absent P Q k d f absent.1 all.1)

  pub All-erase :
      (P Q : String × V → Type 0) (k : String) (d : Dict V)
      → ((e : String × V) → str_eq e.0 k ≡ false → P e → Q e)
      → UniqueKeys d
      → All P d
      → All Q (erase k d)
  All-erase P Q k [] f unique all = tt
  All-erase P Q k ((j, v) ∷ d) f unique all = elim (Bool-cases (str_eq j k)) [
    | inl same ↦
        let gone : contains k d ≡ false =
          subst (λ i. contains i d ≡ false) ((eq_iff j k).0 same) unique.0 in
        rw same (All-absent P Q k d f (absent_keys k d gone) all.1)
    | inr other ↦ rw other (f (j, v) other all.0, All-erase P Q k d f unique.1 all.1)
  ]

  pub All-insert :
      (P : String × V → Type 0) (k : String) (v : V) (d : Dict V)
      → ((j : String) (w : V) → str_eq j k ≡ true → P (j, w))
      → All P d
      → All P (insert k v d)
  All-insert P k v [] f all = (f k v (eq_refl k), tt)
  All-insert P k v ((j, w) ∷ d) f all = elim (Bool-cases (str_eq j k)) [
    | inl same ↦ rw same (f j v same, all.1)
    | inr other ↦ rw other (all.0, All-insert P k v d f all.1)
  ]
