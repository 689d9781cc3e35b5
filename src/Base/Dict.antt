-- ===== src/Base/Dict.antt =====
-- A Python dict with text keys, in insertion order.
use Prim.Native.String.{String}
use mathlib.Core.Path.{◌≡◌, refl, subst, ◌∙◌}
use mathlib.Core.Logic.{inl, inr}
use mathlib.Core.Bool.{Bool, true, false}
use mathlib.Core.Option
use mathlib.Core.Option.{Option, none, some}
use mathlib.Core.List.{List, [], ◌∷◌}
use native.Mathlib.Omega.{arith}
use text.Mathlib.Text.{◌==◌}
use text.Mathlib.TextEquality.{eq_iff}
use vllm_observer.Base.Tests.{if◌then◌else◌, Bool-cases}

abbrev pub Dict {ℓ} : Type ℓ → Type ℓ
Dict V = List (String × V)

module _ {ℓ} {V : Type ℓ} where
  -- `d.get(k)`
  abbrev pub lookup : String → Dict V → Option V
  lookup k [] = none
  lookup k ((j, v) ∷ d) = if j == k then some v else lookup k d

  -- `d.get(k, v)`
  abbrev pub get_or : String → V → Dict V → V
  get_or k v d = elim (lookup k d) [ none ↦ v | some w ↦ w ]

  -- `k in d`
  abbrev pub contains : String → Dict V → Bool
  contains k d = elim (lookup k d) [ none ↦ false | some _ ↦ true ]

  -- `d[k] = v`
  abbrev pub insert : String → V → Dict V → Dict V
  insert k v [] = (k, v) ∷ []
  insert k v ((j, w) ∷ d) = if j == k then (j, v) ∷ d else (j, w) ∷ insert k v d

  -- `d.setdefault(k, v)`, as the new dict
  abbrev pub setdefault : String → V → Dict V → Dict V
  setdefault k v d = elim (lookup k d) [ none ↦ insert k v d | some _ ↦ d ]

  -- `d.pop(k, None)`, as the new dict
  abbrev pub erase : String → Dict V → Dict V
  erase k [] = []
  erase k ((j, w) ∷ d) = if j == k then d else (j, w) ∷ erase k d

  -- A change of the object that `d.get(k)` returns, if there is one.
  abbrev pub modify : String → (V → V) → Dict V → Dict V
  modify k f [] = []
  modify k f ((j, w) ∷ d) = if j == k then (j, f w) ∷ d else (j, w) ∷ modify k f d

  abbrev pub keys : Dict V → List String
  keys [] = []
  keys ((k, v) ∷ d) = k ∷ keys d

  -- `{**d, **e}`
  abbrev pub merge : Dict V → Dict V → Dict V
  merge d [] = d
  merge d ((k, v) ∷ e) = merge (insert k v d) e

  -- No key stands twice.
  abbrev pub UniqueKeys : Dict V → Type 0
  UniqueKeys [] = Unit
  UniqueKeys ((k, v) ∷ d) = (contains k d ≡ false) × UniqueKeys d

  pub lookup-insert :
      (j k : String) (v : V) (d : Dict V)
      → lookup j (insert k v d) ≡ (if k == j then some v else lookup j d)
  lookup-insert j k v [] = refl
  lookup-insert j k v ((i, w) ∷ d) =
      ground (arith, eq_iff k j, eq_iff i k, eq_iff i j, lookup-insert j k v d)

  -- A key of `{**d, **e}` is looked up in `e` first.
  pub lookup-merge :
      (k : String) (d e : Dict V)
      → UniqueKeys e
      → lookup k (merge d e) ≡ elim (lookup k e) [ none ↦ lookup k d | some v ↦ some v ]
  lookup-merge k d [] h = refl
  lookup-merge k d ((j, v) ∷ e) h =
      lookup-merge k (insert j v d) e h.1 ∙ ground (arith, eq_iff j k, lookup-insert k j v d, h.0)

  pub lookup-modify :
      (j k : String) (f : V → V) (d : Dict V)
      → lookup j (modify k f d) ≡ (if k == j then Option.map f (lookup j d) else lookup j d)
  lookup-modify j k f [] = ground arith
  lookup-modify j k f ((i, w) ∷ d) =
      ground (arith, eq_iff k j, eq_iff i k, eq_iff i j, lookup-modify j k f d)

  pub lookup-erase_ne :
      (j k : String) (d : Dict V) → (k == j) ≡ false → lookup j (erase k d) ≡ lookup j d
  lookup-erase_ne j k [] h = refl
  lookup-erase_ne j k ((i, w) ∷ d) h =
      ground (arith, eq_iff k j, eq_iff i k, eq_iff i j, lookup-erase_ne j k d)

  pub lookup-erase_self : (k : String) (d : Dict V) → UniqueKeys d → lookup k (erase k d) ≡ none
  lookup-erase_self k [] h = refl
  lookup-erase_self k ((i, w) ∷ d) h = ground (arith, eq_iff i k, lookup-erase_self k d h.1)

  contains-insert :
      (j k : String) (v : V) (d : Dict V)
      → contains j (insert k v d) ≡ (if k == j then true else contains j d)
  contains-insert j k v d = ground (arith, lookup-insert j k v d)

  contains-modify :
      (j k : String) (f : V → V) (d : Dict V) → contains j (modify k f d) ≡ contains j d
  contains-modify j k f d = ground (arith, lookup-modify j k f d)

  contains-erase :
      (j k : String) (d : Dict V) → contains j d ≡ false → contains j (erase k d) ≡ false
  contains-erase j k [] h = refl
  contains-erase j k ((i, w) ∷ d) h = ground (arith, contains-erase j k d)

  pub insert-UniqueKeys :
      (k : String) (v : V) (d : Dict V) → UniqueKeys d → UniqueKeys (insert k v d)
  insert-UniqueKeys k v [] h = (refl, tt)
  insert-UniqueKeys k v ((i, w) ∷ d) h =
      ground (arith, eq_iff i k, eq_iff k i, insert-UniqueKeys k v d h.1, contains-insert i k v d)

  pub setdefault-UniqueKeys :
      (k : String) (v : V) (d : Dict V) → UniqueKeys d → UniqueKeys (setdefault k v d)
  setdefault-UniqueKeys k v d h = ground (arith, insert-UniqueKeys k v d h)

  pub modify-UniqueKeys :
      (k : String) (f : V → V) (d : Dict V) → UniqueKeys d → UniqueKeys (modify k f d)
  modify-UniqueKeys k f [] h = tt
  modify-UniqueKeys k f ((i, w) ∷ d) h =
      ground (arith, modify-UniqueKeys k f d h.1, contains-modify i k f d)

  pub erase-UniqueKeys : (k : String) (d : Dict V) → UniqueKeys d → UniqueKeys (erase k d)
  erase-UniqueKeys k [] h = tt
  erase-UniqueKeys k ((i, w) ∷ d) h =
      ground (arith, erase-UniqueKeys k d h.1, contains-erase i k d h.0)

  -- What holds of every value holds after an update that keeps it.
  abbrev pub AllValues {κ} : (V → Type κ) → Dict V → Type κ
  AllValues P [] = Unit
  AllValues P ((k, v) ∷ d) = P v × AllValues P d

  pub lookup-AllValues {κ} :
      (P : V → Type κ) (k : String) (v : V) (d : Dict V) → AllValues P d → lookup k d ≡ some v → P v
  lookup-AllValues P k v [] h e = cc
  lookup-AllValues P k v ((i, w) ∷ d) h e = elim (Bool-cases (i == k)) [
    | inl same ↦ subst P {x = w} (ground arith) h.0
    | inr other ↦ lookup-AllValues P k v d h.1 (rw other at e)
  ]

  pub insert-AllValues {κ} :
      (P : V → Type κ) (k : String) (v : V) (d : Dict V)
      → AllValues P d
      → P v
      → AllValues P (insert k v d)
  insert-AllValues P k v [] h p = (p, tt)
  insert-AllValues P k v ((i, w) ∷ d) h p = elim (Bool-cases (i == k)) [
    | inl same ↦ rw same (p, h.1)
    | inr other ↦ rw other (h.0, insert-AllValues P k v d h.1 p)
  ]

  pub modify-AllValues {κ} :
      (P : V → Type κ) (k : String) (f : V → V) (d : Dict V)
      → ((v : V) → P v → P (f v))
      → AllValues P d
      → AllValues P (modify k f d)
  modify-AllValues P k f [] keep h = tt
  modify-AllValues P k f ((i, w) ∷ d) keep h = elim (Bool-cases (i == k)) [
    | inl same ↦ rw same (keep w h.0, h.1)
    | inr other ↦ rw other (h.0, modify-AllValues P k f d keep h.1)
  ]

  pub erase-AllValues {κ} :
      (P : V → Type κ) (k : String) (d : Dict V) → AllValues P d → AllValues P (erase k d)
  erase-AllValues P k [] h = tt
  erase-AllValues P k ((i, w) ∷ d) h = elim (Bool-cases (i == k)) [
    | inl same ↦ rw same h.1
    | inr other ↦ rw other (h.0, erase-AllValues P k d h.1)
  ]
