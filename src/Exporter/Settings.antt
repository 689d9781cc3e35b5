-- ===== src/Exporter/Settings.antt =====
-- The settings of src/vllm_observer/exporter.py, read from the environment, and the conversion of
-- attributes to milliseconds.
pub mod Fallbacks
use Prim.Native.Char.{Char, code}
use Prim.Native.String
use vllm_observer.Base.{
  String, Bool, true, false, not, ◌&&◌, ◌||◌, Option, none, some, List, [], ◌∷◌, ◌==◌,
  if◌then◌else◌, str_eq,
}
use vllm_observer.Base.Int.{ℤ}
use vllm_observer.Base.Float.{Float}
use vllm_observer.Base.Json.{Json}
use vllm_observer.Base.Dict.{Dict, insert}

-- `os.getenv`
abbrev pub Environment : Type 0
Environment = String → Option String

-- The constants 0.01, 0.1 and 1.0, Python's `float(text)`, none where it raises, `float(n)`, and the
-- products and the quotient that the settings use.
pub record Decimals (F : Type 0) : Type 0 where
  pub hundredth : F
  pub tenth : F
  pub one : F
  pub to_float : String → Option F
  pub of_int : ℤ → F
  pub thousandth_of : F → F
  pub thousandfold : F → F
  pub millionth_of : F → F

-- `a or b`
abbrev pub text_or : Option String → Option String → Option String
text_or none other = other
text_or (some text) other = if str_eq text "" then other else some text

abbrev pub default : String → Option String → String
default text none = text
default text (some given) = given

abbrev pub is_set : Option String → Bool
is_set none = false
is_set (some _) = true

abbrev pub slow_ms : String
slow_ms = "OBSERVER_TPOT_SLOW_MS"

abbrev pub slow_seconds : String
slow_seconds = "OBSERVER_TPOT_SLOW_SECONDS"

module _ {F : Type 0} ⦃f : Float F⦄ (decimals : Decimals F) where
  abbrev rate_of : Option F → F
  rate_of none = decimals.hundredth
  rate_of (some rate) =
      if f.le f.zero rate && f.le rate decimals.one then rate else decimals.hundredth

  unfoldable pub langfuse_sample_rate : Environment → F
  langfuse_sample_rate env =
      rate_of (decimals.to_float (default "0.01" (env "OBSERVER_LANGFUSE_SAMPLE_RATE")))

  abbrev threshold_of : Bool → Option F → F
  threshold_of legacy none = decimals.tenth
  threshold_of legacy (some value) =
      if f.le value f.zero
      then decimals.tenth
      else (if legacy then value else decimals.thousandth_of value)

  unfoldable pub tpot_threshold_seconds : Environment → F
  tpot_threshold_seconds env =
      let raw = default "100" (text_or (env slow_ms) (some (default "100" (env slow_seconds)))) in
      threshold_of (not (is_set (env slow_ms)) && not (str_eq raw "100")) (decimals.to_float raw)

  -- The text before a suffix, if the text ends with it.
  unfoldable pub before_suffix : String → String → Option String
  before_suffix suffix String.[] = if str_eq suffix "" then some String.[] else none
  before_suffix suffix (String.◌∷◌ c s) =
      let rest = before_suffix suffix s in
      if str_eq (String.◌∷◌ c s) suffix
      then some String.[]
      else elim rest [ none ↦ none | some start ↦ some (String.◌∷◌ c start) ]

  -- A number other than a Boolean, as a float.
  abbrev number : Json F → Option F
  number (Json.int n) = some (decimals.of_int n)
  number (Json.float x) = some x
  number _ = none

  unfoldable pub to_milliseconds : String → Json F → String × Json F
  unfolding before_suffix
  to_milliseconds key value = elim (number value) [
    | none ↦ (key, value)
    | some x ↦ elim (before_suffix "_seconds" key) [
      | some start ↦ (String.◌++◌ start "_ms", Json.float (decimals.thousandfold x))
      | none ↦ elim (before_suffix "_ns" key) [
        | some start ↦ (String.◌++◌ start "_ms", Json.float (decimals.millionth_of x))
        | none ↦ (key, value)
      ]
    ]
  ]

  abbrev from_pairs : Dict (Json F) → Dict (Json F) → Dict (Json F)
  from_pairs d [] = d
  from_pairs d ((key, value) ∷ pairs) =
      let pair = to_milliseconds key value in from_pairs (insert pair.0 pair.1 d) pairs

  unfoldable pub milliseconds_metadata : Dict (Json F) → Dict (Json F)
  unfolding to_milliseconds
  milliseconds_metadata metadata = from_pairs [] metadata

-- `text.rstrip("/")`
unfoldable pub rstrip_slash : String → String
rstrip_slash String.[] = String.[]
rstrip_slash (String.◌∷◌ c s) = keep c (rstrip_slash s)
  where
    keep : Char → String → String
    keep a String.[] = if code a == 47 then String.[] else String.◌∷◌ a String.[]
    keep a (String.◌∷◌ b t) = String.◌∷◌ a (String.◌∷◌ b t)

-- `langfuse_base_url`; none is the `ValueError`.
unfoldable pub langfuse_base_url : Environment → Option String
unfolding rstrip_slash
langfuse_base_url env =
    let base =
      rstrip_slash (default "" (text_or (env "LANGFUSE_BASE_URL") (env "LANGFUSE_HOST"))) in
    if str_eq base "" then none else some base
