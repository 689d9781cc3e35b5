-- ===== src/Adapter/Piggyback.antt =====
-- `observed_output` of src/vllm_observer/adapter.py: what the API server reads from the headers of a
-- request's last output, against what the EngineCore process wrote there.
use vllm_observer.Base.{
  ◌≡◌, refl, ◌∙◌, String, Bool, true, false, Option, none, some, [], ◌∷◌, if◌then◌else◌,
}
use vllm_observer.Base.Dict.{Dict, lookup, contains, merge, insert, lookup-merge, lookup-insert}
use vllm_observer.Engine.Registry.{or_else}
use vllm_observer.Engine.Clock.{
  clock_mono, clock_unix, clock_error, Calibration, calibration_headers, stamp_output,
}
use vllm_observer.Engine.Output.{Output, stages_header, set_header}

-- `raw._observer_clock` and `raw._observer_stages`, as the call leaves them.
pub record Piggyback : Type 0 where
  pub clock : Option (Dict String)
  pub stages : Option String

-- The three entries of the clock; none is the `KeyError`.
unfoldable pub clock_entries : Dict String → Option (Dict String)
clock_entries headers =
    entries (lookup clock_mono headers) (lookup clock_unix headers) (lookup clock_error headers)
  where
    entries : Option String → Option String → Option String → Option (Dict String)
    entries (some mono) (some unix) (some error) =
        some ((clock_mono, mono) ∷ (clock_unix, unix) ∷ (clock_error, error) ∷ [])
    entries _ _ _ = none

abbrev read_stages : Dict String → Piggyback → Piggyback
read_stages headers p = elim (lookup stages_header headers) [
  | none ↦ p
  | some payload ↦ record p { stages = some payload }
]

-- `observed_output` on the headers of an output, from the attributes that `raw` has before.
unfoldable pub read_headers : Bool → Dict String → Piggyback → Piggyback
unfolding clock_entries
read_headers false headers p = p
read_headers true headers p =
    if contains clock_mono headers
    then elim (clock_entries headers) [
      | none ↦ p
      | some clock ↦ read_stages headers (record p { clock = some clock })
    ]
    else read_stages headers p

unfoldable pub observed_output : Output String → Piggyback → Piggyback
unfolding read_headers
observed_output output p = read_headers output.finished (or_else output.trace_headers []) p

read_all :
    (headers : Dict String) (c : Calibration) (payload : String) (p : Piggyback)
    → lookup clock_mono headers ≡ some c.mono
    → lookup clock_unix headers ≡ some c.unix
    → lookup clock_error headers ≡ some c.error
    → lookup stages_header headers ≡ some payload
    → read_headers true headers p
      ≡ record { clock = some (calibration_headers c); stages = some payload }
unfolding read_headers clock_entries
read_all headers c payload p mono unix error stages =
    rw (contains, mono) (rw unix (rw error (rw (read_stages, stages) refl)))

-- Every key of the calibration is read as it was stamped, every other one as it was before.
lookup-stamped :
    (key payload : String) (c : Calibration) (old : Dict String)
    → lookup key (merge (insert stages_header payload old) (calibration_headers c))
      ≡ elim (lookup key (calibration_headers c)) [
        | none ↦ lookup key (insert stages_header payload old)
        | some v ↦ some v
      ]
lookup-stamped key payload c old =
    lookup-merge key (insert stages_header payload old) (calibration_headers c)
      (refl, (refl, (refl, tt)))

-- What the engine attaches to a finished output comes out as it was: the payload of the stages, and the
-- three texts of the calibration, whatever other headers the output has.
pub observed_output-stamp_output :
    (c : Calibration) (payload : String) (output : Output String) (p : Piggyback)
    → output.finished ≡ true
    → observed_output (stamp_output c (set_header (some payload) output)) p
      ≡ record { clock = some (calibration_headers c); stages = some payload }
unfolding observed_output stamp_output
observed_output-stamp_output c payload output p finished =
    let old = or_else output.trace_headers [] in
    rw finished (
      read_all (merge (insert stages_header payload old) (calibration_headers c)) c payload p
        (lookup-stamped clock_mono payload c old) (lookup-stamped clock_unix payload c old)
        (lookup-stamped clock_error payload c old)
        (lookup-stamped stages_header payload c old
          ∙ lookup-insert stages_header stages_header payload old))
