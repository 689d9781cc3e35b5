-- ===== src/Middleware/Headers/Identity.antt =====
-- The trace identifier that a request of src/vllm_observer/middleware.py gets.
use Prim.Native.Char.{Char, code}
use Prim.Native.String.{◌++◌}
use text.Mathlib.TextLemmas.{cons-append, nil-append}
use vllm_observer.Base.{
  All, length, leb, true, ◌≤◌, ◌⊎◌, ℕ, zero, suc, ◌≡◌, refl, sym, ap, String, Bool, false, subst,
  ◌&&◌, Option, none, some, arith, if◌then◌else◌, Bool-cases, Option-cases, inl, inr,
}
use vllm_observer.Middleware.Headers.{
  Headers, codes, is_end, is_hex, take_hex, is_nonzero, version, after_version, after_id, with_span,
  span_group, trace_parent, is_trace_id, last_value, get_trace_id, ◌>>=◌,
}

-- The code of a digit, or of a letter from a to f.
abbrev pub IsDigit : ℕ → Type 0
IsDigit n = ((48 ≤ n) × (n ≤ 57)) ⊎ ((97 ≤ n) × (n ≤ 102))

-- A text of `n` lower-case hexadecimal digits.
abbrev pub AreDigits : ℕ → String → Type 0
AreDigits n text = (length (codes text) ≡ n) × All IsDigit (codes text)

-- 32 lower-case hexadecimal digits, of which some are not zero.
abbrev pub IsTraceId : String → Type 0
IsTraceId id = AreDigits 32 id × ¬ All (λ n. n ≡ 48) (codes id)

abbrev pub IsHex : ℕ → String → Type 0
IsHex n s = take_hex n s ≡ some (s, String.[])

-- What a text that begins with `n + 1` digits is.
take_hex-cons :
    (n : ℕ) (c : Char) (s digits rest : String)
    → take_hex (suc n) (String.◌∷◌ c s) ≡ some (digits, rest)
    → (ds : String) × (is_hex c ≡ true)
      × (take_hex n s ≡ some (ds, rest))
      × (digits ≡ String.◌∷◌ c ds)
unfolding take_hex
take_hex-cons n c s digits rest e = elim (Bool-cases (is_hex c)) [
  | inl digit ↦ elim (Option-cases (take_hex n s)) [
    | inl short ↦ absurd (ground arith)
    | inr ((ds, r), taken) ↦ (ds, digit, ground arith, ground arith)
  ]
  | inr other ↦ absurd (ground arith)
]

take_hex_on :
    (n : ℕ) (c : Char) (s ds rest : String)
    → is_hex c ≡ true
    → take_hex n s ≡ some (ds, rest)
    → take_hex (suc n) (String.◌∷◌ c s) ≡ some (String.◌∷◌ c ds, rest)
unfolding take_hex
take_hex_on n c s ds rest digit taken = ground arith

take_hex-IsHex :
    (n : ℕ) (s digits rest : String) → take_hex n s ≡ some (digits, rest) → IsHex n digits
unfolding take_hex
take_hex-IsHex zero s digits rest e = ground arith
take_hex-IsHex (suc n) String.[] digits rest e = absurd (ground arith)
take_hex-IsHex (suc n) (String.◌∷◌ c s) digits rest e =
    let (ds, digit, taken, same) = take_hex-cons n c s digits rest e in
    subst (IsHex (suc n)) (sym same)
      (take_hex_on n c ds ds String.[] digit (take_hex-IsHex n s ds rest taken))

take_hex-append :
    (n : ℕ) (digits rest : String)
    → IsHex n digits
    → take_hex n (digits ++ rest) ≡ some (digits, rest)
unfolding take_hex
take_hex-append zero digits rest e = ground (arith, nil-append rest)
take_hex-append (suc n) String.[] rest e = absurd (ground arith)
take_hex-append (suc n) (String.◌∷◌ c s) rest e =
    let (ds, digit, taken, same) = take_hex-cons n c s (String.◌∷◌ c s) String.[] e in
    let hex : IsHex n s = ground arith in
    rw (cons-append c s rest)
      (take_hex_on n c (s ++ rest) s rest digit (take_hex-append n s rest hex))

with_span_lem :
    (i id span_id : String) (group : Option String)
    → with_span i group ≡ some (id, span_id)
    → i ≡ id
with_span_lem i id span_id none e = absurd (ground arith)
with_span_lem i id span_id (some p) e = ground arith

after_id_lem :
    (taken : Option (String × String)) (id span_id : String)
    → after_id taken ≡ some (id, span_id)
    → (rest : String) × (taken ≡ some (id, rest))
unfolding after_id
after_id_lem none id span_id e = absurd (ground arith)
after_id_lem (some (i, rest)) id span_id e =
    (rest, ap (λ x. some (x, rest)) (with_span_lem i id span_id (span_group rest) e))

after_version_lem :
    (text : Option String) (id span_id : String)
    → after_version text ≡ some (id, span_id)
    → IsHex 32 id
unfolding after_version
after_version_lem none id span_id e = absurd (ground arith)
after_version_lem (some text) id span_id e =
    let (rest, taken) = after_id_lem (take_hex 32 text) id span_id e in
    take_hex-IsHex 32 text id rest taken

trace_parent_lem : (text id span_id : String) → trace_parent text ≡ some (id, span_id) → IsHex 32 id
unfolding trace_parent
trace_parent_lem text id span_id e = after_version_lem (version text) id span_id e

is_hex-IsDigit : (c : Char) → is_hex c ≡ true → IsDigit (code c)
unfolding is_hex
is_hex-IsDigit c h = elim (Bool-cases (leb 48 (code c) && leb (code c) 57)) [
  | inl digit ↦ inl (ground arith, ground arith)
  | inr other ↦ inr (ground arith, ground arith)
]

abbrev ends_there : Option (String × String) → Bool
ends_there none = true
ends_there (some (digits, rest)) = is_end rest

-- A text of which nothing is left behind `n` digits is those digits.
take_hex-AreDigits :
    (n : ℕ) (s digits : String) → take_hex n s ≡ some (digits, String.[]) → AreDigits n s
unfolding take_hex
take_hex-AreDigits zero String.[] digits e = (refl, tt)
take_hex-AreDigits zero (String.◌∷◌ c s) digits e =
    let more : false ≡ true = ap ends_there e in absurd (ground arith)
take_hex-AreDigits (suc n) String.[] digits e = absurd (ground arith)
take_hex-AreDigits (suc n) (String.◌∷◌ c s) digits e =
    let (ds, digit, taken, same) = take_hex-cons n c s digits String.[] e in
    let (l, all) = take_hex-AreDigits n s ds taken in (ap suc l, (is_hex-IsDigit c digit, all))

pub is_trace_id-AreDigits : (id : String) → is_trace_id id ≡ true → AreDigits 32 id
unfolding is_trace_id
is_trace_id-AreDigits id h = elim (Option-cases (take_hex 32 id)) [
  | inl short ↦ absurd (ground arith)
  | inr ((digits, rest), taken) ↦ whole digits rest taken (ground arith)
]
  where
    whole :
        (digits rest : String)
        → take_hex 32 id ≡ some (digits, rest)
        → is_end rest ≡ true
        → AreDigits 32 id
    whole digits String.[] taken ends = take_hex-AreDigits 32 id digits taken
    whole digits (String.◌∷◌ c rest) taken ends = absurd (ground arith)

pub is_nonzero_lem : (s : String) → is_nonzero s ≡ true → ¬ All (λ n. n ≡ 48) (codes s)
is_nonzero_lem String.[] h zeros = absurd (ground arith)
is_nonzero_lem (String.◌∷◌ c s) h zeros = is_nonzero_lem s (ground (arith, zeros.0)) zeros.1

own_IsTraceId :
    (fresh candidate : String)
    → IsTraceId fresh
    → IsTraceId (if is_trace_id candidate && is_nonzero candidate then candidate else fresh)
own_IsTraceId fresh candidate h =
    elim (Bool-cases (is_trace_id candidate && is_nonzero candidate)) [
      | inl good ↦
          rw good (
            is_trace_id-AreDigits candidate (ground arith),
            is_nonzero_lem candidate (ground arith),
          )
      | inr bad ↦ rw bad h
    ]

-- Whatever the headers are, the trace identifier of a request is 32 lower-case hexadecimal digits that
-- are not all zero, if the identifier that `uuid4` gives is.
pub get_trace_id-IsTraceId :
    (fresh : String) (headers : Headers) → IsTraceId fresh → IsTraceId (get_trace_id fresh headers)
unfolding get_trace_id
get_trace_id-IsTraceId fresh headers h =
    elim (Option-cases (trace_parent (last_value headers "traceparent"))) [
      | inl none_given ↦
          rw (none_given, get_trace_id) (own_IsTraceId fresh (last_value headers "x-trace-id") h)
      | inr ((id, span_id), given) ↦ elim (Bool-cases (is_nonzero id && is_nonzero span_id)) [
        | inl good ↦
            rw (given, get_trace_id)
              (rw good (
                take_hex-AreDigits 32 id id
                    (trace_parent_lem (last_value headers "traceparent") id span_id given),
                is_nonzero_lem id (ground arith),
              ))
        | inr bad ↦
            rw (given, get_trace_id)
              (rw bad (own_IsTraceId fresh (last_value headers "x-trace-id") h))
      ]
    ]

-- `00-{id}-{span_id}-{flags}`
abbrev pub printed : String → String → String → String
printed id span_id flags =
    let dash : Char = "-" in
    let zero_digit : Char = "0" in
    String.◌∷◌ zero_digit (
      String.◌∷◌ zero_digit
        (String.◌∷◌ dash (id ++ String.◌∷◌ dash (span_id ++ String.◌∷◌ dash flags))))

-- A `traceparent` header that is written for a trace of 32, a span of 16 and flags of 2
-- lower-case hexadecimal digits is read back as that trace and that span.
pub trace_parent-printed :
    (id span_id flags : String)
    → IsHex 32 id
    → IsHex 16 span_id
    → IsHex 2 flags
    → trace_parent (printed id span_id flags) ≡ some (id, span_id)
unfolding trace_parent version after_version after_id span_group ◌>>=◌
trace_parent-printed id span_id flags h k l =
    let dash : Char = "-" in
    rw (after_version, take_hex-append 32 id (String.◌∷◌ dash (span_id ++ String.◌∷◌ dash flags)) h)
      (rw (span_group, take_hex-append 16 span_id (String.◌∷◌ dash flags) k) (rw l refl))
