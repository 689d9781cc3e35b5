-- ===== src/Middleware/Headers.antt =====
-- `header_value` and `get_trace_id` of src/vllm_observer/middleware.py. A header's name and value are
-- bytes, written here as the texts that they decode to as latin1.
pub mod Identity
use Prim.Native.Char.{Char, code}
use Prim.Native.String
use vllm_observer.Base.{
  ℕ, zero, suc, ◌+◌, String, Bool, true, false, not, ◌&&◌, ◌||◌, Option, none, some, List, [], ◌∷◌,
  map, leb, ◌==◌, if◌then◌else◌, str_eq,
}

-- `headers` of an ASGI scope or message
abbrev pub Headers : Type 0
Headers = List (String × String)

abbrev pub codes : String → List ℕ
codes String.[] = []
codes (String.◌∷◌ c s) = code c ∷ codes s

abbrev same_codes : List ℕ → List ℕ → Bool
same_codes [] [] = true
same_codes (a ∷ xs) (b ∷ ys) = (a == b) && same_codes xs ys
same_codes _ _ = false

-- One byte of `bytes.lower`.
unfoldable pub lower : ℕ → ℕ
lower c = if leb 65 c && leb c 90 then c + 32 else c

-- `key.lower() == name`
unfoldable pub is_named : String → String → Bool
unfolding lower
is_named name key = same_codes (map lower (codes key)) (codes name)

-- `header_value`: the first header of that name.
unfoldable pub header_value : Headers → String → Option String
unfolding is_named
header_value [] name = none
header_value ((key, value) ∷ headers) name =
    if is_named name key then some value else header_value headers name

abbrev any_named : Headers → String → Bool
any_named [] name = false
any_named ((key, _) ∷ headers) name = is_named name key || any_named headers name

-- `values.get(name, "")`, where a later header of a name replaces an earlier one.
unfoldable pub last_value : Headers → String → String
unfolding is_named
last_value [] name = ""
last_value ((key, value) ∷ headers) name =
    let rest = last_value headers name in
    if is_named name key && not (any_named headers name) then value else rest

-- `[0-9a-f]`
unfoldable pub is_hex : Char → Bool
is_hex c = leb 48 (code c) && leb (code c) 57 || leb 97 (code c) && leb (code c) 102

-- `([0-9a-f]{n})` at the start of a text, with the rest.
unfoldable pub take_hex : ℕ → String → Option (String × String)
unfolding is_hex
take_hex zero s = some (String.[], s)
take_hex (suc n) String.[] = none
take_hex (suc n) (String.◌∷◌ c s) =
    let rest = take_hex n s in
    if is_hex c
    then elim rest [ none ↦ none | some (digits, s') ↦ some (String.◌∷◌ c digits, s') ]
    else none

-- One given character at the start of a text.
abbrev pub skip : ℕ → String → Option String
skip n String.[] = none
skip n (String.◌∷◌ c s) = if code c == n then some s else none

-- `int(text, 16)` as a condition
abbrev pub is_nonzero : String → Bool
is_nonzero String.[] = false
is_nonzero (String.◌∷◌ c s) = not (code c == 48) || is_nonzero s

abbrev pub is_end : String → Bool
is_end String.[] = true
is_end (String.◌∷◌ _ _) = false

infixl 20 ◌>>=◌
unfoldable pub ◌>>=◌ : {A B : Type 0} → Option A → (A → Option B) → Option B
none >>= f = none
some a >>= f = f a

-- `00-`, the start of `TRACE_PARENT`
unfoldable pub version : String → Option String
unfolding ◌>>=◌
version text = do s ← skip 48 text; s' ← skip 48 s; skip 45 s'

-- Its end, `-([0-9a-f]{16})-[0-9a-f]{2}`, with the group
unfoldable pub span_group : String → Option String
unfolding take_hex ◌>>=◌
span_group text = do
  s ← skip 45 text
  (span_id, s') ← take_hex 16 s
  s'' ← skip 45 s'
  (flags, rest) ← take_hex 2 s''
  if is_end rest then some span_id else none

abbrev pub with_span : String → Option String → Option (String × String)
with_span trace_id none = none
with_span trace_id (some span_id) = some (trace_id, span_id)

unfoldable pub after_id : Option (String × String) → Option (String × String)
unfolding span_group
after_id none = none
after_id (some (trace_id, rest)) = with_span trace_id (span_group rest)

unfoldable pub after_version : Option String → Option (String × String)
unfolding take_hex after_id
after_version none = none
after_version (some text) = after_id (take_hex 32 text)

-- `TRACE_PARENT.fullmatch`, with its two groups
unfoldable pub trace_parent : String → Option (String × String)
unfolding version after_version
trace_parent text = after_version (version text)

-- `TRACE_ID.fullmatch`
unfoldable pub is_trace_id : String → Bool
unfolding take_hex
is_trace_id text = elim (take_hex 32 text) [ none ↦ false | some (_, rest) ↦ is_end rest ]

-- `get_trace_id`; `fresh` is the identifier that `uuid4` gives.
unfoldable pub get_trace_id : String → Headers → String
unfolding trace_parent is_trace_id last_value
get_trace_id fresh headers =
    let candidate = last_value headers "x-trace-id" in
    let own = if is_trace_id candidate && is_nonzero candidate then candidate else fresh in
    elim (trace_parent (last_value headers "traceparent")) [
      | none ↦ own
      | some (trace_id, span_id) ↦
          if is_nonzero trace_id && is_nonzero span_id then trace_id else own
    ]

-- The loop of `__call__` that takes the parent span from the headers.
unfoldable pub parent_span : String → Headers → Option String → Option String
unfolding trace_parent is_named
parent_span trace_id [] found = found
parent_span trace_id ((key, value) ∷ headers) found =
    parent_span trace_id headers
      (if is_named "traceparent" key then accept (trace_parent value) else found)
  where
    accept : Option (String × String) → Option String
    accept none = found
    accept (some (id, span_id)) =
        if str_eq id trace_id && is_nonzero span_id then some span_id else found
