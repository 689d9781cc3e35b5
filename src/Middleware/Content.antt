-- ===== src/Middleware/Content.antt =====
-- `_parse_request` and `_parse_response` of src/vllm_observer/middleware.py, on captured bodies.
use Prim.Native.Char.{Char, code}
use Prim.Native.String
use vllm_observer.Base.{
  ℕ, zero, String, Bool, true, false, not, ◌&&◌, ◌||◌, Option, none, some, List, [], ◌∷◌, leb, ◌==◌,
  if◌then◌else◌, str_eq,
}
use vllm_observer.Base.Int.{pos}
use vllm_observer.Base.Float.{Float}
use vllm_observer.Base.Json.{Json, Items, Fields}
use vllm_observer.Base.Dict.{Dict, lookup, merge}
use vllm_observer.Base.Outcome.{Outcome, ret, raise}

abbrev pub Bytes : Type 0
Bytes = List ℕ

-- What the parsers use of the standard library: `decode("utf-8")`, which can fail, the same with
-- "replace", and `json.loads`, which can fail.
pub record Codec (F : Type 0) : Type 0 where
  pub decode : Bytes → Option String
  pub decode_replace : Bytes → String
  pub loads : String → Option (Json F)

-- `AttributeError`, `KeyError` or `TypeError` on a value of an unexpected shape.
pub data ShapeError : Type 0 where
  unexpected_shape : ShapeError

infixl 20 ◌>>=◌
abbrev ◌>>=◌ :
    {A B : Type 0} → Outcome ShapeError A → (A → Outcome ShapeError B) → Outcome ShapeError B
ret a >>= f = f a
raise x >>= f = raise x

-- White space, as `str.strip` removes it.
unfoldable pub is_space : ℕ → Bool
is_space c =
    leb 9 c && leb c 13
    || leb 28 c && leb c 32
    || c == 133
    || c == 160
    || c == 5760
    || leb 8192 c && leb c 8202
    || c == 8232
    || c == 8233
    || c == 8239
    || c == 8287
    || c == 12288

-- The ends of lines of `str.splitlines`.
unfoldable pub is_break : ℕ → Bool
is_break c = leb 10 c && leb c 13 || leb 28 c && leb c 30 || c == 133 || c == 8232 || c == 8233

unfoldable pub lstrip : String → String
unfolding is_space
lstrip String.[] = String.[]
lstrip (String.◌∷◌ c s) = let rest = lstrip s in if is_space (code c) then rest else String.◌∷◌ c s

unfoldable pub rstrip : String → String
unfolding is_space
rstrip String.[] = String.[]
rstrip (String.◌∷◌ c s) = keep c (rstrip s)
  where
    keep : Char → String → String
    keep a String.[] = if is_space (code a) then String.[] else String.◌∷◌ a String.[]
    keep a (String.◌∷◌ b t) = String.◌∷◌ a (String.◌∷◌ b t)

abbrev onto_first : Char → List String → List String
onto_first c [] = String.◌∷◌ c String.[] ∷ []
onto_first c (line ∷ lines) = String.◌∷◌ c line ∷ lines

-- `splitlines` behind a carriage return, if `after_return`: a line feed then belongs to it.
unfoldable pub splitlines : Bool → String → List String
unfolding is_break
splitlines after_return String.[] = []
splitlines after_return (String.◌∷◌ c s) =
    let same_line = splitlines false s in
    let next_line = splitlines (code c == 13) s in
    if after_return && (code c == 10)
    then same_line
    else (if is_break (code c) then String.[] ∷ next_line else onto_first c same_line)

-- The text behind a prefix, if the text starts with it.
unfoldable pub after_prefix : String → String → Option String
after_prefix String.[] s = some s
after_prefix (String.◌∷◌ c p) String.[] = none
after_prefix (String.◌∷◌ c p) (String.◌∷◌ d s) =
    let rest = after_prefix p s in if code c == code d then rest else none

module _ {F : Type 0} ⦃f : Float F⦄ where
  unfoldable pub fields_dict : Fields F → Dict (Json F)
  fields_dict Fields.end = []
  fields_dict (Fields.field key value fields) = (key, value) ∷ fields_dict fields

  -- A value as a condition.
  unfoldable pub is_truthy : Json F → Bool
  is_truthy Json.null = false
  is_truthy (Json.bool b) = b
  is_truthy (Json.int (pos zero)) = false
  is_truthy (Json.int n) = true
  is_truthy (Json.float x) = f.lt x f.zero || f.lt f.zero x
  is_truthy (Json.str s) = not (str_eq s "")
  is_truthy (Json.arr Items.nil) = false
  is_truthy (Json.arr (Items.cons x xs)) = true
  is_truthy (Json.obj Fields.end) = false
  is_truthy (Json.obj (Fields.field key value fields)) = true

  -- `value.get(key)`; None is the JSON null.
  unfoldable pub get : String → Json F → Outcome ShapeError (Json F)
  unfolding fields_dict
  get key (Json.obj fields) =
      ret (elim (lookup key (fields_dict fields)) [ none ↦ Json.null | some value ↦ value ])
  get key _ = raise unexpected_shape

  -- `value[0]` of a value that is true as a condition; a text gives a text, whose `get` raises.
  unfoldable pub first_of : Json F → Outcome ShapeError (Json F)
  first_of (Json.arr (Items.cons x xs)) = ret x
  first_of _ = raise unexpected_shape

  -- `value or {}`
  abbrev pub or_dict : Json F → Json F
  or_dict value = elim (is_truthy value) [ true ↦ value | false ↦ Json.obj Fields.end ]

  -- `(choices[0].get(key) or {}).get("content")`
  unfoldable pub choice_content : String → Json F → Outcome ShapeError (Json F)
  unfolding get first_of is_truthy
  choice_content key choices = do
    first ← first_of choices
    part ← get key first
    get "content" (or_dict part)

  -- None where the value is the JSON null.
  abbrev pub or_none : Json F → Option (Json F)
  or_none Json.null = none
  or_none value = some value

  module _ (codec : Codec F) where
    -- `_parse_request`
    unfoldable pub parse_request : Bytes → String → Dict (Json F)
    unfolding fields_dict
    parse_request raw route =
        let routed : Dict (Json F) = ("route", Json.str route) ∷ [] in
        let with_body = λ (body : Json F). ("route", Json.str route) ∷ ("body", body) ∷ [] in
        shaped routed with_body raw
      where
        parsed : Dict (Json F) → (Json F → Dict (Json F)) → Bytes → Option (Json F) → Dict (Json F)
        parsed routed with_body raw none = with_body (Json.str (codec.decode_replace raw))
        parsed routed with_body raw (some (Json.obj fields)) = merge routed (fields_dict fields)
        parsed routed with_body raw (some value) = with_body value

        shaped : Dict (Json F) → (Json F → Dict (Json F)) → Bytes → Dict (Json F)
        shaped routed with_body [] = routed
        shaped routed with_body (b ∷ raw) = elim (codec.decode (b ∷ raw)) [
          | none ↦ parsed routed with_body (b ∷ raw) none
          | some text ↦ parsed routed with_body (b ∷ raw) (codec.loads text)
        ]

    -- The body of one response that is not streamed.
    unfoldable pub parse_plain : String → Outcome ShapeError (Option (Json F))
    unfolding get is_truthy choice_content
    parse_plain text = elim (codec.loads text) [
      | none ↦ ret (some (Json.str text))
      | some value ↦ do
        choices ← get "choices" value
        content ←
            if is_truthy choices then choice_content "message" choices else get "content" value
        ret (or_none content)
    ]

    -- One event of a streamed response: the content that is appended to `parts`, if any.
    unfoldable pub parse_chunk : Json F → Outcome ShapeError (Option (Json F))
    unfolding get is_truthy choice_content
    parse_chunk chunk = do
      choices ← get "choices" chunk
      content ← if is_truthy choices then choice_content "delta" choices else ret Json.null
      ret (if is_truthy content then some content else none)

    -- The payload of a line of the stream, parsed; none where the loop goes on without it.
    unfoldable pub payload_of : String → Option (Json F)
    unfolding after_prefix lstrip rstrip
    payload_of line = elim (after_prefix "data:" line) [
      | none ↦ none
      | some rest ↦
          let payload = rstrip (lstrip rest) in
          if str_eq payload "" || str_eq payload "[DONE]" then none else codec.loads payload
    ]

    -- The loop over the lines.
    unfoldable pub parts_of : List String → Outcome ShapeError (List (Json F))
    unfolding payload_of parse_chunk
    parts_of [] = ret []
    parts_of (line ∷ lines) =
        let rest = parts_of lines in
        elim (payload_of line) [
          | none ↦ rest
          | some chunk ↦ do
            content ← parse_chunk chunk
            parts ← rest
            ret (elim content [ none ↦ parts | some part ↦ part ∷ parts ])
        ]

  -- `"".join(parts)`
  unfoldable pub join : List (Json F) → Outcome ShapeError String
  join [] = ret String.[]
  join (Json.str s ∷ parts) = do rest ← join parts; ret (String.◌++◌ s rest)
  join (_ ∷ parts) = raise unexpected_shape

  module _ (codec : Codec F) where
    abbrev text_or_none : String → Option (Json F)
    text_or_none String.[] = none
    text_or_none (String.◌∷◌ c s) = some (Json.str (String.◌∷◌ c s))

    -- `_parse_response`: what it returns need not be a text.
    unfoldable pub parse_response : Bytes → Outcome ShapeError (Option (Json F))
    unfolding parse_plain parts_of join splitlines lstrip after_prefix
    parse_response [] = ret none
    parse_response (b ∷ raw) =
        let text = codec.decode_replace (b ∷ raw) in
        elim (after_prefix "data:" (lstrip text)) [
          | none ↦ parse_plain codec text
          | some _ ↦ do
            parts ← parts_of codec (splitlines false text)
            content ← join parts
            ret (text_or_none content)
        ]
