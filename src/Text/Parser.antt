-- ===== src/Text/Parser.antt =====
-- `_Parser` of jsonparse.py under the wire profile. The nesting and the sizes are bounded, so that
-- every loop is over what is left of a bound.
use vekquorum.Prelude.{
  ℕ, zero, suc, Bool, true, false, List, [], ◌∷◌, ◌==◌, any, tail, list_eq, Result, ok, err, vq,
  raise_if, ◌>>=◌, ◌>>◌, if◌then◌else◌,
}
use vekquorum.Errors.{duplicate_key, invalid_utf8, schema_invalid}
use vekquorum.Wire.{ℤ, Json, Items, Members, nil, cons, end, member}
use vekquorum.Text.Chars.{Parser, malformed, skip_ws, expect, literal, string}
use vekquorum.Text.Numbers.{Unicode, number, starts_with}

-- MAX_DEPTH is 32, so that there are 33 levels; MAX_MEMBERS and MAX_ARRAY
abbrev pub max_levels : ℕ
max_levels = 33

abbrev pub max_members : ℕ
max_members = 1024

abbrev pub max_array : ℕ
max_array = 1024

-- `key in out`
abbrev pub has_key : List ℕ → List (List ℕ) → Bool
has_key k seen = any (list_eq k) seen

-- what follows an element: the end of the array, or a comma and the next element
unfoldable pub after_item : Parser Items → Json → Parser Items
after_item more v [] = malformed
after_item more v (c ∷ cs) =
    let next = do (vs, rest) ← more cs; ok (cons v vs, rest)
    in if c == b']' then ok (cons v nil, cs) else if c == b',' then next else malformed

unfoldable pub after_member : Parser Members → List ℕ → Json → Parser Members
after_member more k v [] = malformed
after_member more k v (c ∷ cs) =
    let next = do (ms, rest) ← more cs; ok (member k v ms, rest)
    in if c == b'}' then ok (member k v end, cs) else if c == b',' then next else malformed

-- a key with its colon, up to the value
unfoldable pub key : Parser (List ℕ)
key cs = do
  opened ← expect b'"' (skip_ws cs)
  (k, rest) ← string opened
  colon ← expect b':' (skip_ws rest)
  ok (k, skip_ws colon)

-- `value(depth + 1)` is an argument of the loops.
module _ (value : Parser Json) where
  -- the loop of `array`, with room for this many more elements
  unfoldable pub array_loop : ℕ → Parser Items
  unfolding after_item
  array_loop zero cs = do _ ← value (skip_ws cs); err (vq schema_invalid)
  array_loop (suc room) cs = do
    (v, rest) ← value (skip_ws cs)
    after_item (array_loop room) v (skip_ws rest)

  -- the loop of `object`, with room for this many more members, after these keys
  unfoldable pub object_loop : ℕ → List (List ℕ) → Parser Members
  unfolding after_member key
  object_loop zero seen cs = do
    (k, rest) ← key cs
    _ ← value rest
    raise_if (has_key k seen) duplicate_key
    err (vq schema_invalid)
  object_loop (suc room) seen cs = do
    (k, rest) ← key cs
    (v, rest') ← value rest
    raise_if (has_key k seen) duplicate_key
    after_member (object_loop room (k ∷ seen)) k v (skip_ws rest')

  -- `array`, after the bracket and white space
  unfoldable pub array : Parser Json
  unfolding array_loop
  array cs =
      let filled = do (vs, rest) ← array_loop max_array cs; ok (Json.array vs, rest)
      in if starts_with b']' cs then ok (Json.array nil, tail cs) else filled

  unfoldable pub object : Parser Json
  unfolding object_loop
  object cs =
      let filled = do (ms, rest) ← object_loop max_members [] cs; ok (Json.object ms, rest)
      in if starts_with b'}' cs then ok (Json.object end, tail cs) else filled

-- "true", "false" and "null"
abbrev pub true_word : List ℕ
true_word = b't' ∷ b'r' ∷ b'u' ∷ b'e' ∷ []

abbrev pub false_word : List ℕ
false_word = b'f' ∷ b'a' ∷ b'l' ∷ b's' ∷ b'e' ∷ []

abbrev pub null_word : List ℕ
null_word = b'n' ∷ b'u' ∷ b'l' ∷ b'l' ∷ []

abbrev pub as_string : List ℕ × List ℕ → Result (Json × List ℕ)
as_string (s, rest) = ok (Json.string s, rest)

abbrev pub as_number : ℤ × List ℕ → Result (Json × List ℕ)
as_number (n, rest) = ok (Json.number n, rest)

-- what the first character of a value tells of it
pub data Kind : Type 0 where
  object_kind array_kind string_kind true_kind false_kind null_kind number_kind : Kind

unfoldable pub kind_of : ℕ → Kind
kind_of c =
    if c == b'{'
    then object_kind
    else if c == b'['
    then array_kind
    else if c == b'"'
    then string_kind
    else if c == b't'
    then true_kind
    else if c == b'f'
    then false_kind
    else if c == b'n'
    then null_kind
    else number_kind

-- `if self.i != self.n: raise self.error()`
abbrev pub at_end : Json → List ℕ → Result Json
at_end v [] = ok v
at_end v (_ ∷ _) = malformed

abbrev pub finish : Json × List ℕ → Result Json
finish (v, rest) = at_end v (skip_ws rest)

module _ (u : Unicode) where
  -- `value` on a text that is not empty, within the bound on the depth
  unfoldable pub dispatch : Parser Json → Kind → Parser Json
  unfolding array object literal string number skip_ws
  dispatch deeper object_kind cs = object deeper (skip_ws (tail cs))
  dispatch deeper array_kind cs = array deeper (skip_ws (tail cs))
  dispatch deeper string_kind cs = string (tail cs) >>= as_string
  dispatch deeper true_kind cs = literal true_word (Json.boolean true) cs
  dispatch deeper false_kind cs = literal false_word (Json.boolean false) cs
  dispatch deeper null_kind cs = literal null_word Json.null cs
  dispatch deeper number_kind cs = number u cs >>= as_number

  -- `value`, with this many levels left
  unfoldable pub value : ℕ → Parser Json
  unfolding dispatch kind_of
  value levels [] = malformed
  value zero (c ∷ cs) = err (vq schema_invalid)
  value (suc levels) (c ∷ cs) = dispatch (value levels) (kind_of c) (c ∷ cs)

  -- `parse`
  unfoldable pub parse : List ℕ → Result Json
  unfolding value
  parse cs = value max_levels (skip_ws cs) >>= finish

  -- the text's part of `parse_json`: a byte order mark is refused
  unfoldable pub parse_json : List ℕ → Result Json
  unfolding parse
  parse_json cs = if starts_with 0xfeff cs then err (vq invalid_utf8) else parse cs
