-- ===== src/Text/Chars.antt =====
-- Characters and strings of jsonparse.py: white space, literals, escapes.
use vekquorum.Prelude.{
  between, ℕ, zero, suc, ◌+◌, ◌-◌, ◌*◌, Bool, Option, none, some, List, [], ◌∷◌, ◌==◌, ◌||◌, any,
  ltb, length, Result, ok, err, vq, fault, ◌>>=◌, if◌then◌else◌,
}
use vekquorum.Errors.{invalid_utf8, malformed_json}

-- A parser takes the text that is left and returns what it has read with the text after it.
abbrev pub Parser {ℓ} : Type ℓ → Type ℓ
Parser A = List ℕ → Result (A × List ℕ)

-- `self.error()`
abbrev pub malformed {ℓ} : {A : Type ℓ} → Result A
malformed = err (vq malformed_json)

-- `_WS`
abbrev pub is_space : ℕ → Bool
is_space c = c == 32 || c == 9 || c == 10 || c == 13

unfoldable pub skip_ws : List ℕ → List ℕ
skip_ws [] = []
skip_ws (c ∷ cs) = let rest = skip_ws cs in if is_space c then rest else c ∷ cs

-- `if self.i >= self.n or self.s[self.i] != c: raise self.error()`, else one character further
unfoldable pub expect : ℕ → List ℕ → Result (List ℕ)
expect c [] = malformed
expect c (x ∷ xs) = if x == c then ok xs else malformed

-- the text after a word that it starts with
unfoldable pub after_word : List ℕ → List ℕ → Option (List ℕ)
after_word [] cs = some cs
after_word (w ∷ ws) [] = none
after_word (w ∷ ws) (c ∷ cs) = let rest = after_word ws cs in if w == c then rest else none

abbrev pub read_literal {ℓ} : {A : Type ℓ} → A → Option (List ℕ) → Result (A × List ℕ)
read_literal value none = malformed
read_literal value (some rest) = ok (value, rest)

unfoldable pub literal {ℓ} : {A : Type ℓ} → List ℕ → A → Parser A
unfolding after_word
literal word value cs = read_literal value (after_word word cs)

-- `0xD800 <= o <= 0xDFFF`
abbrev pub is_surrogate : ℕ → Bool
is_surrogate o = between 0xd800 0xdfff o

-- `_check_str`
unfoldable pub check_str : List ℕ → Result (List ℕ)
check_str s = if any is_surrogate s then err (vq invalid_utf8) else ok s

-- `_HEX` and the value of a digit
unfoldable pub hex_value : ℕ → Option ℕ
hex_value c =
    if between b'0' b'9' c
    then some (c - 48)
    else if between b'a' b'f' c
    then some (c - 87)
    else if between b'A' b'F' c
    then some (c - 55)
    else none

-- the four digits at the front, and the text after them
abbrev pub digits4 : Option ℕ → Option ℕ → Option ℕ → Option ℕ → List ℕ → Result (ℕ × List ℕ)
digits4 (some a) (some b) (some c) (some d) rest = ok (a * 4096 + b * 256 + c * 16 + d, rest)
digits4 _ _ _ _ rest = malformed

unfoldable pub four_digits : Parser ℕ
unfolding hex_value
four_digits (a ∷ b ∷ c ∷ d ∷ rest) =
    digits4 (hex_value a) (hex_value b) (hex_value c) (hex_value d) rest
four_digits _ = malformed

-- the second half of a surrogate pair
unfoldable pub low_surrogate : ℕ → Parser ℕ
unfolding four_digits
low_surrogate cp rest = do
  (low, rest') ← four_digits rest
  if between 0xdc00 0xdfff low
      then ok (0x10000 + (cp - 0xd800) * 1024 + (low - 0xdc00), rest')
      else err (vq invalid_utf8)

unfoldable pub low_or_raise : ℕ → Option (List ℕ) → Result (ℕ × List ℕ)
unfolding low_surrogate
low_or_raise cp none = err (vq invalid_utf8)
low_or_raise cp (some rest) = low_surrogate cp rest

-- `hex4`
unfoldable pub hex4 : Parser ℕ
unfolding four_digits low_or_raise after_word
hex4 cs = do
  (cp, rest) ← four_digits cs
  if between 0xd800 0xdbff cp
      then low_or_raise cp (after_word (b'\\' ∷ b'u' ∷ []) rest)
      else if between 0xdc00 0xdfff cp
      then err (vq invalid_utf8)
      else ok (cp, rest)

-- the escapes of one character
unfoldable pub simple_escape : ℕ → Option ℕ
simple_escape e =
    if e == b'"' || e == b'\\' || e == b'/'
    then some e
    else if e == b'b'
    then some 8
    else if e == b'f'
    then some 12
    else if e == b'n'
    then some 10
    else if e == b'r'
    then some 13
    else if e == b't'
    then some 9
    else none

abbrev pub read_escape : ℕ → List ℕ → Option ℕ → Result (ℕ × List ℕ)
read_escape e cs (some c) = ok (c, cs)
read_escape e cs none = if e == b'u' then hex4 cs else malformed

-- an escape, after the reverse solidus
unfoldable pub escape : Parser ℕ
unfolding hex4 simple_escape
escape [] = malformed
escape (e ∷ cs) = read_escape e cs (simple_escape e)

-- a character that stands for itself
unfoldable pub plain : ℕ → Result ℕ
plain o = if ltb o 32 then malformed else if is_surrogate o then err (vq invalid_utf8) else ok o

-- The loop of `string`, after the opening quote. Every round reads a character, so that the
-- length of the text is enough fuel.
unfoldable pub string_loop : ℕ → Parser (List ℕ)
unfolding escape plain
string_loop zero cs = err fault
string_loop (suc f) [] = malformed
string_loop (suc f) (c ∷ cs) =
    let escaped = do (x, rest) ← escape cs; (xs, rest') ← string_loop f rest; ok (x ∷ xs, rest')
    in let plainly = do x ← plain c; (xs, rest') ← string_loop f cs; ok (x ∷ xs, rest')
      in if c == b'"' then ok ([], cs) else if c == b'\\' then escaped else plainly

-- `string`, after the opening quote
unfoldable pub string : Parser (List ℕ)
unfolding string_loop check_str
string cs = do (s, rest) ← string_loop (suc (length cs)) cs; s' ← check_str s; ok (s', rest)
