-- ===== src/Text/Printer.antt =====
-- The printer of canon.py on integers, strings and nested values: `_escape_string` and `_ser`.
use vekquorum.Prelude.{
  ℕ, ◌+◌, ◌-◌, ◌/◌, Bool, true, false, Option, none, some, List, [], ◌∷◌, ◌++◌, ◌==◌, ltb,
  if◌then◌else◌,
}
use Prim.Native.Nat.{◌%◌}
use vekquorum.Wire.{Json, Items, Members, nil, cons, end, member}
use vekquorum.Text.Numbers.{str}
use vekquorum.Text.Parser.{true_word, false_word, null_word}

-- `_ESCAPES`
unfoldable pub short_escape : ℕ → Option ℕ
short_escape c =
    if c == b'"'
    then some b'"'
    else if c == b'\\'
    then some b'\\'
    else if c == 8
    then some b'b'
    else if c == 12
    then some b'f'
    else if c == 10
    then some b'n'
    else if c == 13
    then some b'r'
    else if c == 9
    then some b't'
    else none

-- a digit of `%04x`
unfoldable pub hex_digit : ℕ → ℕ
hex_digit d = if ltb d 10 then d + 48 else d + 87

-- `"\\u%04x" % ord(ch)`
unfoldable pub unicode_escape : ℕ → List ℕ
unfolding hex_digit
unicode_escape c =
    b'\\'
    ∷ b'u'
    ∷ hex_digit (c / 4096 % 16)
    ∷ hex_digit (c / 256 % 16)
    ∷ hex_digit (c / 16 % 16)
    ∷ hex_digit (c % 16)
    ∷ []

abbrev pub escaped : ℕ → Option ℕ → List ℕ
escaped c (some e) = b'\\' ∷ e ∷ []
escaped c none = if ltb c 32 then unicode_escape c else c ∷ []

unfoldable pub escape_char : ℕ → List ℕ
unfolding short_escape unicode_escape
escape_char c = escaped c (short_escape c)

unfoldable pub escape_chars : List ℕ → List ℕ
unfolding escape_char
escape_chars [] = []
escape_chars (c ∷ cs) = escape_char c ++ escape_chars cs

-- `_escape_string`
unfoldable pub escape_string : List ℕ → List ℕ
unfolding escape_chars
escape_string s = b'"' ∷ escape_chars s ++ b'"' ∷ []

-- `s.encode("utf-16-be")`, as code units
unfoldable pub utf16_units : List ℕ → List ℕ
utf16_units [] = []
utf16_units (c ∷ cs) =
    let rest = utf16_units cs in
    if ltb c 0x10000
    then c ∷ rest
    else (0xd800 + (c - 0x10000) / 1024) ∷ (0xdc00 + (c - 0x10000) % 1024) ∷ rest

-- `a <= b` on the units
unfoldable pub units_le : List ℕ → List ℕ → Bool
units_le [] ys = true
units_le (x ∷ xs) [] = false
units_le (x ∷ xs) (y ∷ ys) = let rest = units_le xs ys in if x == y then rest else ltb x y

-- `sorted(value.items(), key=…)`
unfoldable pub insert_member : List ℕ → Json → Members → Members
unfolding utf16_units units_le
insert_member k v end = member k v end
insert_member k v (member k' v' ms) =
    let rest = insert_member k v ms in
    if units_le (utf16_units k) (utf16_units k')
    then member k v (member k' v' ms)
    else member k' v' rest

unfoldable mutual
  unfolding insert_member

  -- the value with the members of each object in the order in which they are printed
  pub canonical : Json → Json
  canonical Json.null = Json.null
  canonical (Json.boolean b) = Json.boolean b
  canonical (Json.number n) = Json.number n
  canonical (Json.string s) = Json.string s
  canonical (Json.array vs) = Json.array (canonical_items vs)
  canonical (Json.object ms) = Json.object (canonical_members ms)

  pub canonical_items : Items → Items
  canonical_items nil = nil
  canonical_items (cons v vs) = cons (canonical v) (canonical_items vs)

  pub canonical_members : Members → Members
  canonical_members end = end
  canonical_members (member k v ms) = insert_member k (canonical v) (canonical_members ms)

abbrev pub comma : Bool → List ℕ
comma first = if first then [] else b',' ∷ []

unfoldable mutual
  unfolding escape_string str

  -- `_ser` on a value whose members are in order
  pub print : Json → List ℕ
  print Json.null = null_word
  print (Json.boolean b) = if b then true_word else false_word
  print (Json.number n) = str n
  print (Json.string s) = escape_string s
  print (Json.array vs) = b'[' ∷ print_items true vs
  print (Json.object ms) = b'{' ∷ print_members true ms

  -- the elements with their commas, and the closing bracket
  pub print_items : Bool → Items → List ℕ
  print_items first nil = b']' ∷ []
  print_items first (cons v vs) = comma first ++ (print v ++ print_items false vs)

  pub print_members : Bool → Members → List ℕ
  print_members first end = b'}' ∷ []
  print_members first (member k v ms) =
      comma first ++ (escape_string k ++ (b':' ∷ (print v ++ print_members false ms)))

-- `_ser`
unfoldable pub ser : Json → List ℕ
unfolding print canonical
ser v = print (canonical v)
