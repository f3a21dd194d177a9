-- ===== src/Text/Tests.antt =====
-- Runs of jsonparse.py and canon.py on texts.
use vekquorum.Prelude.{
  between, ℕ, ◌-◌, ◌≡◌, ◌≢◌, refl, fault, arith, true, none, some, List, [], ◌∷◌, ok, err,
  if◌then◌else◌,
}
use vekquorum.Wire.{Json, nil, cons, end, member, pos, negsuc}
use vekquorum.Text.Numbers.{Unicode}
use vekquorum.Text.Chars.{expect, string}
use vekquorum.Text.Parser.{parse, max_levels}
use vekquorum.Text.Printer.{ser, print, canonical}
use vekquorum.Text.NumberRound.{AgreesWithAscii}
use vekquorum.Text.RoundTrip.{IsWire, parse-print, print-injective}
use vekquorum.Text.Sound.{parse-IsWire}
use vekquorum.Text.Canonical.{parse-ser, ser-injective}
use vekquorum.Text.Fuel.{string-ne-fault}

-- The digits of ASCII, the Arabic digit three (0x663), and the superscript two (0xb2), a digit
-- with no decimal value.
abbrev ascii : Unicode
ascii = record {
  is_digit = λ c.
      if between b'0' b'9' c
      then true
      else if between 0x663 0x663 c
      then true
      else between 0xb2 0xb2 c;
  decimal = λ c.
      if between b'0' b'9' c then some (c - 48) else if between 0x663 0x663 c then some 3 else none;
}

abbrev sample : Json
sample = Json.object (
    member (b'b' ∷ [])
      (Json.array (cons (Json.number (negsuc 41)) (cons Json.null (cons (Json.array nil) nil))))
      (member (b'a' ∷ []) (Json.string (b'"' ∷ 10 ∷ 31 ∷ 0xe000 ∷ [])) end))

-- {"b":1, "a":2 } and its canonical text
abbrev two_members : List ℕ
two_members =
    b'{' ∷ b'"' ∷ b'b' ∷ b'"' ∷ b':' ∷ b'1' ∷ b',' ∷ b' ' ∷ b'"' ∷ b'a' ∷ b'"' ∷ b':' ∷ b'2' ∷ b' '
    ∷ b'}' ∷ []

abbrev two_values : Json
two_values =
    Json.object
      (member (b'b' ∷ []) (Json.number (pos 1)) (member (b'a' ∷ []) (Json.number (pos 2)) end))

-- a digit that is not of ASCII is read as a number
arabic_three : parse ascii (0x663 ∷ []) ≡ ok (Json.number (pos 3))
unfolding parse
arabic_three = refl

-- a digit with no decimal value makes `int` raise a `ValueError`
superscript_two : parse ascii (0xb2 ∷ []) ≡ err fault
unfolding parse
superscript_two = refl

two_parse : parse ascii two_members ≡ ok two_values
unfolding parse expect
two_parse = refl

ascii-AgreesWithAscii : AgreesWithAscii ascii
ascii-AgreesWithAscii = record { digit = λ c h. ground arith; value = λ c h. ground arith }

sample-IsWire : IsWire max_levels sample
unfolding IsWire
sample-IsWire = (
  omega arith,
  (
    (refl, tt),
    refl,
    (omega arith, (omega arith, (tt, ((omega arith, tt), tt)))),
    ((refl, tt), refl, (refl, (refl, (refl, (refl, tt)))), tt),
  ),
)

parse-print_example : parse ascii (print sample) ≡ ok sample
parse-print_example = parse-print ascii ascii-AgreesWithAscii sample sample-IsWire

print-injective_example : sample ≡ sample
print-injective_example =
    print-injective ascii ascii-AgreesWithAscii sample sample sample-IsWire sample-IsWire refl

parse-IsWire_example : IsWire max_levels two_values
parse-IsWire_example = parse-IsWire ascii two_members two_values two_parse

parse-ser_example : parse ascii (ser two_values) ≡ ok (canonical two_values)
parse-ser_example = parse-ser ascii ascii-AgreesWithAscii two_members two_values two_parse

ser-injective_example : canonical two_values ≡ canonical two_values
ser-injective_example =
    ser-injective ascii ascii-AgreesWithAscii two_members two_members two_values two_values
      two_parse two_parse refl

string-ne-fault_example : string (b'a' ∷ []) ≢ err fault
string-ne-fault_example = string-ne-fault (b'a' ∷ [])
