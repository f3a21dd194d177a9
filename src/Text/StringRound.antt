-- ===== src/Text/StringRound.antt =====
-- A printed string is read back: `_escape_string` of canon.py and `string` of jsonparse.py.
use vekquorum.Prelude.{
  ℕ, zero, suc, ◌/◌, ◌<◌, ◌≡◌, refl, ap, true, false, none, some, List, [], ◌∷◌, ◌++◌, inl, inr,
  any, All, length, length-append, ltb, ok, Bool-cases, Option-cases, ◌∙◌, arith,
}
use Prim.Native.Nat.{◌%◌}
use mathlib.Core.List.{append_assoc}
use vekquorum.Text.Chars.{
  is_surrogate, check_str, hex_value, four_digits, hex4, simple_escape, escape, plain, string_loop,
  string,
}
use vekquorum.Text.Printer.{
  escaped, short_escape, hex_digit, unicode_escape, escape_char, escape_chars,
}

-- No character is a surrogate.
abbrev pub IsScalar : List ℕ → Type 0
IsScalar = All (λ c. is_surrogate c ≡ false)

hex_value-hex_digit : (d : ℕ) → d < 16 → hex_value (hex_digit d) ≡ some d
unfolding hex_value hex_digit
hex_value-hex_digit d h = ground arith

four_digits-unicode_escape :
    (c : ℕ) (rest : List ℕ)
    → c < 65536
    → four_digits (
        hex_digit (c / 4096 % 16)
        ∷ hex_digit (c / 256 % 16)
        ∷ hex_digit (c / 16 % 16)
        ∷ hex_digit (c % 16)
        ∷ rest)
      ≡ ok (c, rest)
unfolding four_digits
four_digits-unicode_escape c rest h =
    rw
      (
        hex_value-hex_digit (c / 4096 % 16) (omega arith),
        hex_value-hex_digit (c / 256 % 16) (omega arith),
        hex_value-hex_digit (c / 16 % 16) (omega arith),
        hex_value-hex_digit (c % 16) (omega arith),
      )
      (ap (λ (n : ℕ). ok (n, rest)) (omega arith))

-- `\u00XX` is read back
escape-control :
    (c : ℕ) (rest : List ℕ)
    → c < 32
    → escape (
        b'u'
        ∷ hex_digit (c / 4096 % 16)
        ∷ hex_digit (c / 256 % 16)
        ∷ hex_digit (c / 16 % 16)
        ∷ hex_digit (c % 16)
        ∷ rest)
      ≡ ok (c, rest)
unfolding escape hex4
escape-control c rest h = rw (four_digits-unicode_escape c rest (omega arith)) (ground arith)

-- a short escape is read back
escape-short :
    (c e : ℕ) (rest : List ℕ) → short_escape c ≡ some e → escape (e ∷ rest) ≡ ok (c, rest)
unfolding escape short_escape simple_escape
escape-short c e rest h = ground arith

-- a round of the loop of `string` on what is printed for one character
round_escape :
    (f : ℕ) (c : ℕ) (cs xs rest rest' : List ℕ)
    → escape cs ≡ ok (c, rest')
    → string_loop f rest' ≡ ok (xs, rest)
    → string_loop (suc f) (b'\\' ∷ cs) ≡ ok (c ∷ xs, rest)
unfolding string_loop
round_escape f c cs xs rest rest' e h = rw (e, h) refl

round_plain :
    (f : ℕ) (c : ℕ) (xs rest rest' : List ℕ)
    → short_escape c ≡ none
    → (ltb c 32) ≡ false
    → is_surrogate c ≡ false
    → string_loop f rest' ≡ ok (xs, rest)
    → string_loop (suc f) (c ∷ rest') ≡ ok (c ∷ xs, rest)
unfolding string_loop short_escape plain
round_plain f c xs rest rest' n l s h = rw h (ground arith)

-- what is printed for a character, by its kind
escaped-short : (c e : ℕ) → short_escape c ≡ some e → escape_char c ≡ b'\\' ∷ e ∷ []
unfolding escape_char
escaped-short c e h = ap (escaped c) h

escaped-control :
    (c : ℕ) → short_escape c ≡ none → ltb c 32 ≡ true → escape_char c ≡ unicode_escape c
unfolding escape_char
escaped-control c n l = ap (escaped c) n ∙ rw l refl

escaped-plain : (c : ℕ) → short_escape c ≡ none → ltb c 32 ≡ false → escape_char c ≡ c ∷ []
unfolding escape_char
escaped-plain c n l = ap (escaped c) n ∙ rw l refl

-- one round reads one character, whatever follows it
round :
    (f c : ℕ) (xs rest rest' : List ℕ)
    → is_surrogate c ≡ false
    → string_loop f rest' ≡ ok (xs, rest)
    → string_loop (suc f) (escape_char c ++ rest') ≡ ok (c ∷ xs, rest)
unfolding unicode_escape
round f c xs rest rest' s h = elim (Option-cases (short_escape c)) [
  | inr (e, short) ↦
      rw (escaped-short c e short)
        (round_escape f c (e ∷ rest') xs rest rest' (escape-short c e rest' short) h)
  | inl long ↦ elim (Bool-cases (ltb c 32)) [
    | inl low ↦
        rw (escaped-control c long low)
          (round_escape f c _ xs rest rest' (escape-control c rest' (ground arith)) h)
    | inr high ↦ rw (escaped-plain c long high) (round_plain f c xs rest rest' long high s h)
  ]
]

length-escape_char : (c : ℕ) → 0 < length (escape_char c)
length-escape_char c = elim (Option-cases (short_escape c)) [
  | inr (e, short) ↦ rw (escaped-short c e short) (omega arith)
  | inl long ↦ elim (Bool-cases (ltb c 32)) [
    | inl low ↦ rw (escaped-control c long low) (unfold unicode_escape in omega arith)
    | inr high ↦ rw (escaped-plain c long high) (omega arith)
  ]
]

string_loop-escape_chars :
    (f : ℕ) (cs rest : List ℕ)
    → IsScalar cs
    → length (escape_chars cs) < f
    → string_loop f (escape_chars cs ++ b'"' ∷ rest) ≡ ok (cs, rest)
unfolding escape_chars
string_loop-escape_chars zero cs rest s h = absurd (omega arith)
string_loop-escape_chars (suc f) [] rest s h = unfold string_loop in refl
string_loop-escape_chars (suc f) (c ∷ cs) rest s h =
    let smaller : length (escape_chars cs) < f =
      omega (arith, length-append (escape_char c) (escape_chars cs), length-escape_char c) in
    rw (append_assoc (escape_char c) (escape_chars cs) (b'"' ∷ rest)) (
      round f c cs rest (escape_chars cs ++ b'"' ∷ rest) s.0
        (string_loop-escape_chars f cs rest s.1 smaller))

any-IsScalar : (cs : List ℕ) → IsScalar cs → any is_surrogate cs ≡ false
any-IsScalar [] s = refl
any-IsScalar (c ∷ cs) s = rw (s.0, any-IsScalar cs s.1) refl

-- `string` reads what `_escape_string` prints after the opening quote.
pub string-escape_chars :
    (cs rest : List ℕ) → IsScalar cs → string (escape_chars cs ++ b'"' ∷ rest) ≡ ok (cs, rest)
unfolding string check_str
string-escape_chars cs rest s =
    rw
      (
        string_loop-escape_chars (suc (length (escape_chars cs ++ b'"' ∷ rest))) cs rest s
            (omega (arith, length-append (escape_chars cs) (b'"' ∷ rest))),
        any-IsScalar cs s,
      )
      refl
