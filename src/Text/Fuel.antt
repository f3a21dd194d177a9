-- ===== src/Text/Fuel.antt =====
-- The fuel of the loop of `string` (jsonparse.py) is enough: a string is read, or a `VQError` is
-- raised.
use vekquorum.Prelude.{
  between, ℕ, zero, suc, ◌≤◌, ◌<◌, ◌≡◌, ◌≢◌, refl, ap, Bool, true, false, Option, none, some, List,
  [], ◌∷◌, ◌==◌, length, inl, inr, Bool-cases, Result, ok, err, vq, fault, >>=-eq-ok, if◌then◌else◌,
  arith,
}
use vekquorum.Prelude.Faultless.{NoFault, NoFault-ok, NoFault-vq, NoFault-bind}
use vekquorum.Errors.{invalid_utf8, malformed_json}
use vekquorum.Text.Chars.{
  after_word, check_str, digits4, hex_value, four_digits, low_surrogate, low_or_raise, hex4,
  simple_escape, read_escape, escape, plain, string_loop, string,
}

-- The text that is left is no longer than the text that was there.
abbrev Shrinks : ℕ → Result (ℕ × List ℕ) → Type 0
Shrinks n m = (x : ℕ × List ℕ) → m ≡ ok x → length x.1 ≤ n

digits4-Shrinks :
    (a b c d : Option ℕ) (rest : List ℕ) (n : ℕ)
    → length rest ≤ n
    → Shrinks n (digits4 a b c d rest)
digits4-Shrinks (some a) (some b) (some c) (some d) rest n h x e = ground arith
digits4-Shrinks none b c d rest n h x e = cc
digits4-Shrinks (some a) none c d rest n h x e = cc
digits4-Shrinks (some a) (some b) none d rest n h x e = cc
digits4-Shrinks (some a) (some b) (some c) none rest n h x e = cc

four_digits-Shrinks : (cs : List ℕ) → Shrinks (length cs) (four_digits cs)
unfolding four_digits
four_digits-Shrinks (a ∷ b ∷ c ∷ d ∷ rest) x e =
    digits4-Shrinks (hex_value a) (hex_value b) (hex_value c) (hex_value d) rest _ (omega arith) x e
four_digits-Shrinks [] x e = cc
four_digits-Shrinks (a ∷ []) x e = cc
four_digits-Shrinks (a ∷ b ∷ []) x e = cc
four_digits-Shrinks (a ∷ b ∷ c ∷ []) x e = cc

low_surrogate-Shrinks : (cp : ℕ) (cs : List ℕ) → Shrinks (length cs) (low_surrogate cp cs)
unfolding low_surrogate
low_surrogate-Shrinks cp cs x e =
    let (y, read, later) = >>=-eq-ok (four_digits cs) _ e in
    let shorter = four_digits-Shrinks cs y read in
    elim (Bool-cases (between 0xdc00 0xdfff y.0)) [
      | inl low ↦ omega (arith, shorter, same_rest y x (ground arith))
      | inr high ↦ absurd (ground arith)
    ]
  where
    same_rest : (y x : ℕ × List ℕ) → y.1 ≡ x.1 → length y.1 ≡ length x.1
    same_rest y x e = ap length e

after_word-Shrinks :
    (w cs : List ℕ) (rest : List ℕ) → after_word w cs ≡ some rest → length rest ≤ length cs
unfolding after_word
after_word-Shrinks [] cs rest e = ground arith
after_word-Shrinks (w ∷ ws) [] rest e = cc
after_word-Shrinks (w ∷ ws) (c ∷ cs) rest e = ground (arith, after_word-Shrinks ws cs rest)

low_or_raise-Shrinks :
    (cp n : ℕ) (o : Option (List ℕ))
    → ((rest : List ℕ) → o ≡ some rest → length rest ≤ n)
    → Shrinks n (low_or_raise cp o)
unfolding low_or_raise
low_or_raise-Shrinks cp n none h x e = cc
low_or_raise-Shrinks cp n (some rest) h x e =
    omega (arith, h rest refl, low_surrogate-Shrinks cp rest x e)

hex4-Shrinks : (cs : List ℕ) → Shrinks (length cs) (hex4 cs)
unfolding hex4
hex4-Shrinks cs x e =
    let (y, read, later) = >>=-eq-ok (four_digits cs) _ e in
    let shorter = four_digits-Shrinks cs y read in
    tested (between 0xd800 0xdbff y.0) (between 0xdc00 0xdfff y.0) y shorter later
  where
    tested :
        (high low : Bool) (y : ℕ × List ℕ)
        → length y.1 ≤ length cs
        → (if high
            then low_or_raise y.0 (after_word (b'\\' ∷ b'u' ∷ []) y.1)
            else if low
            then err (vq invalid_utf8)
            else ok y)
          ≡ ok x
        → length x.1 ≤ length cs
    tested true low y shorter e = omega (
      arith,
      shorter,
      low_or_raise-Shrinks y.0 (length y.1) (after_word (b'\\' ∷ b'u' ∷ []) y.1)
          (after_word-Shrinks (b'\\' ∷ b'u' ∷ []) y.1) x e,
    )
    tested false true y shorter e = cc
    tested false false y shorter e = ground arith

escape-Shrinks : (cs : List ℕ) → Shrinks (length cs) (escape cs)
unfolding escape
escape-Shrinks [] x e = cc
escape-Shrinks (c ∷ cs) x e = read (simple_escape c) e
  where
    read : (o : Option ℕ) → read_escape c cs o ≡ ok x → length x.1 ≤ suc (length cs)
    read (some y) e = ground arith
    read none e = elim (Bool-cases (c == b'u')) [
      | inl unicode ↦
          let read4 : hex4 cs ≡ ok x = ground arith in omega (arith, hex4-Shrinks cs x read4)
      | inr other ↦ absurd (ground arith)
    ]

NoFault-if :
    {A : Type 0} (b : Bool) (m n : Result A) → NoFault m → NoFault n → NoFault (if b then m else n)
NoFault-if true m n q r = q
NoFault-if false m n q r = r

NoFault-digits4 : (a b c d : Option ℕ) (rest : List ℕ) → NoFault (digits4 a b c d rest)
NoFault-digits4 (some a) (some b) (some c) (some d) rest = NoFault-ok _
NoFault-digits4 none b c d rest = NoFault-vq malformed_json
NoFault-digits4 (some a) none c d rest = NoFault-vq malformed_json
NoFault-digits4 (some a) (some b) none d rest = NoFault-vq malformed_json
NoFault-digits4 (some a) (some b) (some c) none rest = NoFault-vq malformed_json

NoFault-four_digits : (cs : List ℕ) → NoFault (four_digits cs)
unfolding four_digits
NoFault-four_digits (a ∷ b ∷ c ∷ d ∷ rest) = NoFault-digits4 _ _ _ _ rest
NoFault-four_digits [] = NoFault-vq malformed_json
NoFault-four_digits (a ∷ []) = NoFault-vq malformed_json
NoFault-four_digits (a ∷ b ∷ []) = NoFault-vq malformed_json
NoFault-four_digits (a ∷ b ∷ c ∷ []) = NoFault-vq malformed_json

NoFault-low_or_raise : (cp : ℕ) (o : Option (List ℕ)) → NoFault (low_or_raise cp o)
unfolding low_or_raise low_surrogate
NoFault-low_or_raise cp none = NoFault-vq invalid_utf8
NoFault-low_or_raise cp (some rest) =
    NoFault-bind (four_digits rest) _ (NoFault-four_digits rest)
      (λ x e. NoFault-if _ _ _ (NoFault-ok _) (NoFault-vq invalid_utf8))

NoFault-hex4 : (cs : List ℕ) → NoFault (hex4 cs)
unfolding hex4
NoFault-hex4 cs = NoFault-bind (four_digits cs) _ (NoFault-four_digits cs) (λ x e.
    NoFault-if (between 0xd800 0xdbff x.0) _ _
      (NoFault-low_or_raise x.0 (after_word (b'\\' ∷ b'u' ∷ []) x.1))
      (NoFault-if (between 0xdc00 0xdfff x.0) _ _ (NoFault-vq invalid_utf8) (NoFault-ok x)))

NoFault-escape : (cs : List ℕ) → NoFault (escape cs)
unfolding escape
NoFault-escape [] = NoFault-vq malformed_json
NoFault-escape (c ∷ cs) = read (simple_escape c)
  where
    read : (o : Option ℕ) → NoFault (read_escape c cs o)
    read (some y) = NoFault-ok _
    read none = NoFault-if _ _ _ (NoFault-hex4 cs) (NoFault-vq malformed_json)

NoFault-plain : (c : ℕ) → NoFault (plain c)
unfolding plain
NoFault-plain c =
    NoFault-if _ _ _ (NoFault-vq malformed_json)
      (NoFault-if _ _ _ (NoFault-vq invalid_utf8) (NoFault-ok c))

NoFault-string_loop : (f : ℕ) (cs : List ℕ) → length cs < f → NoFault (string_loop f cs)
unfolding string_loop
NoFault-string_loop zero cs h = absurd (omega arith)
NoFault-string_loop (suc f) [] h = NoFault-vq malformed_json
NoFault-string_loop (suc f) (c ∷ cs) h = NoFault-if _ _ _ (NoFault-ok _) (
    NoFault-if _ _ _
      (NoFault-bind (escape cs) _ (NoFault-escape cs) λ x e.
        NoFault-bind (string_loop f x.1) _
          (NoFault-string_loop f x.1 (omega (arith, escape-Shrinks cs x e))) (λ y e'. NoFault-ok _))
      (NoFault-bind (plain c) _ (NoFault-plain c) λ x e.
        NoFault-bind (string_loop f cs) _ (NoFault-string_loop f cs (omega arith))
          (λ y e'. NoFault-ok _)))

-- On every text `string` reads a string or raises a `VQError`: its loop ends within the length of
-- the text.
pub string-ne-fault : (cs : List ℕ) → string cs ≢ err fault
unfolding string check_str
string-ne-fault cs =
    (NoFault-bind (string_loop (suc (length cs)) cs) _
      (NoFault-string_loop (suc (length cs)) cs (omega arith))
      (λ x e.
        NoFault-bind (check_str x.0) _ (NoFault-if _ _ _ (NoFault-vq invalid_utf8) (NoFault-ok x.0))
          (λ y e'. NoFault-ok _))).never
