-- ===== src/Text/NumberRound.antt =====
-- A printed integer is read back: `str` and `number` of jsonparse.py.
use vekquorum.Prelude.{
  between, ℕ, zero, suc, ◌+◌, ◌-◌, ◌*◌, ◌/◌, ◌≤◌, ◌<◌, ◌≡◌, refl, ap, sym, ◌∙◌, Bool, true, false,
  Option, some, List, [], ◌∷◌, ◌++◌, ◌==◌, ◌&&◌, ◌||◌, inl, inr, All, length, length-append,
  list_eq, ltb, ok, Bool-cases, arith,
}
use Prim.Native.Nat.{◌%◌}
use vekquorum.Wire.{ℤ, pos, negsuc}
use vekquorum.Schema.{safe_int_max}
use vekquorum.Text.Numbers.{
  Unicode, span_digits, and_then, decimal_value, int_of, starts_with, skip_one, is_nil, fraction,
  exponent, signed, wire_value, number, digits_loop, str,
}

-- The character tables agree with ASCII.
pub record AgreesWithAscii (u : Unicode) : Type 0 where
  pub digit : (c : ℕ) → c < 128 → u.is_digit c ≡ between b'0' b'9' c
  pub value : (c : ℕ) → between b'0' b'9' c ≡ true → u.decimal c ≡ some (c - 48)

-- The text does not go on with the number before it.
abbrev pub Stops : Unicode → List ℕ → Type 0
Stops u [] = Unit
Stops u (c ∷ cs) =
    (u.is_digit c ≡ false) × ((c == b'.') ≡ false) × ((c == b'e' || c == b'E') ≡ false)

-- The magnitude is in the safe range.
abbrev pub IsSafe : ℤ → Type 0
IsSafe (pos n) = n ≤ safe_int_max
IsSafe (negsuc n) = suc n ≤ safe_int_max

abbrev IsDigits : List ℕ → Type 0
IsDigits = All (λ c. between b'0' b'9' c ≡ true)

append-IsDigits : (xs ys : List ℕ) → IsDigits xs → IsDigits ys → IsDigits (xs ++ ys)
append-IsDigits [] ys h k = k
append-IsDigits (x ∷ xs) ys h k = (h.0, append-IsDigits xs ys h.1 k)

digits_loop-IsDigits : (f n : ℕ) → IsDigits (digits_loop f n)
unfolding digits_loop
digits_loop-IsDigits zero n = (ground arith, tt)
digits_loop-IsDigits (suc f) n = elim (Bool-cases (ltb n 10)) [
  | inl low ↦ rw low (ground arith, tt)
  | inr high ↦ rw high (
      append-IsDigits (digits_loop f (n / 10)) _ (digits_loop-IsDigits f (n / 10))
        (ground arith, tt))
]

module _ (u : Unicode) (a : AgreesWithAscii u) where
  decimal_value-cons :
      (m x : ℕ) (xs : List ℕ)
      → between b'0' b'9' x ≡ true
      → decimal_value u m (x ∷ xs) ≡ decimal_value u (m * 10 + (x - 48)) xs
  unfolding decimal_value
  decimal_value-cons m x xs h =
      ap (λ (o : Option ℕ). and_then o (λ d. decimal_value u (m * 10 + d) xs)) (a.value x h)

  decimal_value-append :
      (m : ℕ) (xs ys : List ℕ) (n : ℕ)
      → IsDigits xs
      → decimal_value u m xs ≡ some n
      → decimal_value u m (xs ++ ys) ≡ decimal_value u n ys
  unfolding decimal_value
  decimal_value-append m [] ys n h e = ap (λ (k : ℕ). decimal_value u k ys) (ground arith)
  decimal_value-append m (x ∷ xs) ys n h e =
      decimal_value-cons m x (xs ++ ys) h.0
      ∙ decimal_value-append (m * 10 + (x - 48)) xs ys n h.1
          (sym (decimal_value-cons m x xs h.0) ∙ e)

  decimal_value-one :
      (m x n : ℕ)
      → between b'0' b'9' x ≡ true
      → m * 10 + (x - 48) ≡ n
      → decimal_value u m (x ∷ []) ≡ some n
  unfolding decimal_value
  decimal_value-one m x n h e = decimal_value-cons m x [] h ∙ ap some e

  -- the digits have the value of the number
  decimal_value-digits_loop :
      (f n : ℕ) → n < 10 * suc f → decimal_value u 0 (digits_loop f n) ≡ some n
  unfolding digits_loop
  decimal_value-digits_loop zero n h =
      decimal_value-one 0 (n % 10 + 48) n (ground arith) (omega arith)
  decimal_value-digits_loop (suc f) n h = elim (Bool-cases (ltb n 10)) [
    | inl low ↦ rw low (decimal_value-one 0 (n + 48) n (ground arith) (omega arith))
    | inr high ↦ rw high (
        decimal_value-append 0 (digits_loop f (n / 10)) ((n % 10 + 48) ∷ []) (n / 10)
          (digits_loop-IsDigits f (n / 10)) (decimal_value-digits_loop f (n / 10) (omega arith))
        ∙ decimal_value-one (n / 10) (n % 10 + 48) n (ground arith) (omega arith))
  ]

  span_digits-append :
      (ds rest : List ℕ) → IsDigits ds → Stops u rest → span_digits u (ds ++ rest) ≡ (ds, rest)
  unfolding span_digits
  span_digits-append [] [] h s = refl
  span_digits-append [] (c ∷ cs) h s = rw (s.0) refl
  span_digits-append (x ∷ xs) rest h s =
      rw (a.digit x (ground arith), h.0, span_digits-append xs rest h.1 s) refl

-- no more digits than the number's size
length-digits_loop_pos : (f n : ℕ) → 0 < length (digits_loop f n)
unfolding digits_loop
length-digits_loop_pos zero n = omega arith
length-digits_loop_pos (suc f) n = elim (Bool-cases (ltb n 10)) [
  | inl low ↦ rw low (omega arith)
  | inr high ↦ rw high (omega (arith, length-append (digits_loop f (n / 10)) ((n % 10 + 48) ∷ [])))
]

starts_with-append :
    (c : ℕ) (xs ys : List ℕ) → 0 < length xs → starts_with c (xs ++ ys) ≡ starts_with c xs
starts_with-append c [] ys h = absurd (omega arith)
starts_with-append c (x ∷ xs) ys h = refl

pow10 : ℕ → ℕ
pow10 zero = 1
pow10 (suc k) = 10 * pow10 k

length-digits_loop : (k f n : ℕ) → n < 10 * pow10 k → length (digits_loop f n) ≤ suc k
unfolding digits_loop pow10
length-digits_loop k zero n h = omega arith
length-digits_loop zero (suc f) n h = ground arith
length-digits_loop (suc k) (suc f) n h = elim (Bool-cases (ltb n 10)) [
  | inl low ↦ rw low (omega arith)
  | inr high ↦ rw high (
      omega (
        arith,
        length-append (digits_loop f (n / 10)) ((n % 10 + 48) ∷ []),
        length-digits_loop k f (n / 10) (omega arith),
      ))
]

-- a first digit is no 0 but for the number 0
starts_with-digits_loop :
    (f n : ℕ) → 0 < n → n < 10 * suc f → starts_with b'0' (digits_loop f n) ≡ false
unfolding digits_loop
starts_with-digits_loop zero n p h = ground arith
starts_with-digits_loop (suc f) n p h = elim (Bool-cases (ltb n 10)) [
  | inl low ↦ rw low (ground arith)
  | inr high ↦ rw high (
      starts_with-append b'0' (digits_loop f (n / 10)) ((n % 10 + 48) ∷ [])
        (length-digits_loop_pos f (n / 10))
      ∙ starts_with-digits_loop f (n / 10) (ground arith) (omega arith))
]

module _ (u : Unicode) (a : AgreesWithAscii u) where
  -- the digits of a number in the safe range
  int_of-digits_loop :
      (f n : ℕ) → n < 10 * suc f → n ≤ safe_int_max → int_of u (digits_loop f n) ≡ ok n
  unfolding int_of
  int_of-digits_loop f n h safe =
      rw
        (
          ltb_of_le (length (digits_loop f n))
              (length-digits_loop 15 f n (unfold pow10 in omega arith)),
          decimal_value-digits_loop u a f n h,
        )
        refl
    where
      ltb_of_le : (k : ℕ) → k ≤ 16 → ltb 4300 k ≡ false
      ltb_of_le k h = ground arith

  fraction-Stops : (rest : List ℕ) → Stops u rest → fraction u rest ≡ ok (false, rest)
  unfolding fraction
  fraction-Stops [] s = refl
  fraction-Stops (c ∷ cs) s = rw (s.1) refl

  exponent-Stops : (rest : List ℕ) → Stops u rest → exponent u rest ≡ ok (false, rest)
  unfolding exponent
  exponent-Stops [] s = refl
  exponent-Stops (c ∷ cs) s = rw (s.2) refl

-- what the digits look like at the front
not_minus :
    (ds rest : List ℕ)
    → IsDigits ds
    → 0 < length ds
    → (starts_with b'-' (ds ++ rest) ≡ false)
      × (skip_one b'-' b'-' (ds ++ rest) ≡ ds ++ rest)
      × (is_nil ds ≡ false)
unfolding skip_one
not_minus [] rest h p = absurd (omega arith)
not_minus (x ∷ xs) rest h p = (ground arith, ground arith, refl)

not_zero : (ds : List ℕ) → starts_with b'0' ds ≡ false → list_eq ds (b'0' ∷ []) ≡ false
not_zero [] h = refl
not_zero (x ∷ xs) h = ground arith

no_leading_zero :
    (f n : ℕ)
    → n < 10 * suc f
    → (ltb 1 (length (digits_loop f n)) && starts_with b'0' (digits_loop f n)) ≡ false
no_leading_zero f zero h = rw (one_digit f) refl
  where
    one_digit : (f : ℕ) → digits_loop f 0 ≡ b'0' ∷ []
    one_digit zero = unfold digits_loop in refl
    one_digit (suc f) = unfold digits_loop in refl
no_leading_zero f (suc n) h = ground (arith, starts_with-digits_loop f (suc n) (omega arith) h)

module _ (u : Unicode) (a : AgreesWithAscii u) where
  -- the token's value, where a minus sign stands before no zero
  wire_value-digits_loop :
      (minus : Bool) (f n : ℕ)
      → n < 10 * suc f
      → n ≤ safe_int_max
      → (minus && list_eq (digits_loop f n) (b'0' ∷ [])) ≡ false
      → wire_value u minus false (digits_loop f n) ≡ ok (signed minus n)
  unfolding wire_value
  wire_value-digits_loop minus f n h safe z =
      rw (z, int_of-digits_loop u a f n h safe, ltb_of_safe n safe) refl
    where
      ltb_of_safe : (n : ℕ) → n ≤ safe_int_max → ltb safe_int_max n ≡ false
      ltb_of_safe n safe = ground arith

  -- `number` reads what `str` prints of a number in the safe range.
  pub number-str :
      (n : ℤ) (rest : List ℕ) → IsSafe n → Stops u rest → number u (str n ++ rest) ≡ ok (n, rest)
  unfolding number str
  number-str (pos n) rest safe s =
      let ds = digits_loop n n in
      let digits = digits_loop-IsDigits n n in
      let (no_minus, same, some_digit) = not_minus ds rest digits (length-digits_loop_pos n n) in
      rw
        (
          no_minus,
          same,
          span_digits-append u a ds rest digits s,
          some_digit,
          no_leading_zero n n (omega arith),
          fraction-Stops u a rest s,
          exponent-Stops u a rest s,
          wire_value-digits_loop false n n (omega arith) safe refl,
        )
        refl
  number-str (negsuc n) rest safe s =
      let ds = digits_loop (suc n) (suc n) in
      let digits = digits_loop-IsDigits (suc n) (suc n) in
      let (no_minus, same, some_digit) =
        not_minus ds rest digits (length-digits_loop_pos (suc n) (suc n)) in
      let no_zero =
        not_zero ds (starts_with-digits_loop (suc n) (suc n) (omega arith) (omega arith)) in
      unfold skip_one in
      rw
        (
          span_digits-append u a ds rest digits s,
          some_digit,
          no_leading_zero (suc n) (suc n) (omega arith),
          fraction-Stops u a rest s,
          exponent-Stops u a rest s,
          wire_value-digits_loop true (suc n) (suc n) (omega arith) safe no_zero,
        )
        refl

-- The first character of a printed number.
abbrev pub NumberFront : List ℕ → Type 0
NumberFront cs =
    (c : ℕ) × (rest : List ℕ) × (cs ≡ c ∷ rest) × ((between b'0' b'9' c || c == b'-') ≡ true)

digits-NumberFront : (ds rest : List ℕ) → IsDigits ds → 0 < length ds → NumberFront (ds ++ rest)
digits-NumberFront [] rest h p = absurd (omega arith)
digits-NumberFront (x ∷ xs) rest h p = (x, xs ++ rest, refl, ground arith)

pub str-NumberFront : (n : ℤ) (rest : List ℕ) → NumberFront (str n ++ rest)
unfolding str
str-NumberFront (pos n) rest =
    digits-NumberFront (digits_loop n n) rest (digits_loop-IsDigits n n)
      (length-digits_loop_pos n n)
str-NumberFront (negsuc n) rest = (b'-', digits_loop (suc n) (suc n) ++ rest, refl, refl)
