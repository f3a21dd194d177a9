-- ===== src/Text/Numbers.antt =====
-- Numbers of jsonparse.py, and `str` of an integer.
use vekquorum.Prelude.{
  ℕ, zero, suc, ◌+◌, ◌*◌, ◌/◌, Bool, true, false, Option, none, some, List, [], ◌∷◌, ◌++◌, ◌==◌,
  ◌&&◌, ◌||◌, ltb, length, list_eq, Result, ok, err, fault, raise_if, ◌>>=◌, ◌>>◌, if◌then◌else◌,
}
use Prim.Native.Nat.{◌%◌}
use vekquorum.Errors.{malformed_json, number_profile}
use vekquorum.Wire.{ℤ, pos, negsuc}
use vekquorum.Schema.{safe_int_max}
use vekquorum.Text.Chars.{Parser, malformed}

-- What Python's character tables say of a character: `isdigit`, and the value that `int` gives it.
pub record Unicode : Type 0 where
  pub is_digit : ℕ → Bool
  pub decimal : ℕ → Option ℕ

-- the longest run of digits at the front, and the text after it
unfoldable pub span_digits : Unicode → List ℕ → List ℕ × List ℕ
span_digits u [] = ([], [])
span_digits u (c ∷ cs) =
    let (ds, rest) = span_digits u cs in if u.is_digit c then (c ∷ ds, rest) else ([], c ∷ cs)

abbrev pub and_then : Option ℕ → (ℕ → Option ℕ) → Option ℕ
and_then none k = none
and_then (some d) k = k d

-- `int(token)` on digits: a `ValueError` where a digit has no decimal value or there are more than
-- 4300 of them
unfoldable pub decimal_value : Unicode → ℕ → List ℕ → Option ℕ
decimal_value u n [] = some n
decimal_value u n (c ∷ cs) = and_then (u.decimal c) (λ d. decimal_value u (n * 10 + d) cs)

unfoldable pub int_of : Unicode → List ℕ → Result ℕ
unfolding decimal_value
int_of u ds = if ltb 4300 (length ds) then err fault else read (decimal_value u 0 ds)
  where
    read : Option ℕ → Result ℕ
    read none = err fault
    read (some n) = ok n

abbrev pub starts_with : ℕ → List ℕ → Bool
starts_with c [] = false
starts_with c (x ∷ _) = x == c

-- the text after a first character that is one of two, such as "e" and "E"
unfoldable pub skip_one : ℕ → ℕ → List ℕ → List ℕ
skip_one a b [] = []
skip_one a b (x ∷ xs) = if x == a || x == b then xs else x ∷ xs

abbrev pub is_nil : List ℕ → Bool
is_nil [] = true
is_nil _ = false

-- `if self.i == fs: raise self.error()`: at least one digit
unfoldable pub some_digits : Unicode → List ℕ → Result (List ℕ)
unfolding span_digits
some_digits u cs = let (ds, rest) = span_digits u cs in if is_nil ds then malformed else ok rest

-- a fraction and an exponent: whether there is one, and the text after it
unfoldable pub fraction : Unicode → Parser Bool
unfolding some_digits
fraction u [] = ok (false, [])
fraction u (c ∷ cs) =
    let read = do rest ← some_digits u cs; ok (true, rest)
    in if c == b'.' then read else ok (false, c ∷ cs)

unfoldable pub exponent : Unicode → Parser Bool
unfolding some_digits skip_one
exponent u [] = ok (false, [])
exponent u (c ∷ cs) =
    let read = do rest ← some_digits u (skip_one b'+' b'-' cs); ok (true, rest)
    in if c == b'e' || c == b'E' then read else ok (false, c ∷ cs)

-- the integer with this sign and magnitude
abbrev pub signed : Bool → ℕ → ℤ
signed false n = pos n
signed true zero = pos 0
signed true (suc n) = negsuc n

-- the digits of the token under the wire profile
unfoldable pub wire_value : Unicode → Bool → Bool → List ℕ → Result ℤ
unfolding int_of
wire_value u minus has_more ds = do
  raise_if has_more number_profile
  raise_if (minus && list_eq ds (b'0' ∷ [])) number_profile
  n ← int_of u ds
  raise_if (ltb safe_int_max n) number_profile
  ok (signed minus n)

-- `number` under the wire profile
unfoldable pub number : Unicode → Parser ℤ
unfolding span_digits fraction exponent wire_value skip_one
number u cs = do
  let minus = starts_with b'-' cs
  let (ds, rest) = span_digits u (skip_one b'-' b'-' cs)
  raise_if (is_nil ds) malformed_json
  raise_if (ltb 1 (length ds) && starts_with b'0' ds) malformed_json
  (has_frac, rest') ← fraction u rest
  (has_exp, rest'') ← exponent u rest'
  n ← wire_value u minus (has_frac || has_exp) ds
  ok (n, rest'')

-- the digits of `n`, the last one first to be split off; `n` is enough fuel
unfoldable pub digits_loop : ℕ → ℕ → List ℕ
digits_loop zero n = (n % 10 + 48) ∷ []
digits_loop (suc f) n =
    let front = digits_loop f (n / 10) in
    if ltb n 10 then (n + 48) ∷ [] else front ++ (n % 10 + 48) ∷ []

-- `str(v)`
unfoldable pub str : ℤ → List ℕ
unfolding digits_loop
str (pos n) = digits_loop n n
str (negsuc n) = b'-' ∷ digits_loop (suc n) (suc n)
