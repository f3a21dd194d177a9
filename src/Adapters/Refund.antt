-- ===== src/Adapters/Refund.antt =====
-- `covenant_refund_args` of adapters.py. Texts are lists of code points.
use vekquorum.Prelude.{
  between, ℕ, Bool, true, false, Option, none, some, List, [], ◌∷◌, ◌&&◌, ◌||◌, all, leb, length,
  list_eq, Result, ok, err, vq, raise_unless, or_raise, ◌>>=◌, ◌>>◌, if◌then◌else◌,
}
use vekquorum.Errors.{number_profile, schema_invalid, unknown_field}
use vekquorum.Wire.{pos, Json, Members, end, member}
use vekquorum.Schema.{safe_int_max}

-- "payment_id", "amount_minor", "currency" and "USD"
abbrev pub payment_id_key : List ℕ
payment_id_key = b'p' ∷ b'a' ∷ b'y' ∷ b'm' ∷ b'e' ∷ b'n' ∷ b't' ∷ b'_' ∷ b'i' ∷ b'd' ∷ []

abbrev pub amount_key : List ℕ
amount_key = b'a' ∷ b'm' ∷ b'o' ∷ b'u' ∷ b'n' ∷ b't' ∷ b'_' ∷ b'm' ∷ b'i' ∷ b'n' ∷ b'o' ∷ b'r' ∷ []

abbrev pub currency_key : List ℕ
currency_key = b'c' ∷ b'u' ∷ b'r' ∷ b'r' ∷ b'e' ∷ b'n' ∷ b'c' ∷ b'y' ∷ []

abbrev pub usd : List ℕ
usd = b'U' ∷ b'S' ∷ b'D' ∷ []

abbrev is_known_key : List ℕ → Bool
is_known_key k = list_eq k payment_id_key || list_eq k amount_key || list_eq k currency_key

abbrev all_known : Members → Bool
all_known end = true
all_known (member k v ms) = is_known_key k && all_known ms

-- `args[key]`
abbrev pub member_of : List ℕ → Members → Option Json
member_of key end = none
member_of key (member k v ms) = if list_eq k key then some v else member_of key ms

-- `[A-Za-z0-9_-]`
abbrev pub is_word : ℕ → Bool
is_word c =
    between b'A' b'Z' c
    || between b'a' b'z' c
    || between b'0' b'9' c
    || between b'_' b'_' c
    || between b'-' b'-' c

-- `$` stands at the end of a text and before a line feed that ends it.
abbrev pub without_newline : List ℕ → List ℕ
without_newline [] = []
without_newline (c ∷ cs) =
    let rest = without_newline cs in if list_eq (c ∷ cs) (10 ∷ []) then [] else c ∷ rest

-- what follows "pay_", if the text starts with it
abbrev after_pay : List ℕ → Option (List ℕ)
after_pay (p ∷ a ∷ y ∷ u ∷ cs) =
    if list_eq (p ∷ a ∷ y ∷ u ∷ []) (b'p' ∷ b'a' ∷ b'y' ∷ b'_' ∷ []) then some cs else none
after_pay _ = none

abbrev is_suffix : Option (List ℕ) → Bool
is_suffix none = false
is_suffix (some cs) =
    let word = without_newline cs in leb 1 (length word) && leb (length word) 64 && all is_word word

-- `PAYMENT_ID_RE.match`
unfoldable pub is_payment_id : List ℕ → Bool
is_payment_id text = is_suffix (after_pay text)

pub record Refund : Type 0 where
  pub payment_id : List ℕ
  pub amount_minor : ℕ

-- the checks of the three fields
unfoldable pub payment_id_of : Json → Result (List ℕ)
unfolding is_payment_id
payment_id_of (Json.string text) = if is_payment_id text then ok text else err (vq schema_invalid)
payment_id_of _ = err (vq schema_invalid)

unfoldable pub amount_of : Json → Result ℕ
amount_of (Json.number (pos n)) =
    if leb 1 n && leb n safe_int_max then ok n else err (vq number_profile)
amount_of _ = err (vq number_profile)

unfoldable pub check_currency : Json → Result (Unit {0})
check_currency (Json.string text) = raise_unless (list_eq text usd) schema_invalid
check_currency _ = err (vq schema_invalid)

unfoldable pub refund_of : Members → Result Refund
unfolding payment_id_of amount_of check_currency
refund_of ms = do
  raise_unless (all_known ms) unknown_field
  payment_id ← or_raise (member_of payment_id_key ms) schema_invalid
  amount ← or_raise (member_of amount_key ms) schema_invalid
  currency ← or_raise (member_of currency_key ms) schema_invalid
  text ← payment_id_of payment_id
  n ← amount_of amount
  check_currency currency
  ok (record { payment_id = text; amount_minor = n })

-- `covenant_refund_args`
unfoldable pub covenant_refund_args : Json → Result Refund
unfolding refund_of
covenant_refund_args (Json.object ms) = refund_of ms
covenant_refund_args _ = err (vq schema_invalid)
