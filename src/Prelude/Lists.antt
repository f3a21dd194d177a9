-- ===== src/Prelude/Lists.antt =====
-- Lists over the native numbers: lengths, searches by key, and a predicate on every element.
use Prim.Native.Nat.{ℕ, suc, ◌+◌}
use mathlib.Core.Path.{◌≡◌, subst}
use mathlib.Core.Logic.{inl, inr}
use mathlib.Core.Bool.{Bool, true, false, ◌||◌, ◌&&◌}
use mathlib.Core.Option.{Option, none, some}
use mathlib.Core.List.{List, [], ◌∷◌, ◌++◌}
use native.Mathlib.Omega.{arith}
use vekquorum.Prelude.Tests.{◌==◌, if◌then◌else◌, Option-cases}

module _ {ℓ} {A : Type ℓ} where
  abbrev pub length : List A → ℕ
  length [] = 0
  length (_ ∷ xs) = suc (length xs)

  -- `any(p(x) for x in xs)`
  abbrev pub any : (A → Bool) → List A → Bool
  any p [] = false
  any p (x ∷ xs) = p x || any p xs

  -- `all(p(x) for x in xs)`
  abbrev pub all : (A → Bool) → List A → Bool
  all p [] = true
  all p (x ∷ xs) = p x && all p xs

  -- `next((x for x in xs if key(x) == k), None)`
  abbrev pub find_first : (A → ℕ) → ℕ → List A → Option A
  find_first key k [] = none
  find_first key k (x ∷ xs) = if key x == k then some x else find_first key k xs

  abbrev or_here : Option A → Bool → A → Option A
  or_here (some y) _ x = some y
  or_here none b x = if b then some x else none

  -- `{key(x): x for x in xs}.get(k)`: a later element replaces an earlier one.
  abbrev pub find_last : (A → ℕ) → ℕ → List A → Option A
  find_last key k [] = none
  find_last key k (x ∷ xs) = or_here (find_last key k xs) (key x == k) x

  -- `xs[-1]`, with a default for the empty list.
  abbrev pub last_or : A → List A → A
  last_or d [] = d
  last_or d (x ∷ xs) = last_or x xs

  -- the first row of a table for which the test holds
  abbrev pub find_by : (A → Bool) → List A → Option A
  find_by p [] = none
  find_by p (x ∷ xs) = if p x then some x else find_by p xs

  -- `UPDATE … SET … WHERE p`
  abbrev pub update_by : (A → Bool) → (A → A) → List A → List A
  update_by p f [] = []
  update_by p f (x ∷ xs) = (if p x then f x else x) ∷ update_by p f xs

  abbrev pub filter_by : (A → Bool) → List A → List A
  filter_by p [] = []
  filter_by p (x ∷ xs) = let rest = filter_by p xs in if p x then x ∷ rest else rest

  pub length-append : (xs ys : List A) → length (xs ++ ys) ≡ length xs + length ys
  length-append [] ys = omega arith
  length-append (x ∷ xs) ys = omega (arith, length-append xs ys)

-- `P` holds of every element.
abbrev pub All {ℓ κ} : {A : Type ℓ} → (A → Type κ) → List A → Type κ
All P [] = Unit
All P (x ∷ xs) = P x × All P xs

-- What `find_last` returns has the key that was asked for.
pub key-find_last {ℓ} :
    {A : Type ℓ} (key : A → ℕ) (k : ℕ) (xs : List A) {x : A}
    → find_last key k xs ≡ some x
    → key x ≡ k
key-find_last key k [] h = ground arith
key-find_last key k (y ∷ xs) {x} h = ground (arith, key-find_last key k xs {x = x})

-- A predicate on every element holds of what `find_last` returns.
pub All-find_last {ℓ κ} :
    {A : Type ℓ} (P : A → Type κ) (key : A → ℕ) (k : ℕ) (xs : List A) {x : A}
    → All P xs
    → find_last key k xs ≡ some x
    → P x
All-find_last P key k [] a h = cc
All-find_last P key k (y ∷ xs) {x} a h = elim (Option-cases (find_last key k xs)) [
  | inr (z, e) ↦ All-find_last P key k xs a.1 (ground arith)
  | inl e ↦ let same : y ≡ x = ground arith in subst P same a.0
]
