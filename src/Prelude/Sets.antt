-- ===== src/Prelude/Sets.antt =====
-- Python's sets of names, as lists without repetition, and `sorted`.
use Prim.Native.Nat.{ℕ, ◌≤◌, ◌<◌}
use mathlib.Core.Path.{◌≡◌, refl}
use mathlib.Core.Bool.{Bool, true, false, ◌||◌, ◌&&◌}
use mathlib.Core.List.{List, [], ◌∷◌}
use native.Mathlib.Omega.{arith}
use vekquorum.Prelude.Tests.{◌==◌, leb, if◌then◌else◌}
use vekquorum.Prelude.Lists.{length}

-- `k in s`
abbrev pub contains : ℕ → List ℕ → Bool
contains k [] = false
contains k (x ∷ xs) = x == k || contains k xs

-- `s.add(k)`
abbrev pub add : ℕ → List ℕ → List ℕ
add k s = if contains k s then s else k ∷ s

-- `set(xs)`
abbrev pub set_of : List ℕ → List ℕ
set_of [] = []
set_of (x ∷ xs) = add x (set_of xs)

-- `a <= b` on sets
abbrev pub subset : List ℕ → List ℕ → Bool
subset [] ys = true
subset (x ∷ xs) ys = contains x ys && subset xs ys

-- `bool(a & b)` on sets
abbrev pub intersects : List ℕ → List ℕ → Bool
intersects [] ys = false
intersects (x ∷ xs) ys = contains x ys || intersects xs ys

abbrev pub insert_sorted : ℕ → List ℕ → List ℕ
insert_sorted k [] = k ∷ []
insert_sorted k (x ∷ xs) = let rest = insert_sorted k xs in if leb k x then k ∷ x ∷ xs else x ∷ rest

-- `sorted(xs)`
abbrev pub sorted : List ℕ → List ℕ
sorted [] = []
sorted (x ∷ xs) = insert_sorted x (sorted xs)

-- `xs == ys` on lists
abbrev pub list_eq : List ℕ → List ℕ → Bool
list_eq [] [] = true
list_eq (x ∷ xs) (y ∷ ys) = x == y && list_eq xs ys
list_eq _ _ = false

-- No name stands twice.
abbrev pub IsDistinct : List ℕ → Type 0
IsDistinct [] = Unit
IsDistinct (x ∷ xs) = (contains x xs ≡ false) × IsDistinct xs

abbrev pub Subset : List ℕ → List ℕ → Type 0
Subset xs ys = (k : ℕ) → contains k xs ≡ true → contains k ys ≡ true

pub contains-add : (k x : ℕ) (s : List ℕ) → contains k (add x s) ≡ (x == k || contains k s)
contains-add k x s = ground arith

pub contains-set_of : (k : ℕ) (xs : List ℕ) → contains k (set_of xs) ≡ contains k xs
contains-set_of k [] = refl
contains-set_of k (x ∷ xs) = ground (arith, contains-add k x (set_of xs), contains-set_of k xs)

pub set_of-IsDistinct : (xs : List ℕ) → IsDistinct (set_of xs)
set_of-IsDistinct [] = tt
set_of-IsDistinct (x ∷ xs) = ground (arith, set_of-IsDistinct xs)

abbrev remove : ℕ → List ℕ → List ℕ
remove k [] = []
remove k (x ∷ xs) = let rest = remove k xs in if x == k then rest else x ∷ rest

length-remove-le : (k : ℕ) (xs : List ℕ) → length (remove k xs) ≤ length xs
length-remove-le k [] = omega arith
length-remove-le k (x ∷ xs) = ground (arith, length-remove-le k xs)

length-remove : (k : ℕ) (xs : List ℕ) → contains k xs ≡ true → length (remove k xs) < length xs
length-remove k [] h = cc
length-remove k (x ∷ xs) h = ground (arith, length-remove k xs, length-remove-le k xs)

contains-remove :
    (j k : ℕ) (xs : List ℕ)
    → contains j xs ≡ true
    → (j == k) ≡ false
    → contains j (remove k xs) ≡ true
contains-remove j k [] h n = ground arith
contains-remove j k (x ∷ xs) h n = ground (arith, contains-remove j k xs)

-- Distinct names that all stand in `ys` are no more than `ys` has.
pub length-le_of_Subset : (xs ys : List ℕ) → IsDistinct xs → Subset xs ys → length xs ≤ length ys
length-le_of_Subset [] ys d s = omega arith
length-le_of_Subset (x ∷ xs) ys d s = omega (
  arith,
  length-remove x ys (s x (ground arith)),
  length-le_of_Subset xs (remove x ys) d.1
      (λ j h. contains-remove j x ys (s j (ground arith)) (ground arith)),
)

-- More names make no fewer distinct ones.
pub length-set_of_mono : (xs ys : List ℕ) → Subset xs ys → length (set_of xs) ≤ length (set_of ys)
length-set_of_mono xs ys s =
    length-le_of_Subset (set_of xs) (set_of ys) (set_of-IsDistinct xs)
      (λ k h. ground (arith, contains-set_of k xs, contains-set_of k ys, s k))

pub eq_of_list_eq : (xs ys : List ℕ) → list_eq xs ys ≡ true → xs ≡ ys
eq_of_list_eq [] [] h = refl
eq_of_list_eq [] (y ∷ ys) h = ground arith
eq_of_list_eq (x ∷ xs) [] h = ground arith
eq_of_list_eq (x ∷ xs) (y ∷ ys) h = ground (arith, eq_of_list_eq xs ys)

pub list_eq_refl : (xs : List ℕ) → list_eq xs xs ≡ true
list_eq_refl [] = refl
list_eq_refl (x ∷ xs) = ground (arith, list_eq_refl xs)

pub list_eq_comm : (xs ys : List ℕ) → list_eq xs ys ≡ list_eq ys xs
list_eq_comm [] [] = refl
list_eq_comm [] (y ∷ ys) = refl
list_eq_comm (x ∷ xs) [] = refl
list_eq_comm (x ∷ xs) (y ∷ ys) = ground (arith, list_eq_comm xs ys)
