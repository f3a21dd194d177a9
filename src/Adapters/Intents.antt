-- ===== src/Adapters/Intents.antt =====
-- `_intent_by_payment` and the payments of the refund simulator (adapters.py) after an update.
use vekquorum.Prelude.{
  ℕ, ◌+◌, ◌≤◌, ◌≡◌, refl, false, none, some, List, [], ◌∷◌, find_by, update_by, length, list_eq,
  list_eq_comm, eq_of_list_eq, Bool-cases, inl, inr, ◌⊎◌, arith,
}
use vekquorum.Adapters.Simulator.{Intent, Payment, is_intent, is_payment, set_intent, set_version}

-- No two entries are for one payment.
abbrev pub IsOnce : List Intent → Type 0
IsOnce [] = Unit
IsOnce (i ∷ is) = (find_by (is_intent i.payment_id) is ≡ none) × IsOnce is

pub length-set_intent :
    (id : List ℕ) (key : ℕ) (is : List Intent)
    → find_by (is_intent id) is ≡ none
    → length (set_intent id key is) ≡ length is + 1
unfolding set_intent
length-set_intent id key [] e = refl
length-set_intent id key (i ∷ is) e = ground (arith, length-set_intent id key is)

find-set_intent-none :
    (id other : List ℕ) (key : ℕ) (is : List Intent)
    → list_eq id other ≡ false
    → find_by (is_intent other) is ≡ none
    → find_by (is_intent other) (set_intent id key is) ≡ none
unfolding set_intent
find-set_intent-none id other key [] n e = ground arith
find-set_intent-none id other key (i ∷ is) n e =
    ground (arith, find-set_intent-none id other key is)

pub set_intent-IsOnce :
    (id : List ℕ) (key : ℕ) (is : List Intent) → IsOnce is → IsOnce (set_intent id key is)
unfolding set_intent
set_intent-IsOnce id key [] o = (refl, tt)
set_intent-IsOnce id key (i ∷ is) o = ground (
  arith,
  list_eq_comm id i.payment_id,
  find-set_intent-none id i.payment_id key is,
  set_intent-IsOnce id key is,
)

pub find-set_intent :
    (id other : List ℕ) (key : ℕ) (is : List Intent) (i : Intent)
    → find_by (is_intent other) (set_intent id key is) ≡ some i
    → (find_by (is_intent other) is ≡ some i) ⊎ (i.key ≡ key)
unfolding set_intent
find-set_intent id other key [] i e = inr (ground arith)
find-set_intent id other key (j ∷ is) i e = ground (arith, find-set_intent id other key is i)

pub length-set_intent-le :
    (id : List ℕ) (key : ℕ) (is : List Intent) → length is ≤ length (set_intent id key is)
unfolding set_intent
length-set_intent-le id key [] = omega arith
length-set_intent-le id key (i ∷ is) = ground (arith, length-set_intent-le id key is)

pub find-set_intent-replaced :
    (id other : List ℕ) (key : ℕ) (is : List Intent)
    → list_eq id other ≡ false
    → find_by (is_intent other) (set_intent id key is) ≡ find_by (is_intent other) is
unfolding set_intent
find-set_intent-replaced id other key [] n = ground arith
find-set_intent-replaced id other key (i ∷ is) n = elim (Bool-cases (is_intent id i)) [
  | inl e ↦ let same = eq_of_list_eq i.payment_id id e in rw e (ground arith)
  | inr e ↦ ground (arith, find-set_intent-replaced id other key is)
]

pub find-set_version :
    (id other : List ℕ) (version : ℕ) (ps : List Payment)
    → list_eq id other ≡ false
    → find_by (is_payment other) (update_by (is_payment id) (set_version version) ps)
      ≡ find_by (is_payment other) ps
find-set_version id other version [] n = refl
find-set_version id other version (p ∷ ps) n = elim (Bool-cases (is_payment id p)) [
  | inl e ↦
      let same = eq_of_list_eq p.payment_id id e in
      let later = find-set_version id other version ps n in
      let apart : is_payment other p ≡ false = rw same n in ground arith
  | inr e ↦ let later = find-set_version id other version ps n in ground arith
]
