-- ===== src/Verifier/Enough.antt =====
-- The quorum rule is monotone: more approving members never lose a quorum.
use vekquorum.Prelude.{
  ℕ, ◌≡◌, refl, true, false, none, some, Option, Option-cases, Bool-cases, inl, inr, List, [], ◌∷◌,
  ◌||◌, ◌==◌, arith, contains, sorted, insert_sorted, Subset, length-set_of_mono,
}
use vekquorum.Wire.{Member, Policy}
use vekquorum.Verifier.Signatures.{member_of}
use vekquorum.Verifier.Quorum.{is_member, principals_in, has_human, is_human_member, meets}

contains-insert_sorted :
    (k x : ℕ) (xs : List ℕ) → contains k (insert_sorted x xs) ≡ (x == k || contains k xs)
contains-insert_sorted k x [] = refl
contains-insert_sorted k x (y ∷ ys) = ground (arith, contains-insert_sorted k x ys)

pub contains-sorted : (k : ℕ) (xs : List ℕ) → contains k (sorted xs) ≡ contains k xs
contains-sorted k [] = refl
contains-sorted k (x ∷ xs) =
    ground (arith, contains-insert_sorted k x (sorted xs), contains-sorted k xs)

-- Every member key of `ks` is a key of `js`.
abbrev pub MemberSubset : List Member → List ℕ → List ℕ → Type 0
MemberSubset roster ks js =
    (k : ℕ) → contains k ks ≡ true → is_member roster k ≡ true → contains k js ≡ true

contains-principals_in :
    (roster : List Member) (k : ℕ) (m : Member) (js : List ℕ)
    → contains k js ≡ true
    → member_of roster k ≡ some m
    → contains m.principal_id (principals_in roster js) ≡ true
unfolding principals_in
contains-principals_in roster k m [] h e = cc
contains-principals_in roster k m (j ∷ js) h e =
    ground (arith, contains-principals_in roster k m js)

principals_in_mono :
    (roster : List Member) (ks js : List ℕ)
    → MemberSubset roster ks js
    → Subset (principals_in roster ks) (principals_in roster js)
unfolding principals_in
principals_in_mono roster [] js s x h = cc
principals_in_mono roster (k ∷ ks) js s x h = elim (Option-cases (member_of roster k)) [
  | inl e ↦ principals_in_mono roster ks js (λ i c. s i (ground arith)) x (ground arith)
  | inr (m, e) ↦ ground (
    arith,
    contains-principals_in roster k m js (s k (ground arith) (ground arith)) e,
    principals_in_mono roster ks js (λ i c. s i (ground arith)) x,
  )
]

contains-has_human :
    (roster : List Member) (k : ℕ) (js : List ℕ)
    → contains k js ≡ true
    → is_human_member (member_of roster k) ≡ true
    → has_human roster js ≡ true
unfolding has_human
contains-has_human roster k [] h e = cc
contains-has_human roster k (j ∷ js) h e = ground (arith, contains-has_human roster k js)

human_member :
    (o : Option Member)
    → is_human_member o ≡ true
    → (elim o [ none ↦ false | some _ ↦ true ]) ≡ true
human_member none h = cc
human_member (some m) h = refl

has_human_mono :
    (roster : List Member) (ks js : List ℕ)
    → MemberSubset roster ks js
    → has_human roster ks ≡ true
    → has_human roster js ≡ true
unfolding has_human
has_human_mono roster [] js s h = cc
has_human_mono roster (k ∷ ks) js s h = elim (Bool-cases (is_human_member (member_of roster k))) [
  | inl e ↦ contains-has_human roster k js (s k (ground arith) (human_member _ e)) e
  | inr e ↦ has_human_mono roster ks js (λ i c. s i (ground arith)) (ground arith)
]

pub meets_mono :
    (p : Policy) (ks js : List ℕ)
    → MemberSubset p.roster ks js
    → meets p ks ≡ true
    → meets p js ≡ true
unfolding meets
meets_mono p ks js s h = ground (
  arith,
  length-set_of_mono (principals_in p.roster ks) (principals_in p.roster js)
      (principals_in_mono p.roster ks js s),
  has_human_mono p.roster ks js s,
)
