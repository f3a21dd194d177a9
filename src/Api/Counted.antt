-- ===== src/Api/Counted.antt =====
-- What the tally of api.py counts, beside the quorum rule of verifier.py.
use vekquorum.Prelude.{
  ℕ, ◌≤◌, ◌≡◌, refl, sym, ◌∙◌, subst, true, false, none, some, List, [], ◌∷◌, ◌==◌, ◌||◌, arith,
  add, contains, contains-add, contains-set_of, leb, length, map, set_of, set_of-IsDistinct,
  IsDistinct, length-le_of_Subset, ok, >>=-eq-ok, Option-cases, Bool-cases, inl, inr,
}
use vekquorum.Wire.{Action, Policy, Member, SignedVote, is_approve}
use vekquorum.Wire.Digests.{Digests}
use vekquorum.Schema.{is_unique, policy, policy_invariants}
use vekquorum.Verifier.Signatures.{member_of}
use vekquorum.Verifier.Quorum.{principals_in, has_human, is_human_member, meets, approving_keys}
use vekquorum.Api.{
  enrolled, Ballots, no_ballots, Tally, approve_by, check_ballot, count_ballot, count_ballots,
  tally_of, tally,
}

abbrev key_ids : List Member → List ℕ
key_ids roster = map (λ (m : Member). m.key_id) roster

length-set_of-le : (xs : List ℕ) → length (set_of xs) ≤ length xs
length-set_of-le [] = omega arith
length-set_of-le (x ∷ xs) = ground (arith, length-set_of-le xs)

unique-IsDistinct : (xs : List ℕ) → is_unique xs ≡ true → IsDistinct xs
unique-IsDistinct [] h = tt
unique-IsDistinct (x ∷ xs) h =
    ground (arith, length-set_of-le xs, contains-set_of x xs, unique-IsDistinct xs)

member_of-missing :
    (k : ℕ) (roster : List Member) → contains k (key_ids roster) ≡ false → member_of roster k ≡ none
member_of-missing k [] h = refl
member_of-missing k (m ∷ ms) h = ground (arith, member_of-missing k ms)

-- with one member for each key, the first is the last
enrolled-member_of :
    (k : ℕ) (roster : List Member)
    → IsDistinct (key_ids roster)
    → enrolled k roster ≡ member_of roster k
enrolled-member_of k [] u = refl
enrolled-member_of k (m ∷ ms) u = elim (Bool-cases (m.key_id == k)) [
  | inl e ↦ ground (arith, member_of-missing k ms)
  | inr e ↦ ground (arith, enrolled-member_of k ms u.1)
]

record IsCounted (roster : List Member) (keys : List ℕ) (b b' : Ballots) : Type 0 where
  principals :
      (x : ℕ)
      → contains x b'.approved_principals
        ≡ (contains x b.approved_principals || contains x (principals_in roster keys))
  humans :
      leb 1 (length b'.human_principals)
      ≡ (leb 1 (length b.human_principals) || has_human roster keys)
  distinct : IsDistinct b.approved_principals → IsDistinct b'.approved_principals

add-length : (x : ℕ) (s : List ℕ) → leb 1 (length (add x s)) ≡ true
add-length x [] = ground arith
add-length x (y ∷ ys) = ground arith

count_ballot-IsCounted :
    (roster : List Member) (v : SignedVote) (m : Member) (b : Ballots)
    → member_of roster v.body.key_id ≡ some m
    → IsCounted roster (approving_keys roster (v ∷ [])) b (count_ballot v m b)
unfolding approving_keys principals_in has_human count_ballot approve_by
count_ballot-IsCounted roster v m b e = elim (Bool-cases (is_approve v.body.decision)) [
  | inl approves ↦ record {
    principals = λ x. ground (arith, contains-add x m.principal_id b.approved_principals);
    humans = ground (arith, add-length m.principal_id b.human_principals);
    distinct = λ u. ground arith;
  }
  | inr rejects ↦ record {
    principals = λ x. ground arith;
    humans = ground arith;
    distinct = λ u. ground arith;
  }
]

principals-present :
    (roster : List Member) (k : ℕ) (m : Member) (ks : List ℕ)
    → contains k ks ≡ true
    → member_of roster k ≡ some m
    → contains m.principal_id (principals_in roster ks) ≡ true
unfolding principals_in
principals-present roster k m [] c e = cc
principals-present roster k m (j ∷ ks) c e = elim (Bool-cases (j == k)) [
  | inl same ↦ ground arith
  | inr other ↦ ground (arith, principals-present roster k m ks)
]

human-present :
    (roster : List Member) (k : ℕ) (ks : List ℕ)
    → contains k ks ≡ true
    → is_human_member (member_of roster k) ≡ true
    → has_human roster ks ≡ true
unfolding has_human
human-present roster k [] c e = cc
human-present roster k (j ∷ ks) c e = ground (arith, human-present roster k ks)

principals_in-set_of :
    (roster : List Member) (x : ℕ) (ks : List ℕ)
    → contains x (principals_in roster (set_of ks)) ≡ contains x (principals_in roster ks)
unfolding principals_in
principals_in-set_of roster x [] = refl
principals_in-set_of roster x (k ∷ ks) = elim (Option-cases (member_of roster k)) [
  | inl e ↦ ground (arith, principals_in-set_of roster x ks)
  | inr (m, e) ↦
      ground (arith, principals_in-set_of roster x ks, principals-present roster k m (set_of ks))
]

has_human-set_of :
    (roster : List Member) (ks : List ℕ) → has_human roster (set_of ks) ≡ has_human roster ks
unfolding has_human
has_human-set_of roster [] = refl
has_human-set_of roster (k ∷ ks) =
    ground (arith, has_human-set_of roster ks, human-present roster k (set_of ks))

check_ballot-enrolled :
    (d : Digests) (a : Action) (p : Policy) (v : SignedVote) (b : Ballots) {m : Member}
    → check_ballot d a p v b ≡ ok m
    → enrolled v.body.key_id p.roster ≡ some m
unfolding check_ballot
check_ballot-enrolled d a p v b h = ground arith

principals-cons :
    (roster : List Member) (v : SignedVote) (vs : List SignedVote) (x : ℕ)
    → contains x (principals_in roster (approving_keys roster (v ∷ vs))) ≡ (
        contains x (principals_in roster (approving_keys roster (v ∷ [])))
        || contains x (principals_in roster (approving_keys roster vs)))
unfolding approving_keys principals_in
principals-cons roster v vs x = ground arith

human-cons :
    (roster : List Member) (v : SignedVote) (vs : List SignedVote)
    → has_human roster (approving_keys roster (v ∷ vs)) ≡ (
        has_human roster (approving_keys roster (v ∷ []))
        || has_human roster (approving_keys roster vs))
unfolding approving_keys has_human
human-cons roster v vs = ground arith

IsCounted-cons :
    (roster : List Member) (v : SignedVote) (vs : List SignedVote) (b c d : Ballots)
    → IsCounted roster (approving_keys roster (v ∷ [])) b c
    → IsCounted roster (approving_keys roster vs) c d
    → IsCounted roster (approving_keys roster (v ∷ vs)) b d
IsCounted-cons roster v vs b c d f g = record {
  principals = λ x. ground (arith, f.principals x, g.principals x, principals-cons roster v vs x);
  humans = ground (arith, f.humans, g.humans, human-cons roster v vs);
  distinct = λ u. g.distinct (f.distinct u);
}

count_ballots-IsCounted :
    (d : Digests) (a : Action) (p : Policy) (vs : List SignedVote) (b : Ballots) {b' : Ballots}
    → IsDistinct (key_ids p.roster)
    → count_ballots d a p vs b ≡ ok b'
    → IsCounted p.roster (approving_keys p.roster vs) b b'
unfolding count_ballots approving_keys principals_in has_human
count_ballots-IsCounted d a p [] b {b'} u h =
    let same : b ≡ b' = ground arith in
    subst (IsCounted p.roster [] b) same
      (record { principals = λ x. ground arith; humans = ground arith; distinct = λ w. w })
count_ballots-IsCounted d a p (v ∷ vs) b {b'} u h =
    let (m, first, rest) =
      >>=-eq-ok (check_ballot d a p v b) (λ m. count_ballots d a p vs (count_ballot v m b)) h in
    let known = check_ballot-enrolled d a p v b first in
    let listed = sym (enrolled-member_of v.body.key_id p.roster u) ∙ known in
    IsCounted-cons p.roster v vs b (count_ballot v m b) b'
      (count_ballot-IsCounted p.roster v m b listed)
      (count_ballots-IsCounted d a p vs (count_ballot v m b) u rest)

same_length :
    (xs ys : List ℕ)
    → IsDistinct xs
    → IsDistinct ys
    → ((k : ℕ) → contains k xs ≡ contains k ys)
    → length xs ≡ length ys
same_length xs ys u w h = omega (
  arith,
  length-le_of_Subset xs ys u (λ k c. sym (h k) ∙ c),
  length-le_of_Subset ys xs w (λ k c. h k ∙ c),
)

policy-IsDistinct :
    (d : Digests) (p : Policy) {u : Unit {0}} → policy d p ≡ ok u → IsDistinct (key_ids p.roster)
unfolding policy policy_invariants
policy-IsDistinct d p h = unique-IsDistinct (key_ids p.roster) (ground arith)

approvals-length :
    (roster : List Member) (keys : List ℕ) (b : Ballots)
    → IsCounted roster keys no_ballots b
    → length b.approved_principals ≡ length (set_of (principals_in roster (set_of keys)))
approvals-length roster keys b c =
    let ks = principals_in roster (set_of keys) in
    same_length b.approved_principals (set_of ks) (c.distinct tt) (set_of-IsDistinct ks)
      λ k. c.principals k ∙ sym (principals_in-set_of roster k keys) ∙ sym (contains-set_of k ks)

-- If the policy passes its checks and `tally` returns, then it says that the policy is satisfied
-- exactly where the verifier's quorum rule says so of the same votes, and the number of
-- approvals is the number of distinct principals that this rule counts.
pub tally-meets :
    (d : Digests) (a : Action) (p : Policy) (votes : List SignedVote) {t : Tally} {u : Unit {0}}
    → policy d p ≡ ok u
    → tally d a p votes ≡ ok t
    → (t.satisfied ≡ meets p (set_of (approving_keys p.roster votes)))
      × (t.approvals
          ≡ length (set_of (principals_in p.roster (set_of (approving_keys p.roster votes)))))
unfolding tally tally_of meets
tally-meets d a p votes {t} g h =
    let (b, counted, e) =
      >>=-eq-ok (count_ballots d a p votes no_ballots) (λ b. ok (tally_of p b)) h in
    let keys = approving_keys p.roster votes in
    let c = count_ballots-IsCounted d a p votes no_ballots (policy-IsDistinct d p g) counted in
    let enough = approvals-length p.roster keys b c in
    let humans = c.humans in
    let same = has_human-set_of p.roster keys in (ground arith, ground arith)
