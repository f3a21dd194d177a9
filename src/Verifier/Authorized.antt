-- ===== src/Verifier/Authorized.antt =====
-- What a report with `authorization` SATISFIED means.
use vekquorum.Prelude.{
  ℕ, ◌≤◌, ◌≡◌, ◌⊎◌, ◌∙◌, sym, true, some, List, [], ◌∷◌, ◌&&◌, ◌==◌, arith, contains, set_of,
  contains-set_of, set_of-IsDistinct, IsDistinct, length, All, ok, >>=-eq-ok, Option-cases,
  Bool-cases, inl, inr, raise_unless,
}
use vekquorum.Errors.{hash_mismatch}
use vekquorum.Wire.{Proof, Policy, Member, SignedVote, approve, Trust, is_approve, is_human}
use vekquorum.Wire.Digests.{Digests}
use vekquorum.Verifier.Binding.{binding, bind_votes}
use vekquorum.Verifier.Signatures.{member_of, check_vote, check_votes, check_trail, signatures}
use vekquorum.Verifier.Quorum.{principals_in, has_human, is_human_member, meets, approving_keys}

-- Some element has the property.
abbrev pub Any {ℓ} : {A : Type ℓ} → (A → Type 0) → List A → Type 0
Any P [] = ⊥
Any P (x ∷ xs) = P x ⊎ Any P xs

-- This vote is an approval of the action, signed with the key of the roster's member `m`.
pub record IsApproval (d : Digests) (p : Proof) (m : Member) (v : SignedVote) : Type 0 where
  pub approving : v.body.decision ≡ approve
  pub of_action : v.body.action_hash ≡ d.hash_action p.action
  pub of_policy : v.body.policy_hash ≡ p.action.policy_hash
  pub enrolled : member_of p.policy.roster v.body.key_id ≡ some m
  pub signed : d.ed_verify m.public_key v.signature (d.vote_message v.body) ≡ ok tt

abbrev IsBound : ℕ → ℕ → SignedVote → Type 0
IsBound action_hash policy_hash v =
    (v.body.action_hash ≡ action_hash) × (v.body.policy_hash ≡ policy_hash)

abbrev IsSigned : Digests → List Member → SignedVote → Type 0
IsSigned d roster v =
    (m : Member) × (member_of roster v.body.key_id ≡ some m)
    × (d.ed_verify m.public_key v.signature (d.vote_message v.body) ≡ ok tt)

bind_votes-All :
    (a h : ℕ) (vs : List SignedVote) {u : Unit {0}}
    → bind_votes a h vs ≡ ok u
    → All (IsBound a h) vs
unfolding bind_votes
bind_votes-All a h [] e = tt
bind_votes-All a h (v ∷ vs) e =
    let (_, first, rest) =
      >>=-eq-ok (raise_unless (v.body.action_hash == a && v.body.policy_hash == h) hash_mismatch)
        (λ _. bind_votes a h vs) e in
    ((ground arith, ground arith), bind_votes-All a h vs rest)

check_vote-IsSigned :
    (d : Digests) (roster : List Member) (v : SignedVote) {u : Unit {0}}
    → check_vote d roster v ≡ ok u
    → IsSigned d roster v
unfolding check_vote
check_vote-IsSigned d roster v h = elim (Option-cases (member_of roster v.body.key_id)) [
  | inl e ↦ ground arith
  | inr (m, e) ↦ (m, e, ground arith)
]

check_votes-All :
    (d : Digests) (roster : List Member) (vs : List SignedVote) {u : Unit {0}}
    → check_votes d roster vs ≡ ok u
    → All (IsSigned d roster) vs
unfolding check_votes
check_votes-All d roster [] h = tt
check_votes-All d roster (v ∷ vs) h =
    let (_, first, rest) = >>=-eq-ok (check_vote d roster v) (λ _. check_votes d roster vs) h in
    (check_vote-IsSigned d roster v first, check_votes-All d roster vs rest)

binding-votes :
    (d : Digests) (p : Proof) {u : Unit {0}}
    → binding d p ≡ ok u
    → bind_votes (d.hash_action p.action) p.action.policy_hash p.votes ≡ ok tt
unfolding binding
binding-votes d p h = ground arith

-- the approvals behind the keys that are counted
approving_keys-Any :
    (d : Digests) (p : Proof) (k : ℕ) (m : Member) (vs : List SignedVote)
    → All (IsBound (d.hash_action p.action) p.action.policy_hash) vs
    → All (IsSigned d p.policy.roster) vs
    → contains k (approving_keys p.policy.roster vs) ≡ true
    → member_of p.policy.roster k ≡ some m
    → Any (IsApproval d p m) vs
unfolding approving_keys
approving_keys-Any d p k m [] b s c e = cc
approving_keys-Any d p k m (v ∷ vs) b s c e =
    elim (Bool-cases (is_approve v.body.decision && v.body.key_id == k)) [
      | inl here ↦
          let (n, f, g) = s.0 in
          let same : n ≡ m = ground arith in
          inl (record {
            approving = ground arith;
            of_action = b.0.0;
            of_policy = b.0.1;
            enrolled = ground arith;
            signed = rw (← same) g;
          })
      | inr elsewhere ↦ inr (approving_keys-Any d p k m vs b.1 s.1 (ground arith) e)
    ]

principals_in-member :
    (roster : List Member) (x : ℕ) (ks : List ℕ)
    → contains x (principals_in roster ks) ≡ true
    → (k : ℕ) × (m : Member) × (contains k ks ≡ true)
      × (member_of roster k ≡ some m)
      × (m.principal_id ≡ x)
unfolding principals_in
principals_in-member roster x [] h = cc
principals_in-member roster x (k ∷ ks) h = elim (Option-cases (member_of roster k)) [
  | inl e ↦
      let (j, m, c, f, q) = principals_in-member roster x ks (ground arith) in
      (j, m, ground arith, f, q)
  | inr (m, e) ↦ elim (Bool-cases (m.principal_id == x)) [
    | inl same ↦ (k, m, ground arith, e, ground arith)
    | inr other ↦
        let (j, n, c, f, q) = principals_in-member roster x ks (ground arith) in
        (j, n, ground arith, f, q)
  ]
]

has_human-member :
    (roster : List Member) (ks : List ℕ)
    → has_human roster ks ≡ true
    → (k : ℕ) × (m : Member) × (contains k ks ≡ true)
      × (member_of roster k ≡ some m)
      × (is_human m.kind ≡ true)
unfolding has_human
has_human-member roster [] h = cc
has_human-member roster (k ∷ ks) h = elim (Bool-cases (is_human_member (member_of roster k))) [
  | inl e ↦ elim (Option-cases (member_of roster k)) [
    | inl f ↦ ground arith
    | inr (m, f) ↦ (k, m, ground arith, f, ground arith)
  ]
  | inr e ↦
      let (j, n, c, f, q) = has_human-member roster ks (ground arith) in (j, n, ground arith, f, q)
]

-- The approvals that a satisfied report rests on: distinct principals, at least as many as the
-- threshold, each with a member of the roster whose signed approval of this action is retained,
-- and such an approval by a human member where the policy requires one.
pub record IsAuthorized (d : Digests) (p : Proof) : Type 0 where
  pub principals : List ℕ
  pub distinct : IsDistinct principals
  pub enough : p.policy.threshold ≤ length principals
  pub approved :
      (x : ℕ)
      → contains x principals ≡ true
      → (m : Member) × (m.principal_id ≡ x) × Any (IsApproval d p m) p.votes
  pub human :
      p.policy.require_human ≡ true
      → (m : Member) × (is_human m.kind ≡ true) × Any (IsApproval d p m) p.votes

meets-enough :
    (q : Policy) (ks : List ℕ)
    → meets q ks ≡ true
    → q.threshold ≤ length (set_of (principals_in q.roster ks))
unfolding meets
meets-enough q ks h = ground arith

meets-human :
    (q : Policy) (ks : List ℕ)
    → meets q ks ≡ true
    → q.require_human ≡ true
    → has_human q.roster ks ≡ true
unfolding meets
meets-human q ks h r = ground arith

pub meets-IsAuthorized :
    (d : Digests) (p : Proof) (t : Trust) {u v : Unit {0}}
    → binding d p ≡ ok u
    → signatures d p t ≡ ok v
    → meets p.policy (set_of (approving_keys p.policy.roster p.votes)) ≡ true
    → IsAuthorized d p
unfolding signatures
meets-IsAuthorized d p t b s h =
    let roster = p.policy.roster in
    let keys = approving_keys roster p.votes in
    let bound =
      bind_votes-All (d.hash_action p.action) p.action.policy_hash p.votes (binding-votes d p b) in
    let (_, voted, _) =
      >>=-eq-ok (check_votes d roster p.votes) (λ _. check_trail d t p.checkpoint p.events) s in
    let sealed = check_votes-All d roster p.votes voted in
    record {
      principals = set_of (principals_in roster (set_of keys));
      distinct = set_of-IsDistinct (principals_in roster (set_of keys));
      enough = meets-enough p.policy (set_of keys) h;
      approved = λ x c.
          let (k, m, within, known, named) =
            principals_in-member roster x (set_of keys)
              (sym (contains-set_of x (principals_in roster (set_of keys))) ∙ c) in
          (
            m,
            named,
            approving_keys-Any d p k m p.votes bound sealed (sym (contains-set_of k keys) ∙ within)
                known,
          );
      human = λ r.
          let (k, m, within, known, kind) =
            has_human-member roster (set_of keys) (meets-human p.policy (set_of keys) h r) in
          (
            m,
            kind,
            approving_keys-Any d p k m p.votes bound sealed (sym (contains-set_of k keys) ∙ within)
                known,
          );
    }
