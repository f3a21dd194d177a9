-- ===== src/Api/Signed.antt =====
-- What `sign_vote` of api.py returns, as `tally` counts it.
use vekquorum.Prelude.{
  ℕ, ◌+◌, ◌≤◌, ◌≡◌, refl, ◌∙◌, subst, true, false, Option, some, List, [], ◌∷◌, ◌++◌, ◌||◌, arith,
  add, contains, contains-add, length, map, ok, >>=-eq-ok, Option-cases, Bool-cases, inl, inr,
}
use vekquorum.Wire.{
  Action, Policy, Member, SignedVote, Decision, approve, reject, Enrichment, is_approve,
}
use vekquorum.Wire.Digests.{Digests}
use vekquorum.Api.{
  enrolled, Ballots, no_ballots, Tally, approve_by, check_ballot, count_ballot, count_ballots,
  tally_of, tally, sign_vote, signed_body, vote_signed,
}

abbrev pub voters : List SignedVote → List ℕ
voters votes = map (λ (v : SignedVote). v.body.key_id) votes

check_ballot-new :
    (d : Digests) (a : Action) (p : Policy) (v : SignedVote) (b : Ballots) {m : Member}
    → check_ballot d a p v b ≡ ok m
    → contains v.body.key_id b.seen_keys ≡ false
unfolding check_ballot
check_ballot-new d a p v b h = ground arith

seen-count_ballot :
    (v : SignedVote) (m : Member) (b : Ballots)
    → (count_ballot v m b).seen_keys ≡ add v.body.key_id b.seen_keys
unfolding count_ballot approve_by
seen-count_ballot v m b = ground arith

seen-count_ballots :
    (d : Digests) (a : Action) (p : Policy) (k : ℕ) (vs : List SignedVote) (b : Ballots)
    {c : Ballots}
    → count_ballots d a p vs b ≡ ok c
    → contains k c.seen_keys ≡ (contains k b.seen_keys || contains k (voters vs))
unfolding count_ballots
seen-count_ballots d a p k [] b h = ground arith
seen-count_ballots d a p k (v ∷ vs) b {c} h =
    let (m, first, rest) =
      >>=-eq-ok (check_ballot d a p v b) (λ m. count_ballots d a p vs (count_ballot v m b)) h in
    let later = seen-count_ballots d a p k vs (count_ballot v m b) rest in
    let here = seen-count_ballot v m b in ground (arith, contains-add k v.body.key_id b.seen_keys)

-- one more vote at the end
count_ballots-snoc :
    (d : Digests) (a : Action) (p : Policy) (vs : List SignedVote) (v : SignedVote) (b : Ballots)
    {c : Ballots} {m : Member}
    → count_ballots d a p vs b ≡ ok c
    → check_ballot d a p v c ≡ ok m
    → count_ballots d a p (vs ++ v ∷ []) b ≡ ok (count_ballot v m c)
unfolding count_ballots
count_ballots-snoc d a p [] v b {c} {m} h e = ground arith
count_ballots-snoc d a p (x ∷ xs) v b {c} {m} h e =
    let (n, first, rest) =
      >>=-eq-ok (check_ballot d a p x b) (λ n. count_ballots d a p xs (count_ballot x n b)) h in
    let later = count_ballots-snoc d a p xs v (count_ballot x n b) rest e in rw first later

-- What one more vote with this decision makes of a tally.
pub record IsAfter (decision : Decision) (t t' : Tally) : Type 0 where
  pub no_fewer : t.approvals ≤ t'.approvals
  pub at_most_one : t'.approvals ≤ 1 + t.approvals
  pub stays : t.satisfied ≡ true → t'.satisfied ≡ true
  pub rejecting : decision ≡ reject → t' ≡ t
  pub approving : decision ≡ approve → 1 ≤ t'.approvals

length-add :
    (x : ℕ) (s : List ℕ)
    → (length s ≤ length (add x s)) × (length (add x s) ≤ 1 + length s) × (1 ≤ length (add x s))
length-add x [] = (omega arith, omega arith, omega arith)
length-add x (y ∷ ys) = (ground arith, ground arith, ground arith)

count_ballot-IsAfter :
    (p : Policy) (v : SignedVote) (m : Member) (b : Ballots)
    → IsAfter v.body.decision (tally_of p b) (tally_of p (count_ballot v m b))
unfolding tally_of count_ballot approve_by
count_ballot-IsAfter p v m b =
    let (grows, bounded, some_one) = length-add m.principal_id b.approved_principals in
    let (humans, _, _) = length-add m.principal_id b.human_principals in
    elim (Bool-cases (is_approve v.body.decision)) [
      | inl approves ↦ record {
        no_fewer = ground arith;
        at_most_one = ground arith;
        stays = λ h. ground arith;
        rejecting = λ h. ground arith;
        approving = λ h. ground arith;
      }
      | inr rejects ↦ record {
        no_fewer = ground arith;
        at_most_one = ground arith;
        stays = λ h. ground arith;
        rejecting = λ h. ground arith;
        approving = λ h. ground arith;
      }
    ]

sign_vote-eq :
    (d : Digests) (public_key_of : ℕ → ℕ) (a : Action) (p : Policy) (e : Option Enrichment)
    (key_id : ℕ) (decision : Decision) (confirm_hash private_key : ℕ) {v : SignedVote}
    → sign_vote d public_key_of a p e key_id decision confirm_hash private_key ≡ ok v
    → (m : Member) × (enrolled key_id p.roster ≡ some m)
      × (public_key_of private_key ≡ m.public_key)
      × (v ≡ vote_signed d private_key (signed_body d a p key_id decision))
unfolding sign_vote
sign_vote-eq d public_key_of a p e key_id decision confirm_hash private_key h =
    elim (Option-cases (enrolled key_id p.roster)) [
      | inl missing ↦ ground arith
      | inr (m, known) ↦ (m, known, ground arith, ground arith)
    ]

check_ballot-signed :
    (d : Digests) (a : Action) (p : Policy) (key_id : ℕ) (decision : Decision) (private_key : ℕ)
    (b : Ballots) (m : Member)
    → d.ed_verify m.public_key
        (d.ed_sign private_key (d.vote_message (signed_body d a p key_id decision)))
        (d.vote_message (signed_body d a p key_id decision))
      ≡ ok tt
    → enrolled key_id p.roster ≡ some m
    → contains key_id b.seen_keys ≡ false
    → check_ballot d a p (vote_signed d private_key (signed_body d a p key_id decision)) b ≡ ok m
unfolding check_ballot
check_ballot-signed d a p key_id decision private_key b m s known new = ground arith

-- Suppose that a signature with a seed verifies under the seed's public key. If `tally` returns
-- on some votes and `sign_vote` returns a vote, with a key that none of them has, then `tally`
-- returns on the votes with this one at the end. The approvals are then no fewer and at most one
-- more, a satisfied policy stays satisfied, a reject vote changes nothing, and after an approve
-- vote there is an approval.
pub sign_vote-tally :
    (d : Digests) (public_key_of : ℕ → ℕ)
    (valid : (seed n : ℕ) → d.ed_verify (public_key_of seed) (d.ed_sign seed n) n ≡ ok tt)
    (a : Action) (p : Policy) (e : Option Enrichment) (key_id : ℕ) (decision : Decision)
    (confirm_hash private_key : ℕ) (votes : List SignedVote) {t : Tally} {v : SignedVote}
    → tally d a p votes ≡ ok t
    → contains key_id (voters votes) ≡ false
    → sign_vote d public_key_of a p e key_id decision confirm_hash private_key ≡ ok v
    → (t' : Tally) × (tally d a p (votes ++ v ∷ []) ≡ ok t') × IsAfter decision t t'
unfolding tally
sign_vote-tally d public_key_of valid a p e key_id decision confirm_hash private_key votes {t} {v}
      counts new signs =
    let (b, counted, ends) =
      >>=-eq-ok (count_ballots d a p votes no_ballots) (λ b. ok (tally_of p b)) counts in
    let (m, known, own, made) =
      sign_vote-eq d public_key_of a p e key_id decision confirm_hash private_key signs in
    let body = signed_body d a p key_id decision in
    let w = vote_signed d private_key body in
    let seen = seen-count_ballots d a p key_id votes no_ballots counted in
    let verified =
      subst
        (λ k.
          d.ed_verify k (d.ed_sign private_key (d.vote_message body)) (d.vote_message body) ≡ ok tt)
        own (valid private_key (d.vote_message body)) in
    let checked =
      check_ballot-signed d a p key_id decision private_key b m verified known (seen ∙ new) in
    let all = count_ballots-snoc d a p votes w no_ballots counted checked in
    let t_is : tally_of p b ≡ t = ground arith in
    (
      tally_of p (count_ballot w m b),
      rw made (rw all refl),
      subst (λ x. IsAfter decision x (tally_of p (count_ballot w m b))) t_is
          (count_ballot-IsAfter p w m b),
    )
