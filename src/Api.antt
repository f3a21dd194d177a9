-- ===== src/Api.antt =====
-- python/vekquorum/api.py: the tally of votes and the signing of a vote, for arguments as the
-- validators of schema.py return them.
use vekquorum.Prelude.{
  ℕ, Bool, true, false, Option, none, some, List, [], ◌∷◌, ◌==◌, ◌&&◌, ◌||◌, not, add, contains,
  find_first, leb, length, option_eq, if◌then◌else◌, Result, ok, raise_if, raise_unless, or_raise,
  ◌>>=◌, ◌>>◌,
}
use vekquorum.Errors.{hash_mismatch, invalid_key, key_not_enrolled, vote_conflict}
use vekquorum.Wire.{
  Action, Policy, Member, Enrichment, Decision, SignedVote, VoteBody, is_approve, is_human,
}
use vekquorum.Wire.Digests.{Digests}
pub mod Counted
pub mod Signed
pub mod Tests

-- `next((m for m in roster if m["key_id"] == k), None)`
abbrev pub enrolled : ℕ → List Member → Option Member
enrolled k roster = find_first (λ (m : Member). m.key_id) k roster

-- the three sets of the loop of `tally`
pub record Ballots : Type 0 where
  pub approved_principals : List ℕ
  pub human_principals : List ℕ
  pub seen_keys : List ℕ

abbrev pub no_ballots : Ballots
no_ballots = record { approved_principals = []; human_principals = []; seen_keys = [] }

pub record Tally : Type 0 where
  pub approvals : ℕ
  pub human_approvals : ℕ
  pub satisfied : Bool

-- `approved_principals.add(…)`, and `human_principals.add(…)` for a human
unfoldable pub approve_by : Member → Ballots → Ballots
approve_by m b = record b {
  approved_principals = add m.principal_id b.approved_principals;
  human_principals =
      if is_human m.kind then add m.principal_id b.human_principals else b.human_principals;
}

-- the part of the loop that raises, which comes to the member who votes
unfoldable pub check_ballot : Digests → Action → Policy → SignedVote → Ballots → Result Member
check_ballot d a p v b = do
  raise_unless (v.body.action_hash == d.hash_action a && v.body.policy_hash == d.hash_policy p)
      hash_mismatch
  m ← or_raise (enrolled v.body.key_id p.roster) key_not_enrolled
  raise_if (contains v.body.key_id b.seen_keys) vote_conflict
  d.ed_verify m.public_key v.signature (d.vote_message v.body)
  ok m

abbrev pub see_key : ℕ → Ballots → Ballots
see_key k b = record b { seen_keys = add k b.seen_keys }

-- the part of the loop that counts
unfoldable pub count_ballot : SignedVote → Member → Ballots → Ballots
unfolding approve_by
count_ballot v m b =
    let seen = see_key v.body.key_id b in
    if is_approve v.body.decision then approve_by m seen else seen

-- `for vote in checked: …`
unfoldable pub count_ballots :
    Digests → Action → Policy → List SignedVote → Ballots → Result Ballots
unfolding check_ballot count_ballot
count_ballots d a p [] b = ok b
count_ballots d a p (v ∷ vs) b = do
  m ← check_ballot d a p v b
  count_ballots d a p vs (count_ballot v m b)

unfoldable pub tally_of : Policy → Ballots → Tally
tally_of p b = record {
  approvals = length b.approved_principals;
  human_approvals = length b.human_principals;
  satisfied =
      leb p.threshold (length b.approved_principals)
      && (not p.require_human || leb 1 (length b.human_principals));
}

unfoldable pub tally : Digests → Action → Policy → List SignedVote → Result Tally
unfolding count_ballots tally_of
tally d a p votes = do b ← count_ballots d a p votes no_ballots; ok (tally_of p b)

-- `_check_enrichment_binding`
unfoldable pub enrichment_binding : Digests → Action → Option Enrichment → Result (Unit {0})
enrichment_binding d a none = raise_unless (option_eq a.enrichment_hash none) hash_mismatch
enrichment_binding d a (some e) =
    raise_unless (option_eq a.enrichment_hash (some (d.hash_enrichment e))) hash_mismatch

-- the body that is signed
abbrev pub signed_body : Digests → Action → Policy → (key_id : ℕ) → Decision → VoteBody
signed_body d a p key_id decision = record {
  action_hash = d.hash_action a;
  policy_hash = d.hash_policy p;
  key_id = key_id;
  decision = decision;
}

-- the vote with its signature
abbrev pub vote_signed : Digests → (private_key : ℕ) → VoteBody → SignedVote
vote_signed d private_key body = record {
  body = body;
  signature = d.ed_sign private_key (d.vote_message body);
}

-- `public_key_of` of ed25519.py derives the public key of a seed.
module _ (d : Digests) (public_key_of : ℕ → ℕ) where
  unfoldable pub sign_vote :
      Action
      → Policy
      → Option Enrichment
      → (key_id : ℕ) → Decision
      → (confirm_hash : ℕ) → (private_key : ℕ) → Result SignedVote
  unfolding enrichment_binding
  sign_vote a p e key_id decision confirm_hash private_key = do
    raise_unless (d.hash_action a == confirm_hash) hash_mismatch
    enrichment_binding d a e
    m ← or_raise (enrolled key_id p.roster) key_not_enrolled
    raise_unless (public_key_of private_key == m.public_key) invalid_key
    ok (vote_signed d private_key (signed_body d a p key_id decision))
