-- ===== src/Coordinator/Votes.antt =====
-- coordinator.py: `_votes_of`, `_approved` and `_quorum_satisfied`.
use vekquorum.Prelude.{
  ℕ, Bool, List, [], ◌∷◌, map, ◌==◌, leb, filter_by, set_of, sorted, if◌then◌else◌,
}
use vekquorum.Wire.{Policy, SignedVote}
use vekquorum.Verifier.Quorum.{approving_keys, principals_in, meets}
use vekquorum.Coordinator.Tables.{Proposal, VoteRow}
use vekquorum.Coordinator.Exec.{Exec, gets, pure, ◌>>=◌}

abbrev pub insert_vote : SignedVote → List SignedVote → List SignedVote
insert_vote v [] = v ∷ []
insert_vote v (w ∷ ws) =
    let rest = insert_vote v ws in if leb v.body.key_id w.body.key_id then v ∷ w ∷ ws else w ∷ rest

-- `ORDER BY key_id`
abbrev pub by_key : List SignedVote → List SignedVote
by_key [] = []
by_key (v ∷ vs) = insert_vote v (by_key vs)

-- `_votes_of`
unfoldable pub votes_of : Proposal → Exec (List SignedVote)
votes_of q = gets (λ s. by_key (
    map (λ (row : VoteRow). row.vote)
      (filter_by (λ (row : VoteRow). row.proposal == q.id) s.db.votes)))

-- `_approved`: the approving keys in order, and their principals
unfoldable pub approved : Proposal → Policy → Exec (List ℕ × List ℕ)
approved q policy = do
  votes ← votes_of q
  let keys = sorted (set_of (approving_keys policy.roster votes))
  pure (keys, principals_in policy.roster keys)

-- `_quorum_satisfied`
unfoldable pub quorum_satisfied : Proposal → Policy → Exec Bool
quorum_satisfied q policy = do (keys, principals) ← approved q policy; pure (meets policy keys)
