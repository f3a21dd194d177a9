-- ===== src/Verifier/Accepted.antt =====
-- What an accepted replay says of the retained votes.
use vekquorum.Prelude.{
  ℕ, ◌≡◌, true, some, List, [], ◌∷◌, arith, contains, subset, set_of, sorted, contains-set_of, ok,
  Option-cases, inl, inr,
}
use vekquorum.Wire.{Proof, Member, SignedVote, AuditEntry, Decision}
use vekquorum.Wire.Digests.{Digests}
use vekquorum.Lifecycle.{State}
use vekquorum.Verifier.Quorum.{is_member, meets, approving_keys}
use vekquorum.Verifier.Enough.{meets_mono, contains-sorted}
use vekquorum.Verifier.Replay.{Progress, initial, vote_of, vote_keys, conclude, replay_from, replay}
use vekquorum.Verifier.Runs.{replay_from-loop, replay_from-nil}
use vekquorum.Verifier.Votes.{Inv, initial-Inv, loop-Inv, approves, has_quorum, after_reject}

contains-approving_keys :
    (roster : List Member) (votes : List SignedVote) (k : ℕ)
    → approves (vote_of votes k) ≡ true
    → is_member roster k ≡ true
    → contains k (approving_keys roster votes) ≡ true
unfolding approving_keys
contains-approving_keys roster [] k h m = cc
contains-approving_keys roster (v ∷ vs) k h m = elim (Option-cases (vote_of vs k)) [
  | inr (w, e) ↦ ground (arith, contains-approving_keys roster vs k)
  | inl e ↦ ground arith
]

contains-subset :
    (k : ℕ) (xs ys : List ℕ) → subset xs ys ≡ true → contains k xs ≡ true → contains k ys ≡ true
contains-subset k [] ys s h = cc
contains-subset k (x ∷ xs) ys s h = ground (arith, contains-subset k xs ys)

contains-vote_keys :
    (votes : List SignedVote) (k : ℕ) {v : SignedVote}
    → vote_of votes k ≡ some v
    → contains k (vote_keys votes) ≡ true
contains-vote_keys [] k h = cc
contains-vote_keys (w ∷ ws) k {v} h = ground (arith, contains-vote_keys ws k {v = v})

module _ (d : Digests) (p : Proof) {r : Progress} where
  replay_from-Inv :
      (es : List AuditEntry) → replay_from d p es ≡ ok r → Inv p r × (conclude p r ≡ ok r)
  replay_from-Inv [] h = absurd (replay_from-nil d p h)
  replay_from-Inv (e ∷ es) h =
      let (looped, concluded) = replay_from-loop d p e es h in
      (loop-Inv d p initial es (initial-Inv p) looped, concluded)

  replay-Inv : replay d p ≡ ok r → Inv p r × (conclude p r ≡ ok r)
  unfolding replay
  replay-Inv h = replay_from-Inv p.events h

  concluded_escalated :
      conclude p r ≡ ok r → after_reject r.state ≡ true → r.state ≡ State.escalated_state
  unfolding conclude
  concluded_escalated h a = ground arith

  concluded_seen : conclude p r ≡ ok r → subset (vote_keys p.votes) r.seen_votes ≡ true
  unfolding conclude
  concluded_seen h = ground arith

-- If `_replay` accepts a proof and returns READY or a consumed state, the retained approve votes
-- of roster members meet the policy: their distinct principals are at least the threshold, and
-- one of them is human where the policy requires it.
pub replay-meets :
    (d : Digests) (p : Proof) {r : Progress}
    → replay d p ≡ ok r
    → has_quorum r.state ≡ true
    → meets p.policy (set_of (approving_keys p.policy.roster p.votes)) ≡ true
replay-meets d p {r = r} h q =
    let (inv, _) = replay-Inv d p h in
    meets_mono p.policy (sorted r.approved_keys) (set_of (approving_keys p.policy.roster p.votes))
      (λ k c m. ground (
        arith,
        contains-set_of k (approving_keys p.policy.roster p.votes),
        contains-sorted k r.approved_keys,
        inv.approved k,
        contains-approving_keys p.policy.roster p.votes k,
      ))
      (inv.quorum q)

-- If `_replay` accepts a proof that retains a reject vote, its final state is ESCALATED.
pub replay-rejected :
    (d : Digests) (p : Proof) {r : Progress} (k : ℕ) {v : SignedVote}
    → replay d p ≡ ok r
    → vote_of p.votes k ≡ some v
    → v.body.decision ≡ Decision.reject
    → r.state ≡ State.escalated_state
replay-rejected d p {r = r} k {v} h e reject =
    let (inv, concluded) = replay-Inv d p h in
    let seen : contains k r.seen_votes ≡ true =
      contains-subset k (vote_keys p.votes) r.seen_votes (concluded_seen d p concluded)
        (contains-vote_keys p.votes k e) in
    concluded_escalated d p concluded (inv.rejected (ground (arith, inv.counted k seen)))
