-- ===== src/Coordinator/Submit.antt =====
-- coordinator.py: `submit`, which records a vote.
use vekquorum.Prelude.{
  ℕ, Bool, true, false, Option, none, some, [], ◌∷◌, ◌++◌, ◌==◌, ◌&&◌, not, any, leb, length,
  set_of, find_by, find_first, if◌then◌else◌,
}
use vekquorum.Errors.{
  expired, hash_mismatch, key_not_enrolled, not_found, rate_limited, revision_conflict,
  state_conflict, vote_conflict,
}
use vekquorum.Wire.{
  Action, Capability, Decision, EscalationReason, EventData, Member, Policy, SignedVote,
}
use vekquorum.Lifecycle.{State, is_live, is_open}
use vekquorum.Coordinator.Tables.{
  Config, Meta, Method, Proposal, Response, View, VoteRow, submit_request, viewed,
}
use vekquorum.Coordinator.Exec.{
  Exec, pure, gets, modify, modify_db, lift, or_crash, or_raise, raise, raise_if, raise_unless,
  constraint, tx, ◌>>=◌, ◌>>◌,
}
use vekquorum.Coordinator.Rows.{
  action_of, append_event, authorize, dedupe, flush, load_proposal, logical_now, materialize,
  policy_of, record_request, set_state,
}
use vekquorum.Coordinator.Votes.{approved, quorum_satisfied}
use vekquorum.Coordinator.Bundles.{make_escalation}
use vekquorum.Coordinator.Propose.{rate_limit}

abbrev pub rate_submit_per_min : ℕ
rate_submit_per_min = 120

unfoldable pub limit_submit : ℕ → Exec (Unit {0})
limit_submit now = do
  (bucket, allowed) ← gets (λ s. rate_limit s.rate_submit rate_submit_per_min now)
  modify (λ s. record s { rate_submit = bucket })
  raise_unless allowed rate_limited

-- the primary key of the table `votes`
abbrev pub is_vote : ℕ → ℕ → VoteRow → Bool
is_vote proposal key_id row = row.proposal == proposal && row.vote.body.key_id == key_id

unfoldable pub insert_vote_row : ℕ → SignedVote → Exec (Unit {0})
insert_vote_row proposal vote = do
  taken ← gets (λ s. any (is_vote proposal vote.body.key_id) s.db.votes)
  constraint (not taken)
  modify_db
      (λ db. record db { votes = db.votes ++ (record { proposal = proposal; vote = vote }) ∷ [] })

-- an approval that meets the policy makes an open proposal ready
unfoldable pub reach_quorum : Config → Proposal → Policy → (actor now : ℕ) → Exec Proposal
reach_quorum c q policy actor now = do
  (keys, principals) ← approved q policy
  q' ← append_event c q (EventData.quorum_reached keys principals) actor now
  pure (set_state q' State.ready)

unfoldable pub count_approval : Config → Proposal → Policy → (actor now : ℕ) → Exec Proposal
count_approval c q policy actor now = do
  (_, principals) ← approved q policy
  let q' : Proposal = record q { view = record q.view { approvals = length (set_of principals) } }
  met ← quorum_satisfied q' policy
  if is_open q'.state && met then reach_quorum c q' policy actor now else pure q'

unfoldable pub after_vote : Config → Proposal → Policy → Decision → (actor now : ℕ) → Exec Proposal
after_vote c q policy Decision.reject actor now =
    make_escalation c q EscalationReason.reject_vote actor now
after_vote c q policy Decision.approve actor now = count_approval c q policy actor now

-- the body of `submit` for a vote that is not there yet
unfoldable pub record_vote :
    Config
    → Proposal
    → Action
    → Policy
    → (expected_revision : ℕ) → SignedVote
    → Meta
    → (now : ℕ) → Exec View
record_vote c q action policy expected_revision vote meta now = do
  raise_unless (expected_revision == q.revision) revision_conflict
  raise_unless (is_live q.state) state_conflict
  raise_if (leb action.expires_ms now) expired
  insert_vote_row q.id vote
  let actor = meta.caller.principal_id
  q' ←
      append_event c q
        (EventData.vote_recorded (c.digests.hash_vote vote.body) vote.body.key_id
          vote.body.decision)
        actor now
  q'' ← after_vote c q' policy vote.body.decision actor now
  flush q''
  record_request c Method.submit (submit_request q.id expected_revision vote) meta (viewed q''.view)
  pure q''.view

-- a vote of a key that has voted
unfoldable pub repeat_vote : Config → Proposal → SignedVote → VoteRow → Exec View
repeat_vote c q vote prior =
    if c.digests.hash_vote prior.vote.body == c.digests.hash_vote vote.body
    then (do flush q; pure q.view)
    else raise vote_conflict

abbrev pub vote_or_repeat :
    Config → Proposal → Action → Policy → ℕ → SignedVote → Meta → ℕ → Option VoteRow → Exec View
vote_or_repeat c q action policy expected_revision vote meta now (some prior) =
    repeat_vote c q vote prior
vote_or_repeat c q action policy expected_revision vote meta now none =
    record_vote c q action policy expected_revision vote meta now

-- the tests of a vote against the proposal, and its signature
unfoldable pub cast :
    Config → Proposal → (expected_revision : ℕ) → SignedVote → Meta → (now : ℕ) → Exec View
cast c q expected_revision vote meta now = do
  action ← action_of q
  raise_unless
      (vote.body.action_hash == c.digests.hash_action action
        && vote.body.policy_hash == action.policy_hash)
      hash_mismatch
  held ← policy_of action.policy_hash
  policy ← or_crash held
  member ←
      or_raise (find_first (λ (m : Member). m.key_id) vote.body.key_id policy.roster)
        key_not_enrolled
  lift (c.digests.ed_verify member.public_key vote.signature (c.digests.vote_message vote.body))
  prior ← gets (λ s. find_by (is_vote q.id vote.body.key_id) s.db.votes)
  vote_or_repeat c q action policy expected_revision vote meta now prior

abbrev pub cast_or_view :
    Config → Proposal → ℕ → SignedVote → Meta → ℕ → Option Response → Exec View
cast_or_view c q expected_revision vote meta now (some _) = pure q.view
cast_or_view c q expected_revision vote meta now none = cast c q expected_revision vote meta now

abbrev pub unless_changed : Config → Proposal → ℕ → SignedVote → Meta → ℕ → Bool → Exec View
unless_changed c q expected_revision vote meta now true = pure q.view
unless_changed c q expected_revision vote meta now false = do
  stored ← dedupe c Method.submit (submit_request q.id expected_revision vote) meta
  cast_or_view c q expected_revision vote meta now stored

-- `submit`
unfoldable pub submit : Config → (proposal_id expected_revision : ℕ) → SignedVote → Meta → Exec View
submit c proposal_id expected_revision vote meta = do
  authorize c meta.caller Capability.submit
  tx (do
    now ← logical_now c
    limit_submit now
    found ← load_proposal proposal_id
    q ← or_raise found not_found
    (changed, q') ← materialize c q now
    unless_changed c q' expected_revision vote meta now changed)
