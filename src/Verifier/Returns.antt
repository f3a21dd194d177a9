-- ===== src/Verifier/Returns.antt =====
-- `verify_proof` always returns a report. In `_replay` only `members[k]` could raise a `KeyError`,
-- and the keys that it is asked for have passed `_signatures`.
use vekquorum.Prelude.{
  ℕ, ◌≡◌, refl, Bool, true, false, List, [], ◌∷◌, arith, all, contains, sorted, set_of, list_eq,
  raise_unless, Result, ok, Option-cases, inl, inr, >>=-eq-ok, if◌then◌else◌,
}
use vekquorum.Prelude.Faultless.{
  NoFault, NoFault-ok, NoFault-vq, NoFault-bind, NoFault-raise_unless, no_fault_rules, Returns,
  Returns-attempt,
}
use vekquorum.Errors.{illegal_transition}
use vekquorum.Lifecycle.{is_open}
use vekquorum.Wire.{
  Proof, Checkpoint, Member, SignedVote, AuditEntry, Trust, EventData, proposed, vote_recorded,
  quorum_reached, commit_started, execution_reported, execution_reconciled, escalated,
  escalation_delivered, escalation_deferred, expired, canceled, invalidated, authority_changed,
}
use vekquorum.Wire.Digests.{Digests, RaisesOnlyVq}
use vekquorum.Verifier.Reports.{Report}
use vekquorum.Verifier.Signatures.{check_vote, check_votes, check_trail, signatures}
use vekquorum.Verifier.Quorum.{is_member, principals_of}
use vekquorum.Verifier.Enough.{contains-sorted}
use vekquorum.Verifier.{after_signatures, after_trust, after_schema, verify_proof}
use vekquorum.Verifier.Binding.{binding, trust}
use vekquorum.Verifier.Chain.{chain}
use vekquorum.Verifier.Total.{binding-NoFault, trust-NoFault, signatures-NoFault, chain-NoFault}
use vekquorum.Verifier.Replay.{
  Progress, initial, vote_of, vote_keys, is_proposal, dispatch, loop, conclude, replay_from, replay,
}
use vekquorum.Verifier.Votes.{Inv, initial-Inv, dispatch-Inv, approves}

-- every retained vote is a member's
abbrev AllMembers : Proof → Type 0
AllMembers p = (k : ℕ) → approves (vote_of p.votes k) ≡ true → is_member p.policy.roster k ≡ true

check_vote-member :
    (d : Digests) (roster : List Member) (v : SignedVote) {u : Unit {0}}
    → check_vote d roster v ≡ ok u
    → is_member roster v.body.key_id ≡ true
unfolding check_vote
check_vote-member d roster v h = ground arith

check_votes-member :
    (d : Digests) (roster : List Member) (vs : List SignedVote) (k : ℕ) {u : Unit {0}}
    → check_votes d roster vs ≡ ok u
    → approves (vote_of vs k) ≡ true
    → is_member roster k ≡ true
unfolding check_votes
check_votes-member d roster [] k h a = cc
check_votes-member d roster (v ∷ vs) k h a =
    let (_, first, rest) = >>=-eq-ok (check_vote d roster v) (λ _. check_votes d roster vs) h in
    elim (Option-cases (vote_of vs k)) [
      | inr (w, e) ↦ check_votes-member d roster vs k rest (ground arith)
      | inl e ↦ ground (arith, check_vote-member d roster v first)
    ]

all-is_member :
    (roster : List Member) (ks : List ℕ)
    → ((k : ℕ) → contains k ks ≡ true → is_member roster k ≡ true)
    → all (is_member roster) ks ≡ true
all-is_member roster [] h = refl
all-is_member roster (k ∷ ks) h =
    ground (arith, h k, all-is_member roster ks (λ j c. h j (ground arith)))

module _ (d : Digests) (p : Proof) (known : AllMembers p) where
  principals_of-NoFault :
      (r : Progress) → Inv p r → NoFault (principals_of p.policy.roster (sorted r.approved_keys))
  unfolding principals_of
  principals_of-NoFault r inv =
      rw
        (all-is_member p.policy.roster (sorted r.approved_keys)
          (λ k c. known k (inv.approved k (ground (arith, contains-sorted k r.approved_keys)))))
        (NoFault-ok _)

  dispatch-NoFault : (r : Progress) (t : ℕ) (e : EventData) → Inv p r → NoFault (dispatch d p r t e)
  unfolding dispatch
  dispatch-NoFault r t (proposed _ _ _) v = NoFault-vq _
  dispatch-NoFault r t (vote_recorded x k c) v = search no_fault_rules depth 20
  dispatch-NoFault r t (quorum_reached ks ps) v =
      NoFault-bind (raise_unless (is_open r.state) illegal_transition) _ (NoFault-raise_unless _ _)
        λ _ _.
          NoFault-bind (principals_of p.policy.roster (sorted r.approved_keys)) _
            (principals_of-NoFault r v) (λ ks' h. search no_fault_rules depth 20)
  dispatch-NoFault r t (commit_started a o i l g) v = search no_fault_rules depth 20
  dispatch-NoFault r t (execution_reported x) v = search no_fault_rules depth 20
  dispatch-NoFault r t (execution_reconciled x) v = search no_fault_rules depth 20
  dispatch-NoFault r t (escalated reason i) v = search no_fault_rules depth 20
  dispatch-NoFault r t (escalation_delivered _ _) v = search no_fault_rules depth 20
  dispatch-NoFault r t (escalation_deferred _ _ _) v = search no_fault_rules depth 20
  dispatch-NoFault r t (expired x) v = search no_fault_rules depth 20
  dispatch-NoFault r t canceled v = search no_fault_rules depth 20
  dispatch-NoFault r t (invalidated _) v = search no_fault_rules depth 20
  dispatch-NoFault r t (authority_changed _ _) v = NoFault-vq _

  loop-NoFault : (r : Progress) (es : List AuditEntry) → Inv p r → NoFault (loop d p r es)
  unfolding loop
  loop-NoFault r [] v = NoFault-ok r
  loop-NoFault r (e ∷ es) v =
      let m = dispatch d p r e.body.at_ms e.body.event_data in
      NoFault-bind m (λ q. loop d p q es) (dispatch-NoFault r e.body.at_ms e.body.event_data v)
        (λ q round. loop-NoFault q es (dispatch-Inv d p r e.body.at_ms e.body.event_data v round))

  conclude-NoFault : (r : Progress) → NoFault (conclude p r)
  unfolding conclude
  conclude-NoFault r = search no_fault_rules depth 20

  replay_from-NoFault : (e : AuditEntry) (es : List AuditEntry) → NoFault (replay_from d p (e ∷ es))
  unfolding replay_from
  replay_from-NoFault e es =
      let keys = vote_keys p.votes in
      NoFault-bind (raise_unless (is_proposal d p e.body.event_data) illegal_transition) _
        (NoFault-raise_unless _ _)
        λ _ _.
          NoFault-bind (raise_unless (list_eq keys (sorted (set_of keys))) illegal_transition) _
            (NoFault-raise_unless _ _)
            λ _ _.
              NoFault-bind (loop d p initial es) _ (loop-NoFault initial es (initial-Inv p))
                (λ r _. conclude-NoFault r)

check_votes-AllMembers :
    (d : Digests) (p : Proof) {u : Unit {0}}
    → check_votes d p.policy.roster p.votes ≡ ok u
    → AllMembers p
check_votes-AllMembers d p h k a = check_votes-member d p.policy.roster p.votes k h a

-- What `signatures` has seen: the votes are members', and there is an event.
abbrev IsCons : List AuditEntry → Type 0
IsCons es = (e : AuditEntry) × (rest : List AuditEntry) × (es ≡ e ∷ rest)

check_trail-IsCons :
    (d : Digests) (t : Trust) (c : Checkpoint) (es : List AuditEntry) {u : Unit {0}}
    → check_trail d t c es ≡ ok u
    → IsCons es
unfolding check_trail
check_trail-IsCons d t c [] h = cc
check_trail-IsCons d t c (e ∷ es) h = (e, es, refl)

replay-NoFault :
    (d : Digests) (p : Proof) (t : Trust) {u : Unit {0}}
    → signatures d p t ≡ ok u
    → NoFault (replay d p)
unfolding signatures replay
replay-NoFault d p t h =
    let (_, voted, logged) =
      >>=-eq-ok (check_votes d p.policy.roster p.votes) (λ _. check_trail d t p.checkpoint p.events)
        h in
    let (e, es, shape) = check_trail-IsCons d t p.checkpoint p.events logged in
    rw shape (replay_from-NoFault d p (check_votes-AllMembers d p voted) e es)

module _ (d : Digests) (only : RaisesOnlyVq d) where
  after_signatures-Returns :
      (p : Proof) (t : Trust) {u : Unit {0}}
      → signatures d p t ≡ ok u
      → Returns (after_signatures d p)
  unfolding after_signatures
  after_signatures-Returns p t h =
      Returns-attempt (chain d p) _ (chain-NoFault d p)
        (λ _ _.
          Returns-attempt (replay d p) _ (replay-NoFault d p t h) (λ a _. (_, refl))
            (λ c. (_, refl)))
        (λ c. (_, refl))

  after_trust-Returns : (p : Proof) (t : Trust) → Returns (after_trust d p t)
  unfolding after_trust
  after_trust-Returns p t =
      Returns-attempt (signatures d p t) _ (signatures-NoFault d only p t)
        (λ _ h. after_signatures-Returns p t h) (λ c. (_, refl))

  after_schema-Returns : (p : Proof) (t : Trust) → Returns (after_schema d p t)
  unfolding after_schema
  after_schema-Returns p t =
      Returns-attempt (binding d p) _ (binding-NoFault d p)
        (λ _ _.
          Returns-attempt (trust d p t) _ (trust-NoFault d only p t)
            (λ trusted _. after_trust-Returns p trusted) (λ c. (_, refl)))
        (λ c. (_, refl))

  within_limit-Returns :
      (p : Proof) (t : Trust) (b : Bool) (r : Report)
      → Returns (if b then ok r else after_schema d p t)
  within_limit-Returns p t true r = (r, refl)
  within_limit-Returns p t false r = after_schema-Returns p t

-- If the Ed25519 operations raise nothing but a `VQError`, and neither does the parsing of the
-- proof, `verify_proof` returns a report on every input: no exception leaves it.
pub verify_proof-Returns :
    (d : Digests)
    → RaisesOnlyVq d
    → (decoded : Result Proof) → NoFault decoded
    → (t : Trust) → Returns (verify_proof d decoded t)
unfolding verify_proof
verify_proof-Returns d only decoded parsed t =
    Returns-attempt decoded _ parsed (λ p _. within_limit-Returns d only p t _ _) (λ c. (_, refl))
