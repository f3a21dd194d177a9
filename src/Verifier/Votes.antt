-- ===== src/Verifier/Votes.antt =====
-- What the loop of `_replay` knows of the votes: the invariant of its variables.
use vekquorum.Prelude.{
  ℕ, ◌≡◌, ◌⊎◌, Bool, true, false, Option, none, some, List, [], ◌∷◌, ◌||◌, arith, contains, add,
  sorted, contains-add, ok, >>=-eq-ok, inr,
}
use vekquorum.Wire.{
  Proof, SignedVote, AuditEntry, EventData, proposed, vote_recorded, quorum_reached, commit_started,
  execution_reported, execution_reconciled, escalated, escalation_delivered, escalation_deferred,
  expired, canceled, invalidated, authority_changed, Decision, is_approve, ExecutionResult,
  EscalationReason,
}
use vekquorum.Wire.Digests.{Digests}
use vekquorum.Lifecycle.{State, is_ready, is_consumed, is_escalated, is_reject_pending}
use vekquorum.Verifier.Quorum.{meets}
use vekquorum.Verifier.Enough.{meets_mono, contains-sorted}
use vekquorum.Verifier.Replay.{
  Progress, initial, vote_of, on_vote, on_quorum, on_commit, on_report, on_reconcile, on_escalated,
  on_delivery, on_expired, on_canceled, on_invalidated, dispatch, loop,
}

-- The retained vote of a key approves.
abbrev pub approves : Option SignedVote → Bool
approves none = false
approves (some v) = is_approve v.body.decision

abbrev pub backed : Proof → ℕ → Bool
backed p k = approves (vote_of p.votes k)

-- an approval counts for the states that a quorum opens
abbrev pub has_quorum : State → Bool
has_quorum s = is_ready s || is_consumed s

abbrev pub after_reject : State → Bool
after_reject s = is_reject_pending s || is_escalated s

pub record Inv (p : Proof) (r : Progress) : Type 0 where
  pub approved : (k : ℕ) → contains k r.approved_keys ≡ true → backed p k ≡ true
  pub quorum : has_quorum r.state ≡ true → meets p.policy (sorted r.approved_keys) ≡ true
  pub rejected : r.rejected ≡ true → after_reject r.state ≡ true
  pub counted : (k : ℕ) → contains k r.seen_votes ≡ true → (backed p k ≡ true) ⊎ (r.rejected ≡ true)

pub initial-Inv : (p : Proof) → Inv p initial
initial-Inv p = record {
  approved = λ k h. cc;
  quorum = λ h. cc;
  rejected = λ h. cc;
  counted = λ k h. cc;
}

module _ (d : Digests) (p : Proof) (r : Progress) {r' : Progress} (inv : Inv p r) where
  on_vote-Inv : (h k : ℕ) (c : Decision) → on_vote d p r h k c ≡ ok r' → Inv p r'
  unfolding on_vote
  on_vote-Inv h k Decision.approve e = record {
    approved = λ j m. ground (arith, inv.approved j, contains-add j k r.approved_keys);
    quorum = λ q.
        let grown : r'.approved_keys ≡ add k r.approved_keys = ground arith in
        rw grown (
          meets_mono p.policy (sorted r.approved_keys) (sorted (add k r.approved_keys))
            (λ j m _. ground (
              arith,
              contains-sorted j r.approved_keys,
              contains-sorted j (add k r.approved_keys),
              contains-add j k r.approved_keys,
            ))
            (inv.quorum (ground arith)));
    rejected = λ q. ground (arith, inv.rejected);
    counted = λ j m. ground (arith, inv.counted j, contains-add j k r.seen_votes);
  }
  on_vote-Inv h k Decision.reject e = record {
    approved = λ j m. ground (arith, inv.approved j);
    quorum = λ q. ground arith;
    rejected = λ q. ground arith;
    counted = λ j m. inr (ground arith);
  }

  on_quorum-Inv : (ks ps : List ℕ) → on_quorum p r ks ps ≡ ok r' → Inv p r'
  unfolding on_quorum
  on_quorum-Inv ks ps e = record {
    approved = λ j m. ground (arith, inv.approved j);
    quorum = λ q. ground arith;
    rejected = λ q. ground (arith, inv.rejected);
    counted = λ j m. ground (arith, inv.counted j);
  }

  -- a round that changes the state alone
  moved :
      r'.approved_keys ≡ r.approved_keys
      → r'.seen_votes ≡ r.seen_votes
      → r'.rejected ≡ r.rejected
      → (has_quorum r'.state ≡ true → has_quorum r.state ≡ true)
      → (after_reject r.state ≡ true → after_reject r'.state ≡ true)
      → Inv p r'
  moved a s j q x = record {
    approved = λ k m. ground (arith, inv.approved k);
    quorum = λ h. rw a (inv.quorum (q h));
    rejected = λ h. x (inv.rejected (ground arith));
    counted = λ k m. ground (arith, inv.counted k);
  }

  on_commit-Inv : (t a o l : ℕ) → on_commit d p r t a o l ≡ ok r' → Inv p r'
  unfolding on_commit
  on_commit-Inv t a o l e =
      moved (ground arith) (ground arith) (ground arith) (λ h. ground arith) (λ h. ground arith)

  on_report-Inv : (x : ExecutionResult) → on_report r x ≡ ok r' → Inv p r'
  unfolding on_report
  on_report-Inv x e =
      moved (ground arith) (ground arith) (ground arith) (λ h. ground arith) (λ h. ground arith)

  on_reconcile-Inv : (x : ExecutionResult) → on_reconcile r x ≡ ok r' → Inv p r'
  unfolding on_reconcile
  on_reconcile-Inv x e =
      moved (ground arith) (ground arith) (ground arith) (λ h. ground arith) (λ h. ground arith)

  on_escalated-Inv : (x : EscalationReason) → on_escalated r x ≡ ok r' → Inv p r'
  unfolding on_escalated
  on_escalated-Inv x e =
      moved (ground arith) (ground arith) (ground arith) (λ h. ground arith) (λ h. ground arith)

  on_delivery-Inv : on_delivery r ≡ ok r' → Inv p r'
  unfolding on_delivery
  on_delivery-Inv e =
      moved (ground arith) (ground arith) (ground arith) (λ h. ground arith) (λ h. ground arith)

  on_expired-Inv : (t x : ℕ) → on_expired p r t x ≡ ok r' → Inv p r'
  unfolding on_expired
  on_expired-Inv t x e =
      moved (ground arith) (ground arith) (ground arith) (λ h. ground arith) (λ h. ground arith)

  on_canceled-Inv : on_canceled r ≡ ok r' → Inv p r'
  unfolding on_canceled
  on_canceled-Inv e =
      moved (ground arith) (ground arith) (ground arith) (λ h. ground arith) (λ h. ground arith)

  on_invalidated-Inv : on_invalidated r ≡ ok r' → Inv p r'
  unfolding on_invalidated
  on_invalidated-Inv e =
      moved (ground arith) (ground arith) (ground arith) (λ h. ground arith) (λ h. ground arith)

pub dispatch-Inv :
    (d : Digests) (p : Proof) (r : Progress) {r' : Progress} (t : ℕ) (e : EventData)
    → Inv p r
    → dispatch d p r t e ≡ ok r'
    → Inv p r'
unfolding dispatch
dispatch-Inv d p r t (proposed _ _ _) v h = cc
dispatch-Inv d p r t (vote_recorded x k c) v h = on_vote-Inv d p r v x k c h
dispatch-Inv d p r t (quorum_reached ks ps) v h = on_quorum-Inv d p r v ks ps h
dispatch-Inv d p r t (commit_started a o i l g) v h = on_commit-Inv d p r v t a o l h
dispatch-Inv d p r t (execution_reported x) v h = on_report-Inv d p r v x h
dispatch-Inv d p r t (execution_reconciled x) v h = on_reconcile-Inv d p r v x h
dispatch-Inv d p r t (escalated reason i) v h = on_escalated-Inv d p r v reason h
dispatch-Inv d p r t (escalation_delivered _ _) v h = on_delivery-Inv d p r v h
dispatch-Inv d p r t (escalation_deferred _ _ _) v h = on_delivery-Inv d p r v h
dispatch-Inv d p r t (expired x) v h = on_expired-Inv d p r v t x h
dispatch-Inv d p r t canceled v h = on_canceled-Inv d p r v h
dispatch-Inv d p r t (invalidated _) v h = on_invalidated-Inv d p r v h
dispatch-Inv d p r t (authority_changed _ _) v h = cc

pub loop-Inv :
    (d : Digests) (p : Proof) (r : Progress) {r' : Progress} (es : List AuditEntry)
    → Inv p r
    → loop d p r es ≡ ok r'
    → Inv p r'
unfolding loop
loop-Inv d p r {r' = r'} [] v h = let same : r' ≡ r = ground arith in rw same v
loop-Inv d p r (e ∷ es) v h =
    let (q, round, rest) =
      >>=-eq-ok (dispatch d p r e.body.at_ms e.body.event_data) (λ q. loop d p q es) h in
    loop-Inv d p q es (dispatch-Inv d p r e.body.at_ms e.body.event_data v round) rest
