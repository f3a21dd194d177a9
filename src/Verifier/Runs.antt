-- ===== src/Verifier/Runs.antt =====
-- An accepted replay is a run of the state machine.
use vekquorum.Prelude.{
  ℕ, ◌≡◌, ◌≢◌, refl, true, List, [], ◌∷◌, map, arith, ok, >>=-eq-ok, Bool-cases, inl, inr,
}
use vekquorum.Wire.{
  Proof, AuditEntry, EventData, proposed, vote_recorded, quorum_reached, commit_started,
  execution_reported, execution_reconciled, escalated, escalation_delivered, escalation_deferred,
  expired, canceled, invalidated, authority_changed, Decision, ExecutionResult, EscalationReason,
  InvalidReason,
}
use vekquorum.Wire.Digests.{Digests}
use vekquorum.Lifecycle.{State, is_reject_pending, is_live, reported_state}
use vekquorum.Lifecycle.Moves.{
  Move, approval, rejection, quorum, commit, report, reconcile, escalation, forced, delivery,
  deferral, expiry, cancellation, invalidation, Run, stay, step, is_commit, commits, spent,
  Run-spent,
}
use vekquorum.Verifier.Replay.{
  Progress, initial, on_vote, on_quorum, on_commit, on_report, on_reconcile, on_escalated,
  on_delivery, on_expired, on_canceled, on_invalidated, dispatch, loop, replay_from, is_proposal,
  conclude, replay,
}

module _ (d : Digests) (p : Proof) (r : Progress) {r' : Progress} where
  on_vote-Move :
      (h k : ℕ) (c : Decision)
      → on_vote d p r h k c ≡ ok r'
      → Move (vote_recorded h k c) r.state r'.state
  unfolding on_vote
  on_vote-Move h k Decision.approve e =
      let live : is_live r.state ≡ true = ground arith in
      let same : r'.state ≡ r.state = ground arith in rw same (approval live)
  on_vote-Move h k Decision.reject e =
      let live : is_live r.state ≡ true = ground arith in
      let pending : r'.state ≡ State.reject_pending = ground arith in rw pending (rejection live)

  on_quorum-Move :
      (ks ps : List ℕ) → on_quorum p r ks ps ≡ ok r' → Move (quorum_reached ks ps) r.state r'.state
  unfolding on_quorum
  on_quorum-Move ks ps e =
      let from : r.state ≡ State.open_state = ground arith in
      let to : r'.state ≡ State.ready = ground arith in rw (from, to) quorum

  on_commit-Move :
      (t a o i l g : ℕ)
      → on_commit d p r t a o l ≡ ok r'
      → Move (commit_started a o i l g) r.state r'.state
  unfolding on_commit
  on_commit-Move t a o i l g e =
      let from : r.state ≡ State.ready = ground arith in
      let to : r'.state ≡ State.dispatching = ground arith in rw (from, to) commit

  on_report-Move :
      (x : ExecutionResult) → on_report r x ≡ ok r' → Move (execution_reported x) r.state r'.state
  unfolding on_report
  on_report-Move x e =
      let from : r.state ≡ State.dispatching = ground arith in
      let to : reported_state x.status ≡ r'.state = ground arith in rw from (report to)

  on_reconcile-Move :
      (x : ExecutionResult)
      → on_reconcile r x ≡ ok r'
      → Move (execution_reconciled x) r.state r'.state
  unfolding on_reconcile
  on_reconcile-Move x e =
      let from : r.state ≡ State.unknown = ground arith in
      let to : reported_state x.status ≡ r'.state = ground arith in rw from (reconcile to)

  on_escalated-Move :
      (reason : EscalationReason) (i : ℕ)
      → on_escalated r reason ≡ ok r'
      → Move (escalated reason i) r.state r'.state
  unfolding on_escalated
  on_escalated-Move reason i e =
      let to : r'.state ≡ State.escalated_state = ground arith in
      elim (Bool-cases (is_reject_pending r.state)) [
        | inl h ↦
            let from : r.state ≡ State.reject_pending = ground arith in
            let why : reason ≡ EscalationReason.reject_vote = ground arith in
            rw (from, to, why) forced
        | inr h ↦ let live : is_live r.state ≡ true = ground arith in rw to (escalation live)
      ]

  on_delivery-escalated :
      on_delivery r ≡ ok r' → (r.state ≡ State.escalated_state) × (r'.state ≡ State.escalated_state)
  unfolding on_delivery
  on_delivery-escalated e = ground arith

  on_expired-Move : (t x : ℕ) → on_expired p r t x ≡ ok r' → Move (expired x) r.state r'.state
  unfolding on_expired
  on_expired-Move t x e =
      let live : is_live r.state ≡ true = ground arith in
      let to : r'.state ≡ State.expired_state = ground arith in rw to (expiry live)

  on_canceled-Move : on_canceled r ≡ ok r' → Move canceled r.state r'.state
  unfolding on_canceled
  on_canceled-Move e =
      let live : is_live r.state ≡ true = ground arith in
      let to : r'.state ≡ State.canceled_state = ground arith in rw to (cancellation live)

  on_invalidated-Move :
      (x : InvalidReason) → on_invalidated r ≡ ok r' → Move (invalidated x) r.state r'.state
  unfolding on_invalidated
  on_invalidated-Move x e =
      let live : is_live r.state ≡ true = ground arith in
      let to : r'.state ≡ State.stale = ground arith in rw to (invalidation live)

-- Each round of the loop that raises nothing makes one move.
pub dispatch-Move :
    (d : Digests) (p : Proof) (r : Progress) {r' : Progress} (t : ℕ) (e : EventData)
    → dispatch d p r t e ≡ ok r'
    → Move e r.state r'.state
unfolding dispatch
dispatch-Move d p r t (proposed _ _ _) h = cc
dispatch-Move d p r t (vote_recorded v k c) h = on_vote-Move d p r v k c h
dispatch-Move d p r t (quorum_reached ks ps) h = on_quorum-Move d p r ks ps h
dispatch-Move d p r t (commit_started a o i l g) h = on_commit-Move d p r t a o i l g h
dispatch-Move d p r t (execution_reported x) h = on_report-Move d p r x h
dispatch-Move d p r t (execution_reconciled x) h = on_reconcile-Move d p r x h
dispatch-Move d p r t (escalated reason i) h = on_escalated-Move d p r reason i h
dispatch-Move d p r t (escalation_delivered i ticket) h =
    let (from, to) = on_delivery-escalated d p r h in rw (from, to) delivery
dispatch-Move d p r t (escalation_deferred i n c) h =
    let (from, to) = on_delivery-escalated d p r h in rw (from, to) deferral
dispatch-Move d p r t (expired x) h = on_expired-Move d p r t x h
dispatch-Move d p r t canceled h = on_canceled-Move d p r h
dispatch-Move d p r t (invalidated x) h = on_invalidated-Move d p r x h
dispatch-Move d p r t (authority_changed _ _) h = cc

-- the events of a log without their envelopes
abbrev pub payloads : List AuditEntry → List EventData
payloads = map (λ (e : AuditEntry). e.body.event_data)

pub loop-Run :
    (d : Digests) (p : Proof) (r : Progress) {r' : Progress} (es : List AuditEntry)
    → loop d p r es ≡ ok r'
    → Run (payloads es) r.state r'.state
unfolding loop
loop-Run d p r {r' = r'} [] h = let same : r'.state ≡ r.state = ground arith in rw same stay
loop-Run d p r (e ∷ es) h =
    let (q, round, rest) =
      >>=-eq-ok (dispatch d p r e.body.at_ms e.body.event_data) (λ q. loop d p q es) h in
    step (dispatch-Move d p r e.body.at_ms e.body.event_data round) (loop-Run d p q es rest)

pub replay_from-nil : (d : Digests) (p : Proof) {r : Progress} → replay_from d p [] ≢ ok r
unfolding replay_from
replay_from-nil d p h = cc

-- the final state of `_replay` is that of its loop
pub replay_from-loop :
    (d : Digests) (p : Proof) {r : Progress} (e : AuditEntry) (es : List AuditEntry)
    → replay_from d p (e ∷ es) ≡ ok r
    → (loop d p initial es ≡ ok r) × (conclude p r ≡ ok r)
unfolding replay_from conclude
replay_from-loop d p e es h = ground arith

-- the rest of a log after its first event
abbrev pub rest_of : List AuditEntry → List AuditEntry
rest_of [] = []
rest_of (_ ∷ es) = es

is_commit-proposal :
    (d : Digests) (p : Proof) (x : EventData) → is_proposal d p x ≡ true → is_commit x ≡ 0
unfolding is_proposal
is_commit-proposal d p (proposed _ _ _) h = refl
is_commit-proposal d p (commit_started _ _ _ _ _) h = cc
is_commit-proposal d p _ h = refl

replay_from-proposal :
    (d : Digests) (p : Proof) {r : Progress} (e : AuditEntry) (es : List AuditEntry)
    → replay_from d p (e ∷ es) ≡ ok r
    → is_proposal d p e.body.event_data ≡ true
unfolding replay_from
replay_from-proposal d p e es h = ground arith

module _ (d : Digests) (p : Proof) {r : Progress} where
  replay_from-Run :
      (es : List AuditEntry)
      → replay_from d p es ≡ ok r
      → Run (payloads (rest_of es)) State.open_state r.state
  replay_from-Run [] h = absurd (replay_from-nil d p h)
  replay_from-Run (e ∷ es) h = loop-Run d p initial es (replay_from-loop d p e es h).0

  replay_from-commits :
      (es : List AuditEntry) → replay_from d p es ≡ ok r → commits (payloads es) ≡ spent r.state
  replay_from-commits [] h = absurd (replay_from-nil d p h)
  replay_from-commits (e ∷ es) h = omega (
    arith,
    is_commit-proposal d p e.body.event_data (replay_from-proposal d p e es h),
    Run-spent (replay_from-Run (e ∷ es) h),
  )

-- If `_replay` accepts a proof, the events after the first are a run of the state machine from
-- OPEN to the state that it returns.
pub replay-Run :
    (d : Digests) (p : Proof) {r : Progress}
    → replay d p ≡ ok r
    → Run (payloads (rest_of p.events)) State.open_state r.state
unfolding replay
replay-Run d p h = replay_from-Run d p p.events h

-- An accepted proof holds exactly one CommitStarted event if its final state is DISPATCHING,
-- SUCCEEDED, FAILED or UNKNOWN, and none otherwise.
pub replay-commits :
    (d : Digests) (p : Proof) {r : Progress}
    → replay d p ≡ ok r
    → commits (payloads p.events) ≡ spent r.state
unfolding replay
replay-commits d p h = replay_from-commits d p p.events h
