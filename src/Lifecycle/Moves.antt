-- ===== src/Lifecycle/Moves.antt =====
-- The state machine of a proposal as a relation: which event leads from which state to which.
use vekquorum.Prelude.{ℕ, ◌+◌, ◌≡◌, refl, true, List, [], ◌∷◌, ◌++◌, arith, if◌then◌else◌}
use vekquorum.Wire.{
  EventData, vote_recorded, quorum_reached, commit_started, execution_reported,
  execution_reconciled, escalated, escalation_delivered, escalation_deferred, expired, canceled,
  invalidated, Decision, ExecutionResult, EscalationReason, InvalidReason, DeliveryCode,
}
use vekquorum.Lifecycle.{State, is_live, is_consumed, reported_state}

pub data Move : EventData → State → State → Type 0 where
  approval :
      {s : State} {h k : ℕ} → is_live s ≡ true → Move (vote_recorded h k Decision.approve) s s
  rejection :
      {s : State} {h k : ℕ}
      → is_live s ≡ true
      → Move (vote_recorded h k Decision.reject) s State.reject_pending
  quorum : {ks ps : List ℕ} → Move (quorum_reached ks ps) State.open_state State.ready
  commit : {a o i l g : ℕ} → Move (commit_started a o i l g) State.ready State.dispatching
  report :
      {r : ExecutionResult} {t : State}
      → reported_state r.status ≡ t
      → Move (execution_reported r) State.dispatching t
  reconcile :
      {r : ExecutionResult} {t : State}
      → reported_state r.status ≡ t
      → Move (execution_reconciled r) State.unknown t
  escalation :
      {s : State} {reason : EscalationReason} {i : ℕ}
      → is_live s ≡ true
      → Move (escalated reason i) s State.escalated_state
  forced :
      {i : ℕ}
      → Move (escalated EscalationReason.reject_vote i) State.reject_pending State.escalated_state
  delivery :
      {i ticket : ℕ}
      → Move (escalation_delivered i ticket) State.escalated_state State.escalated_state
  deferral :
      {i n : ℕ} {c : DeliveryCode}
      → Move (escalation_deferred i n c) State.escalated_state State.escalated_state
  expiry : {s : State} {t : ℕ} → is_live s ≡ true → Move (expired t) s State.expired_state
  cancellation : {s : State} → is_live s ≡ true → Move canceled s State.canceled_state
  invalidation :
      {s : State} {reason : InvalidReason}
      → is_live s ≡ true
      → Move (invalidated reason) s State.stale

-- A run of the machine over the events of a log.
pub data Run : List EventData → State → State → Type 0 where
  stay : {s : State} → Run [] s s
  step :
      {e : EventData} {es : List EventData} {s t u : State}
      → Move e s t
      → Run es t u
      → Run (e ∷ es) s u

abbrev pub is_commit : EventData → ℕ
is_commit (commit_started _ _ _ _ _) = 1
is_commit _ = 0

-- how many commits a log holds
abbrev pub commits : List EventData → ℕ
commits [] = 0
commits (e ∷ es) = is_commit e + commits es

abbrev pub spent : State → ℕ
spent s = if is_consumed s then 1 else 0

live_unspent : (s : State) → is_live s ≡ true → spent s ≡ 0
live_unspent State.open_state h = refl
live_unspent State.ready h = refl
live_unspent _ h = ground arith

reported_spent : (r : ExecutionResult) (t : State) → reported_state r.status ≡ t → spent t ≡ 1
reported_spent r t h = ground arith

pub Move-spent : {e : EventData} {s t : State} → Move e s t → is_commit e + spent s ≡ spent t
Move-spent (approval h) = omega arith
Move-spent (rejection {s = s} h) = omega (arith, live_unspent s h)
Move-spent quorum = omega arith
Move-spent commit = omega arith
Move-spent (report {r = r} {t = t} h) = omega (arith, reported_spent r t h)
Move-spent (reconcile {r = r} {t = t} h) = omega (arith, reported_spent r t h)
Move-spent (escalation {s = s} h) = omega (arith, live_unspent s h)
Move-spent forced = omega arith
Move-spent delivery = omega arith
Move-spent deferral = omega arith
Move-spent (expiry {s = s} h) = omega (arith, live_unspent s h)
Move-spent (cancellation {s = s} h) = omega (arith, live_unspent s h)
Move-spent (invalidation {s = s} h) = omega (arith, live_unspent s h)

-- A run commits once if it enters the consumed states, and otherwise not at all.
pub Run-spent : {es : List EventData} {s t : State} → Run es s t → commits es + spent s ≡ spent t
Run-spent stay = omega arith
Run-spent (step m r) = omega (arith, Move-spent m, Run-spent r)

pub Run-append :
    {es fs : List EventData} {s t u : State} → Run es s t → Run fs t u → Run (es ++ fs) s u
Run-append stay r = r
Run-append (step m q) r = step m (Run-append q r)
