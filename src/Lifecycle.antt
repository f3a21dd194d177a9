-- ===== src/Lifecycle.antt =====
-- The states of a proposal and the sets of them that coordinator.py and verifier.py test.
pub mod Moves
use vekquorum.Prelude.{Bool, true, false}
use vekquorum.Wire.{Status}

-- The states of the ceremony, and `_reject_pending`, from which only an escalation leads on.
pub data State : Type 0 where
  open_state ready dispatching succeeded failed unknown escalated_state : State
  expired_state canceled_state stale reject_pending : State

-- `state in ("OPEN", "READY")`
abbrev pub is_live : State → Bool
is_live State.open_state = true
is_live State.ready = true
is_live _ = false

-- `state in _CONSUMED_STATES`
abbrev pub is_consumed : State → Bool
is_consumed State.dispatching = true
is_consumed State.succeeded = true
is_consumed State.failed = true
is_consumed State.unknown = true
is_consumed _ = false

abbrev pub is_open : State → Bool
is_open State.open_state = true
is_open _ = false

abbrev pub is_ready : State → Bool
is_ready State.ready = true
is_ready _ = false

abbrev pub is_dispatching : State → Bool
is_dispatching State.dispatching = true
is_dispatching _ = false

abbrev pub is_unknown : State → Bool
is_unknown State.unknown = true
is_unknown _ = false

abbrev pub is_escalated : State → Bool
is_escalated State.escalated_state = true
is_escalated _ = false

abbrev pub is_reject_pending : State → Bool
is_reject_pending State.reject_pending = true
is_reject_pending _ = false

-- `{"succeeded": "SUCCEEDED", "failed": "FAILED", "unknown": "UNKNOWN"}[status]`
abbrev pub reported_state : Status → State
reported_state Status.succeeded = State.succeeded
reported_state Status.failed = State.failed
reported_state Status.unknown = State.unknown
