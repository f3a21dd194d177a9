-- ===== src/Coordinator/Deliver.antt =====
-- coordinator.py: `deliver`, which hands an escalation to the inbox.
use vekquorum.Prelude.{
  ℕ, ◌+◌, Option, none, some, ◌==◌, leb, find_by, update_by, Result, ok, err, vq, fault,
}
use vekquorum.Errors.{Code, adapter_unavailable, delivery_limit, not_found}
use vekquorum.Wire.{Capability, DeliveryCode, escalation_delivered, escalation_deferred}
use vekquorum.Coordinator.Tables.{
  Config, Delivery, DeliveryState, Host, Meta, Method, Proposal, Response, delivered,
  deliver_request, pending, acked,
}
use vekquorum.Coordinator.Exec.{
  Exec, pure, gets, modify_db, or_crash, or_raise, raise_if, raise_unless, tx, ◌>>=◌, ◌>>◌,
}
use vekquorum.Coordinator.Rows.{
  append_event, authorize, dedupe, flush, load_proposal, logical_now, record_request,
}

abbrev pub max_delivery_attempts : ℕ
max_delivery_attempts = 8

unfoldable pub update_delivery : (escalation_id : ℕ) → (Delivery → Delivery) → Exec (Unit {0})
update_delivery id f = modify_db (λ db. record db {
  deliveries = update_by (λ (row : Delivery). row.escalation_id == id) f db.deliveries;
})

-- "REJECTED" where the inbox raised that code, and "UNAVAILABLE" otherwise
abbrev pub deferral_code : Code → DeliveryCode
deferral_code Code.rejected = DeliveryCode.rejected
deferral_code _ = DeliveryCode.unavailable

unfoldable pub acknowledge :
    Config → Proposal → Delivery → (ticket actor now : ℕ) → Exec (Proposal × Response)
acknowledge c q row ticket actor now = do
  q' ← append_event c q (escalation_delivered row.escalation_id ticket) actor now
  update_delivery row.escalation_id
      (λ r. record r { state = acked; attempts = row.attempts + 1; inbox_ticket = some ticket })
  pure (q', delivered acked (some ticket) q'.view)

unfoldable pub defer :
    Config → Proposal → Delivery → DeliveryCode → (actor now : ℕ) → Exec (Proposal × Response)
defer c q row code actor now = do
  q' ← append_event c q (escalation_deferred row.escalation_id (row.attempts + 1) code) actor now
  update_delivery row.escalation_id (λ r. record r { attempts = row.attempts + 1 })
  pure (q', delivered pending none q'.view)

unfoldable pub take_answer :
    Config → Proposal → Delivery → (actor now : ℕ) → Result ℕ → Exec (Proposal × Response)
take_answer c q row actor now (ok ticket) = acknowledge c q row ticket actor now
take_answer c q row actor now (err (vq code)) = defer c q row (deferral_code code) actor now
take_answer c q row actor now (err fault) = defer c q row DeliveryCode.unavailable actor now

-- the attempt on a delivery that is pending
unfoldable pub attempt_delivery :
    Config → Host → Option Proposal → Delivery → Meta → (now : ℕ) → Exec Response
attempt_delivery c host found row meta now = do
  raise_if (leb max_delivery_attempts row.attempts) delivery_limit
  raise_unless c.has_inbox adapter_unavailable
  q ← or_crash found
  (q', response) ← take_answer c q row meta.caller.principal_id now host.inbox
  flush q'
  record_request c Method.deliver (deliver_request row.escalation_id) meta response
  pure response

-- the answer for a delivery that is acknowledged
unfoldable pub repeat_ack : Config → Option Proposal → Delivery → Meta → Exec Response
repeat_ack c found row meta = do
  q ← or_crash found
  let response = delivered acked row.inbox_ticket q.view
  record_request c Method.deliver (deliver_request row.escalation_id) meta response
  pure response

abbrev pub by_state :
    Config → Host → Option Proposal → Delivery → Meta → ℕ → DeliveryState → Exec Response
by_state c host found row meta now acked = repeat_ack c found row meta
by_state c host found row meta now pending = attempt_delivery c host found row meta now

abbrev pub deliver_or_replay : Config → Host → Delivery → Meta → Option Response → Exec Response
deliver_or_replay c host row meta (some stored) = pure stored
deliver_or_replay c host row meta none = do
  found ← load_proposal row.proposal
  now ← logical_now c
  by_state c host found row meta now row.state

-- `deliver`
unfoldable pub deliver : Config → Host → (escalation_id : ℕ) → Meta → Exec Response
deliver c host escalation_id meta = do
  authorize c meta.caller Capability.escalate
  tx (do
    held ← gets (λ s. find_by (λ (r : Delivery). r.escalation_id == escalation_id) s.db.deliveries)
    row ← or_raise held not_found
    stored ← dedupe c Method.deliver (deliver_request escalation_id) meta
    deliver_or_replay c host row meta stored)
