-- ===== src/Adapters/Tests.antt =====
-- Runs of adapters.py on a refund of one dollar.
use vekquorum.Prelude.{
  ℕ, ◌+◌, ◌≡◌, refl, true, false, Option, none, some, zero, suc, List, [], ◌∷◌, ◌++◌, ok, err,
  fault, arith, length,
}
use vekquorum.Wire.{Json, member, end, pos, EscalationReason}
use vekquorum.Demo.{toy, demo_action}
use vekquorum.Coordinator.Tables.{InboxRequest}
use vekquorum.Stateful.{◌>>=◌}
use vekquorum.Adapters.Refund.{
  Refund, amount_key, covenant_refund_args, currency_key, payment_id_key, usd, is_payment_id,
}
use vekquorum.Adapters.Simulator.{
  DispatchRequest, RefundResult, Simulator, Texts, dispatch, lookup, success,
}
use vekquorum.Adapters.Inbox.{deliver}
use vekquorum.Adapters.Ledger.{Call}
use vekquorum.Adapters.Ledger
use vekquorum.Adapters.Deliveries
use vekquorum.Adapters.Repeats.{Passes, dispatch-repeats}
use vekquorum.Adapters.Effects.{IsConsistent, after_all-IsConsistent}
use vekquorum.Adapters.Safety.{HasRefunded, dispatch-HasRefunded}
use vekquorum.Adapters.Deliveries.{deliver-repeats}

-- "pay_demo"
abbrev pay_demo : List ℕ
pay_demo = b'p' ∷ b'a' ∷ b'y' ∷ b'_' ∷ b'd' ∷ b'e' ∷ b'm' ∷ b'o' ∷ []

-- The text 0 is no numeral.
abbrev numeral_after : ℕ → Option ℕ
numeral_after zero = none
numeral_after (suc n) = some (suc (suc n))

-- A payment's resource stands at 900 and the length of its identifier.
abbrev texts : Texts
texts = record {
  resource = λ id. 900 + length id;
  next_version = numeral_after;
  refund_id = λ id. 500 + id;
  hash_output = λ id amount. id + amount;
}

abbrev simulator_at : ℕ → Simulator
simulator_at version = record {
  payments =
      (record { payment_id = pay_demo; version = version; amount_minor = 100; currency = usd })
      ∷ [];
  ledger = [];
  intents = [];
  effects = 0;
  expected_gate_revision = none;
}

abbrev simulator : Simulator
simulator = simulator_at 7

abbrev refund_args : Json
refund_args = Json.object (
    member payment_id_key (Json.string pay_demo)
      (member amount_key (Json.number (pos 100)) (member currency_key (Json.string usd) end)))

abbrev request : ℕ → DispatchRequest
request key = record {
  action = record demo_action { args = refund_args };
  action_hash = 1005;
  dispatch_id = 12;
  idempotency_key = key;
  not_after_ms = 5000;
  preconditions = (record { resource = 908; version = 7 }) ∷ [];
  gate_revision = 1;
}

abbrev refund : Refund
refund = record { payment_id = pay_demo; amount_minor = 100 }

abbrev refunded : RefundResult
refunded = success texts (request 1) refund 400

-- an identifier that ends with a line feed passes, since `$` matches before it
pay_newline : is_payment_id (pay_demo ++ 10 ∷ []) ≡ true
unfolding is_payment_id
pay_newline = refl

refund_runs : (dispatch toy texts (ok (request 1)) 400 simulator).0 ≡ ok refunded
unfolding dispatch covenant_refund_args ◌>>=◌
refund_runs = refl

refund_counts : (dispatch toy texts (ok (request 1)) 400 simulator).1.effects ≡ 1
unfolding dispatch covenant_refund_args ◌>>=◌
refund_counts = refl

abbrev request_at : ℕ → ℕ → DispatchRequest
request_at version key = record (request key) {
  preconditions = (record { resource = 908; version = version }) ∷ [];
}

-- A version that is no numeral raises a `ValueError`: nothing is refunded, but the intent stays.
stuck_raises : (dispatch toy texts (ok (request_at 0 1)) 400 (simulator_at 0)).0 ≡ err fault
unfolding dispatch covenant_refund_args ◌>>=◌
stuck_raises = refl

stuck_leaves_intent :
    (dispatch toy texts (ok (request_at 0 1)) 400 (simulator_at 0)).1
    ≡ record (simulator_at 0) { intents = (record { payment_id = pay_demo; key = 1 }) ∷ [] }
unfolding dispatch covenant_refund_args ◌>>=◌
stuck_leaves_intent = refl

-- the same request again, and another request for the same payment
abbrev calls : List Call
calls = (ok (request 1), 450) ∷ (ok (request 2), 460) ∷ []

dispatch-repeats_example :
    let s =
      Ledger.after_all toy texts calls (dispatch toy texts (ok (request 1)) 400 simulator).1 in
    (dispatch toy texts (ok (request 1)) 9000 s ≡ (ok refunded, s)) × (lookup s 1 ≡ some refunded)
dispatch-repeats_example =
    dispatch-repeats toy texts (request 1) 400 9000 calls simulator refunded refund_runs

-- two payments, of which the second has a version that is no numeral
abbrev pay_other : List ℕ
pay_other = pay_demo ++ b'2' ∷ []

abbrev two_payments : Simulator
two_payments = record simulator {
  payments =
      simulator.payments
      ++ (record { payment_id = pay_other; version = 0; amount_minor = 100; currency = usd }) ∷ [];
}

abbrev other_args : Json
other_args = Json.object (
    member payment_id_key (Json.string pay_other)
      (member amount_key (Json.number (pos 100)) (member currency_key (Json.string usd) end)))

-- a request for the second payment, with its version in the preconditions
abbrev other_request : ℕ → DispatchRequest
other_request key = record (request key) {
  action = record demo_action { args = other_args };
  preconditions = (record { resource = 909; version = 0 }) ∷ [];
}

-- a refund, a call that raises after its intent, and another request for the refunded payment
abbrev mixed_calls : List Call
mixed_calls = (ok (request 1), 450) ∷ (ok (other_request 2), 455) ∷ (ok (request 3), 460) ∷ []

mixed_counts :
    let s = Ledger.after_all toy texts mixed_calls two_payments in
    (s.effects ≡ 1) × (length s.intents ≡ 2) × (length s.ledger ≡ 2)
unfolding Ledger.after_all dispatch covenant_refund_args ◌>>=◌
mixed_counts = (refl, refl, refl)

two_payments-IsConsistent : IsConsistent texts two_payments
two_payments-IsConsistent = record {
  counted = refl;
  bounded = omega arith;
  once = tt;
  backed = λ id i e. ground arith;
}

after_all-IsConsistent_example :
    IsConsistent texts (Ledger.after_all toy texts mixed_calls two_payments)
after_all-IsConsistent_example =
    after_all-IsConsistent toy texts mixed_calls two_payments two_payments-IsConsistent

dispatch-HasRefunded_example :
    (r : Refund) × Passes toy (request 1) r
    × HasRefunded texts
        (request 1)
        r
        400
        simulator
        refunded
        (dispatch toy texts (ok (request 1)) 400 simulator).1
dispatch-HasRefunded_example =
    dispatch-HasRefunded toy texts (request 1) 400 simulator refunded refund_runs
      (λ e. omega (arith, refund_counts, e))

abbrev escalation : ℕ → InboxRequest
escalation summary = record {
  escalation_id = 3;
  proposal_id = 5;
  action_hash = 1005;
  bundle_hash = 7000;
  reason = EscalationReason.manual;
  expires_ms = 9000;
  summary = summary;
}

abbrev payload : InboxRequest → ℕ
payload req = 100 + req.summary

deliver-repeats_example :
    let fs =
      Deliveries.after_all payload
        (ok (escalation 2) ∷ [])
        (deliver payload (ok (escalation 1)) []).1 in
    deliver payload (ok (escalation 1)) fs
    ≡ (ok (record { escalation_id = 3; duplicate = true }), fs)
deliver-repeats_example =
    deliver-repeats payload (escalation 1) [] (ok (escalation 2) ∷ [])
      {r = record { escalation_id = 3; duplicate = false }} (unfold deliver ◌>>=◌ in refl)
