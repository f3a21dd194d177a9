-- ===== src/Adapters/Simulator.antt =====
-- `RefundSimulator` and `FixtureGate` of adapters.py.
use vekquorum.Prelude.{
  ℕ, ◌+◌, Bool, true, false, Option, none, some, List, [], ◌∷◌, ◌++◌, ◌==◌, not, leb, ltb, find_by,
  find_last, update_by, list_eq, or_fault, Result, ok, if◌then◌else◌,
}
use vekquorum.Errors.{hash_mismatch}
use vekquorum.Wire.{Action, Precondition, Status, succeeded, failed}
use vekquorum.Wire.Digests.{Digests}
use vekquorum.Stateful.{Method, pure, lift, gets, modify, raise_if, ◌>>=◌, ◌>>◌}
use vekquorum.Adapters.Refund.{Refund, covenant_refund_args, usd}

-- The numbers that stand for texts which the simulator builds: "payment:" and a payment's
-- identifier, the text `str(int(version) + 1)`, none where `int` or `str` raises a `ValueError`,
-- and the refund's identifier, made of the dispatch's; and the hash of the output.
pub record Texts : Type 0 where
  pub resource : (payment_id : List ℕ) → ℕ
  pub next_version : (version : ℕ) → Option ℕ
  pub refund_id : (dispatch_id : ℕ) → ℕ
  pub hash_output : (refund_id amount_minor : ℕ) → ℕ

-- A row of the payments table. Its version is a text, which need not be a numeral.
pub record Payment : Type 0 where
  pub payment_id : List ℕ
  pub version : ℕ
  pub amount_minor : ℕ
  pub currency : List ℕ

pub data ResultCode : Type 0 where
  ok_code deadline_exceeded scope_changed payment_not_found precondition_failed : ResultCode
  intent_consumed amount_mismatch currency_mismatch : ResultCode

pub record RefundResult : Type 0 where
  pub status : Status
  pub code : ResultCode
  pub output_hash : Option ℕ
  pub provider_ref : Option ℕ

pub record DispatchRequest : Type 0 where
  pub action : Action
  pub action_hash : ℕ
  pub dispatch_id : ℕ
  pub idempotency_key : ℕ
  pub not_after_ms : ℕ
  pub preconditions : List Precondition
  pub gate_revision : ℕ

-- An entry of `_ledger`: an idempotency key with its result.
pub record Entry : Type 0 where
  pub key : ℕ
  pub result : RefundResult

-- An entry of `_intent_by_payment`.
pub record Intent : Type 0 where
  pub payment_id : List ℕ
  pub key : ℕ

pub record Simulator : Type 0 where
  pub payments : List Payment
  pub ledger : List Entry
  pub intents : List Intent
  pub effects : ℕ
  pub expected_gate_revision : Option ℕ

abbrev pub is_payment : List ℕ → Payment → Bool
is_payment id p = list_eq p.payment_id id

abbrev pub is_entry : ℕ → Entry → Bool
is_entry key e = e.key == key

abbrev pub is_intent : List ℕ → Intent → Bool
is_intent id i = list_eq i.payment_id id

abbrev pub failure : ResultCode → RefundResult
failure c = record { status = failed; code = c; output_hash = none; provider_ref = none }

-- `self.expected_gate_revision is not None and …`
abbrev pub is_other_revision : Option ℕ → ℕ → Bool
is_other_revision none revision = false
is_other_revision (some expected) revision = not (revision == expected)

-- `prior_intent is not None and prior_intent != key`
abbrev pub is_other_intent : Option Intent → ℕ → Bool
is_other_intent none key = false
is_other_intent (some i) key = not (i.key == key)

-- `current is None or current != str(version)`
abbrev pub is_changed : Option Precondition → ℕ → Bool
is_changed none version = true
is_changed (some p) version = not (p.version == version)

-- `self._intent_by_payment[pid] = key`
unfoldable pub set_intent : List ℕ → ℕ → List Intent → List Intent
set_intent id key [] = (record { payment_id = id; key = key }) ∷ []
set_intent id key (i ∷ is) =
    let rest = set_intent id key is in
    if is_intent id i then record i { key = key } ∷ is else i ∷ rest

-- `payment["version"] = …`
abbrev pub set_version : ℕ → Payment → Payment
set_version version p = record p { version = version }

module _ (x : Texts) (req : DispatchRequest) (refund : Refund) (effect_ms : ℕ) where
  abbrev pub success : RefundResult
  success =
      let id = x.refund_id req.dispatch_id in
      record {
        status = succeeded;
        code = ok_code;
        output_hash = some (x.hash_output id refund.amount_minor);
        provider_ref = some id;
      }

  -- the effect: the intent is recorded before the new version is computed, which may raise
  unfoldable pub perform : Payment → Method Simulator RefundResult
  unfolding set_intent
  perform payment = do
    modify (λ (s : Simulator). record s {
      intents = set_intent refund.payment_id req.idempotency_key s.intents;
    })
    version ← lift (or_fault (x.next_version payment.version))
    modify (λ (s : Simulator). record s {
      payments = update_by (is_payment refund.payment_id) (set_version version) s.payments;
    })
    modify (λ (s : Simulator). record s { effects = s.effects + 1 })
    pure success

  -- the checks that need the payment
  unfoldable pub execute_on : Option Payment → Option Intent → Method Simulator RefundResult
  unfolding perform
  execute_on none prior = pure (failure payment_not_found)
  execute_on (some payment) prior =
      let current =
        find_last (λ (p : Precondition). p.resource) (x.resource refund.payment_id)
          req.preconditions in
      if is_changed current payment.version
      then pure (failure precondition_failed)
      else if is_other_intent prior req.idempotency_key
      then pure (failure intent_consumed)
      else if ltb payment.amount_minor refund.amount_minor
      then pure (failure amount_mismatch)
      else if not (list_eq payment.currency usd)
      then pure (failure currency_mismatch)
      else perform payment

  -- `_execute_locked`
  unfoldable pub execute_locked : Method Simulator RefundResult
  unfolding execute_on
  execute_locked = do
    expected ← gets (λ (s : Simulator). s.expected_gate_revision)
    payment ← gets (λ (s : Simulator). find_by (is_payment refund.payment_id) s.payments)
    prior ← gets (λ (s : Simulator). find_by (is_intent refund.payment_id) s.intents)
    if leb req.not_after_ms effect_ms
        then pure (failure deadline_exceeded)
        else if is_other_revision expected req.gate_revision
        then pure (failure scope_changed)
        else execute_on payment prior

  -- `self._ledger[key] = result`
  unfoldable pub keep_result : RefundResult → Method Simulator RefundResult
  keep_result r = do
    modify (λ (s : Simulator). record s {
      ledger = s.ledger ++ (record { key = req.idempotency_key; result = r }) ∷ [];
    })
    pure r

  unfoldable pub result_or_execute : Option Entry → Method Simulator RefundResult
  unfolding execute_locked keep_result
  result_or_execute (some e) = pure e.result
  result_or_execute none = do r ← execute_locked; keep_result r

  -- the section of `dispatch` that holds the lock
  unfoldable pub dispatch_locked : Method Simulator RefundResult
  unfolding result_or_execute
  dispatch_locked = do
    prior ← gets (λ (s : Simulator). find_by (is_entry req.idempotency_key) s.ledger)
    result_or_execute prior

-- `dispatch`. The argument is what the schema makes of the request.
unfoldable pub dispatch :
    Digests → Texts → Result DispatchRequest → (effect_ms : ℕ) → Method Simulator RefundResult
unfolding dispatch_locked
dispatch d x decoded effect_ms = do
  req ← lift decoded
  refund ← lift (covenant_refund_args req.action.args)
  raise_if (not (d.hash_action req.action == req.action_hash)) hash_mismatch
  dispatch_locked x req refund effect_ms

abbrev pub result_of : Option Entry → Option RefundResult
result_of none = none
result_of (some e) = some e.result

-- `lookup`: nothing where the answer is "unresolved"
unfoldable pub lookup : Simulator → (idempotency_key : ℕ) → Option RefundResult
lookup s key = result_of (find_by (is_entry key) s.ledger)

-- `inspect`: the preconditions of the payment, which is always ready
unfoldable pub inspect : Texts → Simulator → Result Action → Result (List Precondition)
inspect x s decoded = inspected (decoded_refund decoded)
  where
    decoded_refund : Result Action → Result Refund
    decoded_refund (ok a) = covenant_refund_args a.args
    decoded_refund (Result.err e) = Result.err e

    of_payment : Refund → Option Payment → List Precondition
    of_payment r none = []
    of_payment r (some p) =
        (record { resource = x.resource r.payment_id; version = p.version }) ∷ []

    inspected : Result Refund → Result (List Precondition)
    inspected (ok r) = ok (of_payment r (find_by (is_payment r.payment_id) s.payments))
    inspected (Result.err e) = Result.err e

-- `FixtureGate.check`
pub data GateDecision : Type 0 where
  allow deny unavailable : GateDecision

unfoldable pub gate_check : GateDecision → ℕ → GateDecision × Option ℕ
gate_check unavailable revision = (unavailable, none)
gate_check decision revision = (decision, some revision)
