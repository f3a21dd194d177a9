-- ===== src/Adapters/Guards.antt =====
-- What `_execute_locked` of the refund simulator (adapters.py) checks before its effect.
use vekquorum.Prelude.{
  ℕ, ◌+◌, ◌≡◌, ◌⊎◌, inl, inr, refl, Bool, true, false, Option, none, some, not, leb, ltb, find_by,
  find_last, update_by, list_eq, Option-cases, Result, ok, err, fault, if◌then◌else◌,
}
use vekquorum.Wire.{Precondition}
use vekquorum.Stateful.{pure, ◌>>=◌}
use vekquorum.Adapters.Refund.{Refund, usd}
use vekquorum.Adapters.Simulator.{
  DispatchRequest, Payment, Simulator, Texts, is_payment, is_intent, is_other_revision,
  is_other_intent, is_changed, set_version, ResultCode, RefundResult, payment_not_found, set_intent,
  success, perform, execute_on, execute_locked, failure, deadline_exceeded, scope_changed,
  precondition_failed, intent_consumed, amount_mismatch, currency_mismatch,
}

module _ (x : Texts) (req : DispatchRequest) (refund : Refund) (now : ℕ) where
  abbrev pub current : Option Precondition
  current =
      find_last (λ (p : Precondition). p.resource) (x.resource refund.payment_id) req.preconditions

  -- the simulator after the effect, which gives the payment this version
  abbrev pub performed : ℕ → Simulator → Simulator
  performed version s = record s {
    payments = update_by (is_payment refund.payment_id) (set_version version) s.payments;
    intents = set_intent refund.payment_id req.idempotency_key s.intents;
    effects = s.effects + 1;
  }

  -- the simulator with the intent alone
  abbrev pub claimed : Simulator → Simulator
  claimed s = record s { intents = set_intent refund.payment_id req.idempotency_key s.intents }

  -- The effect takes place, and its conditions hold.
  pub record Performed (s s' : Simulator) : Type 0 where
    pub in_time : leb req.not_after_ms now ≡ false
    pub same_revision : is_other_revision s.expected_gate_revision req.gate_revision ≡ false
    pub payment : Payment
    pub found : find_by (is_payment refund.payment_id) s.payments ≡ some payment
    pub unchanged : is_changed current payment.version ≡ false
    pub fresh :
        is_other_intent (find_by (is_intent refund.payment_id) s.intents) req.idempotency_key
        ≡ false
    pub covered : ltb payment.amount_minor refund.amount_minor ≡ false
    pub in_usd : list_eq payment.currency usd ≡ true
    pub version : ℕ
    pub next : x.next_version payment.version ≡ some version
    pub state : s' ≡ performed version s

  -- The intent is recorded, but there is no next version of the payment.
  pub record Claimed (s s' : Simulator) : Type 0 where
    pub claim : Payment
    pub claim_found : find_by (is_payment refund.payment_id) s.payments ≡ some claim
    pub no_next : x.next_version claim.version ≡ none
    pub claim_state : s' ≡ claimed s

  -- Nothing changes and the result is a failure, or the effect takes place and the result is a success, or an exception leaves
  -- the intent behind.
  abbrev pub Outcome : Simulator → Result RefundResult × Simulator → Type 0
  Outcome s m =
      ((m.1 ≡ s) × ((c : ResultCode) × (m.0 ≡ ok (failure c))))
      ⊎ ((m.0 ≡ ok (success x req refund now)) × Performed s m.1)
      ⊎ ((m.0 ≡ err fault) × Claimed s m.1)

  -- What `perform` comes to, where the checks before it hold.
  perform-Outcome :
      (s : Simulator) (p : Payment)
      → ((version : ℕ)
          → x.next_version p.version ≡ some version
          → Performed s (performed version s))
      → find_by (is_payment refund.payment_id) s.payments ≡ some p
      → Outcome s (perform x req refund now p s)
  unfolding perform ◌>>=◌
  perform-Outcome s p h found = elim (Option-cases (x.next_version p.version)) [
    | inl e ↦ rw e (
        inr
          (inr (refl, record { claim = p; claim_found = found; no_next = e; claim_state = refl })))
    | inr (version, e) ↦ rw e (inr (inl (refl, h version e)))
  ]

  execute_on-cases :
      (s : Simulator) (payment : Option Payment)
      → find_by (is_payment refund.payment_id) s.payments ≡ payment
      → leb req.not_after_ms now ≡ false
      → is_other_revision s.expected_gate_revision req.gate_revision ≡ false
      → let prior = find_by (is_intent refund.payment_id) s.intents in
        Outcome s (execute_on x req refund now payment prior s)
  unfolding execute_on pure
  execute_on-cases s none found t v = inl (refl, (payment_not_found, refl))
  execute_on-cases s (some p) found t v =
      go (is_changed current p.version) refl
        (is_other_intent (find_by (is_intent refund.payment_id) s.intents) req.idempotency_key) refl
        (ltb p.amount_minor refund.amount_minor) refl (list_eq p.currency usd) refl
    where
      go :
          (a : Bool)
          → is_changed current p.version ≡ a
          → (b : Bool)
          → is_other_intent (find_by (is_intent refund.payment_id) s.intents) req.idempotency_key
            ≡ b
          → (c : Bool) → ltb p.amount_minor refund.amount_minor ≡ c
          → (e : Bool) → list_eq p.currency usd ≡ e
          → Outcome s (
              (if a
                  then pure (failure precondition_failed)
                  else if b
                  then pure (failure intent_consumed)
                  else if c
                  then pure (failure amount_mismatch)
                  else if not e
                  then pure (failure currency_mismatch)
                  else perform x req refund now p)
                s)
      go true ea b eb c ec e ee = inl (refl, (precondition_failed, refl))
      go false ea true eb c ec e ee = inl (refl, (intent_consumed, refl))
      go false ea false eb true ec e ee = inl (refl, (amount_mismatch, refl))
      go false ea false eb false ec false ee = inl (refl, (currency_mismatch, refl))
      go false ea false eb false ec true ee =
          perform-Outcome s p
            (λ version next. record {
              in_time = t;
              same_revision = v;
              payment = p;
              found = found;
              unchanged = ea;
              fresh = eb;
              covered = ec;
              in_usd = ee;
              version = version;
              next = next;
              state = refl;
            })
            found

  pub execute_locked-cases : (s : Simulator) → Outcome s (execute_locked x req refund now s)
  unfolding execute_locked pure ◌>>=◌
  execute_locked-cases s =
      go (leb req.not_after_ms now) refl
        (is_other_revision s.expected_gate_revision req.gate_revision) refl
    where
      go :
          (a : Bool)
          → leb req.not_after_ms now ≡ a
          → (b : Bool) → is_other_revision s.expected_gate_revision req.gate_revision ≡ b
          → Outcome s (
              (if a
                  then pure (failure deadline_exceeded)
                  else if b
                  then pure (failure scope_changed)
                  else execute_on x req refund now
                      (find_by (is_payment refund.payment_id) s.payments)
                      (find_by (is_intent refund.payment_id) s.intents))
                s)
      go true ea b eb = inl (refl, (deadline_exceeded, refl))
      go false ea true eb = inl (refl, (scope_changed, refl))
      go false ea false eb =
          execute_on-cases s (find_by (is_payment refund.payment_id) s.payments) refl ea eb
