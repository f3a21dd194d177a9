-- ===== src/Adapters/Safety.antt =====
-- The effect of `dispatch` of the refund simulator (adapters.py) is guarded.
use vekquorum.Prelude.{
  ℕ, ◌≡◌, ◌≢◌, refl, ap, inl, inr, Option, none, some, Result, ok, err, find_by, arith,
}
use vekquorum.Wire.Digests.{Digests}
use vekquorum.Stateful.{continue, ◌>>=◌}
use vekquorum.Adapters.Refund.{Refund}
use vekquorum.Adapters.Simulator.{
  DispatchRequest, Entry, RefundResult, Simulator, Texts, is_entry, success, execute_locked,
  keep_result, result_or_execute, dispatch_locked, dispatch,
}
use vekquorum.Adapters.Guards.{Performed, Outcome, execute_locked-cases}
use vekquorum.Adapters.Repeats.{Passes, dispatch-Passes, dispatch-locked}
use vekquorum.Adapters.Effects.{with_result}

module _ (x : Texts) (req : DispatchRequest) (refund : Refund) (now : ℕ) where
  -- The call has refunded the payment, with every check before it, and stored the result.
  pub record HasRefunded (s : Simulator) (r : RefundResult) (s' : Simulator) : Type 0 where
    pub middle : Simulator
    pub performed : Performed x req refund now s middle
    pub new_key : find_by (is_entry req.idempotency_key) s.ledger ≡ none
    pub same_result : r ≡ success x req refund now
    pub stored : s' ≡ with_result x req refund now middle r

  kept :
      (s : Simulator) (m : Result RefundResult × Simulator) (r : RefundResult)
      → find_by (is_entry req.idempotency_key) s.ledger ≡ none
      → Outcome x req refund now s m
      → let (result, s') = continue m.0 (keep_result x req refund now) m.1 in
        result ≡ ok r → s'.effects ≢ s.effects → HasRefunded s r s'
  unfolding keep_result ◌>>=◌
  kept s (ok a, s') r f (inl (same, failed)) e n =
      absurd (n (ap (λ (u : Simulator). u.effects) same))
  kept s (ok a, s') r f (inr (inl (e', p))) e n =
      let same : a ≡ r = ground arith in
      record {
        middle = s';
        performed = p;
        new_key = f;
        same_result = ground arith;
        stored = ap (with_result x req refund now s') same;
      }
  kept s (ok a, s') r f (inr (inr (e', p))) e n = cc
  kept s (err c, s') r f h e n = cc

  result_or_execute-guarded :
      (prior : Option Entry) (s : Simulator) (r : RefundResult)
      → find_by (is_entry req.idempotency_key) s.ledger ≡ prior
      → (result_or_execute x req refund now prior s).0 ≡ ok r
      → (result_or_execute x req refund now prior s).1.effects ≢ s.effects
      → HasRefunded s r (result_or_execute x req refund now prior s).1
  unfolding result_or_execute ◌>>=◌
  result_or_execute-guarded none s r f e n =
      kept s (execute_locked x req refund now s) r f (execute_locked-cases x req refund now s) e n
  result_or_execute-guarded (some g) s r f e n = absurd (n refl)

  dispatch_locked-guarded :
      (s : Simulator) (r : RefundResult)
      → (dispatch_locked x req refund now s).0 ≡ ok r
      → (dispatch_locked x req refund now s).1.effects ≢ s.effects
      → HasRefunded s r (dispatch_locked x req refund now s).1
  unfolding dispatch_locked ◌>>=◌
  dispatch_locked-guarded s r e n = result_or_execute-guarded _ s r refl e n

-- A call of `dispatch` that returns and has an effect refunds a payment: its arguments are a valid
-- refund, the action has the hash of the request, the deadline has not passed, the gate's revision
-- is the expected one, the payment is there in the version of the preconditions, no other request
-- has refunded it, its amount covers the refund in USD, and the result is a success.
pub dispatch-HasRefunded :
    (d : Digests) (x : Texts) (req : DispatchRequest) (now : ℕ) (s : Simulator) (r : RefundResult)
    → (dispatch d x (ok req) now s).0 ≡ ok r
    → (dispatch d x (ok req) now s).1.effects ≢ s.effects
    → (refund : Refund) × Passes d req refund
      × HasRefunded x req refund now s r (dispatch d x (ok req) now s).1
dispatch-HasRefunded d x req now s r e n =
    let (refund, passes) = dispatch-Passes d x req now s {r = r} e in
    let runs = dispatch-locked d x req now refund s passes in
    (
      refund,
      passes,
      rw runs (dispatch_locked-guarded x req refund now s r (rw (← runs) e) (rw (← runs) n)),
    )
