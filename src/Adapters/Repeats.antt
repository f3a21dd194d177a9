-- ===== src/Adapters/Repeats.antt =====
-- A repeated `dispatch` of the refund simulator (adapters.py).
use vekquorum.Prelude.{
  ℕ, ◌≡◌, refl, ◌∙◌, ap, true, false, Bool, Option, none, some, List, [], ◌∷◌, ◌++◌, ◌==◌, find_by,
  Result, ok, err, arith, not,
}
use vekquorum.Errors.{Code, hash_mismatch}
use vekquorum.Wire.Digests.{Digests}
use vekquorum.Stateful.{Method, lift, raise_if, continue, ◌>>=◌, ◌>>◌}
use vekquorum.Adapters.Refund.{Refund, covenant_refund_args}
use vekquorum.Adapters.Simulator.{
  DispatchRequest, Entry, RefundResult, Simulator, Texts, is_entry, execute_locked, keep_result,
  result_or_execute, dispatch_locked, dispatch, lookup, result_of,
}
use vekquorum.Adapters.Ledger.{Call, after_all, after_all-Keeps, execute_locked-SameLedger}

pub find-append :
    (es : List Entry) (key : ℕ) (r : RefundResult)
    → find_by (is_entry key) es ≡ none
    → find_by (is_entry key) (es ++ (record { key = key; result = r }) ∷ [])
      ≡ some (record { key = key; result = r })
find-append [] key r e = ground arith
find-append (g ∷ es) key r e = ground (arith, find-append es key r)

-- The ledger has this result under the key.
abbrev pub HasResult : Simulator → ℕ → RefundResult → Type 0
HasResult s key r = (e : Entry) × (find_by (is_entry key) s.ledger ≡ some e) × (e.result ≡ r)

module _ (x : Texts) (req : DispatchRequest) (refund : Refund) (now : ℕ) where
  executed :
      (m : Result RefundResult × Simulator) (r : RefundResult)
      → find_by (is_entry req.idempotency_key) (m.1).ledger ≡ none
      → (continue m.0 (keep_result x req refund now) m.1).0 ≡ ok r
      → HasResult (continue m.0 (keep_result x req refund now) m.1).1 req.idempotency_key r
  unfolding keep_result ◌>>=◌
  executed (ok a, s) r f e = (
    record { key = req.idempotency_key; result = a },
    find-append s.ledger req.idempotency_key a f,
    ground arith,
  )
  executed (err c, s) r f e = cc

  locked :
      (prior : Option Entry) (s : Simulator) (r : RefundResult)
      → find_by (is_entry req.idempotency_key) s.ledger ≡ prior
      → (result_or_execute x req refund now prior s).0 ≡ ok r
      → HasResult (result_or_execute x req refund now prior s).1 req.idempotency_key r
  unfolding result_or_execute ◌>>=◌
  locked none s r f e =
      executed (execute_locked x req refund now s) r
        (rw ((execute_locked-SameLedger x req refund now).moved s) f) e
  locked (some g) s r f e = (g, f, ground arith)

  dispatch_locked-HasResult :
      (s : Simulator) (r : RefundResult)
      → (dispatch_locked x req refund now s).0 ≡ ok r
      → HasResult (dispatch_locked x req refund now s).1 req.idempotency_key r
  unfolding dispatch_locked ◌>>=◌
  dispatch_locked-HasResult s r e = locked _ s r refl e

  dispatch_locked-found :
      (s : Simulator) (r : RefundResult)
      → HasResult s req.idempotency_key r
      → dispatch_locked x req refund now s ≡ (ok r, s)
  unfolding dispatch_locked ◌>>=◌ result_or_execute
  dispatch_locked-found s r (e, found, same) = rw (found, ← same) refl

-- the checks of `dispatch` before the lock
abbrev pub Passes : Digests → DispatchRequest → Refund → Type 0
Passes d req refund =
    (covenant_refund_args req.action.args ≡ ok refund)
    × ((d.hash_action req.action == req.action_hash) ≡ true)

module _ (d : Digests) (x : Texts) (req : DispatchRequest) where
  pub dispatch-locked :
      (now : ℕ) (refund : Refund) (s : Simulator)
      → Passes d req refund
      → dispatch d x (ok req) now s ≡ dispatch_locked x req refund now s
  unfolding dispatch ◌>>=◌
  dispatch-locked now refund s (args, hash) = rw (args, hash) refl

  raise_if-cases :
      {A : Type 0} (b : Bool) (c : Code) (m : Method Simulator A) (s : Simulator) {a : A}
      → ((raise_if b c >> m) s).0 ≡ ok a
      → b ≡ false
  unfolding raise_if ◌>>=◌
  raise_if-cases true c m s e = cc
  raise_if-cases false c m s e = refl

  pub dispatch-Passes :
      (now : ℕ) (s : Simulator) {r : RefundResult}
      → (dispatch d x (ok req) now s).0 ≡ ok r
      → (refund : Refund) × Passes d req refund
  unfolding dispatch ◌>>=◌
  dispatch-Passes now s {r} = go (covenant_refund_args req.action.args) refl
    where
      go :
          (a : Result Refund)
          → covenant_refund_args req.action.args ≡ a
          → ((lift a >>= λ refund.
                raise_if (not (d.hash_action req.action == req.action_hash)) hash_mismatch
                >> dispatch_locked x req refund now)
              s).0
            ≡ ok r
          → (refund : Refund) × Passes d req refund
      go (err c) f e = cc
      go (ok refund) f e =
          let checked =
            raise_if-cases _ hash_mismatch (dispatch_locked x req refund now) s {a = r} e in
          (refund, (f, ground arith))

  lookup-found :
      (s : Simulator) (key : ℕ) (e : Entry)
      → find_by (is_entry key) s.ledger ≡ some e
      → lookup s key ≡ some e.result
  unfolding lookup
  lookup-found s key e f = ap result_of f

  -- If `dispatch` returns a result for a request, then after any further calls, of this or other
  -- requests, at any times, the same request returns the same result and changes nothing, and
  -- `lookup` finds that result under its key.
  pub dispatch-repeats :
      (now later : ℕ) (cs : List Call) (s : Simulator) (r : RefundResult)
      → (dispatch d x (ok req) now s).0 ≡ ok r
      → let s' = after_all d x cs (dispatch d x (ok req) now s).1 in
        (dispatch d x (ok req) later s' ≡ (ok r, s')) × (lookup s' req.idempotency_key ≡ some r)
  dispatch-repeats now later cs s r e =
      let (refund, passes) = dispatch-Passes now s {r = r} e in
      let runs = dispatch-locked now refund s passes in
      let (entry, found, same) = dispatch_locked-HasResult x req refund now s r (rw (← runs) e) in
      let s' = after_all d x cs (dispatch d x (ok req) now s).1 in
      let kept = after_all-Keeps d x cs _ req.idempotency_key entry (rw runs found) in
      (
        dispatch-locked later refund s' passes
            ∙ dispatch_locked-found x req refund later s' r (entry, kept, same),
        lookup-found s' req.idempotency_key entry kept ∙ ap some same,
      )
