-- ===== src/Adapters/Effects.antt =====
-- The effects of the refund simulator (adapters.py), its ledger and its intents.
use vekquorum.Prelude.{
  ℕ, ◌+◌, ◌≤◌, ◌≡◌, refl, sym, ◌∙◌, ap, subst, Bool, true, false, Option, none, some, List, [], ◌∷◌,
  ◌++◌, find_by, update_by, length, list_eq, eq_of_list_eq, Bool-cases, Result, ok, err, inl, inr,
  ◌⊎◌, arith, if◌then◌else◌,
}
use vekquorum.Wire.{Status, succeeded}
use vekquorum.Wire.Digests.{Digests}
use vekquorum.Stateful.{continue, ◌>>=◌}
use vekquorum.Stateful.Moves.{IsPreorder, Moves, moves}
use vekquorum.Adapters.Refund.{Refund}
use vekquorum.Adapters.Simulator.{
  DispatchRequest, Entry, Intent, Payment, RefundResult, ResultCode, Simulator, Texts, is_entry,
  is_intent, is_payment, is_other_intent, set_version, execute_locked, keep_result,
  result_or_execute, dispatch_locked, dispatch, failure, success,
}
use vekquorum.Adapters.Guards.{
  Performed, performed, Claimed, claimed, Outcome, execute_locked-cases,
}
use vekquorum.Adapters.Intents.{
  IsOnce, length-set_intent, length-set_intent-le, find-set_intent-replaced, set_intent-IsOnce,
  find-set_intent, find-set_version,
}
use vekquorum.Adapters.Ledger.{Call, after_all, Remembers-append}
use vekquorum.Adapters.Repeats.{find-append}

abbrev is_success : Status → Bool
is_success succeeded = true
is_success _ = false

abbrev is_there : Option ℕ → Bool
is_there none = false
is_there (some _) = true

abbrev has_next : Texts → Option Payment → Bool
has_next x none = false
has_next x (some p) = is_there (x.next_version p.version)

-- the number of successful results
abbrev pub refunds : List Entry → ℕ
refunds [] = 0
refunds (e ∷ es) = let rest = refunds es in if is_success e.result.status then rest + 1 else rest

-- The payment is in the table with a version that has a next one.
abbrev pub can_advance : Texts → List Payment → List ℕ → Bool
can_advance x payments id = has_next x (find_by (is_payment id) payments)

-- The number of effects is the number of successful results in the ledger, and at most the number
-- of payments with an intent, which are distinct. Each intent's key has a result in the ledger,
-- unless its payment's version has no next one.
pub record IsConsistent (x : Texts) (s : Simulator) : Type 0 where
  pub counted : s.effects ≡ refunds s.ledger
  pub bounded : s.effects ≤ length s.intents
  pub once : IsOnce s.intents
  pub backed :
      (id : List ℕ) (i : Intent)
      → find_by (is_intent id) s.intents ≡ some i
      → ((e : Entry) × (find_by (is_entry i.key) s.ledger ≡ some e))
        ⊎ (can_advance x s.payments id ≡ false)

refunds-append :
    (es : List Entry) (key : ℕ) (r : RefundResult)
    → refunds (es ++ (record { key = key; result = r }) ∷ [])
      ≡ (if is_success r.status then refunds es + 1 else refunds es)
refunds-append [] key r = refl
refunds-append (e ∷ es) key r = ground (arith, refunds-append es key r)

module _ (x : Texts) where
  -- a prior intent of the same key would be backed
  no_prior :
      (s : Simulator) (key : ℕ) (prior : Option Intent) (id : List ℕ)
      → IsConsistent x s
      → find_by (is_entry key) s.ledger ≡ none
      → can_advance x s.payments id ≡ true
      → find_by (is_intent id) s.intents ≡ prior
      → is_other_intent prior key ≡ false
      → prior ≡ none
  no_prior s key none id h fresh next found same = refl
  no_prior s key (some i) id h fresh next found same =
      let key_same : i.key ≡ key = ground arith in
      elim (h.backed id i found) [
        | inl (e, backed) ↦
            let entry : find_by (is_entry key) s.ledger ≡ some e = rw (← key_same) backed in
            absurd (ground arith)
        | inr stuck ↦ absurd (ground arith)
      ]

  -- an update of another payment, or of one that has a next version
  stays_stuck :
      (s : Simulator) (id other : List ℕ) (version : ℕ)
      → can_advance x s.payments id ≡ true
      → can_advance x s.payments other ≡ false
      → can_advance x (update_by (is_payment id) (set_version version) s.payments) other ≡ false
  stays_stuck s id other version next stuck = elim (Bool-cases (list_eq id other)) [
    | inl e ↦
        let same = eq_of_list_eq id other e in
        let both : can_advance x s.payments other ≡ true = rw (← same) next in absurd (ground arith)
    | inr e ↦ rw (find-set_version id other version s.payments e) stuck
  ]

module _ (x : Texts) (req : DispatchRequest) (refund : Refund) (now : ℕ) where
  abbrev pub with_result : Simulator → RefundResult → Simulator
  with_result s r = record s {
    ledger = s.ledger ++ (record { key = req.idempotency_key; result = r }) ∷ [];
  }

  -- a result without an effect
  failed-IsConsistent :
      (s : Simulator) (c : ResultCode)
      → IsConsistent x s
      → IsConsistent x (with_result s (failure c))
  failed-IsConsistent s c h =
      let r = failure c in
      record {
        counted = rw (refunds-append s.ledger req.idempotency_key r) h.counted;
        bounded = h.bounded;
        once = h.once;
        backed = λ id i f. elim (h.backed id i f) [
          | inl (e, g) ↦ inl (
            e,
            Remembers-append s.ledger (record { key = req.idempotency_key; result = r }) i.key e g,
          )
          | inr stuck ↦ inr stuck
        ];
      }

  -- an exception after the intent
  Claimed-IsConsistent :
      (s s' : Simulator) → IsConsistent x s → Claimed x req refund now s s' → IsConsistent x s'
  Claimed-IsConsistent s s' h p =
      let id = refund.payment_id in
      let key = req.idempotency_key in
      let stuck : can_advance x s.payments id ≡ false = rw p.claim_found (ap is_there p.no_next) in
      let left : IsConsistent x (claimed x req refund now s) = record {
        counted = h.counted;
        bounded = omega (arith, h.bounded, length-set_intent-le id key s.intents);
        once = set_intent-IsOnce id key s.intents h.once;
        backed = λ other i f. elim (Bool-cases (list_eq id other)) [
          | inl e ↦ let same = eq_of_list_eq id other e in inr (rw (← same) stuck)
          | inr e ↦ h.backed other i (sym (find-set_intent-replaced id other key s.intents e) ∙ f)
        ];
      } in
      subst (IsConsistent x) (sym p.claim_state) left

  Performed-IsConsistent :
      (s s' : Simulator)
      → IsConsistent x s
      → find_by (is_entry req.idempotency_key) s.ledger ≡ none
      → Performed x req refund now s s'
      → IsConsistent x (with_result s' (success x req refund now))
  Performed-IsConsistent s s' h fresh p =
      let id = refund.payment_id in
      let key = req.idempotency_key in
      let r = success x req refund now in
      let next : can_advance x s.payments id ≡ true = rw p.found (ap is_there p.next) in
      let none_before = no_prior x s key _ id h fresh next refl p.fresh in
      let done : IsConsistent x (with_result (performed x req refund now p.version s) r) = record {
        counted = rw (refunds-append s.ledger key r) (ap (λ n. n + 1) h.counted);
        bounded = omega (arith, h.bounded, length-set_intent id key s.intents none_before);
        once = set_intent-IsOnce id key s.intents h.once;
        backed = λ other i f. elim (find-set_intent id other key s.intents i f) [
          | inl old ↦ elim (h.backed other i old) [
            | inl (e, g) ↦
                inl (e, Remembers-append s.ledger (record { key = key; result = r }) i.key e g)
            | inr stuck ↦ inr (stays_stuck x s id other p.version next stuck)
          ]
          | inr new ↦
              inl (record { key = key; result = r }, rw new (find-append s.ledger key r fresh))
        ];
      } in
      subst (λ (u : Simulator). IsConsistent x (with_result u r)) (sym p.state) done

  kept-IsConsistent :
      (s : Simulator) (m : Result RefundResult × Simulator)
      → IsConsistent x s
      → find_by (is_entry req.idempotency_key) s.ledger ≡ none
      → Outcome x req refund now s m
      → IsConsistent x (continue m.0 (keep_result x req refund now) m.1).1
  unfolding keep_result ◌>>=◌
  kept-IsConsistent s (ok r, s') h fresh (inl (same, (c, e))) =
      let result : failure c ≡ r = cc in
      subst (λ (a : RefundResult). IsConsistent x (with_result s' a)) result
        (subst (λ (u : Simulator). IsConsistent x (with_result u (failure c))) (sym same)
          (failed-IsConsistent s c h))
  kept-IsConsistent s (ok r, s') h fresh (inr (inl (e, p))) =
      let result : success x req refund now ≡ r = cc in
      subst (λ (a : RefundResult). IsConsistent x (with_result s' a)) result
        (Performed-IsConsistent s s' h fresh p)
  kept-IsConsistent s (ok r, s') h fresh (inr (inr (e, p))) = cc
  kept-IsConsistent s (err c, s') h fresh (inl (same, (k, e))) = cc
  kept-IsConsistent s (err c, s') h fresh (inr (inl (e, p))) = cc
  kept-IsConsistent s (err c, s') h fresh (inr (inr (e, p))) = Claimed-IsConsistent s s' h p

  result-IsConsistent :
      (prior : Option Entry) (s : Simulator)
      → find_by (is_entry req.idempotency_key) s.ledger ≡ prior
      → IsConsistent x s
      → IsConsistent x (result_or_execute x req refund now prior s).1
  unfolding result_or_execute ◌>>=◌
  result-IsConsistent none s f h =
      kept-IsConsistent s (execute_locked x req refund now s) h f
        (execute_locked-cases x req refund now s)
  result-IsConsistent (some e) s f h = h

module _ (x : Texts) where
  abbrev Keeps : Simulator → Simulator → Type 0
  Keeps s s' = IsConsistent x s → IsConsistent x s'

  preorder : IsPreorder Keeps
  preorder = record { stay = λ s h. h; join = λ s t u f g h. g (f h) }

  dispatch_locked-Keeps :
      (req : DispatchRequest) (refund : Refund) (now : ℕ)
      → Moves Keeps (dispatch_locked x req refund now)
  unfolding dispatch_locked ◌>>=◌
  dispatch_locked-Keeps req refund now = record {
    moved = λ s h. result-IsConsistent x req refund now _ s refl h;
  }

  dispatch-Keeps :
      (d : Digests) (decoded : Result DispatchRequest) (now : ℕ)
      → Moves Keeps (dispatch d x decoded now)
  unfolding dispatch
  dispatch-Keeps d decoded now = search (moves, preorder, dispatch_locked-Keeps) depth 10

-- After any calls of `dispatch`, at any times and whether they return or raise, the number of
-- effects is the number of successful results in the ledger, and at most the number of payments
-- with an intent, which are distinct; and the key of each intent has a result in the ledger, unless
-- the version of its payment has no next one, so that `_execute_locked` raises; if all that holds
-- at the start.
pub after_all-IsConsistent :
    (d : Digests) (x : Texts) (cs : List Call) (s : Simulator)
    → IsConsistent x s
    → IsConsistent x (after_all d x cs s)
unfolding after_all
after_all-IsConsistent d x [] s h = h
after_all-IsConsistent d x ((decoded, now) ∷ cs) s h =
    after_all-IsConsistent d x cs (dispatch d x decoded now s).1
      ((dispatch-Keeps x d decoded now).moved s h)
