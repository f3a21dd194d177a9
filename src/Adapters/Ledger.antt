-- ===== src/Adapters/Ledger.antt =====
-- The ledger of the refund simulator (adapters.py): a result that was returned stays.
use vekquorum.Prelude.{
  ℕ, ◌≡◌, refl, ◌∙◌, Option, none, some, List, [], ◌∷◌, ◌++◌, find_by, Result, arith,
}
use vekquorum.Wire.Digests.{Digests}
use vekquorum.Stateful.Moves.{IsPreorder, Moves, moves}
use vekquorum.Adapters.Refund.{Refund}
use vekquorum.Adapters.Simulator.{
  DispatchRequest, Entry, Intent, Payment, RefundResult, Simulator, Texts, is_entry, perform,
  execute_on, execute_locked, keep_result, result_or_execute, dispatch_locked, dispatch,
}

-- A call of `dispatch`: the decoded request and the simulator's clock.
abbrev pub Call : Type 0
Call = Result DispatchRequest × ℕ

-- the simulator after some calls of `dispatch`, which may have raised
unfoldable pub after_all : Digests → Texts → List Call → Simulator → Simulator
after_all d x [] s = s
after_all d x ((decoded, now) ∷ cs) s = after_all d x cs (dispatch d x decoded now s).1

-- Every key that has a result keeps it.
abbrev pub Remembers : List Entry → List Entry → Type 0
Remembers es es' =
    (key : ℕ) (e : Entry) → find_by (is_entry key) es ≡ some e → find_by (is_entry key) es' ≡ some e

abbrev pub Keeps : Simulator → Simulator → Type 0
Keeps s s' = Remembers s.ledger s'.ledger

preorder : IsPreorder Keeps
preorder = record { stay = λ s key e f. f; join = λ s t u a b key e f. b key e (a key e f) }

Remembers-refl : (es : List Entry) → Remembers es es
Remembers-refl es key e f = f

pub Remembers-append : (es : List Entry) (new : Entry) → Remembers es (es ++ new ∷ [])
Remembers-append [] new key e f = cc
Remembers-append (g ∷ es) new key e f = ground (arith, Remembers-append es new key e)

-- `_execute_locked` leaves the ledger alone.
abbrev pub SameLedger : Simulator → Simulator → Type 0
SameLedger s s' = s'.ledger ≡ s.ledger

same_order : IsPreorder SameLedger
same_order = record { stay = λ s. refl; join = λ s t u a b. b ∙ a }

module _ (x : Texts) (req : DispatchRequest) (refund : Refund) (now : ℕ) where
  perform-SameLedger : (p : Payment) → Moves SameLedger (perform x req refund now p)
  unfolding perform
  perform-SameLedger p = search (moves, same_order) depth 20

  execute_on-SameLedger :
      (payment : Option Payment) (prior : Option Intent)
      → Moves SameLedger (execute_on x req refund now payment prior)
  unfolding execute_on
  execute_on-SameLedger none prior = search (moves, same_order) depth 10
  execute_on-SameLedger (some p) prior = search (moves, same_order, perform-SameLedger) depth 10

  pub execute_locked-SameLedger : Moves SameLedger (execute_locked x req refund now)
  unfolding execute_locked
  execute_locked-SameLedger = search (moves, same_order, execute_on-SameLedger) depth 10

  execute_locked-Keeps : Moves Keeps (execute_locked x req refund now)
  execute_locked-Keeps = record { moved = λ s key e f. rw (execute_locked-SameLedger.moved s) f }

  keep_result-Keeps : (r : RefundResult) → Moves Keeps (keep_result x req refund now r)
  unfolding keep_result
  keep_result-Keeps r = search (moves, preorder, Remembers-append) depth 10

  result_or_execute-Keeps :
      (prior : Option Entry) → Moves Keeps (result_or_execute x req refund now prior)
  unfolding result_or_execute
  result_or_execute-Keeps none =
      search (moves, preorder, execute_locked-Keeps, keep_result-Keeps) depth 10
  result_or_execute-Keeps (some e) = search (moves, preorder) depth 10

  dispatch_locked-Keeps : Moves Keeps (dispatch_locked x req refund now)
  unfolding dispatch_locked
  dispatch_locked-Keeps = search (moves, preorder, result_or_execute-Keeps) depth 10

dispatch-Keeps :
    (d : Digests) (x : Texts) (decoded : Result DispatchRequest) (now : ℕ)
    → Moves Keeps (dispatch d x decoded now)
unfolding dispatch
dispatch-Keeps d x decoded now = search (moves, preorder, dispatch_locked-Keeps) depth 10

pub after_all-Keeps :
    (d : Digests) (x : Texts) (cs : List Call) (s : Simulator) → Keeps s (after_all d x cs s)
unfolding after_all
after_all-Keeps d x [] s key e f = f
after_all-Keeps d x ((decoded, now) ∷ cs) s key e f =
    after_all-Keeps d x cs (dispatch d x decoded now s).1 key e
      ((dispatch-Keeps d x decoded now).moved s key e f)
