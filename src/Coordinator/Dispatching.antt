-- ===== src/Coordinator/Dispatching.antt =====
-- coordinator.py: `_dispatch`, `_classify_outcome`, `_watch_dispatch`, `_finish_dispatch` and
-- `_recover_interrupted`. A thread makes the call of the adapter; `commit` holds the mutex
-- meanwhile, so nothing else runs until the wait is over.
use vekquorum.Prelude.{
  ℕ, Option, none, some, List, [], ◌∷◌, ◌==◌, find_by, leb, update_by, Result, ok, err, vq, fault,
  if◌then◌else◌,
}
use vekquorum.Wire.{EventData, ExecutionResult, Status}
use vekquorum.Lifecycle.{State, is_dispatching, reported_state}
use vekquorum.Coordinator.Tables.{
  Config, Consumed, Dispatch, DispatchRequest, Host, Outcome, Proposal, ResultCode, View,
  unfinished, failed_call, returned,
}
use vekquorum.Coordinator.Exec.{
  Exec, pure, gets, modify, modify_db, lift, or_crash, tx, ◌>>=◌, ◌>>◌,
}
use vekquorum.Coordinator.Rows.{append_event, flush, load_proposal, logical_now, set_state}

-- a result that the coordinator writes itself
abbrev pub unknown_result : Config → ResultCode → ExecutionResult
unknown_result c code = record {
  status = Status.unknown;
  code = c.result_code code;
  output_hash = none;
  provider_ref = none;
}

unfoldable pub set_result : (dispatch_id : ℕ) → ExecutionResult → Exec (Unit {0})
set_result dispatch_id result = modify_db (λ db. record db {
  dispatches =
      update_by (λ (row : Dispatch). row.dispatch_id == dispatch_id)
        (λ (row : Dispatch). record row { result = some result }) db.dispatches;
})

-- a dispatching proposal takes the state that the result reports
unfoldable pub report_result :
    Config → Proposal → (dispatch_id : ℕ) → ExecutionResult → (actor now : ℕ) → Exec (Unit {0})
report_result c q dispatch_id result actor now = do
  q' ← append_event c q (EventData.execution_reported result) actor now
  flush (
      set_state (record q' { view = record q'.view { result = some result } })
        (reported_state result.status))
  set_result dispatch_id result

abbrev pub report_if_dispatching :
    Config → Option Proposal → ℕ → ExecutionResult → ℕ → ℕ → Exec (Unit {0})
report_if_dispatching c none dispatch_id result actor now = pure tt
report_if_dispatching c (some q) dispatch_id result actor now =
    if is_dispatching q.state then report_result c q dispatch_id result actor now else pure tt

-- `_finish_dispatch`
unfoldable pub finish_dispatch :
    Config → (proposal_id dispatch_id : ℕ) → ExecutionResult → (actor : ℕ) → Exec (Unit {0})
finish_dispatch c proposal_id dispatch_id result actor = tx (do
  now ← logical_now c
  found ← load_proposal proposal_id
  report_if_dispatching c found dispatch_id result actor now)

abbrev pub result_or_malformed : Config → Result ExecutionResult → Result ExecutionResult
result_or_malformed c (ok r) = ok r
result_or_malformed c (err (vq _)) = ok (unknown_result c ResultCode.malformed_result)
result_or_malformed c (err fault) = err fault

-- `_classify_outcome`; `outcome["result"]` of a call that has not come back is a `KeyError`
unfoldable pub classify_outcome : Config → DispatchRequest → Outcome → Result ExecutionResult
classify_outcome c request unfinished = err fault
classify_outcome c request failed_call = ok (unknown_result c ResultCode.transport_unknown)
classify_outcome c request (returned handed verdict) =
    if c.digests.hash_action handed == request.action_hash
    then result_or_malformed c verdict
    else ok (unknown_result c ResultCode.action_mutated)

-- `_current_view`
unfoldable pub current_view : ℕ → Exec View
current_view proposal_id = do found ← load_proposal proposal_id; q ← or_crash found; pure q.view

-- The end of `_dispatch`, where the wait is over. A call that has not come back is watched by
-- another thread where the caller waits for less than the whole budget.
unfoldable pub observe :
    Config → (proposal_id : ℕ) → DispatchRequest → (wait_ms actor : ℕ) → Outcome → Exec (Unit {0})
observe c proposal_id request wait_ms actor unfinished =
    if leb 5000 wait_ms
    then finish_dispatch c proposal_id request.dispatch_id
        (unknown_result c ResultCode.transport_unknown) actor
    else pure tt
observe c proposal_id request wait_ms actor outcome = do
  result ← lift (classify_outcome c request outcome)
  finish_dispatch c proposal_id request.dispatch_id result actor

-- the call of the adapter
unfoldable pub call_executor :
    Config → Host → (proposal_id : ℕ) → DispatchRequest → (wait_ms actor : ℕ) → Exec (Unit {0})
call_executor c host proposal_id request wait_ms actor = do
  modify (λ s. record s { calls = request ∷ s.calls })
  observe c proposal_id request wait_ms actor host.dispatched

-- a request that no longer has its hash reaches no provider
unfoldable pub call_or_refuse :
    Config → Host → (proposal_id : ℕ) → DispatchRequest → (wait_ms actor : ℕ) → Exec (Unit {0})
call_or_refuse c host proposal_id request wait_ms actor =
    if c.digests.hash_action request.action == request.action_hash
    then call_executor c host proposal_id request wait_ms actor
    else finish_dispatch c proposal_id request.dispatch_id
        (unknown_result c ResultCode.action_mutated) actor

-- `_dispatch`
unfoldable pub dispatch :
    Config → Host → (proposal_id : ℕ) → DispatchRequest → (wait_ms actor : ℕ) → Exec View
dispatch c host proposal_id request wait_ms actor = do
  call_or_refuse c host proposal_id
      (record request { action = host.mutate_dispatch request.action }) wait_ms actor
  current_view proposal_id

-- `_watch_dispatch`: what the watching thread does when its own wait is over
unfoldable pub watch_dispatch :
    Config → (proposal_id : ℕ) → DispatchRequest → (actor : ℕ) → Outcome → Exec (Unit {0})
watch_dispatch c proposal_id request actor unfinished =
    finish_dispatch c proposal_id request.dispatch_id
      (unknown_result c ResultCode.transport_unknown) actor
watch_dispatch c proposal_id request actor outcome = do
  result ← lift (classify_outcome c request outcome)
  finish_dispatch c proposal_id request.dispatch_id result actor

abbrev pub proposal_of : ℕ → List Consumed → Option Consumed
proposal_of dispatch_id rows = find_by (λ (row : Consumed). row.dispatch_id == dispatch_id) rows

abbrev pub with_proposal : ℕ → Option Consumed → List (ℕ × ℕ) → List (ℕ × ℕ)
with_proposal dispatch_id none rest = rest
with_proposal dispatch_id (some row) rest = (dispatch_id, row.proposal) ∷ rest

-- The dispatches without a result, with the proposals that they were consumed for. A dispatch id
-- stands in one row of `consumed`.
unfoldable pub pending_dispatches : List Consumed → List Dispatch → List (ℕ × ℕ)
pending_dispatches rows [] = []
pending_dispatches rows (d ∷ ds) =
    let rest = pending_dispatches rows ds in
    elim d.result [
      | some _ ↦ rest
      | none ↦ with_proposal d.dispatch_id (proposal_of d.dispatch_id rows) rest
    ]

-- one interrupted dispatch; the clock is read only where the proposal is dispatching
unfoldable pub interrupt : Config → Proposal → (dispatch_id : ℕ) → Exec (Unit {0})
interrupt c q dispatch_id = do
  now ← logical_now c
  let result = unknown_result c ResultCode.interrupted
  q' ← append_event c q (EventData.execution_reported result) c.system_principal now
  flush (set_state q' State.unknown)
  set_result dispatch_id result

abbrev pub interrupt_if : Config → Option Proposal → ℕ → Exec (Unit {0})
interrupt_if c none dispatch_id = pure tt
interrupt_if c (some q) dispatch_id =
    if is_dispatching q.state then interrupt c q dispatch_id else pure tt

unfoldable pub recover_one : Config → ℕ × ℕ → Exec (Unit {0})
recover_one c row = tx (do found ← load_proposal row.1; interrupt_if c found row.0)

unfoldable pub recover_all : Config → List (ℕ × ℕ) → Exec (Unit {0})
recover_all c [] = pure tt
recover_all c (row ∷ rows) = recover_one c row >> recover_all c rows

-- `_recover_interrupted`
unfoldable pub recover_interrupted : Config → Exec (Unit {0})
unfolding recover_all
recover_interrupted c = do
  rows ← gets (λ s. pending_dispatches s.db.consumed s.db.dispatches)
  recover_all c rows
