-- ===== src/Coordinator/Quiet/Helpers.antt =====
-- The helpers of Rows hand nothing to an executor and consume no operation.
use vekquorum.Prelude.{ℕ, refl, Option, none, some}
use vekquorum.Wire.{Action, Authority, AuditEntry, Capability, Caller, EventData, InvalidReason}
use vekquorum.Lifecycle.{State}
use vekquorum.Coordinator.Tables.{
  Config, IdKind, Meta, Method, Proposal, Request, RequestRow, Response,
}
use vekquorum.Coordinator.Rows
use vekquorum.Coordinator.Quiet.{Quiet, quiet}

module _ (c : Config) where
  pub Quiet-authorize : (caller : Caller) (k : Capability) → Quiet (Rows.authorize c caller k)
  unfolding Rows.authorize
  Quiet-authorize caller k = search (quiet) depth 10

  pub Quiet-record_request :
      (m : Method) (request : Request) (meta : Meta) (r : Response)
      → Quiet (Rows.record_request c m request meta r)
  unfolding Rows.record_request
  Quiet-record_request m request meta r = search (quiet) depth 10

  pub Quiet-logical_now : Quiet (Rows.logical_now c)
  unfolding Rows.logical_now
  Quiet-logical_now = record { same = λ s. (refl, refl) }

  pub Quiet-draw : (k : IdKind) → Quiet (Rows.draw c k)
  unfolding Rows.draw
  Quiet-draw k = record { same = λ s. (refl, refl) }

  pub Quiet-replayed : (h : ℕ) (row : Option RequestRow) → Quiet (Rows.replayed h row)
  Quiet-replayed h none = search (quiet) depth 10
  Quiet-replayed h (some row) = search (quiet) depth 10

  pub Quiet-dedupe :
      (m : Method) (request : Request) (meta : Meta) → Quiet (Rows.dedupe c m request meta)
  unfolding Rows.dedupe
  Quiet-dedupe m request meta = search (quiet, Quiet-replayed) depth 10

  pub Quiet-load_proposal : (id : ℕ) → Quiet (Rows.load_proposal id)
  unfolding Rows.load_proposal
  Quiet-load_proposal id = search (quiet) depth 10

  pub Quiet-action_of : (q : Proposal) → Quiet (Rows.action_of q)
  unfolding Rows.action_of
  Quiet-action_of q = search (quiet) depth 10

  pub Quiet-authority_of : (e : ℕ) → Quiet (Rows.authority_of e)
  unfolding Rows.authority_of
  Quiet-authority_of e = search (quiet) depth 10

  pub Quiet-policy_of : (h : ℕ) → Quiet (Rows.policy_of h)
  unfolding Rows.policy_of
  Quiet-policy_of h = search (quiet) depth 10

  pub Quiet-insert_event : (e : AuditEntry) → Quiet (Rows.insert_event e)
  unfolding Rows.insert_event
  Quiet-insert_event e = search (quiet) depth 10

  pub Quiet-append_event :
      (q : Proposal) (x : EventData) (actor at : ℕ) → Quiet (Rows.append_event c q x actor at)
  unfolding Rows.append_event
  Quiet-append_event q x actor at = search (quiet, Quiet-draw, Quiet-insert_event) depth 10

  pub Quiet-flush : (q : Proposal) → Quiet (Rows.flush q)
  unfolding Rows.flush
  Quiet-flush q = search (quiet) depth 10

  pub Quiet-move_to :
      (q : Proposal) (x : EventData) (t : State) (actor now : ℕ)
      → Quiet (Rows.move_to c q x t actor now)
  unfolding Rows.move_to
  Quiet-move_to q x t actor now = search (quiet, Quiet-append_event, Quiet-flush) depth 10

  pub Quiet-invalidate :
      (q : Proposal) (now : ℕ) (why : Option InvalidReason) → Quiet (Rows.invalidate c q now why)
  Quiet-invalidate q now none = search (quiet) depth 10
  Quiet-invalidate q now (some r) = search (quiet, Quiet-move_to) depth 10

  pub Quiet-check_authority :
      (q : Proposal) (a : Action) (now : ℕ) (held : Option Authority)
      → Quiet (Rows.check_authority c q a now held)
  Quiet-check_authority q a now none = search (quiet) depth 10
  Quiet-check_authority q a now (some h) =
      search (quiet, Quiet-policy_of, Quiet-invalidate) depth 10

  pub Quiet-materialize : (q : Proposal) (now : ℕ) → Quiet (Rows.materialize c q now)
  unfolding Rows.materialize
  Quiet-materialize q now =
      search (quiet, Quiet-action_of, Quiet-authority_of, Quiet-move_to, Quiet-check_authority)
        depth 20

pub ruleset rows_quiet = (
  Quiet-authorize, Quiet-record_request, Quiet-logical_now, Quiet-draw, Quiet-dedupe,
  Quiet-load_proposal, Quiet-action_of, Quiet-authority_of, Quiet-policy_of, Quiet-insert_event,
  Quiet-append_event, Quiet-flush, Quiet-move_to, Quiet-materialize,
)
