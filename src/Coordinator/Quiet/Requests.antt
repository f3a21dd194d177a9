-- ===== src/Coordinator/Quiet/Requests.antt =====
-- `get`, `cancel` and `escalate` hand nothing to an executor and consume no operation, and neither
-- do the parts of an escalation.
use vekquorum.Prelude.{ℕ, Bool, true, false, Option, none, some, List, [], ◌∷◌}
use vekquorum.Wire.{Action, Authority, AuditEntry, EscalationReason, Policy}
use vekquorum.Coordinator.Tables.{CheckpointRow, Config, Delivery, Meta, Proposal, Response}
use vekquorum.Coordinator.Votes
use vekquorum.Coordinator.Bundles
use vekquorum.Coordinator.Requests
use vekquorum.Coordinator.Quiet.{Quiet, quiet}
use vekquorum.Coordinator.Quiet.Helpers.{rows_quiet}

module _ (c : Config) where
  pub Quiet-votes_of : (q : Proposal) → Quiet (Votes.votes_of q)
  unfolding Votes.votes_of
  Quiet-votes_of q = search (quiet) depth 10

  pub Quiet-approved : (q : Proposal) (p : Policy) → Quiet (Votes.approved q p)
  unfolding Votes.approved
  Quiet-approved q p = search (quiet, Quiet-votes_of) depth 10

  pub Quiet-quorum_satisfied : (q : Proposal) (p : Policy) → Quiet (Votes.quorum_satisfied q p)
  unfolding Votes.quorum_satisfied
  Quiet-quorum_satisfied q p = search (quiet, Quiet-approved) depth 10

  pub Quiet-events_of : (q : Proposal) → Quiet (Bundles.events_of q)
  unfolding Bundles.events_of
  Quiet-events_of q = search (quiet) depth 10

  pub Quiet-enrichment_at : (h : Option ℕ) → Quiet (Bundles.enrichment_at h)
  Quiet-enrichment_at none = search (quiet) depth 10
  Quiet-enrichment_at (some h) = search (quiet) depth 10

  pub Quiet-enrichment_of : (a : Action) → Quiet (Bundles.enrichment_of a)
  unfolding Bundles.enrichment_of
  Quiet-enrichment_of a = Quiet-enrichment_at a.enrichment_hash

  pub Quiet-kept_or_new :
      (q : Proposal) (e : AuditEntry) (a : Authority) (row : Option CheckpointRow)
      → Quiet (Bundles.kept_or_new c q e a row)
  Quiet-kept_or_new q e a none = search (quiet) depth 10
  Quiet-kept_or_new q e a (some r) = search (quiet) depth 10

  pub Quiet-checkpoint_for :
      (q : Proposal) (es : List AuditEntry) (a : Authority)
      → Quiet (Bundles.checkpoint_for c q es a)
  unfolding Bundles.checkpoint_for
  Quiet-checkpoint_for q [] a = search (quiet) depth 10
  Quiet-checkpoint_for q (e ∷ es) a = search (quiet, Quiet-kept_or_new) depth 10

  pub Quiet-interim_bundle_hash :
      (q : Proposal) (a : Action) → Quiet (Bundles.interim_bundle_hash c q a)
  unfolding Bundles.interim_bundle_hash
  Quiet-interim_bundle_hash q a =
      search
        (
          quiet, rows_quiet, Quiet-events_of, Quiet-votes_of, Quiet-enrichment_of,
          Quiet-checkpoint_for,
        )
        depth 20

  pub Quiet-insert_delivery : (row : Delivery) → Quiet (Bundles.insert_delivery row)
  unfolding Bundles.insert_delivery
  Quiet-insert_delivery row = search (quiet) depth 10

  pub Quiet-make_escalation :
      (q : Proposal) (r : EscalationReason) (actor now : ℕ)
      → Quiet (Bundles.make_escalation c q r actor now)
  unfolding Bundles.make_escalation
  Quiet-make_escalation q r actor now =
      search (quiet, rows_quiet, Quiet-interim_bundle_hash, Quiet-insert_delivery) depth 20

  pub Quiet-get : (id : ℕ) (meta : Meta) → Quiet (Requests.get c id meta)
  unfolding Requests.get
  Quiet-get id meta = search (quiet, rows_quiet) depth 20

  pub Quiet-check_live : (q : Proposal) (n : ℕ) → Quiet (Requests.check_live q n)
  unfolding Requests.check_live
  Quiet-check_live q n = search (quiet) depth 10

  pub Quiet-cancel_new :
      (q : Proposal) (n : ℕ) (meta : Meta) (now : ℕ) → Quiet (Requests.cancel_new c q n meta now)
  unfolding Requests.cancel_new
  Quiet-cancel_new q n meta now = search (quiet, rows_quiet, Quiet-check_live) depth 20

  pub Quiet-cancel_or_view :
      (q : Proposal) (n : ℕ) (meta : Meta) (now : ℕ) (r : Option Response)
      → Quiet (Requests.cancel_or_view c q n meta now r)
  Quiet-cancel_or_view q n meta now none = Quiet-cancel_new q n meta now
  Quiet-cancel_or_view q n meta now (some r) = search (quiet) depth 10

  pub Quiet-cancel_unless :
      (q : Proposal) (n : ℕ) (meta : Meta) (now : ℕ) (b : Bool)
      → Quiet (Requests.cancel_unless c q n meta now b)
  Quiet-cancel_unless q n meta now true = search (quiet) depth 10
  Quiet-cancel_unless q n meta now false = search (quiet, rows_quiet, Quiet-cancel_or_view) depth 20

  pub Quiet-cancel : (id n : ℕ) (meta : Meta) → Quiet (Requests.cancel c id n meta)
  unfolding Requests.cancel
  Quiet-cancel id n meta = search (quiet, rows_quiet, Quiet-cancel_unless) depth 20

  pub Quiet-escalate_new :
      (q : Proposal) (n : ℕ) (r : EscalationReason) (meta : Meta) (now : ℕ)
      → Quiet (Requests.escalate_new c q n r meta now)
  unfolding Requests.escalate_new
  Quiet-escalate_new q n r meta now =
      search (quiet, rows_quiet, Quiet-check_live, Quiet-make_escalation) depth 20

  pub Quiet-escalate_or_view :
      (q : Proposal) (n : ℕ) (r : EscalationReason) (meta : Meta) (now : ℕ) (s : Option Response)
      → Quiet (Requests.escalate_or_view c q n r meta now s)
  Quiet-escalate_or_view q n r meta now none = Quiet-escalate_new q n r meta now
  Quiet-escalate_or_view q n r meta now (some s) = search (quiet) depth 10

  pub Quiet-escalate_unless :
      (q : Proposal) (n : ℕ) (r : EscalationReason) (meta : Meta) (now : ℕ) (b : Bool)
      → Quiet (Requests.escalate_unless c q n r meta now b)
  Quiet-escalate_unless q n r meta now true = search (quiet) depth 10
  Quiet-escalate_unless q n r meta now false =
      search (quiet, rows_quiet, Quiet-escalate_or_view) depth 20

  pub Quiet-escalate :
      (id n : ℕ) (r : EscalationReason) (meta : Meta) → Quiet (Requests.escalate c id n r meta)
  unfolding Requests.escalate
  Quiet-escalate id n r meta = search (quiet, rows_quiet, Quiet-escalate_unless) depth 20
