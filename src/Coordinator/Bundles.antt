-- ===== src/Coordinator/Bundles.antt =====
-- coordinator.py: what a proof bundle is made of, checkpoints, and escalations.
use vekquorum.Prelude.{
  ℕ, Option, none, some, List, [], ◌∷◌, ◌++◌, ◌==◌, ◌&&◌, not, any, leb, find_by, filter_by,
  last_or, if◌then◌else◌,
}
use vekquorum.Wire.{
  Action, Authority, AuditEntry, Checkpoint, CheckpointBody, Enrichment, EscalationReason,
  EventData, Policy, SignedVote,
}
use vekquorum.Lifecycle.{State}
use vekquorum.Coordinator.Tables.{
  CheckpointRow, Config, Delivery, DeliveryState, Evidence, IdKind, Proposal,
}
use vekquorum.Coordinator.Exec.{Exec, pure, gets, modify_db, crash, constraint, ◌>>=◌, ◌>>◌}
use vekquorum.Coordinator.Rows.{action_of, append_event, draw, flush, policy_of, set_state}
use vekquorum.Coordinator.Votes.{votes_of}

abbrev pub insert_event_by_seq : AuditEntry → List AuditEntry → List AuditEntry
insert_event_by_seq e [] = e ∷ []
insert_event_by_seq e (f ∷ fs) =
    let rest = insert_event_by_seq e fs in
    if leb e.body.seq f.body.seq then e ∷ f ∷ fs else f ∷ rest

-- `ORDER BY seq`
abbrev pub by_seq : List AuditEntry → List AuditEntry
by_seq [] = []
by_seq (e ∷ es) = insert_event_by_seq e (by_seq es)

-- the events of one stream
abbrev pub stream_events : ℕ → List AuditEntry → List AuditEntry
stream_events stream es = by_seq (filter_by (λ (e : AuditEntry). e.body.stream_id == stream) es)

-- `_events_of`
unfoldable pub events_of : Proposal → Exec (List AuditEntry)
events_of q = gets (λ s. stream_events q.view.stream s.db.events)

-- `_snapshot_authority`
unfoldable pub snapshot_authority : Proposal → Authority
snapshot_authority q = elim q.commit_authority [ some a ↦ a | none ↦ q.initial_authority ]

abbrev pub enrichment_in : Option Evidence → Option Enrichment
enrichment_in none = none
enrichment_in (some e) = some e.enrichment

abbrev pub enrichment_at : Option ℕ → Exec (Option Enrichment)
enrichment_at none = pure none
enrichment_at (some hash) =
    gets (λ s. enrichment_in (find_by (λ (e : Evidence). e.hash == hash) s.db.evidence))

-- `_enrichment_of`
unfoldable pub enrichment_of : Action → Exec (Option Enrichment)
enrichment_of a = enrichment_at a.enrichment_hash

-- the checkpoint that `_checkpoint_for` signs at the head of a log
unfoldable pub new_checkpoint : Config → Proposal → AuditEntry → Authority → Checkpoint
new_checkpoint c q head authority =
    let b : CheckpointBody = record {
      tenant = c.tenant;
      proposal_id = q.id;
      head_seq = head.body.seq;
      head_hash = head.hash;
      observed_ms = head.body.at_ms;
      authority_epoch = authority.epoch;
    } in
    record {
      body = b;
      key_id = c.audit_key_id;
      signature = c.digests.ed_sign c.audit_seed (c.digests.checkpoint_message b);
    }

abbrev pub kept_or_new :
    Config → Proposal → AuditEntry → Authority → Option CheckpointRow → Exec Checkpoint
kept_or_new c q head authority (some row) = pure row.checkpoint
kept_or_new c q head authority none = do
  let cp = new_checkpoint c q head authority
  modify_db (λ db. record db {
    checkpoints =
        db.checkpoints
        ++ (record { proposal = q.id; head_seq = head.body.seq; checkpoint = cp }) ∷ [];
  })
  pure cp

abbrev pub checkpoint_at : Config → Proposal → AuditEntry → Authority → Exec Checkpoint
checkpoint_at c q head authority = do
  row ← gets (λ s.
      find_by (λ (r : CheckpointRow). r.proposal == q.id && r.head_seq == head.body.seq)
        s.db.checkpoints)
  kept_or_new c q head authority row

-- `_checkpoint_for`; `events[-1]` of no events is an `IndexError`
unfoldable pub checkpoint_for : Config → Proposal → List AuditEntry → Authority → Exec Checkpoint
checkpoint_for c q [] authority = crash
checkpoint_for c q (e ∷ es) authority = checkpoint_at c q (last_or e es) authority

abbrev pub bundle_hash :
    Config
    → Action
    → Authority
    → Option Enrichment
    → List SignedVote
    → List AuditEntry
    → Checkpoint
    → Option Policy
    → ℕ
bundle_hash c action authority enrichment votes events checkpoint none =
    c.hash_partial action authority enrichment votes events checkpoint
bundle_hash c action authority enrichment votes events checkpoint (some policy) =
    c.digests.hash_bundle (record {
      action = action;
      policy = policy;
      authority = authority;
      enrichment = enrichment;
      votes = votes;
      events = events;
      checkpoint = checkpoint;
    })

-- `_interim_bundle_hash`
unfoldable pub interim_bundle_hash : Config → Proposal → Action → Exec ℕ
interim_bundle_hash c q action = do
  policy ← policy_of action.policy_hash
  events ← events_of q
  votes ← votes_of q
  let authority = snapshot_authority q
  enrichment ← enrichment_of action
  checkpoint ← checkpoint_for c q events authority
  pure (bundle_hash c action authority enrichment votes events checkpoint policy)

unfoldable pub insert_delivery : Delivery → Exec (Unit {0})
insert_delivery row = do
  taken ← gets (λ s. any (λ (r : Delivery). r.escalation_id == row.escalation_id) s.db.deliveries)
  constraint (not taken)
  modify_db (λ db. record db { deliveries = db.deliveries ++ row ∷ [] })

-- `_make_escalation`
unfoldable pub make_escalation :
    Config → Proposal → EscalationReason → (actor now : ℕ) → Exec Proposal
make_escalation c q reason actor now = do
  action ← action_of q
  id ← draw c IdKind.escalation
  q' ← append_event c q (EventData.escalated reason id) actor now
  bundle ← interim_bundle_hash c q' action
  insert_delivery (record {
    escalation_id = id;
    proposal = q.id;
    state = DeliveryState.pending;
    attempts = 0;
    request = record {
      escalation_id = id;
      proposal_id = q.id;
      action_hash = c.digests.hash_action action;
      bundle_hash = bundle;
      reason = reason;
      expires_ms = action.expires_ms;
      summary = action.oversight.goal;
    };
    inbox_ticket = none;
  })
  let q'' =
      set_state (record q' { view = record q'.view { escalation_id = some id } })
        State.escalated_state
  flush q''
  pure q''
