-- ===== src/Coordinator/Quiet/Methods.antt =====
-- `configure`, `propose`, `submit`, `deliver`, `reconcile`, `export_proof` and the threads that
-- finish a dispatch hand nothing to an executor and consume no operation.
use vekquorum.Prelude.{ℕ, refl, Bool, true, false, Option, none, some, List}
use vekquorum.Wire.{Action, Authority, Decision, Enrichment, Policy, SignedVote}
use vekquorum.Coordinator.Tables.{
  Config, Meta, Proposal, Response, View, VoteRow, viewed, configured, delivered,
}
use vekquorum.Coordinator.Exec.{modify}
use vekquorum.Coordinator.Configure
use vekquorum.Coordinator.Propose
use vekquorum.Coordinator.Submit
use vekquorum.Coordinator.Quiet.{Quiet, Quiet-modify, quiet}
use vekquorum.Coordinator.Quiet.Helpers.{rows_quiet}
use vekquorum.Coordinator.Quiet.Requests.{
  Quiet-approved, Quiet-quorum_satisfied, Quiet-make_escalation,
}

module _ (c : Config) where
  Quiet-admin_stream : Quiet (Configure.admin_stream c)
  unfolding Configure.admin_stream
  Quiet-admin_stream = search (quiet, fresh_stream-Quiet) depth 10
    where
      fresh_stream-Quiet : (o : Option ℕ) → Quiet (Configure.fresh_stream c o)
      fresh_stream-Quiet none = search (quiet, rows_quiet) depth 10
      fresh_stream-Quiet (some s) = search (quiet) depth 10

  Quiet-append_admin :
      (a : Authority) (p : Option Authority) (actor now : ℕ)
      → Quiet (Configure.append_admin c a p actor now)
  unfolding Configure.append_admin Configure.admin_seq Configure.admin_prev
  Quiet-append_admin a p actor now = search (quiet, rows_quiet, Quiet-admin_stream) depth 20

  Quiet-check_revoked :
      (p : Policy) (r : List ℕ) (held : Option Authority) → Quiet (Configure.check_revoked p r held)
  unfolding Configure.check_revoked
  Quiet-check_revoked p r none = search (quiet) depth 10
  Quiet-check_revoked p r (some a) = search (quiet) depth 10

  Quiet-install :
      (n : ℕ) (p : Policy) (denied revoked : List ℕ) (meta : Meta) (now : ℕ)
      → Quiet (Configure.install c n p denied revoked meta now)
  unfolding Configure.install Configure.check_scope Configure.insert_policy
      Configure.insert_authority
  Quiet-install n p denied revoked meta now =
      search (quiet, rows_quiet, Quiet-check_revoked, Quiet-append_admin) depth 30

  Quiet-or_install :
      (n : ℕ) (p : Policy) (denied revoked : List ℕ) (meta : Meta) (now : ℕ) (s : Option Response)
      → Quiet (Configure.or_install c n p denied revoked meta now s)
  Quiet-or_install n p denied revoked meta now none = Quiet-install n p denied revoked meta now
  Quiet-or_install n p denied revoked meta now (some s) = search (quiet) depth 10

  pub Quiet-configure :
      (n : ℕ) (p : Policy) (denied revoked : List ℕ) (meta : Meta)
      → Quiet (Configure.configure c n p denied revoked meta)
  unfolding Configure.configure
  Quiet-configure n p denied revoked meta = search (quiet, rows_quiet, Quiet-or_install) depth 20

  Quiet-limit_propose : (now : ℕ) → Quiet (Propose.limit_propose now)
  unfolding Propose.limit_propose
  Quiet-limit_propose now = search (quiet, limited) depth 10
    where
      limited : (b : List ℕ) → Quiet (modify (λ s. record s { rate_propose = b }))
      limited b = Quiet-modify (λ s. record s { rate_propose = b }) (λ s. (refl, refl))

  Quiet-check_enrichment_binding :
      (a : Action) (e : Option Enrichment) → Quiet (Propose.check_enrichment_binding c a e)
  unfolding Propose.check_enrichment_binding
  Quiet-check_enrichment_binding a none = search (quiet) depth 10
  Quiet-check_enrichment_binding a (some e) = search (quiet) depth 10

  Quiet-current_authority :
      (a : Action) (held : Option Authority) → Quiet (Propose.current_authority a held)
  Quiet-current_authority a none = search (quiet) depth 10
  Quiet-current_authority a (some h) = search (quiet) depth 10

  Quiet-put_enrichment : (a : Action) (e : Option Enrichment) → Quiet (Propose.put_enrichment a e)
  unfolding Propose.put_enrichment
  Quiet-put_enrichment a none = search (quiet) depth 10
  Quiet-put_enrichment a (some e) = put_at-Quiet a.enrichment_hash
    where
      put_at-Quiet : (h : Option ℕ) → Quiet (Propose.put_at e h)
      put_at-Quiet none = search (quiet) depth 10
      put_at-Quiet (some h) = search (quiet) depth 10

  Quiet-gate_enrichment :
      (p : Policy) (e : Option Enrichment) (q : Proposal) (actor now : ℕ)
      → Quiet (Propose.gate_enrichment c p e q actor now)
  unfolding Propose.gate_enrichment
  Quiet-gate_enrichment p e q actor now = search (quiet, rows_quiet, Quiet-make_escalation) depth 20

  Quiet-admit :
      (a : Action) (p : Policy) (e : Option Enrichment) (meta : Meta) (now : ℕ) (b : Bool)
      → Quiet (Propose.admit c a p e meta now b)
  unfolding Propose.admit Propose.check_fresh Propose.check_times Propose.check_active
      Propose.insert_proposal
  Quiet-admit a p e meta now b =
      search
        (quiet, rows_quiet, Quiet-current_authority, Quiet-put_enrichment, Quiet-gate_enrichment)
        depth 40

  Quiet-refreshed : (now : ℕ) (q : Proposal) → Quiet (Propose.refreshed c now q)
  unfolding Propose.refreshed
  Quiet-refreshed now q = search (quiet, rows_quiet) depth 10

  Quiet-or_admit :
      (a : Action) (p : Policy) (e : Option Enrichment) (meta : Meta) (now : ℕ)
      (o : Option Proposal)
      → Quiet (Propose.or_admit c a p e meta now o)
  Quiet-or_admit a p e meta now none = Quiet-admit a p e meta now false
  Quiet-or_admit a p e meta now (some q) = search (quiet, Quiet-refreshed, Quiet-admit) depth 10

  Quiet-refreshed_or :
      (now : ℕ) (v : View) (o : Option Proposal) → Quiet (Propose.refreshed_or c now v o)
  Quiet-refreshed_or now v none = search (quiet) depth 10
  Quiet-refreshed_or now v (some q) = Quiet-refreshed now q

  Quiet-replay_propose : (now : ℕ) (r : Response) → Quiet (Propose.replay_propose c now r)
  Quiet-replay_propose now (viewed v) = search (quiet, rows_quiet, Quiet-refreshed_or) depth 10
  Quiet-replay_propose now (configured a h) = search (quiet) depth 10
  Quiet-replay_propose now (delivered d t v) = search (quiet) depth 10

  Quiet-replay_or_admit :
      (a : Action) (p : Policy) (e : Option Enrichment) (meta : Meta) (now : ℕ)
      (s : Option Response)
      → Quiet (Propose.replay_or_admit c a p e meta now s)
  Quiet-replay_or_admit a p e meta now none = search (quiet, rows_quiet, Quiet-or_admit) depth 10
  Quiet-replay_or_admit a p e meta now (some s) = Quiet-replay_propose now s

  pub Quiet-propose :
      (a : Action) (p : Policy) (e : Option Enrichment) (meta : Meta)
      → Quiet (Propose.propose c a p e meta)
  unfolding Propose.propose
  Quiet-propose a p e meta =
      search
        (
          quiet, rows_quiet, Quiet-limit_propose, Quiet-check_enrichment_binding,
          Quiet-replay_or_admit,
        )
        depth 40

  Quiet-limit_submit : (now : ℕ) → Quiet (Submit.limit_submit now)
  unfolding Submit.limit_submit
  Quiet-limit_submit now = search (quiet, limited) depth 10
    where
      limited : (b : List ℕ) → Quiet (modify (λ s. record s { rate_submit = b }))
      limited b = Quiet-modify (λ s. record s { rate_submit = b }) (λ s. (refl, refl))

  Quiet-count_approval :
      (q : Proposal) (p : Policy) (actor now : ℕ) → Quiet (Submit.count_approval c q p actor now)
  unfolding Submit.count_approval Submit.reach_quorum
  Quiet-count_approval q p actor now =
      search (quiet, rows_quiet, Quiet-approved, Quiet-quorum_satisfied) depth 20

  Quiet-after_vote :
      (q : Proposal) (p : Policy) (d : Decision) (actor now : ℕ)
      → Quiet (Submit.after_vote c q p d actor now)
  unfolding Submit.after_vote
  Quiet-after_vote q p Decision.approve actor now = Quiet-count_approval q p actor now
  Quiet-after_vote q p Decision.reject actor now = search (Quiet-make_escalation) depth 10

  Quiet-vote_or_repeat :
      (q : Proposal) (a : Action) (p : Policy) (n : ℕ) (v : SignedVote) (meta : Meta) (now : ℕ)
      (o : Option VoteRow)
      → Quiet (Submit.vote_or_repeat c q a p n v meta now o)
  unfolding Submit.record_vote Submit.repeat_vote Submit.insert_vote_row
  Quiet-vote_or_repeat q a p n v meta now none =
      search (quiet, rows_quiet, Quiet-after_vote) depth 30
  Quiet-vote_or_repeat q a p n v meta now (some r) = search (quiet, rows_quiet) depth 20

  Quiet-cast_or_view :
      (q : Proposal) (n : ℕ) (v : SignedVote) (meta : Meta) (now : ℕ) (o : Option Response)
      → Quiet (Submit.cast_or_view c q n v meta now o)
  unfolding Submit.cast
  Quiet-cast_or_view q n v meta now none = search (quiet, rows_quiet, Quiet-vote_or_repeat) depth 30
  Quiet-cast_or_view q n v meta now (some r) = search (quiet) depth 10

  Quiet-unless_changed :
      (q : Proposal) (n : ℕ) (v : SignedVote) (meta : Meta) (now : ℕ) (b : Bool)
      → Quiet (Submit.unless_changed c q n v meta now b)
  Quiet-unless_changed q n v meta now true = search (quiet) depth 10
  Quiet-unless_changed q n v meta now false =
      search (quiet, rows_quiet, Quiet-cast_or_view) depth 10

  pub Quiet-submit : (id n : ℕ) (v : SignedVote) (meta : Meta) → Quiet (Submit.submit c id n v meta)
  unfolding Submit.submit
  Quiet-submit id n v meta =
      search (quiet, rows_quiet, Quiet-limit_submit, Quiet-unless_changed) depth 30
