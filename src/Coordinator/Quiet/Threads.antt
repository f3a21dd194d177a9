-- ===== src/Coordinator/Quiet/Threads.antt =====
-- `deliver`, `reconcile`, `export_proof`, the recovery and the threads that finish a dispatch hand
-- nothing to an executor and consume no operation.
use vekquorum.Prelude.{ℕ, Option, none, some, List, [], ◌∷◌, Result, ok, err, vq, fault}
use vekquorum.Wire.{ExecutionResult}
use vekquorum.Coordinator.Tables.{
  Config, Delivery, DeliveryState, DispatchRequest, Host, Meta, Observed, Outcome, Proposal,
  Response, unfinished, failed_call, returned, unresolved, resolved, pending, acked,
}
use vekquorum.Coordinator.Dispatching
use vekquorum.Coordinator.Deliver
use vekquorum.Coordinator.Reconcile
use vekquorum.Coordinator.Reconcile.{Asked, replayed, ask}
use vekquorum.Coordinator.Quiet.{Quiet, Quiet-bind, quiet}
use vekquorum.Coordinator.Quiet.Helpers.{rows_quiet}
use vekquorum.Coordinator.Quiet.Requests.{
  Quiet-votes_of, Quiet-events_of, Quiet-enrichment_of, Quiet-checkpoint_for,
}

module _ (c : Config) where
  Quiet-take_answer :
      (q : Proposal) (row : Delivery) (actor now : ℕ) (r : Result ℕ)
      → Quiet (Deliver.take_answer c q row actor now r)
  unfolding Deliver.take_answer Deliver.acknowledge Deliver.defer Deliver.update_delivery
  Quiet-take_answer q row actor now (ok t) = search (quiet, rows_quiet) depth 20
  Quiet-take_answer q row actor now (err (vq e)) = search (quiet, rows_quiet) depth 20
  Quiet-take_answer q row actor now (err fault) = search (quiet, rows_quiet) depth 20

  Quiet-by_state :
      (h : Host) (o : Option Proposal) (row : Delivery) (meta : Meta) (now : ℕ) (s : DeliveryState)
      → Quiet (Deliver.by_state c h o row meta now s)
  unfolding Deliver.attempt_delivery Deliver.repeat_ack
  Quiet-by_state h o row meta now pending = search (quiet, rows_quiet, Quiet-take_answer) depth 30
  Quiet-by_state h o row meta now acked = search (quiet, rows_quiet) depth 20

  Quiet-deliver_or_replay :
      (h : Host) (row : Delivery) (meta : Meta) (o : Option Response)
      → Quiet (Deliver.deliver_or_replay c h row meta o)
  Quiet-deliver_or_replay h row meta none = search (quiet, rows_quiet, Quiet-by_state) depth 10
  Quiet-deliver_or_replay h row meta (some r) = search (quiet) depth 10

  pub Quiet-deliver : (h : Host) (id : ℕ) (meta : Meta) → Quiet (Deliver.deliver c h id meta)
  unfolding Deliver.deliver
  Quiet-deliver h id meta = search (quiet, rows_quiet, Quiet-deliver_or_replay) depth 20

  Quiet-prepare_lookup :
      (q : Proposal) (o : Option Response) → Quiet (Reconcile.prepare_lookup c q o)
  unfolding Reconcile.prepare_lookup Reconcile.dispatch_id_of
  Quiet-prepare_lookup q none = search (quiet, rows_quiet) depth 20
  Quiet-prepare_lookup q (some r) = search (quiet) depth 10

  pub Quiet-current_view : (id : ℕ) → Quiet (Dispatching.current_view id)
  unfolding Dispatching.current_view
  Quiet-current_view id = search (quiet, rows_quiet) depth 10

  Quiet-after_lookup :
      (id : ℕ) (meta : Meta) (o : Observed) → Quiet (Reconcile.after_lookup c id meta o)
  unfolding Reconcile.after_lookup Reconcile.record_lookup Reconcile.settle_unknown
  Quiet-after_lookup id meta unresolved = Quiet-current_view id
  Quiet-after_lookup id meta (resolved r) = search (quiet, rows_quiet) depth 20

  Quiet-after_ask :
      (h : Host) (id : ℕ) (meta : Meta) (a : Asked) → Quiet (Reconcile.after_ask c h id meta a)
  Quiet-after_ask h id meta (replayed v) = search (quiet) depth 10
  Quiet-after_ask h id meta (ask o d) = search (quiet, Quiet-after_lookup) depth 10

  pub Quiet-reconcile : (h : Host) (id : ℕ) (meta : Meta) → Quiet (Reconcile.reconcile c h id meta)
  unfolding Reconcile.reconcile Reconcile.ask_provider
  Quiet-reconcile h id meta =
      search (quiet, rows_quiet, Quiet-prepare_lookup, Quiet-after_ask) depth 30

  pub Quiet-export_proof : (id : ℕ) (meta : Meta) → Quiet (Reconcile.export_proof c id meta)
  unfolding Reconcile.export_proof Reconcile.bundle_of
  Quiet-export_proof id meta =
      search
        (
          quiet, rows_quiet, Quiet-votes_of, Quiet-events_of, Quiet-enrichment_of,
          Quiet-checkpoint_for,
        )
        depth 40

  Quiet-report_if_dispatching :
      (o : Option Proposal) (id : ℕ) (r : ExecutionResult) (actor now : ℕ)
      → Quiet (Dispatching.report_if_dispatching c o id r actor now)
  unfolding Dispatching.report_result Dispatching.set_result
  Quiet-report_if_dispatching none id r actor now = search (quiet) depth 10
  Quiet-report_if_dispatching (some q) id r actor now = search (quiet, rows_quiet) depth 20

  pub Quiet-finish_dispatch :
      (id d : ℕ) (r : ExecutionResult) (actor : ℕ)
      → Quiet (Dispatching.finish_dispatch c id d r actor)
  unfolding Dispatching.finish_dispatch
  Quiet-finish_dispatch id d r actor =
      search (quiet, rows_quiet, Quiet-report_if_dispatching) depth 20

  pub Quiet-watch_dispatch :
      (id : ℕ) (r : DispatchRequest) (actor : ℕ) (o : Outcome)
      → Quiet (Dispatching.watch_dispatch c id r actor o)
  unfolding Dispatching.watch_dispatch
  Quiet-watch_dispatch id r actor unfinished = search (quiet, Quiet-finish_dispatch) depth 10
  Quiet-watch_dispatch id r actor failed_call = search (quiet, Quiet-finish_dispatch) depth 10
  Quiet-watch_dispatch id r actor (returned a v) = search (quiet, Quiet-finish_dispatch) depth 10

  pub Quiet-observe :
      (id : ℕ) (r : DispatchRequest) (w actor : ℕ) (o : Outcome)
      → Quiet (Dispatching.observe c id r w actor o)
  unfolding Dispatching.observe
  Quiet-observe id r w actor unfinished = search (quiet, Quiet-finish_dispatch) depth 10
  Quiet-observe id r w actor failed_call = search (quiet, Quiet-finish_dispatch) depth 10
  Quiet-observe id r w actor (returned a v) = search (quiet, Quiet-finish_dispatch) depth 10

  Quiet-interrupt_if : (o : Option Proposal) (d : ℕ) → Quiet (Dispatching.interrupt_if c o d)
  unfolding Dispatching.interrupt Dispatching.set_result
  Quiet-interrupt_if none d = search (quiet) depth 10
  Quiet-interrupt_if (some q) d = search (quiet, rows_quiet) depth 20

  Quiet-recover_one : (row : ℕ × ℕ) → Quiet (Dispatching.recover_one c row)
  unfolding Dispatching.recover_one
  Quiet-recover_one row = search (quiet, rows_quiet, Quiet-interrupt_if) depth 20

  Quiet-recover_all : (rows : List (ℕ × ℕ)) → Quiet (Dispatching.recover_all c rows)
  unfolding Dispatching.recover_all
  Quiet-recover_all [] = search (quiet) depth 10
  Quiet-recover_all (row ∷ rows) =
      Quiet-bind (Dispatching.recover_one c row) _ (Quiet-recover_one row)
        (λ _. Quiet-recover_all rows)

  pub Quiet-recover_interrupted : Quiet (Dispatching.recover_interrupted c)
  unfolding Dispatching.recover_interrupted
  Quiet-recover_interrupted = search (quiet, Quiet-recover_all) depth 10
