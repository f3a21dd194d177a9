-- ===== src/Registry/Reads.antt =====
-- The reads of registry.py: `get_policy`, `get_proof`, `head` and `conflicts`.
use vekquorum.Prelude.{
  ℕ, Bool, Option, List, [], ◌∷◌, ◌&&◌, ◌==◌, find_by, Result, ok, or_raise, ◌>>=◌, if◌then◌else◌,
}
use vekquorum.Errors.{not_found}
use vekquorum.Wire.{Checkpoint, Policy, Proof}
use vekquorum.Verifier.Reports.{Freshness, registry_observed}
use vekquorum.Registry.Tables.{ConflictRow, Db, is_bundle, is_head, is_policy}

pub record HeadView : Type 0 where
  pub proposal_id : ℕ
  pub head_seq : ℕ
  pub head_hash : ℕ
  pub bundle_hash : ℕ
  pub freshness : Freshness
  pub observed_ms : ℕ
  pub quarantined : Bool

-- `get_policy`: the hash that was asked for, and the policy
unfoldable pub get_policy : Db → (tenant hash : ℕ) → Result (ℕ × Policy)
get_policy db tenant hash = do
  row ← or_raise (find_by (is_policy tenant hash) db.policies) not_found
  ok (hash, row.body)

unfoldable pub get_proof : Db → (tenant hash : ℕ) → Result (ℕ × Proof)
get_proof db tenant hash = do
  row ← or_raise (find_by (is_bundle tenant hash) db.bundles) not_found
  ok (hash, row.body)

unfoldable pub head : Db → (tenant proposal_id now : ℕ) → Result HeadView
head db tenant proposal_id now = do
  row ← or_raise (find_by (is_head tenant proposal_id) db.heads) not_found
  ok (record {
    proposal_id = proposal_id;
    head_seq = row.head_seq;
    head_hash = row.head_hash;
    bundle_hash = row.bundle_hash;
    freshness = registry_observed;
    observed_ms = now;
    quarantined = row.quarantined;
  })

-- `conflicts`: the two checkpoints of each row
unfoldable pub conflicts :
    List ConflictRow → (tenant proposal_id : ℕ) → List (Option Checkpoint × Checkpoint)
conflicts [] tenant proposal_id = []
conflicts (row ∷ rows) tenant proposal_id =
    let rest = conflicts rows tenant proposal_id in
    if row.tenant == tenant && row.proposal == proposal_id
    then (row.left_checkpoint, row.right_checkpoint) ∷ rest
    else rest
