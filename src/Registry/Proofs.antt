-- ===== src/Registry/Proofs.antt =====
-- `verify` and `put_proof` of registry.py. A proof is what the shape checks of the schema decode.
use vekquorum.Prelude.{
  ℕ, Bool, true, Option, none, some, List, [], ◌∷◌, ◌++◌, ◌==◌, ◌&&◌, not, any, find_by, update_by,
  ltb, Result, ok, err, vq, fault, if◌then◌else◌,
}
use vekquorum.Errors.{equivocation, schema_invalid, tenant_mismatch}
use vekquorum.Wire.{Checkpoint, Proof}
use vekquorum.Wire.Digests.{Digests}
use vekquorum.Verifier.{verify_proof}
use vekquorum.Verifier.Reports.{Check, CheckCode, Freshness, Integrity, Report, failure, valid}
use vekquorum.Stateful.{Method, pure, lift, gets, modify, raise_if, tx, ◌>>=◌, ◌>>◌}
use vekquorum.Registry.Tables.{
  BundleRow, Db, HeadRow, ProofAnswer, Registry, Route, equivocated, is_bundle, is_head, registered,
}
use vekquorum.Registry.Admission.{rate, replayed, request_row, trust_of, with_request}

-- `next((c["code"] for c in checks if not c["ok"]), "SCHEMA_INVALID")`
abbrev pub first_failure : List Check → CheckCode
first_failure [] = failure schema_invalid
first_failure (c ∷ cs) = if c.passes then first_failure cs else c.code

-- `raise VQError(first)`. The first check that fails has an error code for its code.
unfoldable pub raise_first {ℓ} : {A : Type ℓ} → CheckCode → Result A
raise_first (failure c) = err (vq c)
raise_first _ = err fault

-- `if result["integrity"] != "valid"`
unfoldable pub require_valid : Report → Integrity → Result (Unit {0})
unfolding raise_first
require_valid report valid = ok tt
require_valid report _ = raise_first (first_failure report.checks)

-- `INSERT OR IGNORE INTO bundles`
unfoldable pub insert_bundle : BundleRow → List BundleRow → List BundleRow
insert_bundle row rows = if any (is_bundle row.tenant row.hash) rows then rows else rows ++ row ∷ []

-- `INSERT INTO heads … ON CONFLICT(tenant,proposal) DO UPDATE`, which leaves `quarantined` alone
unfoldable pub upsert_head : HeadRow → List HeadRow → List HeadRow
upsert_head row [] = row ∷ []
upsert_head row (h ∷ hs) =
    let rest = upsert_head row hs in
    if is_head row.tenant row.proposal h
    then (record h {
      head_seq = row.head_seq;
      head_hash = row.head_hash;
      bundle_hash = row.bundle_hash;
    })
      ∷ hs
    else h ∷ rest

abbrev pub quarantine : HeadRow → HeadRow
quarantine h = record h { quarantined = true }

-- `head is not None and seq == head[0] and hh != head[1]`
abbrev pub is_equivocation : Proof → Option HeadRow → Bool
is_equivocation p none = Bool.false
is_equivocation p (some h) =
    p.checkpoint.body.head_seq == h.head_seq && not (p.checkpoint.body.head_hash == h.head_hash)

-- `head is None or (seq > head[0] and not quarantined)`
abbrev pub advances : Proof → Option HeadRow → Bool
advances p none = true
advances p (some h) = ltb h.head_seq p.checkpoint.body.head_seq && not h.quarantined

-- the checkpoint of the bundle that the head names
abbrev pub left_checkpoint : Option BundleRow → Option Checkpoint
left_checkpoint none = none
left_checkpoint (some row) = some row.body.checkpoint

-- What the transaction of `put_proof` ends with: a response, or the error that is raised after it.
pub data Outcome : Type 0 where
  answered : ProofAnswer → Outcome
  to_raise : Outcome

abbrev pub bundle_row : Digests → (tenant now : ℕ) → Proof → BundleRow
bundle_row d tenant now p = record {
  tenant = tenant;
  hash = d.hash_bundle p;
  proposal = p.checkpoint.body.proposal_id;
  head_seq = p.checkpoint.body.head_seq;
  head_hash = p.checkpoint.body.head_hash;
  body = p;
  registered_ms = now;
}

abbrev pub head_row : Digests → (tenant : ℕ) → Proof → HeadRow
head_row d tenant p = record {
  tenant = tenant;
  proposal = p.checkpoint.body.proposal_id;
  head_seq = p.checkpoint.body.head_seq;
  head_hash = p.checkpoint.body.head_hash;
  bundle_hash = d.hash_bundle p;
  quarantined = Bool.false;
}

-- `cur[0]` and `cur[1]`: the row is there, since the branch before inserts it where it is not
unfoldable pub current : Digests → Proof → Option HeadRow → Result ProofAnswer
current d p none = err fault
current d p (some h) = ok (registered (d.hash_bundle p) h.head_seq h.head_hash)

module _ (d : Digests) (tenant principal : ℕ) (key : Option ℕ) (now : ℕ) (p : Proof) where
  unfoldable pub keep_answer : ProofAnswer → Method Db (Unit {0})
  keep_answer answer = modify (λ db. record db {
    proof_requests = with_request tenant principal key (d.hash_bundle p) answer db.proof_requests;
  })

  -- `if equivocation`
  unfoldable pub record_conflict : Option HeadRow → Method Db Outcome
  unfolding keep_answer
  record_conflict none = pure to_raise
  record_conflict (some head) = do
    let b = p.checkpoint.body
    stored ← gets (λ (db : Db). find_by (is_bundle tenant head.bundle_hash) db.bundles)
    modify (λ db. record db {
      conflicts =
          db.conflicts
          ++ (record {
            tenant = tenant;
            proposal = b.proposal_id;
            left_checkpoint = left_checkpoint stored;
            right_checkpoint = p.checkpoint;
          })
            ∷ [];
    })
    modify
        (λ db. record db { heads = update_by (is_head tenant b.proposal_id) quarantine db.heads })
    keep_answer (equivocated b.proposal_id b.head_seq)
    pure to_raise

  -- the `else` of `if equivocation`
  unfoldable pub advance_head : Option HeadRow → Method Db Outcome
  unfolding upsert_head current keep_answer
  advance_head head = do
    modify (λ db. record db {
      heads = if advances p head then upsert_head (head_row d tenant p) db.heads else db.heads;
    })
    cur ← gets (λ (db : Db). find_by (is_head tenant p.checkpoint.body.proposal_id) db.heads)
    answer ← lift (current d p cur)
    keep_answer answer
    pure (answered answer)

  -- the transaction, after the lookup of the request key
  unfoldable pub store_proof : Method Db Outcome
  unfolding insert_bundle record_conflict advance_head
  store_proof = do
    head ← gets (λ (db : Db). find_by (is_head tenant p.checkpoint.body.proposal_id) db.heads)
    modify (λ db. record db { bundles = insert_bundle (bundle_row d tenant now p) db.bundles })
    if is_equivocation p head then record_conflict head else advance_head head

  unfoldable pub proof_or_replay : Option ProofAnswer → Method Db Outcome
  unfolding store_proof
  proof_or_replay none = store_proof
  proof_or_replay (some answer) = pure (answered answer)

  -- the whole transaction of `put_proof`
  unfoldable pub proof_tx : Method Db Outcome
  unfolding proof_or_replay replayed
  proof_tx = tx do
    row ← gets (λ (db : Db). request_row tenant principal key db.proof_requests)
    earlier ← replayed (d.hash_bundle p) row
    proof_or_replay earlier

unfoldable pub outcome : Outcome → Result ProofAnswer
outcome (answered answer) = ok answer
outcome to_raise = err (vq equivocation)

module _ (d : Digests) (r : Registry) (tenant now : ℕ) (decoded : Result Proof) where
  -- `verify`
  unfoldable pub verify : Method Db Report
  unfolding rate trust_of
  verify = do
    rate tenant Route.verify_route r.verify_per_minute now
    t ← lift (trust_of tenant r.trust)
    report ← lift (verify_proof d decoded t)
    pure (record report { freshness = Freshness.offline_unchecked })

  -- `put_proof`. The validated proof is validated again by `verify_proof`.
  unfoldable pub put_proof : ℕ → Option ℕ → Method Db ProofAnswer
  unfolding rate trust_of require_valid proof_tx outcome
  put_proof principal key = do
    rate tenant Route.put_proof_route r.writes_per_minute now
    t ← lift (trust_of tenant r.trust)
    p ← lift decoded
    raise_if (not (p.action.tenant == tenant)) tenant_mismatch
    report ← lift (verify_proof d (ok p) t)
    lift (require_valid report report.integrity)
    result ← proof_tx d tenant principal key now p
    lift (outcome result)
