-- ===== src/Registry/Tables.antt =====
-- The logical tables of registry.py. What is stored as the bytes `J(x)` and read back is `x`.
use vekquorum.Prelude.{ℕ, Bool, true, Option, List, [], ◌&&◌, ◌==◌}
use vekquorum.Wire.{Policy, Proof, Checkpoint, Trust}

pub record PolicyRow : Type 0 where
  pub tenant : ℕ
  pub hash : ℕ
  pub policy_id : ℕ
  pub version : ℕ
  pub body : Policy

pub record BundleRow : Type 0 where
  pub tenant : ℕ
  pub hash : ℕ
  pub proposal : ℕ
  pub head_seq : ℕ
  pub head_hash : ℕ
  pub body : Proof
  pub registered_ms : ℕ

-- Every row of `heads` that the code inserts has a bundle's hash.
pub record HeadRow : Type 0 where
  pub tenant : ℕ
  pub proposal : ℕ
  pub head_seq : ℕ
  pub head_hash : ℕ
  pub bundle_hash : ℕ
  pub quarantined : Bool

pub record ConflictRow : Type 0 where
  pub tenant : ℕ
  pub proposal : ℕ
  pub left_checkpoint : Option Checkpoint
  pub right_checkpoint : Checkpoint

pub data Route : Type 0 where
  verify_route put_policy_route put_proof_route : Route

abbrev pub route_eq : Route → Route → Bool
route_eq verify_route verify_route = true
route_eq put_policy_route put_policy_route = true
route_eq put_proof_route put_proof_route = true
route_eq _ _ = Bool.false

-- What `put_proof` answers: the registered head, or the stored error of an equivocation.
pub data ProofAnswer : Type 0 where
  registered : (bundle_hash head_seq head_hash : ℕ) → ProofAnswer
  equivocated : (proposal_id head_seq : ℕ) → ProofAnswer

pub record PolicyAnswer : Type 0 where
  pub policy_hash : ℕ
  pub registered : Bool

pub record RequestRow {ℓ} (A : Type ℓ) : Type ℓ where
  pub tenant : ℕ
  pub principal : ℕ
  pub key : ℕ
  pub body_hash : ℕ
  pub response : A

pub record Bucket : Type 0 where
  pub tenant : ℕ
  pub route : Route
  pub minute : ℕ
  pub count : ℕ

-- The table `requests` is one list for each value of its column `route`.
pub record Db : Type 0 where
  pub policies : List PolicyRow
  pub bundles : List BundleRow
  pub heads : List HeadRow
  pub conflicts : List ConflictRow
  pub policy_requests : List (RequestRow PolicyAnswer)
  pub proof_requests : List (RequestRow ProofAnswer)
  pub buckets : List Bucket

-- The attributes of a `LocalRegistry` besides its database, and the digest `H("request", p)`.
pub record Registry : Type 0 where
  pub trust : Option Trust
  pub verify_per_minute : ℕ
  pub writes_per_minute : ℕ
  pub hash_request : Policy → ℕ

abbrev pub empty : Db
empty = record {
  policies = [];
  bundles = [];
  heads = [];
  conflicts = [];
  policy_requests = [];
  proof_requests = [];
  buckets = [];
}

abbrev pub is_head : ℕ → ℕ → HeadRow → Bool
is_head tenant proposal r = r.tenant == tenant && r.proposal == proposal

abbrev pub is_bundle : ℕ → ℕ → BundleRow → Bool
is_bundle tenant hash r = r.tenant == tenant && r.hash == hash

abbrev pub is_policy : ℕ → ℕ → PolicyRow → Bool
is_policy tenant hash r = r.tenant == tenant && r.hash == hash

abbrev pub is_version : ℕ → ℕ → ℕ → PolicyRow → Bool
is_version tenant policy_id version r =
    r.tenant == tenant && r.policy_id == policy_id && r.version == version

abbrev pub is_bucket : ℕ → Route → ℕ → Bucket → Bool
is_bucket tenant route minute b = b.tenant == tenant && route_eq b.route route && b.minute == minute

abbrev pub is_request {ℓ} : {A : Type ℓ} → ℕ → ℕ → ℕ → RequestRow A → Bool
is_request tenant principal key r = r.tenant == tenant && r.principal == principal && r.key == key
