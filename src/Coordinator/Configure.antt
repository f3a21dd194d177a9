-- ===== src/Coordinator/Configure.antt =====
-- coordinator.py: `configure`, which installs a policy and the next authority epoch.
use vekquorum.Prelude.{
  ℕ, ◌+◌, max, Bool, false, Option, none, some, List, [], ◌∷◌, ◌++◌, map, ◌==◌, ◌&&◌, ◌||◌, not,
  contains, subset, intersects, filter_by, if◌then◌else◌,
}
use vekquorum.Errors.{epoch_conflict, policy_invalid, schema_invalid, tenant_mismatch, unknown_tool}
use vekquorum.Wire.{AuditEntry, Authority, Capability, EventData, Member, Policy, environment_eq}
use vekquorum.Schema.{is_sorted_unique}
use vekquorum.Coordinator.Tables.{
  AuthorityRow, Config, IdKind, Manifest, Meta, Method, PolicyRow, Response, configured,
  configure_request,
}
use vekquorum.Coordinator.Exec.{
  Exec, pure, gets, modify_db, raise_if, raise_unless, tx, ◌>>=◌, ◌>>◌,
}
use vekquorum.Coordinator.Rows.{
  authority_of, authorize, dedupe, draw, insert_event, logical_now, record_request, sign_entry,
}
use vekquorum.Coordinator.Bundles.{stream_events}

abbrev pub public_keys_of : List ℕ → List Member → List ℕ
public_keys_of revoked [] = []
public_keys_of revoked (m ∷ ms) =
    let rest = public_keys_of revoked ms in
    if contains m.key_id revoked then m.public_key ∷ rest else rest

-- `_revoked_public_keys`
unfoldable pub revoked_public_keys : List ℕ → List PolicyRow → List ℕ
revoked_public_keys revoked [] = []
revoked_public_keys revoked (row ∷ rows) =
    public_keys_of revoked row.policy.roster ++ revoked_public_keys revoked rows

abbrev pub fresh_stream : Config → Option ℕ → Exec ℕ
fresh_stream c (some stream) = pure stream
fresh_stream c none = do
  stream ← draw c IdKind.admin_stream
  modify_db (λ db. record db { admin_stream = some stream })
  pure stream

-- `_admin_stream`
unfoldable pub admin_stream : Config → Exec ℕ
admin_stream c = do stream ← gets (λ s. s.db.admin_stream); fresh_stream c stream

abbrev pub max_seq : List AuditEntry → ℕ
max_seq [] = 0
max_seq (e ∷ es) = max e.body.seq (max_seq es)

-- `_admin_seq`
unfoldable pub admin_seq : ℕ → Exec ℕ
admin_seq stream = gets (λ s. max_seq (stream_events stream s.db.events) + 1)

abbrev pub last_hash : List AuditEntry → Option ℕ
last_hash [] = none
last_hash (e ∷ []) = some e.hash
last_hash (e ∷ f ∷ es) = last_hash (f ∷ es)

-- `_admin_prev`
unfoldable pub admin_prev : ℕ → Exec (Option ℕ)
admin_prev stream = gets (λ s. last_hash (stream_events stream s.db.events))

-- an irreversible tool that the manifest names needs a human in the policy
abbrev pub lacks_human : Option Manifest → Policy → Bool
lacks_human none p = false
lacks_human (some m) p = m.irreversible && m.tool == p.tool && not p.require_human

abbrev pub epoch_of : Option Authority → ℕ
epoch_of none = 0
epoch_of (some a) = a.epoch

abbrev pub clashes_policy : ℕ → Policy → PolicyRow → Bool
clashes_policy hash p row =
    row.hash == hash || (row.policy.policy_id == p.policy_id && row.policy.version == p.version)

-- INSERT OR REPLACE INTO policies: the rows with the hash, or with the policy id and version, go
unfoldable pub insert_policy : ℕ → Policy → Exec (Unit {0})
insert_policy hash p = modify_db (λ db. record db {
  policies =
      filter_by (λ (row : PolicyRow). not (clashes_policy hash p row)) db.policies
      ++ (record { hash = hash; policy = p }) ∷ [];
})

-- INSERT OR REPLACE INTO authorities
unfoldable pub insert_authority : Config → Authority → Exec (Unit {0})
insert_authority c a = modify_db (λ db. record db {
  authorities =
      filter_by (λ (row : AuthorityRow). not (row.executor == c.executor_id)) db.authorities
      ++ (record { executor = c.executor_id; authority = a }) ∷ [];
})

-- the tests of a policy against the coordinator and the deployment
unfoldable pub check_scope : Config → Policy → List ℕ → List ℕ → Exec (Unit {0})
check_scope c p denied revoked = do
  raise_unless (p.tenant == c.tenant) tenant_mismatch
  raise_unless (p.executor_id == c.executor_id && environment_eq p.environment c.environment)
      policy_invalid
  raise_unless (contains p.tool c.tools) unknown_tool
  raise_if (lacks_human c.manifest p) policy_invalid
  raise_unless (is_sorted_unique denied) schema_invalid
  raise_unless (is_sorted_unique revoked) schema_invalid
  raise_if (intersects (map (λ (m : Member). m.key_id) p.roster) revoked) policy_invalid

-- a later authority revokes at least what the current one does, and no revoked public key returns
unfoldable pub check_revoked : Policy → List ℕ → Option Authority → Exec (Unit {0})
check_revoked p revoked none = pure tt
check_revoked p revoked (some current) = do
  raise_unless (subset current.revoked_keys revoked) policy_invalid
  policies ← gets (λ s. s.db.policies)
  raise_if
      (intersects (revoked_public_keys revoked policies)
        (map (λ (m : Member). m.public_key) p.roster))
      policy_invalid

abbrev pub authority_hash : Config → Option Authority → Option ℕ
authority_hash c none = none
authority_hash c (some a) = some (c.digests.hash_authority a)

-- the AuthorityChanged event of the administrative stream
unfoldable pub append_admin :
    Config → Authority → Option Authority → (actor now : ℕ) → Exec (Unit {0})
append_admin c authority previous actor now = do
  stream ← admin_stream c
  seq ← admin_seq stream
  receipt_id ← draw c IdKind.admin_receipt
  prev ← admin_prev stream
  insert_event (
      sign_entry c (record {
        tenant = c.tenant;
        stream_id = stream;
        receipt_id = receipt_id;
        seq = seq;
        prev_hash = prev;
        at_ms = now;
        proposal_id = none;
        actor_id = actor;
        event_data = EventData.authority_changed authority (authority_hash c previous);
      }))

-- the body of `configure` for a request that is new
unfoldable pub install :
    Config
    → (expected_epoch : ℕ) → Policy
    → (denied revoked : List ℕ) → Meta
    → (now : ℕ) → Exec Response
install c expected_epoch p denied revoked meta now = do
  check_scope c p denied revoked
  current ← authority_of c.executor_id
  raise_unless (expected_epoch == epoch_of current) epoch_conflict
  check_revoked p revoked current
  let hash = c.digests.hash_policy p
  let authority : Authority = record {
    tenant = c.tenant;
    executor_id = c.executor_id;
    epoch = epoch_of current + 1;
    policy_hash = hash;
    denied_tools = denied;
    revoked_keys = revoked;
    installed_ms = now;
  }
  insert_policy hash p
  insert_authority c authority
  append_admin c authority current meta.caller.principal_id now
  let response = configured authority hash
  record_request c Method.configure (configure_request expected_epoch p denied revoked) meta
      response
  pure response

abbrev pub or_install :
    Config → ℕ → Policy → List ℕ → List ℕ → Meta → ℕ → Option Response → Exec Response
or_install c expected_epoch p denied revoked meta now (some stored) = pure stored
or_install c expected_epoch p denied revoked meta now none =
    install c expected_epoch p denied revoked meta now

-- `configure`
unfoldable pub configure :
    Config → (expected_epoch : ℕ) → Policy → (denied revoked : List ℕ) → Meta → Exec Response
configure c expected_epoch p denied revoked meta = do
  authorize c meta.caller Capability.admin
  tx (do
    now ← logical_now c
    stored ← dedupe c Method.configure (configure_request expected_epoch p denied revoked) meta
    or_install c expected_epoch p denied revoked meta now stored)
