-- ===== src/Registry/Policies.antt =====
-- `put_policy` of registry.py.
use vekquorum.Prelude.{
  ℕ, Bool, Option, none, some, List, [], ◌∷◌, ◌++◌, ◌==◌, ◌||◌, not, any, contains, find_by, Result,
  if◌then◌else◌,
}
use vekquorum.Errors.{policy_version_conflict, tenant_mismatch, untrusted}
use vekquorum.Wire.{Policy, Trust}
use vekquorum.Wire.Digests.{Digests}
use vekquorum.Schema.{policy}
use vekquorum.Stateful.{Method, pure, lift, gets, modify, raise_if, tx, ◌>>=◌, ◌>>◌}
use vekquorum.Registry.Tables.{Db, PolicyAnswer, PolicyRow, Registry, is_policy, is_version}
use vekquorum.Registry.Admission.{replayed, request_row, with_request}

-- `clash is not None and clash[0] != ph`
abbrev pub clashes : ℕ → Option PolicyRow → Bool
clashes hash none = Bool.false
clashes hash (some row) = not (row.hash == hash)

-- `self.trust is not None and ph not in self.trust["policy_hashes"]`
abbrev pub is_barred : Registry → ℕ → Bool
is_barred r hash = barred r.trust
  where
    barred : Option Trust → Bool
    barred none = Bool.false
    barred (some t) = not (contains hash t.policy_hashes)

-- `INSERT OR IGNORE INTO policies`: a row that breaks a key is not inserted.
unfoldable pub insert_policy : PolicyRow → List PolicyRow → List PolicyRow
insert_policy row rows =
    if any (is_policy row.tenant row.hash) rows
      || any (is_version row.tenant row.policy_id row.version) rows
    then rows
    else rows ++ row ∷ []

module _ (d : Digests) (r : Registry) (tenant principal : ℕ) (key : Option ℕ) where
  -- from the lookup of a clash to the response
  unfoldable pub register_policy : Policy → Method Db PolicyAnswer
  unfolding insert_policy
  register_policy p = do
    let hash = d.hash_policy p
    clash ← gets (λ (db : Db). find_by (is_version tenant p.policy_id p.version) db.policies)
    raise_if (clashes hash clash) policy_version_conflict
    raise_if (is_barred r hash) untrusted
    existed ← gets (λ (db : Db). any (is_policy tenant hash) db.policies)
    modify (λ db. record db {
      policies =
          insert_policy
            (record {
              tenant = tenant;
              hash = hash;
              policy_id = p.policy_id;
              version = p.version;
              body = p;
            })
            db.policies;
    })
    let answer : PolicyAnswer = record { policy_hash = hash; registered = not existed }
    modify (λ db. record db {
      policy_requests =
          with_request tenant principal key (r.hash_request p) answer db.policy_requests;
    })
    pure answer

  unfoldable pub policy_or_replay : Policy → Option PolicyAnswer → Method Db PolicyAnswer
  unfolding register_policy
  policy_or_replay p none = register_policy p
  policy_or_replay p (some answer) = pure answer

  -- `put_policy`; the argument is the policy that the shape checks of the schema decode.
  unfoldable pub put_policy : Result Policy → Method Db PolicyAnswer
  unfolding policy_or_replay replayed
  put_policy decoded = do
    p ← lift decoded
    lift (policy d p)
    raise_if (not (p.tenant == tenant)) tenant_mismatch
    tx do
      row ← gets (λ (db : Db). request_row tenant principal key db.policy_requests)
      earlier ← replayed (r.hash_request p) row
      policy_or_replay p earlier
