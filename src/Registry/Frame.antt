-- ===== src/Registry/Frame.antt =====
-- What every call of registry.py does to the database: a preorder on databases that allows the
-- writes of each transaction allows every call.
use vekquorum.Prelude.{ℕ, ◌≡◌, ◌≢◌, refl, Option, none, some, List, [], ◌∷◌, Result, ok, arith}
use vekquorum.Wire.{Policy, Proof, Trust}
use vekquorum.Wire.Digests.{Digests}
use vekquorum.Verifier.{verify_proof}
use vekquorum.Verifier.Reports.{CheckCode, Report, Integrity, failure, valid, invalid, incomplete}
use vekquorum.Stateful.{lift, ◌>>=◌}
use vekquorum.Stateful.Moves.{IsPreorder, Moves, Moves-bind, Moves-lift-bind, moves}
use vekquorum.Registry.Tables.{
  Db, PolicyAnswer, PolicyRow, ProofAnswer, Registry, RequestRow, Route, verify_route,
  put_policy_route, put_proof_route,
}
use vekquorum.Registry.Admission.{rate, replayed, trust_of}
use vekquorum.Registry.Policies.{put_policy, register_policy, policy_or_replay}
use vekquorum.Registry.Proofs.{
  first_failure, raise_first, require_valid, store_proof, proof_or_replay, proof_tx, put_proof,
  verify, outcome,
}
use vekquorum.Registry.Calls.{Call, verify_call, policy_call, proof_call, after, after_all}

-- The proof verifies under the registry's trust, which is of this tenant.
pub record IsVerified (d : Digests) (r : Registry) (tenant : ℕ) (p : Proof) : Type 0 where
  pub trusted : Trust
  pub pinned : r.trust ≡ some trusted
  pub same_tenant : trusted.tenant ≡ tenant
  pub report : Report
  pub verified : verify_proof d (ok p) trusted ≡ ok report
  pub is_valid : report.integrity ≡ valid

-- `put_policy` counts nothing.
abbrev pub limit_of : Registry → Route → ℕ
limit_of r verify_route = r.verify_per_minute
limit_of r put_policy_route = 0
limit_of r put_proof_route = r.writes_per_minute

-- The preorder allows what the transactions write.
pub record Allows (d : Digests) (r : Registry) (R : Db → Db → Type 0) : Type 0 where
  pub order : IsPreorder R
  pub counting :
      (tenant : ℕ) (route : Route) (limit now : ℕ)
      → limit ≡ limit_of r route
      → Moves R (rate tenant route limit now)
  pub new_policies : (db : Db) (ps : List PolicyRow) → R db (record db { policies = ps })
  pub new_requests :
      (db : Db) (qs : List (RequestRow PolicyAnswer)) → R db (record db { policy_requests = qs })
  pub storing :
      (tenant principal : ℕ) (key : Option ℕ) (now : ℕ) (p : Proof)
      → IsVerified d r tenant p
      → Moves R (store_proof d tenant principal key now p)

raise_first-ne-ok : (c : CheckCode) {u : Unit {0}} → raise_first c ≢ ok u
unfolding raise_first
raise_first-ne-ok (failure c) h = cc
raise_first-ne-ok _ h = cc

require_valid-valid :
    (report : Report) (i : Integrity) {u : Unit {0}} → require_valid report i ≡ ok u → i ≡ valid
unfolding require_valid
require_valid-valid report valid h = refl
require_valid-valid report invalid h = absurd (raise_first-ne-ok (first_failure report.checks) h)
require_valid-valid report incomplete h = absurd (raise_first-ne-ok (first_failure report.checks) h)

trust_of-eq-ok :
    (tenant : ℕ) (o : Option Trust) (t : Trust)
    → trust_of tenant o ≡ ok t
    → (o ≡ some t) × (t.tenant ≡ tenant)
unfolding trust_of
trust_of-eq-ok tenant none t h = cc
trust_of-eq-ok tenant (some u) t h = ground arith

module _ {d : Digests} {r : Registry} (R : Db → Db → Type 0) (a : Allows d r R) where
  order : IsPreorder R
  order = a.order

  new_policies : (db : Db) (ps : List PolicyRow) → R db (record db { policies = ps })
  new_policies = a.new_policies

  new_requests :
      (db : Db) (qs : List (RequestRow PolicyAnswer)) → R db (record db { policy_requests = qs })
  new_requests = a.new_requests

  replayed-Moves :
      {A : Type 0} (hash : ℕ) (row : Option (RequestRow A)) → Moves R (replayed hash row)
  unfolding replayed
  replayed-Moves hash none = search (moves, order) depth 5
  replayed-Moves hash (some row) = search (moves, order) depth 5

  module _ (tenant principal : ℕ) (key : Option ℕ) where
    register_policy-Moves : (p : Policy) → Moves R (register_policy d r tenant principal key p)
    unfolding register_policy
    register_policy-Moves p = search (moves, order, new_policies, new_requests) depth 20

    policy_or_replay-Moves :
        (p : Policy) (answer : Option PolicyAnswer)
        → Moves R (policy_or_replay d r tenant principal key p answer)
    unfolding policy_or_replay
    policy_or_replay-Moves p none = register_policy-Moves p
    policy_or_replay-Moves p (some answer) = search (moves, order) depth 5

    put_policy-Moves :
        (decoded : Result Policy) → Moves R (put_policy d r tenant principal key decoded)
    unfolding put_policy
    put_policy-Moves decoded =
        search (moves, order, replayed-Moves, policy_or_replay-Moves) depth 20

    proof_or_replay-Moves :
        (now : ℕ) (p : Proof)
        → IsVerified d r tenant p
        → (answer : Option ProofAnswer)
        → Moves R (proof_or_replay d tenant principal key now p answer)
    unfolding proof_or_replay
    proof_or_replay-Moves now p v none = a.storing tenant principal key now p v
    proof_or_replay-Moves now p v (some answer) = search (moves, order) depth 5

    proof_tx-Moves :
        (now : ℕ) (p : Proof)
        → IsVerified d r tenant p
        → Moves R (proof_tx d tenant principal key now p)
    unfolding proof_tx
    proof_tx-Moves now p v =
        search (moves, order, replayed-Moves, proof_or_replay-Moves now p v) depth 10

    verified_put-Moves :
        (now : ℕ) (p : Proof) (t : Trust) (report : Report)
        → r.trust ≡ some t
        → t.tenant ≡ tenant
        → verify_proof d (ok p) t ≡ ok report
        → Moves R (
            lift (require_valid report report.integrity) >>= λ _.
            proof_tx d tenant principal key now p >>= λ result. lift (outcome result))
    verified_put-Moves now p t report pinned same e = Moves-lift-bind R order _ _ λ u h.
        Moves-bind R order _ _
          (proof_tx-Moves now p (record {
            trusted = t;
            pinned = pinned;
            same_tenant = same;
            report = report;
            verified = e;
            is_valid = require_valid-valid report report.integrity h;
          }))
          (λ result. search (moves, order) depth 3)

    put_proof-Moves :
        (now : ℕ) (decoded : Result Proof)
        → Moves R (put_proof d r tenant now decoded principal key)
    unfolding put_proof
    put_proof-Moves now decoded =
        Moves-bind R order _ _ (a.counting tenant put_proof_route r.writes_per_minute now refl) λ _.
          Moves-lift-bind R order _ _ λ t e.
            let (pinned, same) = trust_of-eq-ok tenant r.trust t e in
            Moves-lift-bind R order _ _ λ p _.
              Moves-bind R order _ _ (search (moves, order) depth 3) λ _.
                Moves-lift-bind R order _ _
                  (λ report v. verified_put-Moves now p t report pinned same v)

  verify-Moves : (tenant now : ℕ) (decoded : Result Proof) → Moves R (verify d r tenant now decoded)
  unfolding verify
  verify-Moves tenant now decoded =
      Moves-bind R order _ _ (a.counting tenant verify_route r.verify_per_minute now refl)
        (λ _. search (moves, order) depth 20)

  after-R : (c : Call) (db : Db) → R db (after d r c db)
  unfolding after
  after-R (verify_call tenant now decoded) = (verify-Moves tenant now decoded).moved
  after-R (policy_call tenant principal key decoded) =
      (put_policy-Moves tenant principal key decoded).moved
  after-R (proof_call tenant principal key now decoded) =
      (put_proof-Moves tenant principal key now decoded).moved

  -- every sequence of calls
  pub after_all-R : (cs : List Call) (db : Db) → R db (after_all d r cs db)
  unfolding after_all
  after_all-R [] db = order.stay db
  after_all-R (c ∷ cs) db =
      order.join db (after d r c db) (after_all d r cs (after d r c db)) (after-R c db)
        (after_all-R cs (after d r c db))
