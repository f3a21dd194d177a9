-- ===== src/Verifier.antt =====
-- verifier.py (python/vekquorum/verifier.py): the ordered checks of a proof bundle. Each step is a
-- child; here they are composed. `attempt` is a `try` block with `except VQError`.
pub mod Reports
pub mod Binding
pub mod Signatures
pub mod Chain
pub mod Quorum
pub mod Replay
pub mod Runs
pub mod Enough
pub mod Votes
pub mod Accepted
pub mod Total
pub mod Returns
pub mod Tamper
pub mod Authorized
pub mod Passed
pub mod Attested
pub mod Forms
pub mod Staged
pub mod Skipped
pub mod Tests
use vekquorum.Prelude.{
  ℕ, Bool, true, false, Option, none, some, [], ◌∷◌, ◌++◌, ◌&&◌, ◌||◌, not, leb, ltb, length,
  set_of, Result, ok, Tried, done, caught, attempt, ◌>>=◌, if◌then◌else◌,
}
use vekquorum.Errors.{Code, schema_invalid, quorum_not_met}
use vekquorum.Wire.{Proof, Trust}
use vekquorum.Wire.Digests.{Digests}
use vekquorum.Schema.{max_proof_events}
use vekquorum.Lifecycle.{State, is_ready, is_consumed}
use Reports.{
  Report, Integrity, valid, invalid, incomplete, Authorization, satisfied, not_satisfied, Execution,
  not_started, reported_success, reported_failure, offline_unchecked, issuer_attested, not_attested,
  CheckId, CheckState, passed, not_run, failed, Keywords, schema, trust, signatures, chain, replay,
  quorum, checks, stopped,
}
use Binding
use Signatures
use Chain
use Quorum.{meets, approving_keys}
use Replay

abbrev is_missing : Code → Bool
is_missing Code.missing_evidence = true
is_missing _ = false

abbrev is_missing_or_mismatch : Code → Bool
is_missing_or_mismatch Code.missing_evidence = true
is_missing_or_mismatch Code.checkpoint_mismatch = true
is_missing_or_mismatch _ = false

abbrev incomplete_if : Bool → Integrity
incomplete_if true = incomplete
incomplete_if false = invalid

-- `_quorum`: whether the check passes, and whether the retained votes meet the policy
unfoldable pub quorum_check : Proof → State → Bool × Bool
quorum_check p state =
    let enough = meets p.policy (set_of (approving_keys p.policy.roster p.votes)) in
    if is_ready state || is_consumed state then (enough, enough) else (false, enough)

abbrev pub execution_of : State → Execution
execution_of State.succeeded = reported_success
execution_of State.failed = reported_failure
execution_of State.unknown = Execution.unknown
execution_of State.dispatching = Execution.unknown
execution_of _ = not_started

abbrev quorum_state : Bool → CheckState
quorum_state true = passed
quorum_state false = failed quorum_not_met

abbrev authorization_of : Bool → Authorization
authorization_of true = satisfied
authorization_of false = not_satisfied

-- the keyword arguments of the steps that have passed
abbrev pub through_trust : Keywords
through_trust = (schema, passed) ∷ (CheckId.binding, passed) ∷ (trust, passed) ∷ []

abbrev pub through_signatures : Keywords
through_signatures = through_trust ++ (signatures, passed) ∷ []

abbrev pub through_chain : Keywords
through_chain = through_signatures ++ (chain, passed) ∷ []

abbrev pub through_replay : Keywords
through_replay = through_chain ++ (replay, passed) ∷ []

-- step 7 and the final result
unfoldable pub after_replay : Digests → Proof → State → Report
unfolding quorum_check
after_replay d p state =
    let (quorum_ok, satisfied_at_commit) = quorum_check p state in
    record {
      integrity = valid;
      authorization =
          authorization_of ((is_ready state || is_consumed state) && satisfied_at_commit);
      execution = execution_of state;
      freshness = offline_unchecked;
      consumption = if is_consumed state then issuer_attested else not_attested;
      checks = checks (through_replay ++ (quorum, quorum_state quorum_ok) ∷ []);
      bundle_hash = some (d.hash_bundle p);
    }

-- step 6
unfoldable pub after_chain : Digests → Proof → Result Report
unfolding after_replay
after_chain d p = do
  tried ← attempt (Replay.replay d p)
  ok (elim tried [
    | done final ↦ after_replay d p final.state
    | caught c ↦
        stopped (incomplete_if (is_missing c)) (through_chain ++ (replay, failed c) ∷ [])
          (some (d.hash_bundle p))
  ])

-- step 5
unfoldable pub after_signatures : Digests → Proof → Result Report
unfolding after_chain
after_signatures d p = do
  tried ← attempt (Chain.chain d p)
  elim tried [
    | done _ ↦ after_chain d p
    | caught c ↦ ok (
        stopped (incomplete_if (is_missing_or_mismatch c))
          (through_signatures ++ (chain, failed c) ∷ []) (some (d.hash_bundle p)))
  ]

-- step 4
unfoldable pub after_trust : Digests → Proof → Trust → Result Report
unfolding after_signatures
after_trust d p t = do
  tried ← attempt (Signatures.signatures d p t)
  elim tried [
    | done _ ↦ after_signatures d p
    | caught c ↦ ok (
        stopped (incomplete_if (is_missing c)) (through_trust ++ (signatures, failed c) ∷ [])
          (some (d.hash_bundle p)))
  ]

-- step 3
unfoldable pub after_binding : Digests → Proof → Trust → Result Report
unfolding after_trust
after_binding d p t = do
  tried ← attempt (Binding.trust d p t)
  elim tried [
    | done trusted ↦ after_trust d p trusted
    | caught c ↦ ok (
        stopped invalid ((schema, passed) ∷ (CheckId.binding, passed) ∷ (trust, failed c) ∷ [])
          (some (d.hash_bundle p)))
  ]

-- step 2
unfoldable pub after_schema : Digests → Proof → Trust → Result Report
unfolding after_binding
after_schema d p t = do
  tried ← attempt (Binding.binding d p)
  elim tried [
    | done _ ↦ after_binding d p t
    | caught c ↦ ok (
        stopped invalid ((schema, passed) ∷ (CheckId.binding, failed c) ∷ (trust, not_run) ∷ [])
          (some (d.hash_bundle p)))
  ]

-- `verify_proof`. The first argument is what size limit, `parse_json` and `schema.proof` of step 1
-- come to; the trust document has the shape of one.
unfoldable pub verify_proof : Digests → Result Proof → Trust → Result Report
unfolding after_schema
verify_proof d decoded t = do
  tried ← attempt decoded
  elim tried [
    | done p ↦
        if ltb max_proof_events (length p.events)
        then ok (stopped invalid ((schema, failed schema_invalid) ∷ []) none)
        else after_schema d p t
    | caught c ↦ ok (stopped invalid ((schema, failed c) ∷ []) none)
  ]
