-- ===== src/Verifier/Tests.antt =====
-- Runs of verifier.py on a concrete proof of a refund that two members approve, and on a proof of
-- an action that a member rejects.
use vekquorum.Prelude.{
  ℕ, ◌+◌, ◌≡◌, refl, true, none, some, List, [], ◌∷◌, ◌==◌, ok, err, vq, if◌then◌else◌, set_of,
  length, arith, false, map, ◌≢◌,
}
use vekquorum.Prelude.Faultless.{Returns}
use vekquorum.Errors.{malformed_json, hash_mismatch}
use vekquorum.Wire.{
  Environment, Decision, SignedVote, Status, ExecutionResult, EventData, vote_recorded,
  EscalationReason, AuditEntry, Proof, Trust,
}
use vekquorum.Wire.Digests.{RaisesOnlyVq}
use vekquorum.Lifecycle.{State}
use vekquorum.Lifecycle.Moves.{Run, commits}
use vekquorum.Verifier.Reports.{
  Report, satisfied, issuer_attested, Integrity, Execution, Freshness, CheckId, Check, check_order,
  ok_code, failure, not_run_code, not_run_tuple, stopped, passed, failed, not_run,
}
use vekquorum.Demo.{toy, demo_policy, demo_action, demo_vote}
use vekquorum.Schema
use vekquorum.Verifier.Binding
use vekquorum.Verifier.Signatures
use vekquorum.Verifier.Binding.{binding}
use vekquorum.Verifier.Chain.{chain, links, link, check_head}
use vekquorum.Verifier.Quorum.{meets, approving_keys, principals_of, principals_in, has_human}
use vekquorum.Verifier.Replay.{Progress, replay}
use vekquorum.Verifier.{
  verify_proof, after_schema, after_binding, after_trust, after_signatures, after_chain,
  after_replay, quorum_check,
}
use vekquorum.Verifier.Runs.{payloads, rest_of, replay-Run, replay-commits}
use vekquorum.Verifier.Accepted.{replay-meets, replay-rejected}
use vekquorum.Verifier.Returns.{verify_proof-Returns}
use vekquorum.Verifier.Tamper.{ApartAt, bodies, same_head_same_log}
use vekquorum.Verifier.Authorized.{IsAuthorized}
use vekquorum.Verifier.Passed.{satisfied-IsAuthorized}
use vekquorum.Verifier.Attested.{attested_once}
use vekquorum.Verifier.Staged.{IsOrdered, verify_proof-IsOrdered}
use vekquorum.Verifier.Skipped.{HasSkipCodes, verify_proof-HasSkipCodes}

-- event number `n` of the log, signed with the audit key 50
abbrev pub demo_event : ℕ → ℕ → EventData → AuditEntry
demo_event n at payload = record {
  body = record {
    tenant = 1;
    stream_id = 11;
    receipt_id = 60 + n;
    seq = n;
    prev_hash = if n == 1 then none else some (5999 + n);
    at_ms = at;
    proposal_id = some 5;
    actor_id = 7;
    event_data = payload;
  };
  hash = 6000 + n;
  key_id = 51;
  signature = 50 + (20 + n);
}

abbrev pub demo_result : ExecutionResult
demo_result = record {
  status = Status.succeeded;
  code = 0;
  output_hash = some 1;
  provider_ref = none;
}

abbrev pub demo_proof : List SignedVote → List AuditEntry → Proof
demo_proof cast log = record {
  action = demo_action;
  policy = demo_policy;
  authority = record {
    tenant = 1;
    executor_id = 2;
    epoch = 1;
    policy_hash = 2001;
    denied_tools = [];
    revoked_keys = [];
    installed_ms = 50;
  };
  enrichment = none;
  votes = cast;
  events = log;
  checkpoint = record {
    body = record {
      tenant = 1;
      proposal_id = 5;
      head_seq = length log;
      head_hash = 6000 + length log;
      observed_ms = 5000;
      authority_epoch = 1;
    };
    key_id = 51;
    signature = 50 + (30 + length log);
  };
}

abbrev pub refund : Proof
refund = demo_proof (demo_vote 21 Decision.approve ∷ demo_vote 22 Decision.approve ∷ []) (
    demo_event 1 100 (EventData.proposed 1005 2001 1)
    ∷ demo_event 2 200 (vote_recorded 5021 21 Decision.approve)
    ∷ demo_event 3 300 (vote_recorded 5022 22 Decision.approve)
    ∷ demo_event 4 300 (EventData.quorum_reached (21 ∷ 22 ∷ []) (31 ∷ 32 ∷ []))
    ∷ demo_event 5 400 (EventData.commit_started 3001 6 12 5400 1)
    ∷ demo_event 6 500 (EventData.execution_reported demo_result)
    ∷ [])

abbrev rejected_refund : Proof
rejected_refund = demo_proof (demo_vote 21 Decision.reject ∷ []) (
    demo_event 1 100 (EventData.proposed 1005 2001 1)
    ∷ demo_event 2 200 (vote_recorded 5021 21 Decision.reject)
    ∷ demo_event 3 200 (EventData.escalated EscalationReason.reject_vote 13)
    ∷ [])

abbrev pub demo_trust : Trust
demo_trust = record {
  tenant = 1;
  executor_id = 2;
  environment = Environment.test;
  policy_hashes = 2001 ∷ [];
  audit_keys = (record { key_id = 51; public_key = 50; first_seq = 1; last_seq = none }) ∷ [];
}

abbrev all_pass : List CheckId → List Check
all_pass = map (λ (i : CheckId). record { id = i; passes = true; code = ok_code })

abbrev refund_report : Report
refund_report = record {
  integrity = Integrity.valid;
  authorization = satisfied;
  execution = Execution.reported_success;
  freshness = Freshness.offline_unchecked;
  consumption = issuer_attested;
  checks = all_pass check_order;
  bundle_hash = some 7000;
}

-- where `_replay` of the refund ends
abbrev refund_end : Progress
refund_end = record {
  state = State.succeeded;
  recorded_keys = 22 ∷ 21 ∷ [];
  approved_keys = 22 ∷ 21 ∷ [];
  rejected = false;
  committed = true;
  seen_votes = 22 ∷ 21 ∷ [];
}

abbrev rejected_end : Progress
rejected_end = record {
  state = State.escalated_state;
  recorded_keys = 21 ∷ [];
  approved_keys = [];
  rejected = true;
  committed = false;
  seen_votes = 21 ∷ [];
}

-- the refund's proof with the signatures of its events taken away
abbrev unsigned : List AuditEntry → List AuditEntry
unsigned = map (λ (e : AuditEntry). record e { signature = 0 })

unsigned-ApartAt : (es : List AuditEntry) → ApartAt toy es (unsigned es)
unsigned-ApartAt [] = tt
unsigned-ApartAt (e ∷ es) = ((λ _. refl), unsigned-ApartAt es)

refund_verifies : verify_proof toy (ok refund) demo_trust ≡ ok refund_report
unfolding verify_proof binding Binding.bind_votes Binding.bind_events Binding.binds_enrichment
    Binding.trust Schema.trust Schema.trust_keys Schema.trust_key Schema.v_uint Schema.v_last
    Schema.policy Schema.members Schema.policy_invariants Signatures.signatures
    Signatures.check_votes Signatures.check_vote Signatures.check_trail Signatures.check_log
    Signatures.check_events Signatures.check_event chain links link check_head replay meets
    principals_of principals_in has_human approving_keys after_schema after_binding after_trust
    after_signatures after_chain after_replay quorum_check
refund_verifies = refl

refund_binds : binding toy refund ≡ ok tt
unfolding binding Binding.bind_votes Binding.bind_events
refund_binds = refl

refund_replays : replay toy refund ≡ ok refund_end
unfolding replay principals_of meets
refund_replays = refl

rejected_replays : replay toy rejected_refund ≡ ok rejected_end
unfolding replay principals_of meets
rejected_replays = refl

refund_chained : chain toy refund ≡ ok tt
unfolding chain links link
refund_chained = refl

unsigned_chained : chain toy (record refund { events = unsigned refund.events }) ≡ ok tt
unfolding chain links link
unsigned_chained = refl

-- a proof that is signed with another key fails
forged :
    verify_proof toy (ok (record refund { events = unsigned refund.events })) demo_trust
    ≢ ok refund_report
unfolding verify_proof binding Binding.bind_votes Binding.bind_events Binding.binds_enrichment
    Binding.trust Schema.trust Schema.trust_keys Schema.trust_key Schema.v_uint Schema.v_last
    Schema.policy Schema.members Schema.policy_invariants Signatures.signatures
    Signatures.check_votes Signatures.check_vote Signatures.check_trail Signatures.check_log
    Signatures.check_events Signatures.check_event chain links link check_head replay meets
    principals_of principals_in has_human approving_keys after_schema after_binding after_trust
    after_signatures after_chain after_replay quorum_check
forged h = cc

toy-RaisesOnlyVq : RaisesOnlyVq toy
toy-RaisesOnlyVq = record { of_verify = λ k s m. ground arith; of_enrollment = λ k. ground arith }

satisfied-IsAuthorized_example : IsAuthorized toy refund
satisfied-IsAuthorized_example =
    satisfied-IsAuthorized toy refund demo_trust {rep = refund_report} refund_verifies refl

attested_once_example :
    (refund_report.authorization ≡ satisfied) × (commits (payloads refund.events) ≡ 1)
attested_once_example =
    attested_once toy refund demo_trust {rep = refund_report} refund_verifies (λ e. cc) refl

same_head_same_log_example : bodies refund.events ≡ bodies (unsigned refund.events)
same_head_same_log_example =
    same_head_same_log toy refund (record refund { events = unsigned refund.events })
      (unsigned-ApartAt refund.events) refund_chained unsigned_chained refl refl

verify_proof-Returns_example : Returns (verify_proof toy (err (vq malformed_json)) demo_trust)
verify_proof-Returns_example =
    verify_proof-Returns toy toy-RaisesOnlyVq (err (vq malformed_json)) (ground arith) demo_trust

replay-Run_example : Run (payloads (rest_of refund.events)) State.open_state State.succeeded
replay-Run_example = replay-Run toy refund {r = refund_end} refund_replays

replay-commits_example : commits (payloads refund.events) ≡ 1
replay-commits_example = replay-commits toy refund {r = refund_end} refund_replays

replay-meets_example :
    meets demo_policy (set_of (approving_keys demo_policy.roster refund.votes)) ≡ true
replay-meets_example = replay-meets toy refund {r = refund_end} refund_replays refl

replay-rejected_example : rejected_end.state ≡ State.escalated_state
replay-rejected_example =
    replay-rejected toy rejected_refund {r = rejected_end} 21 rejected_replays refl refl

verify_proof-IsOrdered_example : IsOrdered refund_report
verify_proof-IsOrdered_example =
    verify_proof-IsOrdered toy (ok refund) demo_trust {rep = refund_report} refund_verifies

abbrev other_vote : SignedVote → SignedVote
other_vote v = record v { body = record v.body { action_hash = 1 } }

-- the refund with a vote on another action, which the step `binding` refuses
abbrev misbound : Proof
misbound = record refund { votes = other_vote (demo_vote 21 Decision.approve) ∷ [] }

abbrev misbound_report : Report
misbound_report =
    stopped Integrity.invalid
      ((CheckId.schema, passed)
        ∷ (CheckId.binding, failed hash_mismatch)
        ∷ (CheckId.trust, not_run)
        ∷ [])
      (some 7000)

misbound_fails : verify_proof toy (ok misbound) demo_trust ≡ ok misbound_report
unfolding verify_proof after_schema binding Binding.bind_votes Binding.binds_enrichment
misbound_fails = refl

verify_proof-HasSkipCodes_example : HasSkipCodes misbound_report.checks
verify_proof-HasSkipCodes_example =
    verify_proof-HasSkipCodes toy (ok misbound) demo_trust {rep = misbound_report} misbound_fails

-- the codes of that report
misbound_codes :
    map (λ (c : Check). c.code) misbound_report.checks
    ≡ ok_code
      ∷ failure hash_mismatch
      ∷ not_run_code
      ∷ not_run_tuple
      ∷ not_run_tuple
      ∷ not_run_tuple
      ∷ not_run_tuple
      ∷ []
misbound_codes = refl
