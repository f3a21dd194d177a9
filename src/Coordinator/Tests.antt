-- ===== src/Coordinator/Tests.antt =====
-- Runs of coordinator.py on a concrete state.
use vekquorum.Prelude.{ℕ, ◌+◌, refl, true, false, none, some, List, [], ◌∷◌, ok, err, vq}
use vekquorum.Errors.{Code}
use vekquorum.Demo.{toy, demo_policy, demo_action, demo_vote}
use vekquorum.Wire.{Capability, Decision, Environment, Status}
use vekquorum.Coordinator.Tables.{
  Config, Coordinator, Gate, Host, Meta, inspected, returned, unresolved,
}
use vekquorum.Coordinator.Quiet.{Same}
use vekquorum.Coordinator.Steps.{Call, run, run-Same}
use vekquorum.Coordinator.Atomic.{IsAtomic, calls-IsAtomic}
use vekquorum.Coordinator.Requests.{cancel}
use vekquorum.Coordinator.Once.{IsOnce}
use vekquorum.Coordinator.Commits.{Step, call, committed, run_steps, run_steps-IsOnce}

abbrev demo_config : Config
demo_config = record {
  digests = toy;
  tenant = 1;
  executor_id = 2;
  environment = Environment.test;
  audit_key_id = 51;
  audit_seed = 50;
  tools = 3 ∷ [];
  manifest = none;
  has_gate = true;
  has_inbox = false;
  system_principal = 0;
  ids = λ kind n. 100 + n;
  clock = λ n. 100 + n;
  canonical = λ a. a.proposal_id;
  hash_request = λ m r p. p;
  hash_partial = λ a b e v w k. 0;
  check_args = λ tool args. ok tt;
  result_code = λ code. 0;
}

abbrev empty_state : Coordinator
empty_state = record {
  db = record {
    last_logical_ms = 0;
    clean_shutdown = false;
    admin_stream = none;
    policies = [];
    authorities = [];
    proposals = [];
    votes = [];
    events = [];
    consumed = [];
    dispatches = [];
    deliveries = [];
    requests = [];
    evidence = [];
    checkpoints = [];
  };
  rate_propose = [];
  rate_submit = [];
  drawn = 0;
  readings = 0;
  calls = [];
}

abbrev demo_meta : ℕ → Meta
demo_meta key = record {
  caller = record {
    tenant = 1;
    principal_id = 7;
    capabilities =
        Capability.read ∷ Capability.propose ∷ Capability.submit ∷ Capability.commit
        ∷ Capability.escalate ∷ Capability.admin ∷ [];
  };
  idempotency_key = some key;
}

abbrev demo_host : Host
demo_host = record {
  gate = ok (Gate.allow 1);
  inspect = ok (inspected []);
  mutate_dispatch = λ a. a;
  dispatched = returned demo_action (
      ok (record { status = Status.succeeded; code = 0; output_hash = none; provider_ref = none }));
  lookup = ok unresolved;
  inbox = err (vq Code.unavailable);
}

abbrev ceremony : List Call
ceremony =
    Call.configured 0 demo_policy [] [] (demo_meta 1)
    ∷ Call.proposed demo_action demo_policy none (demo_meta 2)
    ∷ Call.submitted 5 1 (demo_vote 21 Decision.approve) (demo_meta 3)
    ∷ Call.submitted 5 2 (demo_vote 22 Decision.approve) (demo_meta 4)
    ∷ []

-- the commit is repeated under another key
abbrev twice : List Step
twice =
    call (Call.configured 0 demo_policy [] [] (demo_meta 1))
    ∷ call (Call.proposed demo_action demo_policy none (demo_meta 2))
    ∷ call (Call.submitted 5 1 (demo_vote 21 Decision.approve) (demo_meta 3))
    ∷ call (Call.submitted 5 2 (demo_vote 22 Decision.approve) (demo_meta 4))
    ∷ committed demo_host 5 4 1005 5000 (demo_meta 5)
    ∷ committed demo_host 5 6 1005 5000 (demo_meta 6)
    ∷ []

run-Same_example : Same empty_state (run demo_config ceremony empty_state)
run-Same_example = run-Same demo_config ceremony empty_state

run_steps-IsOnce_example : IsOnce demo_config (run_steps demo_config twice empty_state)
run_steps-IsOnce_example =
    run_steps-IsOnce demo_config twice empty_state
      (tt, (tt, (tt, (tt, ((λ a. refl), ((λ a. refl), tt)))))) (record { apart = tt; taken = tt })

calls-IsAtomic_example : IsAtomic (cancel demo_config 5 1 (demo_meta 7))
calls-IsAtomic_example = (calls-IsAtomic demo_config (demo_meta 7)).4 5 1
