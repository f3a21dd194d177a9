-- ===== src/Lib.antt =====
-- vekquorum: proofs about the vq/1 quorum protocol in Python (python/vekquorum).
--
-- A proposer asks for one action of a tool. The members of the policy's roster sign votes on the
-- digest of the action. When the approvals meet the policy, the coordinator consumes the operation
-- and hands the action to an executor once. Every step is an event of a log that is hashed,
-- chained and signed; the log, the votes and a signed checkpoint make a proof bundle, which the
-- verifier checks without the coordinator.
--
-- The parts and their files:
-- - Errors: the codes of python/vekquorum/errors.py, and (Catalog) their tables.
-- - Wire (Values, Policies, Actions, Events, Proofs): the records of python/vekquorum/schema.py as
--   its validators return them. Wire/Digests: what the code asks of hashing.py, canon.py and
--   ed25519.py, as a record of functions that the definitions take.
-- - Schema: `_policy_invariants`, `policy`, `trust` and `v_uint` of schema.py.
-- - Lifecycle: the states of a proposal, and (Moves) the state machine as a step relation.
-- - Verifier: python/vekquorum/verifier.py. `verify_proof` is composed in Verifier.antt from its
--   steps: Binding (`_binding`, `_trust`), Signatures, Chain, Replay, Quorum; Reports has `_result`
--   and `_checks`. The other children of Verifier hold proofs; Forms, which the proofs about the
--   checks of a report use, says where a verification stops.
-- - Coordinator: python/vekquorum/coordinator.py on the tables of python/vekquorum/store.py.
--   Tables has the rows and the state, Exec the methods that may raise and the transaction, Rows
--   and Votes the helpers of the class, Bundles the checkpoints and escalations; Configure,
--   Propose, Submit, Requests (`get`, `cancel`, `escalate`), Commit, Dispatching (`_dispatch` and
--   the recovery), Deliver and Reconcile (with `export_proof`) have a method each.
--   Its other children hold proofs: Quiet and below, the methods that hand out nothing; Consuming,
--   Once and Commits, what `commit` hands out; Steps, sequences of calls; Atomic, calls that raise.
-- - Registry: `LocalRegistry` of python/vekquorum/registry.py. Tables has its tables, Admission the
--   rate limits and the stored responses, Policies `put_policy`, Proofs `verify` and `put_proof`,
--   Reads the reads, Calls sequences of calls. Frame shows that a preorder on databases which the
--   transactions allow holds of every sequence of calls; Forward, Within and Sound use it for the
--   heads, the limits and the bundles. Quarantine and Conflicts are about equivocation.
-- - Adapters: python/vekquorum/adapters.py. Refund has `covenant_refund_args`, Simulator
--   `RefundSimulator` and `FixtureGate`, Inbox the inboxes; Ledger, Repeats, Guards, Intents, Effects,
--   Safety and Deliveries hold proofs.
-- - Text: `_Parser` of python/vekquorum/jsonparse.py under the wire profile (Chars, Numbers, Parser)
--   and `_ser` of python/vekquorum/canon.py (Printer), on code points. StringRound, NumberRound and
--   RoundTrip hold the proofs of reading back what is printed, Sound those of what the parser
--   returns, Canonical those of the order of members, Fuel the end of the loop of `string`.
-- - Api: `tally` and `sign_vote` of python/vekquorum/api.py. Counted holds proofs about what the
--   loop of `tally` counts, Signed about a vote that `sign_vote` returns.
-- - Stateful: the methods of the registry and the adapters, which change a state and may raise, and
--   (Moves) the rules for what holds between the states before and after.
-- - Demo: the data of the tests.
--
-- How the model corresponds to the code:
-- - A function that raises returns a Result: `ok`, `err (vq code)` for a `VQError`, `err fault` for
--   any other exception. The `details` of an error are left out.
-- - A method of the coordinator takes the state and returns a result and the state. `tx` is
--   `with self.store.tx()`: an exception puts the database back as it was, and nothing else.
--   The wall clock and the id source are functions of the number of readings made.
-- - Strings that are only compared and ordered (identifiers, hashes, keys, names) are numbers.
--   Python's sets are lists without repetitions; no result depends on their order.
-- - Integers of the code are at least 0 wherever the schema admits them, so they are natural
--   numbers; where the code subtracts times, the model compares sums, but for the cutoff of
--   `_rate_limit`, which stops at 0, and no time is below 0.
-- - What the gate, the adapter, the inbox and the provider answer in a call is an argument of the
--   method. A call of the adapter runs in a thread while the mutex is held; what it has come to
--   when the wait is over is an argument too, and the watching thread is a step of its own.
-- - Every loop of the code is over a list or over what is left of a bound, such as the depth of a
--   JSON text and the number of its members, but for two. The loop of `string` runs on fuel, one
--   more than the length of the text, which Text/Fuel shows to be enough. The digits of a number
--   are split off with the number itself as fuel, which Text/NumberRound shows to be enough.
-- - A payment's version is a text, which need not be a numeral: `str(int(version) + 1)` is a parameter
--   of the simulator with no value where it raises a ValueError.
-- - Python's `str.isdigit` and `int` on characters outside ASCII are a parameter, the record
--   Unicode; its agreement with ASCII is a hypothesis.
--
-- Not modelled: floats and the rfc8785 profile, the decoding and encoding of UTF-8, the shape
-- checks of schema.py (a request or a proof comes as the validators return it), SHA-256 and
-- Ed25519 (parameters), the file and the lock of the store, the readiness checks of a
-- coordinator's start, `hash_action` and `canonicalize` of api.py, the hooks `before_dispatch`
-- and `in_consume_tx` that tests set, a crash of the file inbox between the creation of a file
-- and the write, the command line, the display and the HTTP parts.
pub mod Prelude
pub mod Errors
pub mod Wire
pub mod Demo
pub mod Schema
pub mod Stateful
pub mod Lifecycle
pub mod Text
pub mod Verifier
pub mod Coordinator
pub mod Registry
pub mod Adapters
pub mod Api
