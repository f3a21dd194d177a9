-- ===== src/Registry/Tests.antt =====
-- Runs of registry.py on the proof of a refund, and on a proof that contradicts it.
use vekquorum.Prelude.{ℕ, ◌≡◌, refl, false, none, some, List, [], ◌∷◌, ok, err, vq, find_by}
use vekquorum.Errors.{rate_limited}
use vekquorum.Wire.{Proof}
use vekquorum.Demo.{toy}
use vekquorum.Schema
use vekquorum.Stateful.{tx, ◌>>=◌}
use vekquorum.Verifier.Binding
use vekquorum.Verifier.Signatures
use vekquorum.Verifier.Binding.{binding}
use vekquorum.Verifier.Chain.{chain, links, link, check_head}
use vekquorum.Verifier.Quorum.{meets, approving_keys, principals_of, principals_in, has_human}
use vekquorum.Verifier.Replay.{replay}
use vekquorum.Verifier.{
  verify_proof, after_schema, after_binding, after_trust, after_signatures, after_chain,
  after_replay, quorum_check,
}
use vekquorum.Verifier.Tests.{refund, demo_trust}
use vekquorum.Registry.Tables.{Db, HeadRow, Registry, empty, ProofAnswer, is_head}
use vekquorum.Registry.Proofs.{answered, to_raise, proof_tx, put_proof, store_proof}
use vekquorum.Registry.Reads.{get_proof}
use vekquorum.Registry.Calls.{Call, proof_call, after_all}
use vekquorum.Registry.Frame.{IsVerified}
use vekquorum.Registry.Forward.{Advanced, after_all-advances}
use vekquorum.Registry.Within.{IsWithin, after_all-IsWithin}
use vekquorum.Registry.Sound.{get_proof-IsVerified}
use vekquorum.Registry.Quarantine.{Contradicts, IsQuarantined, here, store_proof-IsQuarantined}
use vekquorum.Registry.Conflicts.{Answers, proof_tx-repeats}

abbrev registry : Registry
registry = record {
  trust = some demo_trust;
  verify_per_minute = 60;
  writes_per_minute = 2;
  hash_request = λ p. 8000;
}

abbrev put : ℕ → Proof → Call
put key p = proof_call 1 31 (some key) 120000 (ok p)

abbrev put_twice : List Call
put_twice = put 1 refund ∷ put 2 refund ∷ []

abbrev after_put : Db
after_put = after_all toy registry put_twice empty

abbrev refund_head : HeadRow
refund_head = record {
  tenant = 1;
  proposal = 5;
  head_seq = 6;
  head_hash = 6006;
  bundle_hash = 7000;
  quarantined = false;
}

abbrev with_head : Db
with_head = record empty { heads = refund_head ∷ [] }

-- a proof of another log of the same length
abbrev forked : Proof
forked =
    let checkpoint = refund.checkpoint in
    let body = record checkpoint.body { head_hash = 6007 } in
    record refund { checkpoint = record checkpoint { body = body } }

-- the third request of a minute is refused
third_put :
    (put_proof toy registry 1 120000 (ok refund) 31 none after_put).0 ≡ err (vq rate_limited)
unfolding put_proof after_all ◌>>=◌ tx verify_proof binding Binding.bind_votes Binding.bind_events
    Binding.binds_enrichment Binding.trust Schema.trust Schema.trust_keys Schema.trust_key
    Schema.v_uint Schema.v_last Schema.policy Schema.members Schema.policy_invariants
    Signatures.signatures Signatures.check_votes Signatures.check_vote Signatures.check_trail
    Signatures.check_log Signatures.check_events Signatures.check_event chain links link check_head
    replay meets principals_of principals_in has_human approving_keys after_schema after_binding
    after_trust after_signatures after_chain after_replay quorum_check
third_put = refl

forked_stored : (store_proof toy 1 31 (some 3) 0 forked with_head).0 ≡ ok to_raise
unfolding store_proof ◌>>=◌
forked_stored = refl

forked_tx : (proof_tx toy 1 31 (some 3) 0 forked with_head).0 ≡ ok to_raise
unfolding proof_tx tx ◌>>=◌
forked_tx = refl

-- the bundle of the two requests is read back
refund_read : get_proof after_put 1 7000 ≡ ok (7000, refund)
unfolding get_proof put_proof after_all ◌>>=◌ tx verify_proof binding Binding.bind_votes
    Binding.bind_events Binding.binds_enrichment Binding.trust Schema.trust Schema.trust_keys
    Schema.trust_key Schema.v_uint Schema.v_last Schema.policy Schema.members
    Schema.policy_invariants Signatures.signatures Signatures.check_votes Signatures.check_vote
    Signatures.check_trail Signatures.check_log Signatures.check_events Signatures.check_event chain
    links link check_head replay meets principals_of principals_in has_human approving_keys
    after_schema after_binding after_trust after_signatures after_chain after_replay quorum_check
refund_read = refl

after_all-advances_example :
    (h : HeadRow) × (find_by (is_head 1 5) (after_all toy registry put_twice with_head).heads
      ≡ some h)
    × Advanced refund_head h
after_all-advances_example =
    after_all-advances toy registry put_twice with_head 1 5 refund_head refl

after_all-IsWithin_example : IsWithin registry after_put.buckets
after_all-IsWithin_example = after_all-IsWithin toy registry put_twice empty tt

get_proof-IsVerified_example :
    (◌≡◌ {A = ℕ} 7000 7000) × (toy.hash_bundle refund ≡ 7000) × IsVerified toy registry 1 refund
get_proof-IsVerified_example =
    get_proof-IsVerified toy registry put_twice empty 1 7000 (7000, refund) refl refund_read

store_proof-IsQuarantined_example :
    (h : HeadRow) × (find_by (here toy 1 31 (some 3) 0 forked) with_head.heads ≡ some h)
    × Contradicts toy 1 31 (some 3) 0 forked h
    × IsQuarantined toy 1 31
        (some 3)
        0
        forked
        h
        with_head
        (store_proof toy 1 31 (some 3) 0 forked with_head).1
store_proof-IsQuarantined_example =
    store_proof-IsQuarantined toy 1 31 (some 3) 0 forked with_head forked_stored

proof_tx-repeats_example :
    let db = (proof_tx toy 1 31 (some 3) 0 forked with_head).1 in
    (a : ProofAnswer) × (proof_tx toy 1 31 (some 3) 0 forked db ≡ (ok (answered a), db))
    × Answers forked to_raise a
proof_tx-repeats_example = proof_tx-repeats toy 1 31 3 0 forked with_head to_raise forked_tx
