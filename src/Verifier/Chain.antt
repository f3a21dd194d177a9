-- ===== src/Verifier/Chain.antt =====
-- Step 5 of verifier.py: the events are one hash chain that ends in the checkpoint.
use vekquorum.Prelude.{
  ℕ, ◌+◌, Option, none, some, List, [], ◌∷◌, ◌==◌, ltb, option_eq, contains, last_or, Result, ok,
  err, vq, raise_if, raise_unless, ◌>>=◌, ◌>>◌, ◌&&◌,
}
use vekquorum.Errors.{missing_evidence, chain_break, checkpoint_mismatch}
use vekquorum.Wire.{Proof, AuditEntry, CheckpointBody}
use vekquorum.Wire.Digests.{Digests}

-- What the loop carries: the number that the next event has, the receipts seen, the hash and the
-- time of the event before. `prev_ms` begins at 0 in place of -1, since no time is below 0.
pub record Link : Type 0 where
  pub seq : ℕ
  pub seen_ids : List ℕ
  pub prev_hash : Option ℕ
  pub prev_ms : ℕ

-- One round of the loop.
unfoldable pub link : Digests → Link → AuditEntry → Result Link
link d l e = do
  let b = e.body
  raise_unless (b.seq == l.seq) missing_evidence
  raise_unless (e.hash == d.hash_event b) chain_break
  raise_unless (option_eq b.prev_hash l.prev_hash) chain_break
  raise_if (contains b.receipt_id l.seen_ids) chain_break
  raise_if (ltb b.at_ms l.prev_ms) chain_break
  ok (record {
    seq = l.seq + 1;
    seen_ids = b.receipt_id ∷ l.seen_ids;
    prev_hash = some e.hash;
    prev_ms = b.at_ms;
  })

unfoldable pub links : Digests → Link → List AuditEntry → Result Link
links d l [] = ok l
links d l (e ∷ es) = do l' ← link d l e; links d l' es

-- the state of the loop before the first event
abbrev pub first_link : Link
first_link = record { seq = 1; seen_ids = []; prev_hash = none; prev_ms = 0 }

unfoldable pub check_head : CheckpointBody → List AuditEntry → Result (Unit {0})
check_head cp [] = err (vq missing_evidence)
check_head cp (e ∷ es) =
    let head = last_or e es in
    raise_unless (cp.head_seq == head.body.seq && cp.head_hash == head.hash) checkpoint_mismatch

-- `_chain`
unfoldable pub chain : Digests → Proof → Result (Unit {0})
unfolding check_head
chain d p = do _ ← links d first_link p.events; check_head p.checkpoint.body p.events
