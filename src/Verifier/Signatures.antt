-- ===== src/Verifier/Signatures.antt =====
-- Step 4 of verifier.py: every vote, event and the checkpoint is signed by a key that may.
use vekquorum.Prelude.{
  ℕ, Bool, false, Option, none, some, List, [], ◌∷◌, map, ◌==◌, ◌||◌, ltb, length, set_of,
  find_first, find_last, Result, ok, err, vq, raise_if, raise_unless, or_raise, ◌>>=◌, ◌>>◌,
}
use vekquorum.Errors.{key_not_enrolled, missing_evidence, untrusted}
use vekquorum.Wire.{Proof, Member, SignedVote, AuditEntry, Trust, TrustKey, Checkpoint}
use vekquorum.Wire.Digests.{Digests}

-- `members.get(k)` for `members = {m["key_id"]: m for m in roster}`
abbrev pub member_of : List Member → ℕ → Option Member
member_of roster k = find_last (λ (m : Member). m.key_id) k roster

unfoldable pub check_vote : Digests → List Member → SignedVote → Result (Unit {0})
check_vote d roster v = do
  m ← or_raise (member_of roster v.body.key_id) key_not_enrolled
  d.ed_verify m.public_key v.signature (d.vote_message v.body)

unfoldable pub check_votes : Digests → List Member → List SignedVote → Result (Unit {0})
check_votes d roster [] = ok tt
check_votes d roster (v ∷ vs) = check_vote d roster v >> check_votes d roster vs

abbrev pub beyond_last : ℕ → Option ℕ → Bool
beyond_last seq none = false
beyond_last seq (some last) = ltb last seq

unfoldable pub check_event : Digests → TrustKey → AuditEntry → Result (Unit {0})
check_event d k e = do
  raise_if (ltb e.body.seq k.first_seq || beyond_last e.body.seq k.last_seq) untrusted
  d.ed_verify k.public_key e.signature (d.event_message e.body)

unfoldable pub check_events : Digests → TrustKey → List AuditEntry → Result (Unit {0})
check_events d k [] = ok tt
check_events d k (e ∷ es) = check_event d k e >> check_events d k es

-- The part of `_signatures` after the votes, where there are events.
unfoldable pub check_log :
    Digests → Trust → Checkpoint → AuditEntry → List AuditEntry → Result (Unit {0})
unfolding check_events
check_log d t cp e es = do
  let audit_ids = set_of (map (λ (x : AuditEntry). x.key_id) (e ∷ es))
  raise_unless (length audit_ids == 1) untrusted
  k ← or_raise (find_first (λ (x : TrustKey). x.key_id) e.key_id t.audit_keys) untrusted
  check_events d k (e ∷ es)
  raise_unless (cp.key_id == e.key_id) untrusted
  d.ed_verify k.public_key cp.signature (d.checkpoint_message cp.body)

unfoldable pub check_trail : Digests → Trust → Checkpoint → List AuditEntry → Result (Unit {0})
unfolding check_log
check_trail d t cp [] = err (vq missing_evidence)
check_trail d t cp (e ∷ es) = check_log d t cp e es

-- `_signatures`
unfoldable pub signatures : Digests → Proof → Trust → Result (Unit {0})
signatures d p t = check_votes d p.policy.roster p.votes >> check_trail d t p.checkpoint p.events
