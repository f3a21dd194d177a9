-- ===== src/Verifier/Binding.antt =====
-- Steps 2 and 3 of verifier.py: the parts of a proof belong together, and to the trust document.
use vekquorum.Prelude.{
  ℕ, Bool, true, false, Option, none, some, List, [], ◌∷◌, ◌==◌, ◌&&◌, option_eq, contains, Result,
  ok, err, vq, fault, raise_if, raise_unless, ◌>>◌,
}
use vekquorum.Errors.{hash_mismatch, untrusted}
use vekquorum.Wire.{
  Proof, Action, Enrichment, SignedVote, AuditEntry, Trust, TrustKey, environment_eq,
}
use vekquorum.Wire.Digests.{Digests}
use vekquorum.Schema

-- the enrichment is the one that the action names, or there is none in both
unfoldable pub binds_enrichment : Digests → Action → Option Enrichment → Bool
binds_enrichment d a none = option_eq a.enrichment_hash none
binds_enrichment d a (some e) = option_eq a.enrichment_hash (some (d.hash_enrichment e))

unfoldable pub bind_votes : ℕ → ℕ → List SignedVote → Result (Unit {0})
bind_votes action_hash policy_hash [] = ok tt
bind_votes action_hash policy_hash (v ∷ vs) =
    raise_unless (v.body.action_hash == action_hash && v.body.policy_hash == policy_hash)
      hash_mismatch
    >> bind_votes action_hash policy_hash vs

unfoldable pub bind_events : ℕ → ℕ → List AuditEntry → Result (Unit {0})
bind_events tenant proposal_id [] = ok tt
bind_events tenant proposal_id (e ∷ es) =
    raise_unless (e.body.tenant == tenant && option_eq e.body.proposal_id (some proposal_id))
      hash_mismatch
    >> bind_events tenant proposal_id es

-- `_binding`
unfoldable pub binding : Digests → Proof → Result (Unit {0})
unfolding binds_enrichment
binding d p = do
  let a = p.action
  raise_unless (d.hash_policy p.policy == a.policy_hash) hash_mismatch
  raise_unless (p.policy.tenant == a.tenant && p.authority.tenant == a.tenant) hash_mismatch
  raise_unless (p.policy.executor_id == a.executor_id && p.authority.executor_id == a.executor_id)
      hash_mismatch
  raise_unless (environment_eq p.policy.environment a.environment) hash_mismatch
  raise_unless (p.authority.policy_hash == a.policy_hash) hash_mismatch
  raise_unless (p.authority.epoch == a.authority_epoch) hash_mismatch
  raise_unless (binds_enrichment d a p.enrichment) hash_mismatch
  raise_unless (p.checkpoint.body.authority_epoch == p.authority.epoch) hash_mismatch
  raise_unless (p.checkpoint.body.tenant == a.tenant) hash_mismatch
  raise_unless (p.checkpoint.body.proposal_id == a.proposal_id) hash_mismatch
  bind_votes (d.hash_action a) a.policy_hash p.votes
  bind_events a.tenant a.proposal_id p.events

-- `except VQError: raise VQError("UNTRUSTED")`
abbrev pub or_untrusted : Result (Unit {0}) → Result (Unit {0})
or_untrusted (ok _) = ok tt
or_untrusted (err (vq _)) = err (vq untrusted)
or_untrusted (err fault) = err fault

abbrev is_empty : List TrustKey → Bool
is_empty [] = true
is_empty (_ ∷ _) = false

-- `_trust`
unfoldable pub trust : Digests → Proof → Trust → Result Trust
trust d p t = do
  or_untrusted (Schema.trust d t)
  let a = p.action
  raise_unless
      (t.tenant == a.tenant
        && t.executor_id == a.executor_id
        && environment_eq t.environment a.environment)
      untrusted
  raise_unless (contains a.policy_hash t.policy_hashes) untrusted
  or_untrusted (Schema.policy d p.policy)
  raise_if (is_empty t.audit_keys) untrusted
  ok t
