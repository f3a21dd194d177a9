-- ===== src/Verifier/Total.antt =====
-- `verify_proof` always returns a report: no step raises anything but a `VQError`.
use vekquorum.Prelude.{ℕ, refl, Option, none, some, List, [], ◌∷◌, Result, ok, err, vq, fault}
use vekquorum.Prelude.Faultless.{
  NoFault, NoFault-ok, NoFault-vq, NoFault-bind, NoFault-raise_if, NoFault-raise_unless,
  no_fault_rules,
}
use vekquorum.Wire.{
  Proof, Member, SignedVote, AuditEntry, Trust, TrustKey, Checkpoint, CheckpointBody, Policy,
}
use vekquorum.Wire.Digests.{Digests, RaisesOnlyVq}
use vekquorum.Schema
use vekquorum.Verifier.Binding.{bind_votes, bind_events, binding, trust, or_untrusted}
use vekquorum.Verifier.Signatures.{
  check_vote, check_votes, check_event, check_events, check_trail, signatures,
}
use vekquorum.Verifier.Chain.{Link, link, links, check_head, chain}

bind_votes-NoFault : (a h : ℕ) (vs : List SignedVote) → NoFault (bind_votes a h vs)
unfolding bind_votes
bind_votes-NoFault a h [] = NoFault-ok tt
bind_votes-NoFault a h (v ∷ vs) =
    NoFault-bind _ _ (NoFault-raise_unless _ _) (λ _ _. bind_votes-NoFault a h vs)

bind_events-NoFault : (t h : ℕ) (es : List AuditEntry) → NoFault (bind_events t h es)
unfolding bind_events
bind_events-NoFault a h [] = NoFault-ok tt
bind_events-NoFault a h (v ∷ vs) =
    NoFault-bind _ _ (NoFault-raise_unless _ _) (λ _ _. bind_events-NoFault a h vs)

pub binding-NoFault : (d : Digests) (p : Proof) → NoFault (binding d p)
unfolding binding
binding-NoFault d p = search (no_fault_rules, bind_votes-NoFault, bind_events-NoFault) depth 40

or_untrusted-NoFault : (m : Result (Unit {0})) → NoFault m → NoFault (or_untrusted m)
or_untrusted-NoFault (ok _) h = NoFault-ok tt
or_untrusted-NoFault (err (vq c)) h = NoFault-vq _
or_untrusted-NoFault (err fault) h = absurd (h.never refl)

link-NoFault : (d : Digests) (l : Link) (e : AuditEntry) → NoFault (link d l e)
unfolding link
link-NoFault d l e = search no_fault_rules depth 20

links-NoFault : (d : Digests) (l : Link) (es : List AuditEntry) → NoFault (links d l es)
unfolding links
links-NoFault d l [] = NoFault-ok l
links-NoFault d l (e ∷ es) =
    NoFault-bind (link d l e) (λ l'. links d l' es) (link-NoFault d l e)
      (λ l' _. links-NoFault d l' es)

check_head-NoFault : (c : CheckpointBody) (es : List AuditEntry) → NoFault (check_head c es)
unfolding check_head
check_head-NoFault c [] = NoFault-vq _
check_head-NoFault c (e ∷ es) = NoFault-raise_unless _ _

pub chain-NoFault : (d : Digests) (p : Proof) → NoFault (chain d p)
unfolding chain
chain-NoFault d p = search (no_fault_rules, links-NoFault, check_head-NoFault)

module _ (d : Digests) (only : RaisesOnlyVq d) where
  verify-NoFault : (k s m : ℕ) → NoFault (d.ed_verify k s m)
  verify-NoFault k s m = record { never = only.of_verify k s m }

  enrollment-NoFault : (k : ℕ) → NoFault (d.validate_enrollment_key k)
  enrollment-NoFault k = record { never = only.of_enrollment k }

  members-NoFault : (ms : List Member) → NoFault (Schema.members d ms)
  unfolding Schema.members
  members-NoFault [] = NoFault-ok tt
  members-NoFault (m ∷ ms) = NoFault-bind _ _ (enrollment-NoFault _) (λ _ _. members-NoFault ms)

  policy-NoFault : (p : Policy) → NoFault (Schema.policy d p)
  unfolding Schema.policy
  policy-NoFault p = search (no_fault_rules, members-NoFault) depth 40

  v_last-NoFault : (o : Option ℕ) → NoFault (Schema.v_last o)
  unfolding Schema.v_last Schema.v_uint
  v_last-NoFault none = NoFault-ok tt
  v_last-NoFault (some n) = NoFault-raise_if _ _

  trust_key-NoFault : (k : TrustKey) → NoFault (Schema.trust_key d k)
  unfolding Schema.trust_key Schema.v_uint
  trust_key-NoFault k = search (no_fault_rules, v_last-NoFault, enrollment-NoFault) depth 20

  trust_keys-NoFault : (ks : List TrustKey) → NoFault (Schema.trust_keys d ks)
  unfolding Schema.trust_keys
  trust_keys-NoFault [] = NoFault-ok tt
  trust_keys-NoFault (k ∷ ks) =
      NoFault-bind (Schema.trust_key d k) _ (trust_key-NoFault k) (λ _ _. trust_keys-NoFault ks)

  schema_trust-NoFault : (t : Trust) → NoFault (Schema.trust d t)
  unfolding Schema.trust
  schema_trust-NoFault t = search (no_fault_rules, trust_keys-NoFault) depth 20

  pub trust-NoFault : (p : Proof) (t : Trust) → NoFault (trust d p t)
  unfolding trust
  trust-NoFault p t =
      search (no_fault_rules, or_untrusted-NoFault, schema_trust-NoFault, policy-NoFault) depth 20

  check_vote-NoFault : (roster : List Member) (v : SignedVote) → NoFault (check_vote d roster v)
  unfolding check_vote
  check_vote-NoFault roster v = search (no_fault_rules, verify-NoFault)

  check_votes-NoFault :
      (roster : List Member) (vs : List SignedVote) → NoFault (check_votes d roster vs)
  unfolding check_votes
  check_votes-NoFault roster [] = NoFault-ok tt
  check_votes-NoFault roster (v ∷ vs) =
      NoFault-bind _ _ (check_vote-NoFault roster v) (λ _ _. check_votes-NoFault roster vs)

  check_event-NoFault : (k : TrustKey) (e : AuditEntry) → NoFault (check_event d k e)
  unfolding check_event
  check_event-NoFault k e = search (no_fault_rules, verify-NoFault)

  check_events-NoFault : (k : TrustKey) (es : List AuditEntry) → NoFault (check_events d k es)
  unfolding check_events
  check_events-NoFault k [] = NoFault-ok tt
  check_events-NoFault k (e ∷ es) =
      NoFault-bind (check_event d k e) _ (check_event-NoFault k e)
        (λ _ _. check_events-NoFault k es)

  check_trail-NoFault :
      (t : Trust) (c : Checkpoint) (es : List AuditEntry) → NoFault (check_trail d t c es)
  unfolding check_trail
  check_trail-NoFault t c [] = NoFault-vq _
  check_trail-NoFault t c (e ∷ es) =
      search (no_fault_rules, verify-NoFault, check_events-NoFault) depth 20

  pub signatures-NoFault : (p : Proof) (t : Trust) → NoFault (signatures d p t)
  unfolding signatures
  signatures-NoFault p t = search (no_fault_rules, check_votes-NoFault, check_trail-NoFault)
