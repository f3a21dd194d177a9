-- ===== src/Verifier/Attested.antt =====
-- Reports that attest a consumption, and the form of the list of checks.
use vekquorum.Prelude.{◌≡◌, ◌≢◌, sym, ap, ◌∙◌, true, ◌||◌, arith, set_of, ok}
use vekquorum.Wire.{Proof, Trust}
use vekquorum.Wire.Digests.{Digests}
use vekquorum.Lifecycle.{State, is_ready, is_consumed}
use vekquorum.Lifecycle.Moves.{commits, spent}
use vekquorum.Verifier.Reports.{Report, satisfied, not_assessed, issuer_attested}
use vekquorum.Verifier.Quorum.{meets, approving_keys}
use vekquorum.Verifier.Runs.{payloads, replay-commits}
use vekquorum.Verifier.Accepted.{replay-meets}
use vekquorum.Verifier.Passed.{assessed-Passed}
use vekquorum.Verifier.{after_replay, verify_proof}

attested_consumed :
    (d : Digests) (p : Proof) (s : State)
    → (after_replay d p s).consumption ≡ issuer_attested
    → is_consumed s ≡ true
unfolding after_replay
attested_consumed d p s h = ground arith

consumed_satisfied :
    (d : Digests) (p : Proof) (s : State)
    → is_consumed s ≡ true
    → meets p.policy (set_of (approving_keys p.policy.roster p.votes)) ≡ true
    → (after_replay d p s).authorization ≡ satisfied
unfolding after_replay
consumed_satisfied d p s c h = ground arith

spent_consumed : (s : State) → is_consumed s ≡ true → spent s ≡ 1
spent_consumed s h = rw h

consumed_quorum : (s : State) → is_consumed s ≡ true → (is_ready s || is_consumed s) ≡ true
consumed_quorum s h = ground arith

-- If `verify_proof` assesses the authorization and attests that the operation was consumed, it
-- reports the authorization as SATISFIED, and the proof holds exactly one CommitStarted event.
pub attested_once :
    (d : Digests) (p : Proof) (t : Trust) {rep : Report}
    → verify_proof d (ok p) t ≡ ok rep
    → rep.authorization ≢ not_assessed
    → rep.consumption ≡ issuer_attested
    → (rep.authorization ≡ satisfied) × (commits (payloads p.events) ≡ 1)
attested_once d p t {rep = rep} h assessed attested =
    let q = assessed-Passed d p t h assessed in
    let s = q.final.state in
    let c = attested_consumed d p s (ap (λ (x : Report). x.consumption) q.reported ∙ attested) in
    (
      sym (ap (λ (x : Report). x.authorization) q.reported)
          ∙ consumed_satisfied d p s c (replay-meets d p q.replayed (consumed_quorum s c)),
      replay-commits d p q.replayed ∙ spent_consumed s c,
    )
