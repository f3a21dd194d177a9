-- ===== src/Verifier/Passed.antt =====
-- Which steps have passed when `verify_proof` returns a report that assesses the authorization.
use vekquorum.Prelude.{
  ◌≡◌, ◌≢◌, refl, sym, ap, ◌∙◌, Bool, true, false, arith, set_of, ok, inl, inr, if◌then◌else◌,
}
use vekquorum.Prelude.Faultless.{attempt-cases}
use vekquorum.Wire.{Proof, Trust}
use vekquorum.Wire.Digests.{Digests}
use vekquorum.Lifecycle.{State}
use vekquorum.Verifier.Reports.{Report, satisfied, not_assessed}
use vekquorum.Verifier.Binding.{binding, trust}
use vekquorum.Verifier.Signatures.{signatures}
use vekquorum.Verifier.Chain.{chain}
use vekquorum.Verifier.Quorum.{meets, approving_keys}
use vekquorum.Verifier.Replay.{Progress, replay}
use vekquorum.Verifier.Authorized.{IsAuthorized, meets-IsAuthorized}
use vekquorum.Verifier.{after_replay, after_schema, verify_proof}

-- All the steps before the last have passed.
pub record Passed (d : Digests) (p : Proof) (rep : Report) : Type 0 where
  pub trusted : Trust
  pub final : Progress
  pub bound : binding d p ≡ ok tt
  pub signed : signatures d p trusted ≡ ok tt
  pub chained : chain d p ≡ ok tt
  pub replayed : replay d p ≡ ok final
  pub reported : after_replay d p final.state ≡ rep

ok_injective : {a b : Report} → ok a ≡ ok b → a ≡ b
ok_injective h = cc

still_unassessed :
    {r rep : Report}
    → ok r ≡ ok rep
    → r.authorization ≡ not_assessed
    → rep.authorization ≡ not_assessed
still_unassessed h q = sym (ap (λ (x : Report). x.authorization) (ok_injective h)) ∙ q

module _ (d : Digests) (p : Proof) {rep : Report}
    (assessed : rep.authorization ≢ not_assessed) where
  after_schema-Passed : (t : Trust) → after_schema d p t ≡ ok rep → Passed d p rep
  unfolding after_schema
  after_schema-Passed t h = elim (attempt-cases (binding d p) _ h) [
    | inr (c, _, q) ↦ absurd (assessed (still_unassessed q refl))
    | inl (_, b, h1) ↦ elim (attempt-cases (trust d p t) _ h1) [
      | inr (c, _, q) ↦ absurd (assessed (still_unassessed q refl))
      | inl (t', _, h2) ↦ elim (attempt-cases (signatures d p t') _ h2) [
        | inr (c, _, q) ↦ absurd (assessed (still_unassessed q refl))
        | inl (_, s, h3) ↦ elim (attempt-cases (chain d p) _ h3) [
          | inr (c, _, q) ↦ absurd (assessed (still_unassessed q refl))
          | inl (_, k, h4) ↦ elim (attempt-cases (replay d p) _ h4) [
            | inr (c, _, q) ↦ absurd (assessed (still_unassessed q refl))
            | inl (r, f, q) ↦ record {
              trusted = t';
              final = r;
              bound = b;
              signed = s;
              chained = k;
              replayed = f;
              reported = ok_injective q;
            }
          ]
        ]
      ]
    ]
  ]

  within_limit-Passed :
      (t : Trust) (b : Bool) (r : Report)
      → r.authorization ≡ not_assessed
      → (if b then ok r else after_schema d p t) ≡ ok rep
      → Passed d p rep
  within_limit-Passed t true r u h = absurd (assessed (still_unassessed h u))
  within_limit-Passed t false r u h = after_schema-Passed t h

-- A report that assesses the authorization comes from a proof that passes every check but perhaps
-- the last.
pub assessed-Passed :
    (d : Digests) (p : Proof) (t : Trust) {rep : Report}
    → verify_proof d (ok p) t ≡ ok rep
    → rep.authorization ≢ not_assessed
    → Passed d p rep
unfolding verify_proof
assessed-Passed d p t h assessed = within_limit-Passed d p assessed t _ _ refl h

satisfied_assessed : ¬ (satisfied ≡ not_assessed)
satisfied_assessed h = cc

satisfied_meets :
    (d : Digests) (p : Proof) (s : State)
    → (after_replay d p s).authorization ≡ satisfied
    → meets p.policy (set_of (approving_keys p.policy.roster p.votes)) ≡ true
unfolding after_replay
satisfied_meets d p s h = ground arith

-- If `verify_proof` reports a proof's authorization as SATISFIED, then at least as many distinct
-- principals as the policy's threshold have each a roster member whose retained approve vote names
-- this action's hash and this policy's hash and verifies under the member's public key, and one
-- such member is human where the policy requires it.
pub satisfied-IsAuthorized :
    (d : Digests) (p : Proof) (t : Trust) {rep : Report}
    → verify_proof d (ok p) t ≡ ok rep
    → rep.authorization ≡ satisfied
    → IsAuthorized d p
satisfied-IsAuthorized d p t {rep = rep} h s =
    let q = assessed-Passed d p t h (λ e. satisfied_assessed (sym s ∙ e)) in
    meets-IsAuthorized d p q.trusted q.bound q.signed
      (satisfied_meets d p q.final.state (ap (λ (x : Report). x.authorization) q.reported ∙ s))
