-- ===== src/Verifier/Forms.antt =====
-- The checks of a report: where the verification stops, and with which code.
use vekquorum.Prelude.{
  ◌≡◌, ◌⊎◌, ap, sym, subst, Bool, true, false, List, [], ◌∷◌, ◌++◌, refl, Result, ok, inl, inr,
  if◌then◌else◌,
}
use vekquorum.Prelude.Faultless.{attempt-cases}
use vekquorum.Errors.{Code, schema_invalid, quorum_not_met}
use vekquorum.Wire.{Proof, Trust}
use vekquorum.Wire.Digests.{Digests}
use vekquorum.Lifecycle.{State}
use vekquorum.Verifier.Reports.{
  Report, Check, CheckId, schema, trust, signatures, chain, replay, quorum, Keywords, passed,
  not_run, failed, checks,
}
use vekquorum.Verifier.Binding
use vekquorum.Verifier.Signatures
use vekquorum.Verifier.Chain
use vekquorum.Verifier.Replay
use vekquorum.Verifier.{
  quorum_check, quorum_state, through_trust, through_signatures, through_chain, through_replay,
  after_replay, after_schema, verify_proof,
}

-- the keyword arguments of `_checks` where this check fails
abbrev pub stopped_at : CheckId → Code → Keywords
stopped_at schema c = (schema, failed c) ∷ []
stopped_at CheckId.binding c =
    (schema, passed) ∷ (CheckId.binding, failed c) ∷ (trust, not_run) ∷ []
stopped_at trust c = (schema, passed) ∷ (CheckId.binding, passed) ∷ (trust, failed c) ∷ []
stopped_at signatures c = through_trust ++ (signatures, failed c) ∷ []
stopped_at chain c = through_signatures ++ (chain, failed c) ∷ []
stopped_at replay c = through_chain ++ (replay, failed c) ∷ []
stopped_at quorum c = through_replay ++ (quorum, failed c) ∷ []

abbrev pub all_passed : Keywords
all_passed = through_replay ++ (quorum, passed) ∷ []

-- Some check fails, or none.
abbrev pub HasForm : List Check → Type 0
HasForm cs =
    ((id : CheckId) × (c : Code) × (cs ≡ checks (stopped_at id c))) ⊎ (cs ≡ checks all_passed)

stopped-HasForm :
    (id : CheckId) (c : Code) {r rep : Report}
    → ok r ≡ ok rep
    → r.checks ≡ checks (stopped_at id c)
    → HasForm rep.checks
stopped-HasForm id c {r} {rep} h e =
    let same : r ≡ rep = cc in
    inl (id, c, subst (λ (u : Report). u.checks ≡ checks (stopped_at id c)) same e)

last-HasForm :
    (b : Bool) (cs : List Check)
    → cs ≡ checks (through_replay ++ (quorum, quorum_state b) ∷ [])
    → HasForm cs
last-HasForm true cs e = inr e
last-HasForm false cs e = inl (quorum, quorum_not_met, e)

after_replay-HasForm :
    (d : Digests) (p : Proof) (s : State) {rep : Report}
    → ok (after_replay d p s) ≡ ok rep
    → HasForm rep.checks
unfolding after_replay
after_replay-HasForm d p s {rep} h =
    let same : after_replay d p s ≡ rep = cc in
    last-HasForm (quorum_check p s).0 rep.checks (ap (λ (u : Report). u.checks) (sym same))

module _ (d : Digests) (p : Proof) {rep : Report} where
  after_schema-HasForm : (t : Trust) → after_schema d p t ≡ ok rep → HasForm rep.checks
  unfolding after_schema
  after_schema-HasForm t h = elim (attempt-cases (Binding.binding d p) _ h) [
    | inr (c, _, q) ↦ stopped-HasForm CheckId.binding c q refl
    | inl (_, b, h1) ↦ elim (attempt-cases (Binding.trust d p t) _ h1) [
      | inr (c, _, q) ↦ stopped-HasForm trust c q refl
      | inl (t', _, h2) ↦ elim (attempt-cases (Signatures.signatures d p t') _ h2) [
        | inr (c, _, q) ↦ stopped-HasForm signatures c q refl
        | inl (_, s, h3) ↦ elim (attempt-cases (Chain.chain d p) _ h3) [
          | inr (c, _, q) ↦ stopped-HasForm chain c q refl
          | inl (_, k, h4) ↦ elim (attempt-cases (Replay.replay d p) _ h4) [
            | inr (c, _, q) ↦ stopped-HasForm replay c q refl
            | inl (r, f, q) ↦ after_replay-HasForm d p r.state q
          ]
        ]
      ]
    ]
  ]

  within_limit-HasForm :
      (t : Trust) (b : Bool) (r : Report)
      → r.checks ≡ checks (stopped_at schema schema_invalid)
      → (if b then ok r else after_schema d p t) ≡ ok rep
      → HasForm rep.checks
  within_limit-HasForm t true r e h = stopped-HasForm schema schema_invalid h e
  within_limit-HasForm t false r e h = after_schema-HasForm t h

pub verify_proof-HasForm :
    (d : Digests) (decoded : Result Proof) (t : Trust) {rep : Report}
    → verify_proof d decoded t ≡ ok rep
    → HasForm rep.checks
unfolding verify_proof
verify_proof-HasForm d decoded t h = elim (attempt-cases decoded _ h) [
  | inr (c, _, q) ↦ stopped-HasForm schema c q refl
  | inl (p, _, q) ↦ within_limit-HasForm d p t _ _ refl q
]
