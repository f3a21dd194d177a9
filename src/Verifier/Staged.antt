-- ===== src/Verifier/Staged.antt =====
-- The list of checks in every report: all seven, in order, and nothing is run after a failure.
use vekquorum.Prelude.{
  ◌≡◌, ◌⊎◌, refl, sym, subst, true, false, List, [], ◌∷◌, arith, map, All, Result, ok, inl, inr,
}
use vekquorum.Errors.{Code}
use vekquorum.Wire.{Proof, Trust}
use vekquorum.Wire.Digests.{Digests}
use vekquorum.Verifier.Reports.{
  Report, Check, CheckId, schema, trust, signatures, chain, replay, quorum, check_order,
  not_run_code, not_run_tuple, ok_code, failure, checks,
}
use vekquorum.Verifier.{verify_proof}
use vekquorum.Verifier.Forms.{stopped_at, verify_proof-HasForm}

-- a check that was not run
abbrev pub IsSkipped : Check → Type 0
IsSkipped c = (c.passes ≡ false) × ((c.code ≡ not_run_code) ⊎ (c.code ≡ not_run_tuple))

-- Checks that pass, then at most one that fails with an error code, then checks not run.
abbrev pub IsStaged : List Check → Type 0
IsStaged [] = Unit
IsStaged (c ∷ cs) =
    ((c.passes ≡ true) × (c.code ≡ ok_code) × IsStaged cs)
    ⊎ ((c.passes ≡ false) × ((k : Code) × (c.code ≡ failure k)) × All IsSkipped cs)

abbrev ids : List Check → List CheckId
ids = map (λ (c : Check). c.id)

pub record IsOrdered (rep : Report) : Type 0 where
  pub complete : ids rep.checks ≡ check_order
  pub staged : IsStaged rep.checks

-- what `IsOrdered` says of the list
abbrev AreOrdered : List Check → Type 0
AreOrdered cs = (ids cs ≡ check_order) × IsStaged cs

stopped-AreOrdered : (id : CheckId) (c : Code) → AreOrdered (checks (stopped_at id c))
stopped-AreOrdered schema c = (refl, ground arith)
stopped-AreOrdered CheckId.binding c = (refl, ground arith)
stopped-AreOrdered trust c = (refl, ground arith)
stopped-AreOrdered signatures c = (refl, ground arith)
stopped-AreOrdered chain c = (refl, ground arith)
stopped-AreOrdered replay c = (refl, ground arith)
stopped-AreOrdered quorum c = (refl, ground arith)

-- Every report lists all seven checks in the order of `CHECK_ORDER`: some that pass, then at most
-- one that fails with an error code, then only checks that were not run.
pub verify_proof-IsOrdered :
    (d : Digests) (decoded : Result Proof) (t : Trust) {rep : Report}
    → verify_proof d decoded t ≡ ok rep
    → IsOrdered rep
verify_proof-IsOrdered d decoded t h = elim (verify_proof-HasForm d decoded t h) [
  | inl (id, c, e) ↦
      let (complete, staged) = subst AreOrdered (sym e) (stopped-AreOrdered id c) in
      record { complete = complete; staged = staged }
  | inr e ↦
      let (complete, staged) = subst AreOrdered (sym e) (refl, ground arith) in
      record { complete = complete; staged = staged }
]
