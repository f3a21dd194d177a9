-- ===== src/Verifier/Skipped.antt =====
-- The code of a check that was not run. `_checks` looks each name up with the default
-- `("NOT_RUN",)`, a tuple, which its branch for the string "NOT_RUN" does not catch. Only
-- `verify_proof` itself passes the string, for the step `trust` after a failed step `binding`. The
-- docstring of verifier.py gives all of these checks the code NOT_RUN.
use vekquorum.Prelude.{
  ◌≡◌, ◌⊎◌, sym, subst, true, false, List, [], ◌∷◌, arith, All, Result, ok, inl, inr,
}
use vekquorum.Errors.{Code}
use vekquorum.Wire.{Proof, Trust}
use vekquorum.Wire.Digests.{Digests}
use vekquorum.Verifier.Reports.{
  Report, Check, CheckCode, CheckId, schema, trust, signatures, chain, replay, quorum, not_run_code,
  not_run_tuple, failure, checks,
}
use vekquorum.Verifier.{verify_proof}
use vekquorum.Verifier.Forms.{stopped_at, verify_proof-HasForm}

-- the code of a check that was not run, after this check has failed
abbrev pub code_after : (failing skipped : CheckId) → CheckCode
code_after CheckId.binding trust = not_run_code
code_after _ _ = not_run_tuple

abbrev pub IsSkippedAfter : CheckId → Check → Type 0
IsSkippedAfter failing c = (c.passes ≡ false) × (c.code ≡ code_after failing c.id)

-- Checks that pass, then at most one that fails with an error code, then checks that were not run,
-- with the codes above.
abbrev pub HasSkipCodes : List Check → Type 0
HasSkipCodes [] = Unit
HasSkipCodes (c ∷ cs) =
    ((c.passes ≡ true) × HasSkipCodes cs)
    ⊎ ((c.passes ≡ false) × ((k : Code) × (c.code ≡ failure k)) × All (IsSkippedAfter c.id) cs)

stopped-HasSkipCodes : (id : CheckId) (c : Code) → HasSkipCodes (checks (stopped_at id c))
stopped-HasSkipCodes schema c = ground arith
stopped-HasSkipCodes CheckId.binding c = ground arith
stopped-HasSkipCodes trust c = ground arith
stopped-HasSkipCodes signatures c = ground arith
stopped-HasSkipCodes chain c = ground arith
stopped-HasSkipCodes replay c = ground arith
stopped-HasSkipCodes quorum c = ground arith

-- In every report, the checks after the one that fails were not run, and their code is the tuple
-- `("NOT_RUN",)`, but for the check `trust` after a failed `binding`, which has the string "NOT_RUN".
pub verify_proof-HasSkipCodes :
    (d : Digests) (decoded : Result Proof) (t : Trust) {rep : Report}
    → verify_proof d decoded t ≡ ok rep
    → HasSkipCodes rep.checks
verify_proof-HasSkipCodes d decoded t h = elim (verify_proof-HasForm d decoded t h) [
  | inl (id, c, e) ↦ subst HasSkipCodes (sym e) (stopped-HasSkipCodes id c)
  | inr e ↦ subst HasSkipCodes (sym e) (ground arith)
]
