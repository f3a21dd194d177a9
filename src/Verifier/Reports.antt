-- ===== src/Verifier/Reports.antt =====
-- The result of a verification and its list of checks: `_result` and `_checks` of verifier.py.
use vekquorum.Prelude.{
  ℕ, Bool, true, false, Option, none, some, List, [], ◌∷◌, map, ◌==◌, if◌then◌else◌,
}
use vekquorum.Errors.{Code}

pub data Integrity : Type 0 where
  valid invalid incomplete : Integrity

pub data Authorization : Type 0 where
  satisfied not_satisfied not_assessed : Authorization

pub data Execution : Type 0 where
  not_started reported_success reported_failure unknown : Execution

pub data Freshness : Type 0 where
  offline_unchecked registry_observed : Freshness

pub data Consumption : Type 0 where
  issuer_attested not_attested : Consumption

pub data CheckId : Type 0 where
  schema binding trust signatures chain replay quorum : CheckId

-- `CHECK_ORDER`
abbrev pub check_order : List CheckId
check_order = schema ∷ binding ∷ trust ∷ signatures ∷ chain ∷ replay ∷ quorum ∷ []

abbrev pub check_index : CheckId → ℕ
check_index schema = 0
check_index binding = 1
check_index trust = 2
check_index signatures = 3
check_index chain = 4
check_index replay = 5
check_index quorum = 6

-- What a keyword argument of `_checks` holds: "ok", "NOT_RUN" or an error code.
pub data CheckState : Type 0 where
  passed not_run : CheckState
  failed : Code → CheckState

-- The `code` entry of a check. `not_run_tuple` is the one-element tuple `("NOT_RUN",)`, the
-- default of `kw.get`, which is neither of the strings that the branches compare with.
pub data CheckCode : Type 0 where
  ok_code not_run_code not_run_tuple : CheckCode
  failure : Code → CheckCode

pub record Check : Type 0 where
  pub id : CheckId
  pub passes : Bool
  pub code : CheckCode

abbrev pub Keywords : Type 0
Keywords = List (CheckId × CheckState)

-- `kw.get(name)`
abbrev pub keyword : CheckId → Keywords → Option CheckState
keyword id [] = none
keyword id ((name, state) ∷ kw) =
    if check_index name == check_index id then some state else keyword id kw

abbrev pub check_of : CheckId → Option CheckState → Check
check_of id none = record { id = id; passes = false; code = not_run_tuple }
check_of id (some passed) = record { id = id; passes = true; code = ok_code }
check_of id (some not_run) = record { id = id; passes = false; code = not_run_code }
check_of id (some (failed c)) = record { id = id; passes = false; code = failure c }

-- `_checks(**kw)`
abbrev pub checks : Keywords → List Check
checks kw = map (λ id. check_of id (keyword id kw)) check_order

pub record Report : Type 0 where
  pub integrity : Integrity
  pub authorization : Authorization
  pub execution : Execution
  pub freshness : Freshness
  pub consumption : Consumption
  pub checks : List Check
  pub bundle_hash : Option ℕ

-- The report of a proof that some check has stopped.
abbrev pub stopped : Integrity → Keywords → Option ℕ → Report
stopped integrity kw bundle_hash = record {
  integrity = integrity;
  authorization = not_assessed;
  execution = Execution.not_started;
  freshness = offline_unchecked;
  consumption = not_attested;
  checks = checks kw;
  bundle_hash = bundle_hash;
}
