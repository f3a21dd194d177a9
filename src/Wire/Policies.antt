-- ===== src/Wire/Policies.antt =====
-- Rosters, policies, authorities and callers.
use Prim.Native.Nat.{ℕ}
use mathlib.Core.Bool.{Bool, true, false}
use mathlib.Core.List.{List}

pub data Environment : Type 0 where
  test live : Environment

abbrev pub environment_eq : Environment → Environment → Bool
environment_eq Environment.test Environment.test = true
environment_eq Environment.live Environment.live = true
environment_eq _ _ = false

pub data MemberKind : Type 0 where
  human agent : MemberKind

abbrev pub is_human : MemberKind → Bool
is_human MemberKind.human = true
is_human MemberKind.agent = false

pub record Member : Type 0 where
  pub key_id : ℕ
  pub principal_id : ℕ
  pub kind : MemberKind
  pub public_key : ℕ

pub record Policy : Type 0 where
  pub tenant : ℕ
  pub policy_id : ℕ
  pub version : ℕ
  pub executor_id : ℕ
  pub environment : Environment
  pub tool : ℕ
  pub threshold : ℕ
  pub roster : List Member
  pub require_human : Bool
  pub max_ttl_ms : ℕ
  pub enrichment_required : Bool

pub record Authority : Type 0 where
  pub tenant : ℕ
  pub executor_id : ℕ
  pub epoch : ℕ
  pub policy_hash : ℕ
  pub denied_tools : List ℕ
  pub revoked_keys : List ℕ
  pub installed_ms : ℕ

pub data Capability : Type 0 where
  read propose submit commit escalate admin : Capability

pub record Caller : Type 0 where
  pub tenant : ℕ
  pub principal_id : ℕ
  pub capabilities : List Capability
