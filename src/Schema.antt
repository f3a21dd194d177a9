-- ===== src/Schema.antt =====
-- The checks of schema.py that go beyond the shape of a record.
use vekquorum.Prelude.{
  ℕ, Bool, List, [], ◌∷◌, ◌&&◌, ◌==◌, not, none, some, map, any, length, leb, ltb, set_of, sorted,
  list_eq, Result, ok, raise_if, raise_unless, ◌>>◌, Option,
}
use vekquorum.Errors.{policy_invalid, number_profile, schema_invalid}
use vekquorum.Wire.{Member, Policy, Trust, TrustKey, is_human}
use vekquorum.Wire.Digests.{Digests}

abbrev pub safe_int_max : ℕ
safe_int_max = 9007199254740991

abbrev pub max_roster : ℕ
max_roster = 32

abbrev pub max_proof_events : ℕ
max_proof_events = 256

-- `v_uint` on a number that is not negative
unfoldable pub v_uint : ℕ → Result (Unit {0})
v_uint n = raise_if (ltb safe_int_max n) number_profile

-- `xs == sorted(set(xs))`
abbrev pub is_sorted_unique : List ℕ → Bool
is_sorted_unique xs = list_eq xs (sorted (set_of xs))

-- `len(set(xs)) == len(xs)`
abbrev pub is_unique : List ℕ → Bool
is_unique xs = length (set_of xs) == length xs

-- `_policy_invariants`
unfoldable pub policy_invariants : Digests → Policy → Result (Unit {0})
policy_invariants d p = do
  raise_unless (d.is_tool_name p.tool) policy_invalid
  let n = length p.roster
  raise_unless (leb 1 p.threshold && leb p.threshold n && leb n max_roster) policy_invalid
  let key_ids = map (λ (m : Member). m.key_id) p.roster
  raise_unless (list_eq key_ids (sorted key_ids)) policy_invalid
  raise_unless (is_unique key_ids) policy_invalid
  raise_unless (is_unique (map (λ (m : Member). m.principal_id) p.roster)) policy_invalid
  raise_unless (is_unique (map (λ (m : Member). m.public_key) p.roster)) policy_invalid
  raise_if (p.require_human && not (any (λ (m : Member). is_human m.kind) p.roster)) policy_invalid
  raise_unless (leb 1000 p.max_ttl_ms && leb p.max_ttl_ms 300000) policy_invalid
  raise_if (ltb p.version 1) policy_invalid

-- `member` on each element of a roster
unfoldable pub members : Digests → List Member → Result (Unit {0})
members d [] = ok tt
members d (m ∷ ms) = d.validate_enrollment_key m.public_key >> members d ms

unfoldable pub policy : Digests → Policy → Result (Unit {0})
unfolding v_uint policy_invariants members
policy d p = do
  v_uint p.version
  v_uint p.threshold
  members d p.roster
  v_uint p.max_ttl_ms
  policy_invariants d p

pub below_first : TrustKey → Option ℕ → Bool
below_first k none = Bool.false
below_first k (some last) = ltb last k.first_seq

-- `v_nullable(v_uint)`
unfoldable pub v_last : Option ℕ → Result (Unit {0})
v_last none = ok tt
v_last (some n) = v_uint n

unfoldable pub trust_key : Digests → TrustKey → Result (Unit {0})
unfolding below_first
trust_key d k = do
  v_uint k.first_seq
  v_last k.last_seq
  d.validate_enrollment_key k.public_key
  raise_if (below_first k k.last_seq) schema_invalid

unfoldable pub trust_keys : Digests → List TrustKey → Result (Unit {0})
trust_keys d [] = ok tt
trust_keys d (k ∷ ks) = trust_key d k >> trust_keys d ks

unfoldable pub trust : Digests → Trust → Result (Unit {0})
unfolding trust_keys
trust d t = do
  trust_keys d t.audit_keys
  raise_unless (is_sorted_unique t.policy_hashes) schema_invalid
  raise_unless (is_unique (map (λ (k : TrustKey). k.key_id) t.audit_keys)) schema_invalid
