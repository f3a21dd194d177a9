-- ===== src/Registry/Admission.antt =====
-- The rate limits and the stored responses of registry.py.
use vekquorum.Prelude.{
  ℕ, ◌+◌, ◌/◌, Option, none, some, List, [], ◌∷◌, ◌++◌, ◌==◌, find_by, leb, Result, ok, err, vq,
  if◌then◌else◌,
}
use vekquorum.Errors.{rate_limited, idempotency_conflict, untrusted}
use vekquorum.Wire.{Trust}
use vekquorum.Stateful.{Method, pure, raise, gets, modify, raise_if, tx, ◌>>=◌, ◌>>◌}
use vekquorum.Registry.Tables.{Bucket, Db, RequestRow, Route, is_bucket, is_request}

-- `INSERT … VALUES(?,?,?,1) ON CONFLICT DO UPDATE SET count=count+1`
unfoldable pub count_up : ℕ → Route → ℕ → List Bucket → List Bucket
count_up tenant route minute [] =
    (record { tenant = tenant; route = route; minute = minute; count = 1 }) ∷ []
count_up tenant route minute (b ∷ bs) =
    let rest = count_up tenant route minute bs in
    if is_bucket tenant route minute b then record b { count = b.count + 1 } ∷ bs else b ∷ rest

-- `row[0] if row else 0`
abbrev pub count_of : Option Bucket → ℕ
count_of none = 0
count_of (some b) = b.count

-- `_rate`
unfoldable pub rate : ℕ → Route → ℕ → ℕ → Method Db (Unit {0})
unfolding count_up
rate tenant route limit now =
    let minute = now / 60000 in
    tx do
      row ← gets (λ (db : Db). find_by (is_bucket tenant route minute) db.buckets)
      raise_if (leb limit (count_of row)) rate_limited
      modify (λ db. record db { buckets = count_up tenant route minute db.buckets })

-- `self.trust is None or self.trust["tenant"] != tenant`
unfoldable pub trust_of : ℕ → Option Trust → Result Trust
trust_of tenant none = err (vq untrusted)
trust_of tenant (some t) = if t.tenant == tenant then ok t else err (vq untrusted)

-- `if key is not None`: the response of an earlier request under the same key
unfoldable pub replayed {ℓ} : {A : Type ℓ} → ℕ → Option (RequestRow A) → Method Db (Option A)
replayed body_hash none = pure none
replayed body_hash (some row) =
    if row.body_hash == body_hash then pure (some row.response) else raise idempotency_conflict

abbrev pub request_row {ℓ} :
    {A : Type ℓ} → (tenant principal : ℕ) → Option ℕ → List (RequestRow A) → Option (RequestRow A)
request_row tenant principal none rows = none
request_row tenant principal (some key) rows = find_by (is_request tenant principal key) rows

-- `INSERT INTO requests` where the caller has given a key
abbrev pub with_request {ℓ} :
    {A : Type ℓ}
    → (tenant principal : ℕ) → Option ℕ
    → (body_hash : ℕ) → A
    → List (RequestRow A)
    → List (RequestRow A)
with_request tenant principal none body_hash response rows = rows
with_request tenant principal (some key) body_hash response rows =
    rows
    ++ (record {
      tenant = tenant;
      principal = principal;
      key = key;
      body_hash = body_hash;
      response = response;
    })
      ∷ []
