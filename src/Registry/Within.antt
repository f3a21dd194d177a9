-- ===== src/Registry/Within.antt =====
-- The rate limits of registry.py: no count of a minute is above the limit of its route.
use vekquorum.Prelude.{
  ℕ, ◌≤◌, ◌/◌, ◌≡◌, refl, true, false, Bool, Option, none, some, List, [], ◌∷◌, All, leb, find_by,
  arith,
}
use vekquorum.Errors.{rate_limited}
use vekquorum.Wire.{Proof}
use vekquorum.Wire.Digests.{Digests}
use vekquorum.Stateful.{raise_if, modify, ◌>>=◌, ◌>>◌}
use vekquorum.Stateful.Moves.{IsPreorder, Moves, Moves-tx, moves}
use vekquorum.Registry.Tables.{
  Bucket, Db, HeadRow, ProofAnswer, Registry, Route, verify_route, put_policy_route,
  put_proof_route, is_bucket, route_eq,
}
use vekquorum.Registry.Admission.{rate, count_up, count_of}
use vekquorum.Registry.Proofs.{keep_answer, record_conflict, advance_head, store_proof}
use vekquorum.Registry.Frame.{Allows, after_all-R, limit_of}
use vekquorum.Registry.Calls.{Call, after_all}

abbrev pub IsWithin : Registry → List Bucket → Type 0
IsWithin r = All (λ (b : Bucket). b.count ≤ limit_of r b.route)

-- The invariant is kept.
abbrev Keeps : Registry → Db → Db → Type 0
Keeps r db db' = IsWithin r db.buckets → IsWithin r db'.buckets

preorder : (r : Registry) → IsPreorder (Keeps r)
preorder r = record { stay = λ s h. h; join = λ s t u f g h. g (f h) }

eq_of_route_eq : (a b : Route) → route_eq a b ≡ true → a ≡ b
eq_of_route_eq verify_route verify_route h = refl
eq_of_route_eq put_policy_route put_policy_route h = refl
eq_of_route_eq put_proof_route put_proof_route h = refl
eq_of_route_eq _ _ h = ground arith

count_up-IsWithin :
    (r : Registry) (tenant : ℕ) (route : Route) (minute : ℕ) (bs : List Bucket)
    → leb (limit_of r route) (count_of (find_by (is_bucket tenant route minute) bs)) ≡ false
    → IsWithin r bs
    → IsWithin r (count_up tenant route minute bs)
unfolding count_up
count_up-IsWithin r tenant route minute [] f h = (ground arith, tt)
count_up-IsWithin r tenant route minute (b ∷ bs) f h =
    ground (arith, count_up-IsWithin r tenant route minute bs, eq_of_route_eq b.route route)

count_if :
    (r : Registry) (tenant : ℕ) (route : Route) (minute limit : ℕ)
    → limit ≡ limit_of r route
    → (b : Bool) (db : Db)
    → leb limit (count_of (find_by (is_bucket tenant route minute) db.buckets)) ≡ b
    → Keeps r db
        ((raise_if b rate_limited
            >> modify (λ (s : Db). record s { buckets = count_up tenant route minute s.buckets }))
          db).1
unfolding raise_if ◌>>=◌
count_if r tenant route minute limit e true db f h = h
count_if r tenant route minute limit e false db f h =
    count_up-IsWithin r tenant route minute db.buckets (ground arith) h

module _ (r : Registry) where
  rate-Keeps :
      (tenant : ℕ) (route : Route) (limit now : ℕ)
      → limit ≡ limit_of r route
      → Moves (Keeps r) (rate tenant route limit now)
  unfolding rate ◌>>=◌
  rate-Keeps tenant route limit now e =
      Moves-tx (Keeps r) (preorder r) _
        (record { moved = λ db. count_if r tenant route (now / 60000) limit e _ db refl })

  -- a step that leaves the counts alone
  same_buckets : (bs : List Bucket) → IsWithin r bs → IsWithin r bs
  same_buckets bs h = h

  module _ (d : Digests) (tenant principal : ℕ) (key : Option ℕ) (now : ℕ) (p : Proof) where
    ruleset rules = (moves, preorder, same_buckets)

    keep_answer-Keeps :
        (a : ProofAnswer) → Moves (Keeps r) (keep_answer d tenant principal key now p a)
    unfolding keep_answer
    keep_answer-Keeps a = search (rules) depth 5

    record_conflict-Keeps :
        (head : Option HeadRow)
        → Moves (Keeps r) (record_conflict d tenant principal key now p head)
    unfolding record_conflict
    record_conflict-Keeps none = search (rules) depth 5
    record_conflict-Keeps (some h) = search (rules, keep_answer-Keeps) depth 10

    advance_head-Keeps :
        (head : Option HeadRow) → Moves (Keeps r) (advance_head d tenant principal key now p head)
    unfolding advance_head
    advance_head-Keeps head = search (rules, keep_answer-Keeps) depth 10

    store_proof-Keeps : Moves (Keeps r) (store_proof d tenant principal key now p)
    unfolding store_proof
    store_proof-Keeps = search (rules, record_conflict-Keeps, advance_head-Keeps) depth 10

within_allows : (d : Digests) (r : Registry) → Allows d r (Keeps r)
within_allows d r = record {
  order = preorder r;
  counting = rate-Keeps r;
  new_policies = λ db ps h. h;
  new_requests = λ db qs h. h;
  storing = λ tenant principal key now p v. store_proof-Keeps r d tenant principal key now p;
}

-- After any sequence of calls, whether they return or raise, no count of a tenant's calls of a
-- route in a minute is above the limit of the route, if none was at the start.
pub after_all-IsWithin :
    (d : Digests) (r : Registry) (cs : List Call) (db : Db)
    → IsWithin r db.buckets
    → IsWithin r (after_all d r cs db).buckets
after_all-IsWithin d r cs db = after_all-R (Keeps r) (within_allows d r) cs db
