-- ===== src/Registry/Sound.antt =====
-- The bundles that registry.py stores: each of them has been verified under the pinned trust.
use vekquorum.Prelude.{
  ℕ, ◌≡◌, refl, ◌∙◌, Option-cases, true, false, Bool, Bool-cases, inl, inr, Option, none, some,
  List, [], ◌∷◌, ◌++◌, All, any, find_by, ok, if◌then◌else◌, arith,
}
use vekquorum.Wire.{Proof}
use vekquorum.Wire.Digests.{Digests}
use vekquorum.Stateful.Moves.{IsPreorder, Moves, moves}
use vekquorum.Registry.Tables.{BundleRow, Db, HeadRow, ProofAnswer, Registry, Route, is_bundle}
use vekquorum.Registry.Admission.{rate}
use vekquorum.Registry.Proofs.{
  bundle_row, insert_bundle, keep_answer, record_conflict, advance_head, store_proof,
}
use vekquorum.Registry.Reads.{get_proof}
use vekquorum.Registry.Frame.{Allows, IsVerified, after_all-R}
use vekquorum.Registry.Calls.{Call, after_all}

abbrev pub IsStored : Digests → Registry → BundleRow → Type 0
IsStored d r row = (d.hash_bundle row.body ≡ row.hash) × IsVerified d r row.tenant row.body

abbrev pub AllStored : Digests → Registry → List BundleRow → Type 0
AllStored d r = All (IsStored d r)

-- The invariant is kept.
abbrev KeepsBundles : Digests → Registry → Db → Db → Type 0
KeepsBundles d r db db' = AllStored d r db.bundles → AllStored d r db'.bundles

bundles_order : (d : Digests) (r : Registry) → IsPreorder (KeepsBundles d r)
bundles_order d r = record { stay = λ s h. h; join = λ s t u f g h. g (f h) }

All-concat {ℓ} :
    {A : Type ℓ} (P : A → Type 0) (x : A) (xs : List A) → All P xs → P x → All P (xs ++ x ∷ [])
All-concat P x [] h p = (p, tt)
All-concat P x (y ∷ ys) h p = (h.0, All-concat P x ys h.1 p)

insert_bundle-AllStored :
    (d : Digests) (r : Registry) (row : BundleRow) (rows : List BundleRow)
    → IsStored d r row
    → AllStored d r rows
    → AllStored d r (insert_bundle row rows)
unfolding insert_bundle
insert_bundle-AllStored d r row rows p h = go (any (is_bundle row.tenant row.hash) rows)
  where
    go : (b : Bool) → AllStored d r (if b then rows else rows ++ row ∷ [])
    go true = h
    go false = All-concat (IsStored d r) row rows h p

module _ (d : Digests) (r : Registry) where
  -- a step that leaves the bundles alone
  same_bundles : (bs : List BundleRow) → AllStored d r bs → AllStored d r bs
  same_bundles bs h = h

  rate-KeepsBundles :
      (tenant : ℕ) (route : Route) (limit now : ℕ)
      → Moves (KeepsBundles d r) (rate tenant route limit now)
  unfolding rate
  rate-KeepsBundles tenant route limit now = search (moves, bundles_order) depth 10

  module _ (tenant principal : ℕ) (key : Option ℕ) (now : ℕ) (p : Proof) where
    ruleset rules = (moves, bundles_order, same_bundles)

    keep_answer-KeepsBundles :
        (a : ProofAnswer) → Moves (KeepsBundles d r) (keep_answer d tenant principal key now p a)
    unfolding keep_answer
    keep_answer-KeepsBundles a = search (rules) depth 5

    record_conflict-KeepsBundles :
        (head : Option HeadRow)
        → Moves (KeepsBundles d r) (record_conflict d tenant principal key now p head)
    unfolding record_conflict
    record_conflict-KeepsBundles none = search (rules) depth 5
    record_conflict-KeepsBundles (some h) = search (rules, keep_answer-KeepsBundles) depth 10

    advance_head-KeepsBundles :
        (head : Option HeadRow)
        → Moves (KeepsBundles d r) (advance_head d tenant principal key now p head)
    unfolding advance_head
    advance_head-KeepsBundles head = search (rules, keep_answer-KeepsBundles) depth 10

    store_proof-KeepsBundles :
        IsVerified d r tenant p
        → Moves (KeepsBundles d r) (store_proof d tenant principal key now p)
    unfolding store_proof
    store_proof-KeepsBundles v =
        let insert : (db : Db)
            → KeepsBundles d r db
                (record db { bundles = insert_bundle (bundle_row d tenant now p) db.bundles }) =
          λ db h. insert_bundle-AllStored d r (bundle_row d tenant now p) db.bundles (refl, v) h in
        search
          (moves, bundles_order, insert, record_conflict-KeepsBundles, advance_head-KeepsBundles)
          depth 10

bundles_allows : (d : Digests) (r : Registry) → Allows d r (KeepsBundles d r)
bundles_allows d r = record {
  order = bundles_order d r;
  counting = λ tenant route limit now e. rate-KeepsBundles d r tenant route limit now;
  new_policies = λ db ps h. h;
  new_requests = λ db qs h. h;
  storing = store_proof-KeepsBundles d r;
}

find-AllStored :
    (d : Digests) (r : Registry) (tenant hash : ℕ) (rows : List BundleRow) (row : BundleRow)
    → AllStored d r rows
    → find_by (is_bundle tenant hash) rows ≡ some row
    → (d.hash_bundle row.body ≡ hash) × IsVerified d r tenant row.body
find-AllStored d r tenant hash [] row a e = cc
find-AllStored d r tenant hash (b ∷ bs) row a e = elim (Bool-cases (is_bundle tenant hash b)) [
  | inl here ↦
      let same : b ≡ row = ground arith in
      let same_tenant : b.tenant ≡ tenant = ground arith in
      let same_hash : b.hash ≡ hash = ground arith in
      rw (← same, ← same_tenant) ((a.0).0 ∙ same_hash, (a.0).1)
  | inr there ↦ find-AllStored d r tenant hash bs row a.1 (ground arith)
]

-- After any sequence of calls that starts with no bundle, whether they return or raise, a proof
-- that `get_proof` returns has the hash that was asked for, and the verifier reports its integrity
-- as VALID under the registry's trust, which is of the caller's tenant.
pub get_proof-IsVerified :
    (d : Digests) (r : Registry) (cs : List Call) (db : Db) (tenant hash : ℕ) (answer : ℕ × Proof)
    → db.bundles ≡ []
    → get_proof (after_all d r cs db) tenant hash ≡ ok answer
    → (answer.0 ≡ hash) × (d.hash_bundle answer.1 ≡ hash) × IsVerified d r tenant answer.1
unfolding get_proof
get_proof-IsVerified d r cs db tenant hash answer none_yet e =
    let all : AllStored d r (after_all d r cs db).bundles =
      after_all-R (KeepsBundles d r) (bundles_allows d r) cs db (rw none_yet tt) in
    elim (Option-cases (find_by (is_bundle tenant hash) (after_all d r cs db).bundles)) [
      | inl missing ↦ absurd (ground arith)
      | inr (row, found) ↦
          let same : answer ≡ (hash, row.body) = ground arith in
          let (hashed, verified) = find-AllStored d r tenant hash _ row all found in
          rw same (refl, hashed, verified)
    ]
