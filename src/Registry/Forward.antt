-- ===== src/Registry/Forward.antt =====
-- The heads of registry.py: they only move forward, and a quarantined head stays as it is.
use vekquorum.Prelude.{
  ℕ, ◌≤◌, ◌≡◌, refl, sym, ap, subst, ◌∙◌, Bool, true, false, Option, none, some, List, [], ◌∷◌,
  ◌==◌, ◌&&◌, inl, inr, find_by, update_by, Bool-cases, if◌then◌else◌, arith,
}
use vekquorum.Wire.{Proof}
use vekquorum.Wire.Digests.{Digests}
use vekquorum.Stateful.{modify, ◌>>=◌}
use vekquorum.Stateful.Moves.{IsPreorder, Moves, Moves-modify, bind-moved, moves}
use vekquorum.Registry.Tables.{Db, HeadRow, ProofAnswer, Registry, Route, is_head}
use vekquorum.Registry.Admission.{rate}
use vekquorum.Registry.Proofs.{
  advances, head_row, is_equivocation, quarantine, upsert_head, keep_answer, record_conflict,
  advance_head, store_proof, insert_bundle, bundle_row,
}
use vekquorum.Registry.Frame.{Allows, after_all-R}
use vekquorum.Registry.Calls.{Call, after_all}

-- The head of a proposal may be replaced by this one.
pub record Advanced (h h' : HeadRow) : Type 0 where
  pub no_less : h.head_seq ≤ h'.head_seq
  pub same : h.head_seq ≡ h'.head_seq → h.head_hash ≡ h'.head_hash
  pub frozen : h.quarantined ≡ true → h ≡ h'

-- Each head is still there, where it was or further.
abbrev pub Onward : List HeadRow → List HeadRow → Type 0
Onward hs hs' =
    (tenant proposal : ℕ) (h : HeadRow)
    → find_by (is_head tenant proposal) hs ≡ some h
    → (h' : HeadRow) × (find_by (is_head tenant proposal) hs' ≡ some h') × Advanced h h'

abbrev pub Forward : Db → Db → Type 0
Forward db db' = Onward db.heads db'.heads

Advanced-refl : (h : HeadRow) → Advanced h h
Advanced-refl h = record { no_less = omega arith; same = λ _. refl; frozen = λ _. refl }

Advanced-trans : (g h k : HeadRow) → Advanced g h → Advanced h k → Advanced g k
Advanced-trans g h k a b = record {
  no_less = omega (arith, a.no_less, b.no_less);
  same = λ e.
      a.same (omega (arith, a.no_less, b.no_less)) ∙ b.same (omega (arith, a.no_less, b.no_less));
  frozen = λ e. a.frozen e ∙ b.frozen (rw (← a.frozen e) e);
}

Onward-refl : (hs : List HeadRow) → Onward hs hs
Onward-refl hs tenant proposal h e = (h, e, Advanced-refl h)

preorder : IsPreorder Forward
preorder = record {
  stay = λ s. Onward-refl s.heads;
  join = λ s t u a b tenant proposal g e.
      let (h, e', g-h) = a tenant proposal g e in
      let (k, e'', h-k) = b tenant proposal h e' in (k, e'', Advanced-trans g h k g-h h-k);
}

find-upsert_head :
    (row : HeadRow) (hs : List HeadRow) (t q : ℕ) {h : HeadRow}
    → find_by (is_head t q) hs ≡ some h
    → find_by (is_head t q) (upsert_head row hs) ≡ (
        if is_head t q row
        then some (record h {
          head_seq = row.head_seq;
          head_hash = row.head_hash;
          bundle_hash = row.bundle_hash;
        })
        else some h)
unfolding upsert_head
find-upsert_head row [] t q e = cc
find-upsert_head row (g ∷ hs) t q {h} e = ground (arith, find-upsert_head row hs t q {h = h})

pub find-quarantine :
    (t' q' : ℕ) (hs : List HeadRow) (t q : ℕ) {h : HeadRow}
    → find_by (is_head t q) hs ≡ some h
    → find_by (is_head t q) (update_by (is_head t' q') quarantine hs)
      ≡ (if t' == t && q' == q then some (quarantine h) else some h)
find-quarantine t' q' [] t q e = cc
find-quarantine t' q' (g ∷ hs) t q {h} e = ground (arith, find-quarantine t' q' hs t q {h = h})

-- `UPDATE heads SET quarantined=1`
Onward-quarantine :
    (t' q' : ℕ) (hs : List HeadRow) → Onward hs (update_by (is_head t' q') quarantine hs)
Onward-quarantine t' q' hs t q h e = elim (Bool-cases (t' == t && q' == q)) [
  | inl b ↦ (
    quarantine h,
    ground (arith, find-quarantine t' q' hs t q {h = h} e),
    record {
      no_less = omega arith;
      same = λ _. refl;
      frozen = λ f. ap (λ (x : Bool). record h { quarantined = x }) f;
    },
  )
  | inr b ↦ (h, ground (arith, find-quarantine t' q' hs t q {h = h} e), Advanced-refl h)
]

Onward-if :
    (b : Bool) (hs hs' : List HeadRow)
    → (b ≡ true → Onward hs hs')
    → Onward hs (if b then hs' else hs)
Onward-if true hs hs' o = o refl
Onward-if false hs hs' o = Onward-refl hs

module _ (d : Digests) (tenant principal : ℕ) (key : Option ℕ) (now : ℕ) (p : Proof) where
  abbrev is_here : HeadRow → Bool
  is_here = is_head tenant p.checkpoint.body.proposal_id

  -- the head that the proof replaces
  new_head : HeadRow → HeadRow
  new_head h = record h {
    head_seq = p.checkpoint.body.head_seq;
    head_hash = p.checkpoint.body.head_hash;
    bundle_hash = d.hash_bundle p;
  }

  advances-Advanced : (h : HeadRow) → advances p (some h) ≡ true → Advanced h (new_head h)
  unfolding new_head
  advances-Advanced h a = record {
    no_less = ground arith;
    same = λ e. absurd (ground arith);
    frozen = λ e. absurd (ground arith);
  }

  -- a head that does not exist, or that the proof advances, is replaced by a later one
  Onward-upsert :
      (head : Option HeadRow) (hs : List HeadRow)
      → find_by is_here hs ≡ head
      → advances p head ≡ true
      → Onward hs (upsert_head (head_row d tenant p) hs)
  unfolding new_head
  Onward-upsert head hs f a t q h e =
      let row = head_row d tenant p in
      elim (Bool-cases (tenant == t && p.checkpoint.body.proposal_id == q)) [
        | inl b ↦
            let same_tenant : tenant ≡ t = ground arith in
            let same_proposal : p.checkpoint.body.proposal_id ≡ q = ground arith in
            let here : head ≡ some h = sym f ∙ rw (same_tenant, same_proposal) e in
            (
              new_head h,
              ground (arith, find-upsert_head row hs t q {h = h} e),
              advances-Advanced h (subst (λ x. advances p x ≡ true) here a),
            )
        | inr b ↦ (h, ground (arith, find-upsert_head row hs t q {h = h} e), Advanced-refl h)
      ]

  -- The rest of the transaction keeps the heads.
  keep_answer-Forward :
      (a : ProofAnswer) → Moves Forward (keep_answer d tenant principal key now p a)
  unfolding keep_answer
  keep_answer-Forward a = Moves-modify Forward preorder _ λ db. Onward-refl db.heads

  record_conflict-Forward :
      (head : Option HeadRow) → Moves Forward (record_conflict d tenant principal key now p head)
  unfolding record_conflict
  record_conflict-Forward none = search (moves, preorder) depth 5
  record_conflict-Forward (some h) =
      search (moves, preorder, keep_answer-Forward, Onward-refl, Onward-quarantine) depth 10

  -- from a database in which the head of the proof's proposal is `head`
  advance_head-Forward :
      (head : Option HeadRow) (db : Db)
      → find_by is_here db.heads ≡ head
      → Forward db (advance_head d tenant principal key now p head db).1
  unfolding advance_head modify
  advance_head-Forward head db f =
      bind-moved Forward preorder _ _ db
        (Onward-if (advances p head) _ _ (Onward-upsert head db.heads f))
        (λ u. search (moves, preorder, keep_answer-Forward) depth 10)

  settle_head-Forward :
      (b : Bool) (head : Option HeadRow) (db : Db)
      → find_by is_here db.heads ≡ head
      → let m =
          if b
          then record_conflict d tenant principal key now p head
          else advance_head d tenant principal key now p head in
        Forward db (m db).1
  settle_head-Forward true head db f = (record_conflict-Forward head).moved db
  settle_head-Forward false head db f = advance_head-Forward head db f

  store_proof-Forward : Moves Forward (store_proof d tenant principal key now p)
  unfolding store_proof ◌>>=◌
  store_proof-Forward = record {
    moved = λ db.
        let head = find_by is_here db.heads in
        settle_head-Forward (is_equivocation p head) head
          (record db { bundles = insert_bundle (bundle_row d tenant now p) db.bundles }) refl;
  }

rate-Forward :
    (tenant : ℕ) (route : Route) (limit now : ℕ) → Moves Forward (rate tenant route limit now)
unfolding rate
rate-Forward tenant route limit now = search (moves, preorder, Onward-refl) depth 10

-- The heads move on in every transaction.
allows : (d : Digests) (r : Registry) → Allows d r Forward
allows d r = record {
  order = preorder;
  counting = λ tenant route limit now e. rate-Forward tenant route limit now;
  new_policies = λ db ps. Onward-refl db.heads;
  new_requests = λ db qs. Onward-refl db.heads;
  storing = λ tenant principal key now p v. store_proof-Forward d tenant principal key now p;
}

module _ (d : Digests) (r : Registry) where
  -- After any sequence of calls, whether they return or raise, a proposal that had a head has one
  -- whose sequence number is no less; at the same number it has the same hash, and a quarantined
  -- head is the same as before.
  pub after_all-advances :
      (cs : List Call) (db : Db) (tenant proposal : ℕ) (h : HeadRow)
      → find_by (is_head tenant proposal) db.heads ≡ some h
      → (h' : HeadRow) × (find_by (is_head tenant proposal) (after_all d r cs db).heads ≡ some h')
        × Advanced h h'
  after_all-advances cs db = after_all-R Forward (allows d r) cs db
