-- ===== src/Registry/Quarantine.antt =====
-- `put_proof` of registry.py on a proof whose checkpoint contradicts the head.
use vekquorum.Prelude.{
  ℕ, ◌≡◌, ◌≢◌, refl, Bool, true, false, Option, none, some, List, [], ◌∷◌, ◌++◌, find_by, ok,
  if◌then◌else◌, arith,
}
use vekquorum.Wire.{Proof}
use vekquorum.Wire.Digests.{Digests}
use vekquorum.Stateful.{lift, pure, ◌>>=◌}
use vekquorum.Registry.Tables.{Db, ConflictRow, HeadRow, is_head}
use vekquorum.Registry.Proofs.{
  answered, to_raise, is_equivocation, quarantine, current, keep_answer, record_conflict,
  advance_head, store_proof, insert_bundle, bundle_row,
}
use vekquorum.Registry.Forward.{find-quarantine}

module _ (d : Digests) (tenant principal : ℕ) (key : Option ℕ) (now : ℕ) (p : Proof) where
  abbrev pub here : HeadRow → Bool
  here = is_head tenant p.checkpoint.body.proposal_id

  -- The proof contradicts the head: the same sequence number with another hash.
  abbrev pub Contradicts : HeadRow → Type 0
  Contradicts h =
      (p.checkpoint.body.head_seq ≡ h.head_seq) × (p.checkpoint.body.head_hash ≢ h.head_hash)

  -- The conflict is recorded with the checkpoint of the proof, and the head is quarantined.
  abbrev pub IsQuarantined : HeadRow → Db → Db → Type 0
  IsQuarantined h db db' =
      (find_by here db'.heads ≡ some (quarantine h))
      × (row : ConflictRow) × (db'.conflicts ≡ db.conflicts ++ row ∷ [])
      × (row.right_checkpoint ≡ p.checkpoint)

  advance_head-ne :
      (head : Option HeadRow) (db : Db)
      → (advance_head d tenant principal key now p head db).0 ≢ ok to_raise
  unfolding advance_head ◌>>=◌
  advance_head-ne head db = go _ _
    where
      go :
          (cur : Option HeadRow) (hs : List HeadRow)
          → let m = lift (current d p cur) >>= λ answer.
              keep_answer d tenant principal key now p answer >>= λ _. pure (answered answer) in
            (m (record db { heads = hs })).0 ≢ ok to_raise
      go none hs e = cc
      go (some h) hs e = ground arith

  conflict :
      (h : HeadRow) (db : Db)
      → find_by here db.heads ≡ some h
      → let m = record_conflict d tenant principal key now p (some h) in
        ((m db).0 ≡ ok to_raise) × IsQuarantined h db (m db).1
  unfolding record_conflict ◌>>=◌
  conflict h db f = (
    refl,
    (
      ground (
        arith,
        find-quarantine tenant p.checkpoint.body.proposal_id db.heads tenant
            p.checkpoint.body.proposal_id {h = h} f,
      ),
      _,
      refl,
      refl,
    ),
  )

  settle_head :
      (head : Option HeadRow) (db : Db) (b : Bool)
      → find_by here db.heads ≡ head
      → is_equivocation p head ≡ b
      → let m =
          if b
          then record_conflict d tenant principal key now p head
          else advance_head d tenant principal key now p head in
        let (result, db') = m db in
        result ≡ ok to_raise
        → (h : HeadRow) × (head ≡ some h) × Contradicts h × IsQuarantined h db db'
  settle_head none db true f b e = cc
  settle_head (some h) db true f b e =
      (h, refl, (ground arith, λ same. ground arith), (conflict h db f).1)
  settle_head head db false f b e = absurd (advance_head-ne head db e)

  -- If the storing of a valid proof ends with an equivocation, then the proposal had a head with
  -- the proof's sequence number and another hash, that head is quarantined and otherwise
  -- unchanged, and one row with the proof's checkpoint is added to the recorded conflicts.
  pub store_proof-IsQuarantined :
      (db : Db)
      → (store_proof d tenant principal key now p db).0 ≡ ok to_raise
      → (h : HeadRow) × (find_by here db.heads ≡ some h)
        × Contradicts h
        × IsQuarantined h db (store_proof d tenant principal key now p db).1
  unfolding store_proof ◌>>=◌
  store_proof-IsQuarantined db e =
      let head = find_by here db.heads in
      settle_head head
        (record db { bundles = insert_bundle (bundle_row d tenant now p) db.bundles })
        (is_equivocation p head) refl refl e
