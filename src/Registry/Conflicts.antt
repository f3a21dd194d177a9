-- ===== src/Registry/Conflicts.antt =====
-- `put_proof` of registry.py on a proof whose checkpoint contradicts the head, and on a repeated
-- request key.
use vekquorum.Prelude.{
  ℕ, ◌≡◌, refl, subst, ap, ◌∙◌, Bool, true, false, Option, none, some, List, [], ◌∷◌, find_by,
  Result, ok, err, if◌then◌else◌, arith,
}
use vekquorum.Wire.{Proof}
use vekquorum.Wire.Digests.{Digests}
use vekquorum.Stateful.{lift, pure, tx, settle, ◌>>=◌}
use vekquorum.Registry.Tables.{
  Db, HeadRow, ProofAnswer, RequestRow, equivocated, registered, is_head, is_request,
}
use vekquorum.Registry.Admission.{replayed, request_row, with_request}
use vekquorum.Registry.Proofs.{
  Outcome, answered, to_raise, is_equivocation, current, keep_answer, record_conflict, advance_head,
  store_proof, proof_or_replay, proof_tx, insert_bundle, bundle_row,
}

-- The answer that is stored for a request whose transaction ends with this outcome.
abbrev pub Answers : Proof → Outcome → ProofAnswer → Type 0
Answers p (answered b) a = b ≡ a
Answers p to_raise a = equivocated p.checkpoint.body.proposal_id p.checkpoint.body.head_seq ≡ a

ok-injective : {A : Type 0} {a b : A} → ◌≡◌ {A = Result A} (ok a) (ok b) → a ≡ b
ok-injective e = ground arith

-- the keys that find the row of a request
find-with_request :
    (tenant principal key hash : ℕ) (a : ProofAnswer) (rows : List (RequestRow ProofAnswer))
    → find_by (is_request tenant principal key) rows ≡ none
    → request_row tenant principal (some key) (with_request tenant principal (some key) hash a rows)
      ≡ some (record {
        tenant = tenant;
        principal = principal;
        key = key;
        body_hash = hash;
        response = a;
      })
find-with_request tenant principal key hash a [] e = ground arith
find-with_request tenant principal key hash a (q ∷ qs) e =
    ground (arith, find-with_request tenant principal key hash a qs)

module _ (d : Digests) (tenant principal key now : ℕ) (p : Proof) where
  abbrev here : HeadRow → Bool
  here = is_head tenant p.checkpoint.body.proposal_id

  -- What the transaction stores under the key.
  abbrev Kept : Outcome → Db → Db → Type 0
  Kept o before after =
      (a : ProofAnswer) × (after.proof_requests
        ≡ with_request tenant principal (some key) (d.hash_bundle p) a before.proof_requests)
      × Answers p o a

  advance_head-Kept :
      (head : Option HeadRow) (db : Db) (o : Outcome)
      → (advance_head d tenant principal (some key) now p head db).0 ≡ ok o
      → Kept o db (advance_head d tenant principal (some key) now p head db).1
  unfolding advance_head ◌>>=◌
  advance_head-Kept head db o = go _ _
    where
      go :
          (cur : Option HeadRow) (hs : List HeadRow)
          → let m = lift (current d p cur) >>= λ answer.
              keep_answer d tenant principal (some key) now p answer >>= λ _.
              pure (answered answer) in
            let (result, db') = m (record db { heads = hs }) in result ≡ ok o → Kept o db db'
      go none hs e = cc
      go (some h) hs e = (registered (d.hash_bundle p) h.head_seq h.head_hash, refl, ground arith)

  record_conflict-Kept :
      (h : HeadRow) (db : Db) (o : Outcome)
      → (record_conflict d tenant principal (some key) now p (some h) db).0 ≡ ok o
      → Kept o db (record_conflict d tenant principal (some key) now p (some h) db).1
  unfolding record_conflict ◌>>=◌
  record_conflict-Kept h db o e = (
    equivocated p.checkpoint.body.proposal_id p.checkpoint.body.head_seq,
    refl,
    subst (λ x. Answers p x (equivocated p.checkpoint.body.proposal_id p.checkpoint.body.head_seq))
        (ok-injective e) refl,
  )

  settle_head-Kept :
      (head : Option HeadRow) (db : Db) (o : Outcome) (b : Bool)
      → is_equivocation p head ≡ b
      → let m =
          if b
          then record_conflict d tenant principal (some key) now p head
          else advance_head d tenant principal (some key) now p head in
        let (result, db') = m db in result ≡ ok o → Kept o db db'
  settle_head-Kept none db o true b e = cc
  settle_head-Kept (some h) db o true b e = record_conflict-Kept h db o e
  settle_head-Kept head db o false b e = advance_head-Kept head db o e

  store_proof-Kept :
      (db : Db) (o : Outcome)
      → (store_proof d tenant principal (some key) now p db).0 ≡ ok o
      → Kept o db (store_proof d tenant principal (some key) now p db).1
  unfolding store_proof ◌>>=◌
  store_proof-Kept db o =
      let head = find_by here db.heads in
      settle_head-Kept head
        (record db { bundles = insert_bundle (bundle_row d tenant now p) db.bundles }) o
        (is_equivocation p head) refl

  abbrev row_in : Db → Option (RequestRow ProofAnswer)
  row_in db = request_row tenant principal (some key) db.proof_requests

  -- the transaction, where this row is found under the request key
  tx_of : Option (RequestRow ProofAnswer) → Db → Result Outcome × Db
  tx_of row db =
      let (result, db') =
        (replayed (d.hash_bundle p) row >>= λ earlier.
        proof_or_replay d tenant principal (some key) now p earlier)
          db in
      settle db result db'

  proof_tx-tx_of :
      (db : Db) (row : Option (RequestRow ProofAnswer))
      → row_in db ≡ row
      → proof_tx d tenant principal (some key) now p db ≡ tx_of row db
  unfolding tx_of proof_tx ◌>>=◌ tx
  proof_tx-tx_of db row e = ap (λ (q : Option (RequestRow ProofAnswer)). tx_of q db) e

  tx_of-some :
      (row : RequestRow ProofAnswer) (db : Db)
      → row.body_hash ≡ d.hash_bundle p
      → tx_of (some row) db ≡ (ok (answered row.response), db)
  unfolding tx_of ◌>>=◌ replayed proof_or_replay
  tx_of-some row db h = ground arith

  some-tx_of :
      (row : RequestRow ProofAnswer) (db : Db) (o : Outcome)
      → (tx_of (some row) db).0 ≡ ok o
      → (row.body_hash ≡ d.hash_bundle p) × (answered row.response ≡ o)
  unfolding tx_of ◌>>=◌ replayed proof_or_replay
  some-tx_of row db o e = ground arith

  settle-ok :
      (db : Db) (m : Result Outcome × Db) (o : Outcome)
      → (settle db m.0 m.1).0 ≡ ok o
      → ((settle db m.0 m.1).1 ≡ m.1) × (m.0 ≡ ok o)
  settle-ok db (ok a, s) o e = (refl, e)
  settle-ok db (err c, s) o e = cc

  none-tx_of : (db : Db) (o : Outcome) → (tx_of none db).0 ≡ ok o → Kept o db (tx_of none db).1
  unfolding tx_of ◌>>=◌ replayed proof_or_replay
  none-tx_of db o e =
      let (same, stored) = settle-ok db (store_proof d tenant principal (some key) now p db) o e in
      rw same (store_proof-Kept db o stored)

  Answers-answered : (a b : ProofAnswer) (o : Outcome) → answered a ≡ o → a ≡ b → Answers p o b
  Answers-answered a b (answered x) e f = ground arith
  Answers-answered a b to_raise e f = cc

  -- the transaction again, in the database that it has left
  repeat :
      (row : Option (RequestRow ProofAnswer)) (db : Db) (o : Outcome)
      → row_in db ≡ row
      → (tx_of row db).0 ≡ ok o
      → (a : ProofAnswer) × (proof_tx d tenant principal (some key) now p (tx_of row db).1
          ≡ (ok (answered a), (tx_of row db).1))
        × Answers p o a
  repeat none db o e f =
      let (a, kept, answers) = none-tx_of db o f in
      let found =
        ap (request_row tenant principal (some key)) kept
        ∙ find-with_request tenant principal key (d.hash_bundle p) a db.proof_requests e in
      (a, proof_tx-tx_of _ _ found ∙ tx_of-some _ _ refl, answers)
  repeat (some row) db o e f =
      let (same_body, same_answer) = some-tx_of row db o f in
      let ran = tx_of-some row db same_body in
      let same = ap (λ (m : Result Outcome × Db). m.1) ran in
      let found = ap row_in same ∙ e in
      (
        row.response,
        proof_tx-tx_of _ _ found ∙ tx_of-some row _ same_body,
        Answers-answered row.response row.response o same_answer refl,
      )

  -- If a transaction of `put_proof` under a request key returns, with a response or with the error
  -- of an equivocation to be raised, then the same request again returns a response and changes
  -- nothing. That response is the first one's, and after an equivocation it is the stored error.
  pub proof_tx-repeats :
      (db : Db) (o : Outcome)
      → (proof_tx d tenant principal (some key) now p db).0 ≡ ok o
      → let db' = (proof_tx d tenant principal (some key) now p db).1 in
        (a : ProofAnswer) × (proof_tx d tenant principal (some key) now p db'
          ≡ (ok (answered a), db'))
        × Answers p o a
  unfolding tx_of proof_tx ◌>>=◌ tx
  proof_tx-repeats db o e = repeat (row_in db) db o refl e
