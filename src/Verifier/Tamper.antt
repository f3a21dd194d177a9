-- ===== src/Verifier/Tamper.antt =====
-- The hash chain: what an accepted chain fixes.
use vekquorum.Prelude.{
  ◌+◌, ◌≤◌, ◌≡◌, refl, ap, false, some, List, [], ◌∷◌, map, arith, length, last_or, contains, ok,
  >>=-eq-ok, eq_of_option_eq,
}
use vekquorum.Wire.{Proof, AuditEntry, EventBody, CheckpointBody}
use vekquorum.Wire.Digests.{Digests}
use vekquorum.Verifier.Chain.{Link, link, links, first_link, check_head, chain}

-- What one round of `_chain` asks of an event, and how it moves on.
pub record IsLinked (d : Digests) (l : Link) (e : AuditEntry) (l' : Link) : Type 0 where
  pub numbered : e.body.seq ≡ l.seq
  pub hashed : e.hash ≡ d.hash_event e.body
  pub chained : e.body.prev_hash ≡ l.prev_hash
  pub fresh : contains e.body.receipt_id l.seen_ids ≡ false
  pub timed : l.prev_ms ≤ e.body.at_ms
  pub next_seq : l'.seq ≡ l.seq + 1
  pub next_hash : l'.prev_hash ≡ some e.hash
  pub next_ms : l'.prev_ms ≡ e.body.at_ms

pub link-IsLinked :
    (d : Digests) (l : Link) (e : AuditEntry) {l' : Link} → link d l e ≡ ok l' → IsLinked d l e l'
unfolding link
link-IsLinked d l e {l' = l'} h = record {
  numbered = ground arith;
  hashed = ground arith;
  chained = eq_of_option_eq e.body.prev_hash l.prev_hash (ground arith);
  fresh = ground arith;
  timed = ground arith;
  next_seq = ground arith;
  next_hash = ground arith;
  next_ms = ground arith;
}

abbrev pub bodies : List AuditEntry → List EventBody
bodies = map (λ (e : AuditEntry). e.body)

-- Two event bodies at one place of two logs have one hash only if they are the same body.
abbrev pub ApartAt : Digests → List AuditEntry → List AuditEntry → Type 0
ApartAt d (e ∷ es) (f ∷ fs) =
    (d.hash_event e.body ≡ d.hash_event f.body → e.body ≡ f.body) × ApartAt d es fs
ApartAt d _ _ = Unit

cons_path : {A : Type 0} {x y : A} {xs ys : List A} → x ≡ y → xs ≡ ys → x ∷ xs ≡ y ∷ ys
cons_path p q = cc

-- Two chains of one length that end in the same hash begin alike and hold the same events.
links_agree :
    (d : Digests) (es fs : List AuditEntry) (l m : Link) {l' m' : Link}
    → ApartAt d es fs
    → links d l es ≡ ok l'
    → links d m fs ≡ ok m'
    → length es ≡ length fs
    → l'.prev_hash ≡ m'.prev_hash
    → (l.prev_hash ≡ m.prev_hash) × (bodies es ≡ bodies fs)
unfolding links
links_agree d [] [] l m apart h k n same = (ground arith, refl)
links_agree d [] (f ∷ fs) l m apart h k n same = absurd (omega arith)
links_agree d (e ∷ es) [] l m apart h k n same = absurd (omega arith)
links_agree d (e ∷ es) (f ∷ fs) l m apart h k n same =
    let (l1, a, b) = >>=-eq-ok (link d l e) (λ x. links d x es) h in
    let (m1, a', b') = >>=-eq-ok (link d m f) (λ x. links d x fs) k in
    let s = link-IsLinked d l e a in
    let t = link-IsLinked d m f a' in
    let (q, rest) = links_agree d es fs l1 m1 apart.1 b b' (omega arith) same in
    let body : e.body ≡ f.body =
      apart.0 (ground (arith, s.next_hash, t.next_hash, s.hashed, t.hashed)) in
    (cc (s.chained, t.chained, ap (λ (x : EventBody). x.prev_hash) body), cons_path body rest)

-- Where a chain of at least one event ends.
record Ends (l l' : Link) (e : AuditEntry) (es : List AuditEntry) : Type 0 where
  last_hash : l'.prev_hash ≡ some (last_or e es).hash
  last_seq : l'.seq ≡ (last_or e es).body.seq + 1
  total : l'.seq ≡ l.seq + length (e ∷ es)

links-Ends :
    (d : Digests) (l : Link) (e : AuditEntry) (es : List AuditEntry) {l' : Link}
    → links d l (e ∷ es) ≡ ok l'
    → Ends l l' e es
unfolding links
links-Ends d l e [] {l' = l'} h =
    let (l1, a, b) = >>=-eq-ok (link d l e) (λ x. links d x []) h in
    let s = link-IsLinked d l e a in
    let end : l1 ≡ l' = ground arith in
    rw (← end) (record {
      last_hash = s.next_hash;
      last_seq = omega (arith, s.next_seq, s.numbered);
      total = omega (arith, s.next_seq);
    })
links-Ends d l e (f ∷ fs) {l' = l'} h =
    let (l1, a, b) = >>=-eq-ok (link d l e) (λ x. links d x (f ∷ fs)) h in
    let s = link-IsLinked d l e a in
    let rest = links-Ends d l1 f fs b in
    record {
      last_hash = rest.last_hash;
      last_seq = rest.last_seq;
      total = omega (arith, s.next_seq, rest.total);
    }

-- what `_chain` has checked of a log and its checkpoint
record Sealed (d : Digests) (c : CheckpointBody) (es : List AuditEntry) : Type 0 where
  end : Link
  linked : links d first_link es ≡ ok end
  sealed_hash : end.prev_hash ≡ some c.head_hash
  sealed_seq : c.head_seq ≡ length es

check_head-eq :
    (c : CheckpointBody) (e : AuditEntry) (es : List AuditEntry) {u : Unit {0}}
    → check_head c (e ∷ es) ≡ ok u
    → (c.head_seq ≡ (last_or e es).body.seq) × (c.head_hash ≡ (last_or e es).hash)
unfolding check_head
check_head-eq c e es h = (ground arith, ground arith)

chain-Sealed :
    (d : Digests) (p : Proof) {u : Unit {0}}
    → chain d p ≡ ok u
    → Sealed d p.checkpoint.body p.events
unfolding chain
chain-Sealed d p h =
    let (l, a, b) =
      >>=-eq-ok (links d first_link p.events) (λ _. check_head p.checkpoint.body p.events) h in
    go p.events l a b
  where
    go :
        (es : List AuditEntry) (l : Link) {u : Unit {0}}
        → links d first_link es ≡ ok l
        → check_head p.checkpoint.body es ≡ ok u
        → Sealed d p.checkpoint.body es
    go [] l a b = cc
    go (e ∷ es) l a b =
        let ends = links-Ends d first_link e es a in
        let (seq, hash) = check_head-eq p.checkpoint.body e es b in
        record {
          end = l;
          linked = a;
          sealed_hash = rw hash ends.last_hash;
          sealed_seq = omega (arith, seq, ends.last_seq, ends.total);
        }

-- Two proofs that pass the chain check with the same head sequence number and head hash in their
-- checkpoints hold the same event bodies in the same order, where different bodies at one place of
-- the two logs have different hashes. So no event of a log can be changed, dropped, added or moved
-- under its checkpoint.
pub same_head_same_log :
    (d : Digests) (p q : Proof) {u v : Unit {0}}
    → ApartAt d p.events q.events
    → chain d p ≡ ok u
    → chain d q ≡ ok v
    → p.checkpoint.body.head_seq ≡ q.checkpoint.body.head_seq
    → p.checkpoint.body.head_hash ≡ q.checkpoint.body.head_hash
    → bodies p.events ≡ bodies q.events
same_head_same_log d p q apart h k seq hash =
    let s = chain-Sealed d p h in
    let t = chain-Sealed d q k in
    (links_agree d p.events q.events first_link first_link apart s.linked t.linked
      (omega (arith, s.sealed_seq, t.sealed_seq, seq)) (cc (s.sealed_hash, t.sealed_hash, hash))).1
