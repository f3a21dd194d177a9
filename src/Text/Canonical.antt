-- ===== src/Text/Canonical.antt =====
-- The order of members that `_ser` of canon.py prints keeps a value within the wire profile.
use vekquorum.Prelude.{
  ℕ, zero, suc, ◌≡◌, refl, Bool, true, false, List, [], ◌∷◌, ◌||◌, list_eq, eq_of_list_eq,
  list_eq_refl, list_eq_comm, inl, inr, Bool-cases, ok, arith,
}
use vekquorum.Wire.{Json, Items, Members, nil, cons, end, member}
use vekquorum.Text.Numbers.{Unicode}
use vekquorum.Text.Parser.{has_key, max_levels, parse}
use vekquorum.Text.Printer.{
  insert_member, units_le, utf16_units, canonical, canonical_items, canonical_members, ser,
}
use vekquorum.Text.StringRound.{IsScalar}
use vekquorum.Text.NumberRound.{AgreesWithAscii}
use vekquorum.Text.RoundTrip.{
  IsWire, AllWire, MembersWire, count_items, count_members, parse-print, print-injective,
}
use vekquorum.Text.Sound.{parse-IsWire}

-- No member has the key.
abbrev Absent : List ℕ → Members → Type 0
Absent k end = Unit
Absent k (member k' v ms) = (list_eq k' k ≡ false) × Absent k ms

||-true : (b : Bool) → (b || true) ≡ true
||-true true = refl
||-true false = refl

-- the same members after other keys, which do not occur
reseen :
    (levels : ℕ) (seen seen' : List (List ℕ)) (k : List ℕ) (ms : Members)
    → ((x : List ℕ) → list_eq x k ≡ false → has_key x seen ≡ false → has_key x seen' ≡ false)
    → Absent k ms
    → MembersWire levels seen ms
    → MembersWire levels seen' ms
unfolding IsWire
reseen levels seen seen' k end f a w = tt
reseen levels seen seen' k (member k' v ms) f a w = (
  w.0,
  f k' a.0 w.1,
  w.2,
  reseen levels (k' ∷ seen) (k' ∷ seen') k ms (λ x n h. ground (arith, f x)) a.1 w.3,
)

seen-Absent :
    (levels : ℕ) (seen : List (List ℕ)) (k : List ℕ) (ms : Members)
    → has_key k seen ≡ true
    → MembersWire levels seen ms
    → Absent k ms
unfolding IsWire
seen-Absent levels seen k end h w = tt
seen-Absent levels seen k (member k' v ms) h w = elim (Bool-cases (list_eq k' k)) [
  | inl equal ↦
      let same : has_key k' seen ≡ true = rw (eq_of_list_eq k' k equal) h in
      absurd (ground (arith, same, w.1))
  | inr other ↦
      (other, seen-Absent levels (k' ∷ seen) k ms (rw (h, ||-true (list_eq k k')) refl) w.3)
]

insert_member-Absent :
    (j k : List ℕ) (v : Json) (ms : Members)
    → list_eq k j ≡ false
    → Absent j ms
    → Absent j (insert_member k v ms)
unfolding insert_member
insert_member-Absent j k v end n a = (n, tt)
insert_member-Absent j k v (member k' v' ms) n a =
    elim (Bool-cases (units_le (utf16_units k) (utf16_units k'))) [
      | inl first ↦ rw first (n, a)
      | inr later ↦ rw later (a.0, insert_member-Absent j k v ms n a.1)
    ]

count-insert_member :
    (k : List ℕ) (v : Json) (ms : Members)
    → count_members (insert_member k v ms) ≡ suc (count_members ms)
unfolding insert_member
count-insert_member k v end = refl
count-insert_member k v (member k' v' ms) =
    elim (Bool-cases (units_le (utf16_units k) (utf16_units k'))) [
      | inl first ↦ rw first refl
      | inr later ↦ rw (later, count-insert_member k v ms) refl
    ]

insert_member-Wire :
    (levels : ℕ) (seen : List (List ℕ)) (k : List ℕ) (v : Json) (ms : Members)
    → MembersWire levels seen ms
    → IsScalar k
    → has_key k seen ≡ false
    → Absent k ms
    → IsWire levels v
    → MembersWire levels seen (insert_member k v ms)
unfolding insert_member IsWire
insert_member-Wire levels seen k v end w scalar new a x = (scalar, new, x, tt)
insert_member-Wire levels seen k v (member k' v' ms) w scalar new a x =
    elim (Bool-cases (units_le (utf16_units k) (utf16_units k'))) [
      | inl first ↦ rw first (
        scalar,
        new,
        x,
        reseen levels seen (k ∷ seen) k (member k' v' ms) (λ y n h. rw (n, h) refl) a w,
      )
      | inr later ↦ rw later (
        w.0,
        w.1,
        w.2,
        insert_member-Wire levels (k' ∷ seen) k v ms w.3 scalar
            (rw (list_eq_comm k k', a.0, new) refl) a.1 x,
      )
    ]

count-canonical_items : (vs : Items) → count_items (canonical_items vs) ≡ count_items vs
unfolding canonical
count-canonical_items nil = refl
count-canonical_items (cons v vs) = omega (arith, count-canonical_items vs)

count-canonical_members : (ms : Members) → count_members (canonical_members ms) ≡ count_members ms
unfolding canonical
count-canonical_members end = refl
count-canonical_members (member k v ms) =
    omega (
      arith,
      count-insert_member k (canonical v) (canonical_members ms),
      count-canonical_members ms,
    )

canonical_members-Absent :
    (j : List ℕ) (ms : Members) → Absent j ms → Absent j (canonical_members ms)
unfolding canonical
canonical_members-Absent j end a = tt
canonical_members-Absent j (member k v ms) a =
    insert_member-Absent j k (canonical v) (canonical_members ms) a.0
      (canonical_members-Absent j ms a.1)

-- after the key `k`, which occurs no more
drop_seen :
    (levels : ℕ) (seen : List (List ℕ)) (k : List ℕ) (ms : Members)
    → MembersWire levels (k ∷ seen) ms
    → Absent k ms × MembersWire levels seen ms
drop_seen levels seen k ms w =
    let absent = seen-Absent levels (k ∷ seen) k ms (rw (list_eq_refl k) refl) w in
    (absent, reseen levels (k ∷ seen) seen k ms (λ y n h. ground (arith, n, h)) absent w)

mutual
  unfolding canonical IsWire

  canonical-Wire : (v : Json) (levels : ℕ) → IsWire levels v → IsWire levels (canonical v)
  canonical-Wire v zero w = absurd (ground arith)
  canonical-Wire Json.null (suc levels) w = w
  canonical-Wire (Json.boolean b) (suc levels) w = w
  canonical-Wire (Json.number n) (suc levels) w = w
  canonical-Wire (Json.string s) (suc levels) w = w
  canonical-Wire (Json.array vs) (suc levels) w =
      (rw (count-canonical_items vs) w.0, canonical_items-Wire vs levels w.1)
  canonical-Wire (Json.object ms) (suc levels) w =
      (rw (count-canonical_members ms) w.0, canonical_members-Wire ms levels [] w.1)

  canonical_items-Wire :
      (vs : Items) (levels : ℕ) → AllWire levels vs → AllWire levels (canonical_items vs)
  canonical_items-Wire nil levels w = tt
  canonical_items-Wire (cons v vs) levels w =
      (canonical-Wire v levels w.0, canonical_items-Wire vs levels w.1)

  canonical_members-Wire :
      (ms : Members) (levels : ℕ) (seen : List (List ℕ))
      → MembersWire levels seen ms
      → MembersWire levels seen (canonical_members ms)
  canonical_members-Wire end levels seen w = tt
  canonical_members-Wire (member k v ms) levels seen w =
      let (absent, wire) = drop_seen levels seen k ms w.3 in
      insert_member-Wire levels seen k (canonical v) (canonical_members ms)
        (canonical_members-Wire ms levels seen wire) w.0 w.1 (canonical_members-Absent k ms absent)
        (canonical-Wire v levels w.2)

module _ (u : Unicode) (a : AgreesWithAscii u) where
  -- The canonical text of a value that was parsed is parsed to the same value, with the members of
  -- its objects in the order of their keys.
  pub parse-ser : (cs : List ℕ) (v : Json) → parse u cs ≡ ok v → parse u (ser v) ≡ ok (canonical v)
  unfolding ser
  parse-ser cs v h =
      parse-print u a (canonical v) (canonical-Wire v max_levels (parse-IsWire u cs v h))

  -- Two texts that are parsed and have the same canonical text stand for the same value, up to the
  -- order of members.
  pub ser-injective :
      (cs ds : List ℕ) (v w : Json)
      → parse u cs ≡ ok v
      → parse u ds ≡ ok w
      → ser v ≡ ser w
      → canonical v ≡ canonical w
  unfolding ser
  ser-injective cs ds v w x y e =
      print-injective u a (canonical v) (canonical w)
        (canonical-Wire v max_levels (parse-IsWire u cs v x))
        (canonical-Wire w max_levels (parse-IsWire u ds w y)) e
