-- ===== src/Text/Sound.antt =====
-- What the parser of jsonparse.py returns is within the bounds of the wire profile.
use vekquorum.Prelude.{
  ℕ, zero, suc, ◌≤◌, ◌≡◌, subst, length, Option, none, some, Bool, true, false, List, [], ◌∷◌, ◌==◌,
  ◌||◌, ◌&&◌, ltb, list_eq, any, inl, inr, Bool-cases, Result, ok, ◌>>=◌, >>=-eq-ok, raise_if,
  raise_if-eq-ok, if◌then◌else◌, arith, tail,
}
use vekquorum.Errors.{number_profile, malformed_json, duplicate_key}
use vekquorum.Wire.{ℤ, Json, Items, Members, nil, cons, end, member}
use vekquorum.Schema.{safe_int_max}
use vekquorum.Text.Chars.{
  is_surrogate, skip_ws, expect, literal, read_literal, after_word, string, check_str, string_loop,
  Parser,
}
use vekquorum.Text.Numbers.{
  Unicode, number, starts_with, wire_value, signed, int_of, span_digits, skip_one, is_nil, fraction,
  exponent,
}
use vekquorum.Text.Parser.{
  max_array, max_members, max_levels, has_key, after_item, after_member, key, array_loop,
  object_loop, array, object, dispatch, kind_of, Kind, true_word, false_word, null_word, value,
  parse, finish, at_end,
}
use vekquorum.Text.StringRound.{IsScalar}
use vekquorum.Text.NumberRound.{IsSafe}
use vekquorum.Text.RoundTrip.{IsWire, AllWire, MembersWire, count_items, count_members}

ok-pair :
    {A : Type 0} {v w : A} {r s : List ℕ}
    → ◌≡◌ {A = Result (A × List ℕ)} (ok (v, r)) (ok (w, s))
    → v ≡ w
ok-pair e = ground arith

if_false-eq :
    {A : Type 0} (b : Bool) (x y : A) {z : A} → b ≡ false → (if b then x else y) ≡ z → y ≡ z
if_false-eq false x y e h = h
if_false-eq true x y e h = cc

if_true-eq : {A : Type 0} (b : Bool) (x y : A) {z : A} → b ≡ true → (if b then x else y) ≡ z → x ≡ z
if_true-eq true x y e h = h
if_true-eq false x y e h = cc

any-false-IsScalar : (cs : List ℕ) → any is_surrogate cs ≡ false → IsScalar cs
any-false-IsScalar [] h = tt
any-false-IsScalar (c ∷ cs) h = (ground arith, any-false-IsScalar cs (ground arith))

check_str-IsScalar : (s : List ℕ) {t : List ℕ} → check_str s ≡ ok t → IsScalar t
unfolding check_str
check_str-IsScalar s {t} h = elim (Bool-cases (any is_surrogate s)) [
  | inl bad ↦ absurd (ground arith)
  | inr good ↦ let same : s ≡ t = ground arith in subst IsScalar same (any-false-IsScalar s good)
]

string-IsScalar : (cs s rest : List ℕ) → string cs ≡ ok (s, rest) → IsScalar s
unfolding string
string-IsScalar cs s rest h =
    let (x, read, later) = >>=-eq-ok (string_loop (suc (length cs)) cs) _ h in
    let (t, checked, last) = >>=-eq-ok (check_str x.0) _ later in
    let same : t ≡ s = ground arith in subst IsScalar same (check_str-IsScalar x.0 checked)

signed-IsSafe : (minus : Bool) (n : ℕ) → n ≤ safe_int_max → IsSafe (signed minus n)
signed-IsSafe false n h = h
signed-IsSafe true zero h = omega arith
signed-IsSafe true (suc n) h = h

wire_value-IsSafe :
    (u : Unicode) (minus more : Bool) (ds : List ℕ) (n : ℤ)
    → wire_value u minus more ds ≡ ok n
    → IsSafe n
unfolding wire_value
wire_value-IsSafe u minus more ds n h =
    let (_, _, h1) = >>=-eq-ok (raise_if more number_profile) _ h in
    let (_, _, h2) = >>=-eq-ok (raise_if (minus && list_eq ds (b'0' ∷ [])) number_profile) _ h1 in
    let (m, _, h3) = >>=-eq-ok (int_of u ds) _ h2 in
    let (_, in_range, h4) = >>=-eq-ok (raise_if (ltb safe_int_max m) number_profile) _ h3 in
    let small = raise_if-eq-ok _ number_profile in_range in
    let same : signed minus m ≡ n = ground arith in
    subst IsSafe same (signed-IsSafe minus m (ground arith))

number-IsSafe :
    (u : Unicode) (cs : List ℕ) (n : ℤ) (rest : List ℕ) → number u cs ≡ ok (n, rest) → IsSafe n
unfolding number
number-IsSafe u cs n rest h =
    let (ds, after) = span_digits u (skip_one b'-' b'-' cs) in
    let (_, _, h1) = >>=-eq-ok (raise_if (is_nil ds) malformed_json) _ h in
    let (_, _, h2) =
      >>=-eq-ok (raise_if (ltb 1 (length ds) && starts_with b'0' ds) malformed_json) _ h1 in
    let (f, _, h3) = >>=-eq-ok (fraction u after) _ h2 in
    let (x, _, h4) = >>=-eq-ok (exponent u f.1) _ h3 in
    let (m, read, h5) = >>=-eq-ok (wire_value u (starts_with b'-' cs) (f.0 || x.0) ds) _ h4 in
    let same : m ≡ n = ground arith in subst IsSafe same (wire_value-IsSafe u _ _ ds m read)

literal-value :
    {A : Type 0} (word : List ℕ) (v w : A) (cs rest : List ℕ)
    → literal word v cs ≡ ok (w, rest)
    → v ≡ w
unfolding literal
literal-value word v w cs rest = go (after_word word cs)
  where
    go : (o : Option (List ℕ)) → read_literal v o ≡ ok (w, rest) → v ≡ w
    go none h = cc
    go (some r) h = ground arith

-- What a parser reads is within the bounds, with this many levels.
abbrev Sound : ℕ → Parser Json → Type 0
Sound levels p = (cs : List ℕ) (v : Json) (rest : List ℕ) → p cs ≡ ok (v, rest) → IsWire levels v

module _ (levels : ℕ) (deeper : Parser Json) (sound : Sound levels deeper) where
  abbrev SoundItems : ℕ → Parser Items → Type 0
  SoundItems room p =
      (cs : List ℕ) (vs : Items) (rest : List ℕ)
      → p cs ≡ ok (vs, rest)
      → (count_items vs ≤ room) × AllWire levels vs

  after_item-Sound :
      (room : ℕ) (more : Parser Items)
      → SoundItems room more
      → (v : Json) → IsWire levels v
      → SoundItems (suc room) (after_item more v)
  unfolding after_item IsWire
  after_item-Sound room more s v w [] vs rest h = cc
  after_item-Sound room more s v w (c ∷ cs) vs rest h = elim (Bool-cases (c == b']')) [
    | inl closed ↦
        let same : cons v nil ≡ vs = ground arith in
        subst (λ (x : Items). (count_items x ≤ suc room) × AllWire levels x) same
          (omega arith, (w, tt))
    | inr longer ↦ elim (Bool-cases (c == b',')) [
      | inr other ↦ absurd (ground arith)
      | inl comma ↦
          let add : Items × List ℕ → Result (Items × List ℕ) = λ x. ok (cons v x.0, x.1) in
          let next : (more cs >>= add) ≡ ok (vs, rest) = ground arith in
          let (x, read, last) = >>=-eq-ok (more cs) add next in
          let (few, wire) = s cs x.0 x.1 read in
          let same : cons v x.0 ≡ vs = ground arith in
          subst (λ (y : Items). (count_items y ≤ suc room) × AllWire levels y) same
            (omega (arith, few), (w, wire))
    ]
  ]

  array_loop-Sound : (room : ℕ) → SoundItems room (array_loop deeper room)
  unfolding array_loop
  array_loop-Sound zero cs vs rest h =
      let (_, _, never) = >>=-eq-ok (deeper (skip_ws cs)) _ h in absurd (ground arith)
  array_loop-Sound (suc room) cs vs rest h =
      let (x, read, later) = >>=-eq-ok (deeper (skip_ws cs)) _ h in
      after_item-Sound room (array_loop deeper room) (array_loop-Sound room) x.0
        (sound (skip_ws cs) x.0 x.1 read) (skip_ws x.1) vs rest later

  abbrev SoundMembers : ℕ → List (List ℕ) → Parser Members → Type 0
  SoundMembers room seen p =
      (cs : List ℕ) (ms : Members) (rest : List ℕ)
      → p cs ≡ ok (ms, rest)
      → (count_members ms ≤ room) × MembersWire levels seen ms

  after_member-Sound :
      (room : ℕ) (seen : List (List ℕ)) (k : List ℕ) (more : Parser Members)
      → SoundMembers room (k ∷ seen) more
      → (v : Json) → IsScalar k
      → has_key k seen ≡ false
      → IsWire levels v
      → SoundMembers (suc room) seen (after_member more k v)
  unfolding after_member IsWire
  after_member-Sound room seen k more s v scalar new w [] ms rest h = cc
  after_member-Sound room seen k more s v scalar new w (c ∷ cs) ms rest h =
      elim (Bool-cases (c == b'}')) [
        | inl closed ↦
            let same : member k v end ≡ ms = ground arith in
            subst (λ (x : Members). (count_members x ≤ suc room) × MembersWire levels seen x) same
              (omega arith, (scalar, new, w, tt))
        | inr longer ↦ elim (Bool-cases (c == b',')) [
          | inr other ↦ absurd (ground arith)
          | inl comma ↦
              let add : Members × List ℕ → Result (Members × List ℕ) =
                λ x. ok (member k v x.0, x.1) in
              let next : (more cs >>= add) ≡ ok (ms, rest) = ground arith in
              let (x, read, last) = >>=-eq-ok (more cs) add next in
              let (few, wire) = s cs x.0 x.1 read in
              let same : member k v x.0 ≡ ms = ground arith in
              subst (λ (y : Members). (count_members y ≤ suc room) × MembersWire levels seen y) same
                (omega (arith, few), (scalar, new, w, wire))
        ]
      ]

  key-IsScalar : (cs k rest : List ℕ) → key cs ≡ ok (k, rest) → IsScalar k
  unfolding key
  key-IsScalar cs k rest h =
      let (opened, _, h1) = >>=-eq-ok (expect b'"' (skip_ws cs)) _ h in
      let (x, read, h2) = >>=-eq-ok (string opened) _ h1 in
      let (colon, _, h3) = >>=-eq-ok (expect b':' (skip_ws x.1)) _ h2 in
      let same : x.0 ≡ k = ground arith in subst IsScalar same (string-IsScalar opened x.0 x.1 read)

  object_loop-Sound :
      (room : ℕ) (seen : List (List ℕ)) → SoundMembers room seen (object_loop deeper room seen)
  unfolding object_loop
  object_loop-Sound zero seen cs ms rest h =
      let (k, _, h1) = >>=-eq-ok (key cs) _ h in
      let (v, _, h2) = >>=-eq-ok (deeper k.1) _ h1 in
      let (_, _, never) = >>=-eq-ok (raise_if (has_key k.0 seen) duplicate_key) _ h2 in
      absurd (ground arith)
  object_loop-Sound (suc room) seen cs ms rest h =
      let (k, read_key, h1) = >>=-eq-ok (key cs) _ h in
      let (v, read, h2) = >>=-eq-ok (deeper k.1) _ h1 in
      let (_, new, h3) = >>=-eq-ok (raise_if (has_key k.0 seen) duplicate_key) _ h2 in
      after_member-Sound room seen k.0 (object_loop deeper room (k.0 ∷ seen))
        (object_loop-Sound room (k.0 ∷ seen)) v.0 (key-IsScalar cs k.0 k.1 read_key)
        (raise_if-eq-ok _ duplicate_key new) (sound k.1 v.0 v.1 read) (skip_ws v.1) ms rest h3

  array-Sound : Sound (suc levels) (array deeper)
  unfolding array IsWire
  array-Sound cs v rest h = elim (Bool-cases (starts_with b']' cs)) [
    | inl nothing ↦
        let same : Json.array nil ≡ v = ground arith in
        subst (IsWire (suc levels)) same (omega arith, tt)
    | inr some_items ↦
        let filled : (array_loop deeper max_array cs >>= λ x. ok (Json.array x.0, x.1))
            ≡ ok (v, rest) =
          if_false-eq _ _ _ some_items h in
        let (x, read, last) = >>=-eq-ok (array_loop deeper max_array cs) _ filled in
        let same : Json.array x.0 ≡ v = ok-pair last in
        subst (IsWire (suc levels)) same (array_loop-Sound max_array cs x.0 x.1 read)
  ]

  object-Sound : Sound (suc levels) (object deeper)
  unfolding object IsWire
  object-Sound cs v rest h = elim (Bool-cases (starts_with b'}' cs)) [
    | inl nothing ↦
        let same : Json.object end ≡ v = ok-pair (if_true-eq _ _ _ nothing h) in
        subst (IsWire (suc levels)) same (omega arith, tt)
    | inr some_members ↦
        let filled : (object_loop deeper max_members [] cs >>= λ x. ok (Json.object x.0, x.1))
            ≡ ok (v, rest) =
          if_false-eq _ _ _ some_members h in
        let (x, read, last) = >>=-eq-ok (object_loop deeper max_members [] cs) _ filled in
        let same : Json.object x.0 ≡ v = ok-pair last in
        subst (IsWire (suc levels)) same (object_loop-Sound max_members [] cs x.0 x.1 read)
  ]

module _ (u : Unicode) where
  dispatch-Sound :
      (levels : ℕ) (deeper : Parser Json)
      → Sound levels deeper
      → (k : Kind) → Sound (suc levels) (dispatch u deeper k)
  unfolding dispatch IsWire
  dispatch-Sound levels deeper s Kind.object_kind cs v rest h =
      object-Sound levels deeper s (skip_ws (tail cs)) v rest h
  dispatch-Sound levels deeper s Kind.array_kind cs v rest h =
      array-Sound levels deeper s (skip_ws (tail cs)) v rest h
  dispatch-Sound levels deeper s Kind.string_kind cs v rest h =
      let (x, read, last) = >>=-eq-ok (string (tail cs)) _ h in
      subst (IsWire (suc levels)) (ok-pair last) (string-IsScalar (tail cs) x.0 x.1 read)
  dispatch-Sound levels deeper s Kind.true_kind cs v rest h =
      rw (← literal-value true_word (Json.boolean true) v cs rest h) tt
  dispatch-Sound levels deeper s Kind.false_kind cs v rest h =
      rw (← literal-value false_word (Json.boolean false) v cs rest h) tt
  dispatch-Sound levels deeper s Kind.null_kind cs v rest h =
      rw (← literal-value null_word Json.null v cs rest h) tt
  dispatch-Sound levels deeper s Kind.number_kind cs v rest h =
      let (x, read, last) = >>=-eq-ok (number u cs) _ h in
      subst (IsWire (suc levels)) (ok-pair last) (number-IsSafe u cs x.0 x.1 read)

  value-Sound : (levels : ℕ) → Sound levels (value u levels)
  unfolding value
  value-Sound levels [] v rest h = cc
  value-Sound zero (c ∷ cs) v rest h = cc
  value-Sound (suc levels) (c ∷ cs) v rest h =
      dispatch-Sound levels (value u levels) (value-Sound levels) (kind_of c) (c ∷ cs) v rest h

  at_end-eq : (v w : Json) (cs : List ℕ) → at_end v cs ≡ ok w → v ≡ w
  at_end-eq v w [] h = ground arith
  at_end-eq v w (c ∷ cs) h = cc

  -- What `parse` returns is within the bounds of the wire profile: at most 33 levels, at most 1024
  -- elements or members in each array or object, no key twice in an object, integers in the safe
  -- range, and texts without surrogates.
  pub parse-IsWire : (cs : List ℕ) (v : Json) → parse u cs ≡ ok v → IsWire max_levels v
  unfolding parse
  parse-IsWire cs v h =
      let (x, read, last) = >>=-eq-ok (value u max_levels (skip_ws cs)) finish h in
      subst (IsWire max_levels) (at_end-eq x.0 v (skip_ws x.1) last)
        (value-Sound max_levels (skip_ws cs) x.0 x.1 read)
