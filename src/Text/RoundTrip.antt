-- ===== src/Text/RoundTrip.antt =====
-- A printed value is read back: `_ser` of canon.py and `_Parser` of jsonparse.py.
use vekquorum.Prelude.{
  between, ℕ, zero, suc, ◌≤◌, ◌≡◌, refl, ap, sym, ◌∙◌, Bool, true, false, List, [], ◌∷◌, ◌++◌, ◌==◌,
  ◌||◌, Result, ok, ◌>>=◌, if◌then◌else◌, arith,
}
use mathlib.Core.List.{append_assoc, append-nil}
use vekquorum.Wire.{ℤ, Json, Items, Members, nil, cons, end, member}
use vekquorum.Text.Chars.{is_space, skip_ws, expect, string, Parser}
use vekquorum.Text.Numbers.{Unicode, number, str, starts_with}
use vekquorum.Text.Parser.{
  max_array, max_members, max_levels, has_key, key, array_loop, object_loop, object, dispatch,
  kind_of, Kind, value, parse, finish, as_number, as_string,
}
use vekquorum.Text.Printer.{escape_chars, escape_string, print, print_items, print_members}
use vekquorum.Text.StringRound.{IsScalar, string-escape_chars}
use vekquorum.Text.NumberRound.{
  AgreesWithAscii, IsSafe, NumberFront, Stops, number-str, str-NumberFront,
}

abbrev pub count_items : Items → ℕ
count_items nil = 0
count_items (cons v vs) = suc (count_items vs)

abbrev pub count_members : Members → ℕ
count_members end = 0
count_members (member k v ms) = suc (count_members ms)

-- The value keeps within the bounds of the wire profile, with this many levels: its integers are
-- safe, its texts have no surrogate, no object has a key twice or one of `seen`.
unfoldable mutual
  pub IsWire : ℕ → Json → Type 0
  IsWire zero v = true ≡ false
  IsWire (suc levels) Json.null = Unit
  IsWire (suc levels) (Json.boolean b) = Unit
  IsWire (suc levels) (Json.number n) = IsSafe n
  IsWire (suc levels) (Json.string s) = IsScalar s
  IsWire (suc levels) (Json.array vs) = (count_items vs ≤ max_array) × AllWire levels vs
  IsWire (suc levels) (Json.object ms) = (count_members ms ≤ max_members) × MembersWire levels [] ms

  pub AllWire : ℕ → Items → Type 0
  AllWire levels nil = Unit
  AllWire levels (cons v vs) = IsWire levels v × AllWire levels vs

  pub MembersWire : ℕ → List (List ℕ) → Members → Type 0
  MembersWire levels seen end = Unit
  MembersWire levels seen (member k v ms) =
      IsScalar k × (has_key k seen ≡ false) × IsWire levels v × MembersWire levels (k ∷ seen) ms

-- The text starts with a character that is neither white space nor the end of an array.
abbrev ValueFront : List ℕ → Type 0
ValueFront cs =
    (c : ℕ) × (rest : List ℕ) × (cs ≡ c ∷ rest) × (is_space c ≡ false) × ((c == b']') ≡ false)

print-ValueFront : (v : Json) (rest : List ℕ) → ValueFront (print v ++ rest)
unfolding print escape_string
print-ValueFront Json.null rest = (_, _, refl, refl, refl)
print-ValueFront (Json.boolean true) rest = (_, _, refl, refl, refl)
print-ValueFront (Json.boolean false) rest = (_, _, refl, refl, refl)
print-ValueFront (Json.number n) rest =
    let (c, cs, same, front) = str-NumberFront n rest in (c, cs, same, ground arith, ground arith)
print-ValueFront (Json.string s) rest = (_, _, refl, refl, refl)
print-ValueFront (Json.array vs) rest = (_, _, refl, refl, refl)
print-ValueFront (Json.object ms) rest = (_, _, refl, refl, refl)

skip_ws-print : (v : Json) (rest : List ℕ) → skip_ws (print v ++ rest) ≡ print v ++ rest
skip_ws-print v rest =
    let (c, cs, same, space, bracket) = print-ValueFront v rest in
    rw same (unfold skip_ws in rw space refl)

starts_with-print : (v : Json) (rest : List ℕ) → starts_with b']' (print v ++ rest) ≡ false
starts_with-print v rest =
    let (c, cs, same, space, bracket) = print-ValueFront v rest in rw same bracket

kind_of-number : (c : ℕ) → (between b'0' b'9' c || c == b'-') ≡ true → kind_of c ≡ Kind.number_kind
unfolding kind_of
kind_of-number c h = ground arith

-- `key` reads a printed key with its colon, and the white space after it.
key-escape_string :
    (k cs : List ℕ) → IsScalar k → key (escape_string k ++ b':' ∷ cs) ≡ ok (k, skip_ws cs)
unfolding key escape_string expect skip_ws
key-escape_string k cs s =
    rw (append_assoc (escape_chars k) (b'"' ∷ []) (b':' ∷ cs), string-escape_chars k (b':' ∷ cs) s)
      refl

-- what comes after an element or a member
Stops-items :
    (u : Unicode) (a : AgreesWithAscii u) (vs : Items) (rest : List ℕ)
    → Stops u (print_items false vs ++ rest)
unfolding print
Stops-items u a nil rest = (a.digit b']' (omega arith), refl, refl)
Stops-items u a (cons v vs) rest = (a.digit b',' (omega arith), refl, refl)

Stops-members :
    (u : Unicode) (a : AgreesWithAscii u) (ms : Members) (rest : List ℕ)
    → Stops u (print_members false ms ++ rest)
unfolding print
Stops-members u a end rest = (a.digit b'}' (omega arith), refl, refl)
Stops-members u a (member k v ms) rest = (a.digit b',' (omega arith), refl, refl)

ok-injective : {v w : Json} → ◌≡◌ {A = Result Json} (ok v) (ok w) → v ≡ w
ok-injective e = ground arith

if_false {ℓ} : {A : Type ℓ} (b : Bool) (x y : A) → b ≡ false → (if b then x else y) ≡ y
if_false false x y e = refl
if_false true x y e = cc

empty_object :
    (deeper : Parser Json) (rest : List ℕ)
    → object deeper (skip_ws (b'}' ∷ rest)) ≡ ok (Json.object end, rest)
unfolding object skip_ws
empty_object deeper rest = refl

full_object :
    (deeper : Parser Json) (k cs rest : List ℕ) (ms : Members)
    → object_loop deeper max_members [] (escape_string k ++ cs) ≡ ok (ms, rest)
    → object deeper (skip_ws (escape_string k ++ cs)) ≡ ok (Json.object ms, rest)
unfolding object skip_ws escape_string
full_object deeper k cs rest ms h =
    ap (λ (m : Result (Members × List ℕ)). m >>= λ x. ok (Json.object x.0, x.1)) h

value-object :
    (u : Unicode) (levels : ℕ) (cs : List ℕ)
    → value u (suc levels) (b'{' ∷ cs) ≡ object (value u levels) (skip_ws cs)
unfolding value dispatch kind_of
value-object u levels cs = refl

first_member :
    (k : List ℕ) (v : Json) (ms : Members) (rest : List ℕ)
    → print_members true (member k v ms) ++ rest
      ≡ escape_string k ++ (b':' ∷ (print v ++ (print_members false ms ++ rest)))
unfolding print
first_member k v ms rest =
    append_assoc (escape_string k) (b':' ∷ (print v ++ print_members false ms)) rest
    ∙ ap (λ (cs : List ℕ). escape_string k ++ (b':' ∷ cs))
        (append_assoc (print v) (print_members false ms) rest)

module _ (u : Unicode) (a : AgreesWithAscii u) where
  abbrev ReadsValue : Json → Type 0
  ReadsValue v =
      (levels : ℕ) (rest : List ℕ)
      → IsWire levels v
      → Stops u rest
      → value u levels (print v ++ rest) ≡ ok (v, rest)

  -- a list with a first element
  abbrev ReadsItems : Json → Items → Type 0
  ReadsItems v vs =
      (levels room : ℕ) (rest : List ℕ)
      → AllWire levels (cons v vs)
      → suc (count_items vs) ≤ room
      → array_loop (value u levels) room (print v ++ (print_items false vs ++ rest))
        ≡ ok (cons v vs, rest)

  abbrev ReadsMembers : List ℕ → Json → Members → Type 0
  ReadsMembers k v ms =
      (levels room : ℕ) (seen : List (List ℕ)) (rest : List ℕ)
      → MembersWire levels seen (member k v ms)
      → suc (count_members ms) ≤ room
      → object_loop (value u levels) room seen
          (escape_string k ++ (b':' ∷ (print v ++ (print_members false ms ++ rest))))
        ≡ ok (member k v ms, rest)

  -- the loop of `array` on a last element, and on one with others after it
  items_last : (v : Json) → ReadsValue v → ReadsItems v nil
  unfolding array_loop print skip_ws IsWire
  items_last v reads levels zero rest w h = absurd (omega arith)
  items_last v reads levels (suc room) rest w h =
      rw (skip_ws-print v (b']' ∷ rest), reads levels (b']' ∷ rest) w.0 (Stops-items u a nil rest))
        refl

  items_more : (v w : Json) (ws : Items) → ReadsValue v → ReadsItems w ws → ReadsItems v (cons w ws)
  unfolding array_loop print skip_ws IsWire
  items_more v w ws reads more levels zero rest x h = absurd (omega arith)
  items_more v w ws reads more levels (suc room) rest x h =
      let after = print_items false (cons w ws) ++ rest in
      rw
        (
          skip_ws-print v after,
          reads levels after x.0 (Stops-items u a (cons w ws) rest),
          append_assoc (print w) (print_items false ws) rest,
          more levels room rest x.1 (omega arith),
        )
        refl

  members_last : (k : List ℕ) (v : Json) → ReadsValue v → ReadsMembers k v end
  unfolding object_loop print skip_ws IsWire
  members_last k v reads levels zero seen rest w h = absurd (omega arith)
  members_last k v reads levels (suc room) seen rest w h =
      rw
        (
          key-escape_string k (print v ++ (b'}' ∷ rest)) w.0,
          skip_ws-print v (b'}' ∷ rest),
          reads levels (b'}' ∷ rest) w.2 (Stops-members u a end rest),
          w.1,
        )
        refl

  -- a member that is not the first
  next_member : List ℕ → Json → Members → List ℕ → List ℕ
  next_member k v ms rest =
      b',' ∷ (escape_string k ++ (b':' ∷ (print v ++ (print_members false ms ++ rest))))

  print_members-next :
      (k : List ℕ) (v : Json) (ms : Members) (rest : List ℕ)
      → print_members false (member k v ms) ++ rest ≡ next_member k v ms rest
  unfolding print next_member
  print_members-next k v ms rest =
      ap (λ (cs : List ℕ). b',' ∷ cs)
        (append_assoc (escape_string k) (b':' ∷ (print v ++ print_members false ms)) rest
          ∙ ap (λ (cs : List ℕ). escape_string k ++ (b':' ∷ cs))
              (append_assoc (print v) (print_members false ms) rest))

  members_more :
      (k k' : List ℕ) (v w : Json) (ms : Members)
      → ReadsValue v
      → ReadsMembers k' w ms
      → ReadsMembers k v (member k' w ms)
  unfolding object_loop skip_ws IsWire next_member
  members_more k k' v w ms reads more levels zero seen rest x h = absurd (omega arith)
  members_more k k' v w ms reads more levels (suc room) seen rest x h =
      let after = next_member k' w ms rest in
      rw
        (
          print_members-next k' w ms rest,
          key-escape_string k (print v ++ after) x.0,
          skip_ws-print v after,
          reads levels after x.2 (a.digit b',' (omega arith), refl, refl),
          x.1,
          more levels room (k ∷ seen) rest x.3 (omega arith),
        )
        refl

  -- the loops on what follows an opening bracket
  ItemsMotive : Items → Type 0
  ItemsMotive nil = Unit
  ItemsMotive (cons v vs) = ReadsItems v vs

  MembersMotive : Members → Type 0
  MembersMotive end = Unit
  MembersMotive (member k v ms) = ReadsMembers k v ms

  items_step : (v : Json) (vs : Items) → ReadsValue v → ItemsMotive vs → ReadsItems v vs
  unfolding ItemsMotive
  items_step v nil reads tail_reads = items_last v reads
  items_step v (cons w ws) reads tail_reads = items_more v w ws reads tail_reads

  members_step :
      (k : List ℕ) (v : Json) (ms : Members) → ReadsValue v → MembersMotive ms → ReadsMembers k v ms
  unfolding MembersMotive
  members_step k v end reads tail_reads = members_last k v reads
  members_step k v (member k' w ms) reads tail_reads = members_more k k' v w ms reads tail_reads

  array-Reads : (vs : Items) → ItemsMotive vs → ReadsValue (Json.array vs)
  unfolding ItemsMotive value dispatch kind_of print skip_ws IsWire
  array-Reads vs h zero rest w s = absurd (ground arith)
  array-Reads nil h (suc levels) rest w s = refl
  array-Reads (cons v vs) h (suc levels) rest w s =
      rw
        (
          append_assoc (print v) (print_items false vs) rest,
          skip_ws-print v (print_items false vs ++ rest),
          starts_with-print v (print_items false vs ++ rest),
          h levels max_array rest w.1 w.0,
        )
        refl

  object-Reads : (ms : Members) → MembersMotive ms → ReadsValue (Json.object ms)
  unfolding MembersMotive print
  object-Reads ms h zero rest w s = absurd (unfold IsWire in ground arith)
  object-Reads end h (suc levels) rest w s =
      value-object u levels _ ∙ empty_object (value u levels) rest
  object-Reads (member k v ms) h (suc levels) rest w s =
      let (few, wire) : (count_members (member k v ms) ≤ max_members)
          × MembersWire levels [] (member k v ms) =
        unfold IsWire in w in
      value-object u levels _
      ∙ ap (λ (cs : List ℕ). object (value u levels) (skip_ws cs)) (first_member k v ms rest)
      ∙ full_object (value u levels) k _ rest (member k v ms)
          (h levels max_members [] rest wire few)

  null-Reads : ReadsValue Json.null
  unfolding value dispatch kind_of print
  null-Reads zero rest w s = absurd (unfold IsWire in ground arith)
  null-Reads (suc levels) rest w s = refl

  boolean-Reads : (b : Bool) → ReadsValue (Json.boolean b)
  unfolding value dispatch kind_of print
  boolean-Reads b zero rest w s = absurd (unfold IsWire in ground arith)
  boolean-Reads true (suc levels) rest w s = refl
  boolean-Reads false (suc levels) rest w s = refl

  string-Reads : (cs : List ℕ) → ReadsValue (Json.string cs)
  unfolding value dispatch kind_of print escape_string IsWire
  string-Reads cs zero rest w s = absurd (ground arith)
  string-Reads cs (suc levels) rest w s =
      ap (λ (m : Result (List ℕ × List ℕ)). m >>= as_string)
        (ap string (append_assoc (escape_chars cs) (b'"' ∷ []) rest)
          ∙ string-escape_chars cs rest w)

  value-number :
      (levels : ℕ) (cs : List ℕ)
      → NumberFront cs
      → value u (suc levels) cs ≡ (number u cs >>= as_number)
  unfolding value
  value-number levels cs (c, rest, same, front) = rw same (
      ap (λ (k : Kind). dispatch u (value u levels) k (c ∷ rest)) (kind_of-number c front)
      ∙ unfold dispatch in refl)

  number-Reads : (n : ℤ) → ReadsValue (Json.number n)
  unfolding print IsWire
  number-Reads n zero rest w s = absurd (ground arith)
  number-Reads n (suc levels) rest w s =
      value-number levels (str n ++ rest) (str-NumberFront n rest)
      ∙ ap (λ (m : Result (ℤ × List ℕ)). m >>= as_number) (number-str u a n rest w s)

  print-Reads : (v : Json) → ReadsValue v
  print-Reads v = elim v as ReadsValue ItemsMotive MembersMotive [
    | Json.null ↦ null-Reads
    | Json.boolean b ↦ boolean-Reads b
    | Json.number n ↦ number-Reads n
    | Json.string cs ↦ string-Reads cs
    | Json.array (vs → ih) ↦ array-Reads vs ih
    | Json.object (ms → ih) ↦ object-Reads ms ih
    | nil ↦ unfold ItemsMotive in tt
    | cons (w → ih) (vs → ihs) ↦ unfold ItemsMotive in items_step w vs ih ihs
    | end ↦ unfold MembersMotive in tt
    | member k (w → ih) (ms → ihs) ↦ unfold MembersMotive in members_step k w ms ih ihs
  ]

  -- A value within the bounds of the wire profile that is printed, its members in any order, is
  -- read back: the parser returns it, its members in the order of the text.
  pub parse-print : (v : Json) → IsWire max_levels v → parse u (print v) ≡ ok v
  unfolding parse
  parse-print v w =
      let whole : value u max_levels (print v) ≡ ok (v, []) =
        rw (append-nil (print v)) at (print-Reads v max_levels [] w tt) in
      let same : skip_ws (print v) ≡ print v = rw (append-nil (print v)) at (skip_ws-print v []) in
      ap (λ (cs : List ℕ). value u max_levels cs >>= finish) same
      ∙ ap (λ (m : Result (Json × List ℕ)). m >>= finish) whole
      ∙ unfold skip_ws in refl

  -- Two values within the bounds of the wire profile that are printed alike are the same.
  pub print-injective :
      (v w : Json) → IsWire max_levels v → IsWire max_levels w → print v ≡ print w → v ≡ w
  print-injective v w x y e =
      ok-injective (sym (parse-print v x) ∙ ap (parse u) e ∙ parse-print w y)
