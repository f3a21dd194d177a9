-- ===== src/Verifier/Quorum.antt =====
-- The quorum rule of verifier.py, as `_replay` and `_quorum` state it.
use vekquorum.Prelude.{
  ℕ, Bool, true, false, Option, none, some, List, [], ◌∷◌, ◌&&◌, ◌||◌, not, leb, length, set_of,
  all, Result, ok, err, fault, if◌then◌else◌,
}
use vekquorum.Wire.{Policy, Member, SignedVote, is_human, is_approve}
use vekquorum.Verifier.Signatures.{member_of}

abbrev pub is_member : List Member → ℕ → Bool
is_member roster k = elim (member_of roster k) [ none ↦ false | some _ ↦ true ]

abbrev cons_principal : Option Member → List ℕ → List ℕ
cons_principal none rest = rest
cons_principal (some m) rest = m.principal_id ∷ rest

-- `[members[k]["principal_id"] for k in keys]`, without the keys of no member
unfoldable pub principals_in : List Member → List ℕ → List ℕ
principals_in roster [] = []
principals_in roster (k ∷ ks) = cons_principal (member_of roster k) (principals_in roster ks)

-- the same with the `KeyError` of a key of no member
unfoldable pub principals_of : List Member → List ℕ → Result (List ℕ)
unfolding principals_in
principals_of roster ks =
    if all (is_member roster) ks then ok (principals_in roster ks) else err fault

abbrev pub is_human_member : Option Member → Bool
is_human_member none = false
is_human_member (some m) = is_human m.kind

-- `any(members[k]["kind"] == "human" for k in keys)`
unfoldable pub has_human : List Member → List ℕ → Bool
has_human roster [] = false
has_human roster (k ∷ ks) = is_human_member (member_of roster k) || has_human roster ks

-- enough distinct principals, and a human one where the policy wants that
unfoldable pub meets : Policy → List ℕ → Bool
unfolding principals_in has_human
meets p ks =
    leb p.threshold (length (set_of (principals_in p.roster ks)))
    && (not p.require_human || has_human p.roster ks)

-- the key ids of the members whose retained vote approves
unfoldable pub approving_keys : List Member → List SignedVote → List ℕ
approving_keys roster [] = []
approving_keys roster (v ∷ vs) =
    let rest = approving_keys roster vs in
    if is_approve v.body.decision && is_member roster v.body.key_id
    then v.body.key_id ∷ rest
    else rest
