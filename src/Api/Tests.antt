-- ===== src/Api/Tests.antt =====
-- Runs of api.py: the tally of the votes on a refund, and a vote that is signed and counted.
use vekquorum.Prelude.{
  ℕ, ◌≡◌, refl, true, false, none, List, [], ◌∷◌, ◌++◌, ok, err, vq, length, set_of, arith,
}
use vekquorum.Errors.{vote_conflict, key_not_enrolled, hash_mismatch, invalid_key}
use vekquorum.Wire.{approve, reject, SignedVote}
use vekquorum.Demo.{toy, demo_policy, demo_action, demo_vote}
use vekquorum.Verifier.Quorum.{meets, approving_keys, principals_in}
use vekquorum.Schema.{policy, v_uint, policy_invariants, members}
use vekquorum.Api.{
  Tally, tally, count_ballots, check_ballot, count_ballot, approve_by, tally_of, sign_vote,
  enrichment_binding,
}
use vekquorum.Api.Counted.{tally-meets}
use vekquorum.Api.Signed.{IsAfter, sign_vote-tally}

abbrev one_vote : List SignedVote
one_vote = demo_vote 21 approve ∷ []

abbrev both_votes : List SignedVote
both_votes = demo_vote 21 approve ∷ demo_vote 22 approve ∷ []

abbrev one_tally : Tally
one_tally = record { approvals = 1; human_approvals = 1; satisfied = false }

abbrev both_tally : Tally
both_tally = record { approvals = 2; human_approvals = 1; satisfied = true }

one_counted : tally toy demo_action demo_policy one_vote ≡ ok one_tally
unfolding tally count_ballots check_ballot count_ballot approve_by tally_of
one_counted = refl

both_counted : tally toy demo_action demo_policy both_votes ≡ ok both_tally
unfolding tally count_ballots check_ballot count_ballot approve_by tally_of
both_counted = refl

twice_counted :
    tally toy demo_action demo_policy (demo_vote 21 approve ∷ demo_vote 21 reject ∷ [])
    ≡ err (vq vote_conflict)
unfolding tally count_ballots check_ballot count_ballot approve_by tally_of
twice_counted = refl

stranger_counted :
    tally toy demo_action demo_policy (demo_vote 29 approve ∷ []) ≡ err (vq key_not_enrolled)
unfolding tally count_ballots check_ballot count_ballot approve_by tally_of
stranger_counted = refl

agent_signs :
    sign_vote toy (λ seed. seed) demo_action demo_policy none 22 approve 1005 42
    ≡ ok (demo_vote 22 approve)
unfolding sign_vote enrichment_binding
agent_signs = refl

other_hash_confirmed :
    sign_vote toy (λ seed. seed) demo_action demo_policy none 22 approve 1006 42
    ≡ err (vq hash_mismatch)
unfolding sign_vote enrichment_binding
other_hash_confirmed = refl

other_key_signs :
    sign_vote toy (λ seed. seed) demo_action demo_policy none 22 approve 1005 41
    ≡ err (vq invalid_key)
unfolding sign_vote enrichment_binding
other_key_signs = refl

demo_policy_ok : policy toy demo_policy ≡ ok tt
unfolding policy v_uint policy_invariants members
demo_policy_ok = refl

tally-meets_example :
    (true ≡ meets demo_policy (set_of (approving_keys demo_policy.roster both_votes)))
    × (2
        ≡ length (
            set_of (
              principals_in demo_policy.roster
                (set_of (approving_keys demo_policy.roster both_votes)))))
tally-meets_example = tally-meets toy demo_action demo_policy both_votes demo_policy_ok both_counted

toy_signs : (seed n : ℕ) → toy.ed_verify seed (toy.ed_sign seed n) n ≡ ok tt
toy_signs seed n = ground arith

sign_vote-tally_example :
    (t : Tally) × (tally toy demo_action demo_policy (one_vote ++ demo_vote 22 approve ∷ []) ≡ ok t)
    × IsAfter approve one_tally t
sign_vote-tally_example =
    sign_vote-tally toy (λ seed. seed) toy_signs demo_action demo_policy none 22 approve 1005 42
      one_vote one_counted refl agent_signs
