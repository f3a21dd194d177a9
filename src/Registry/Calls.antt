-- ===== src/Registry/Calls.antt =====
-- Sequences of calls of a registry. The reads change nothing and are left out.
use vekquorum.Prelude.{ℕ, Option, List, [], ◌∷◌, Result}
use vekquorum.Wire.{Policy, Proof}
use vekquorum.Wire.Digests.{Digests}
use vekquorum.Registry.Tables.{Db, Registry}
use vekquorum.Registry.Policies.{put_policy}
use vekquorum.Registry.Proofs.{put_proof, verify}

pub data Call : Type 0 where
  verify_call : (tenant now : ℕ) → Result Proof → Call
  policy_call : (tenant principal : ℕ) → Option ℕ → Result Policy → Call
  proof_call : (tenant principal : ℕ) → Option ℕ → ℕ → Result Proof → Call

-- the database after a call, which may have raised
unfoldable pub after : Digests → Registry → Call → Db → Db
after d r (verify_call tenant now decoded) db = (verify d r tenant now decoded db).1
after d r (policy_call tenant principal key decoded) db =
    (put_policy d r tenant principal key decoded db).1
after d r (proof_call tenant principal key now decoded) db =
    (put_proof d r tenant now decoded principal key db).1

unfoldable pub after_all : Digests → Registry → List Call → Db → Db
unfolding after
after_all d r [] db = db
after_all d r (c ∷ cs) db = after_all d r cs (after d r c db)
