-- ===== src/Coordinator/Atomic.antt =====
-- Calls that raise leave the database as it was.
use vekquorum.Prelude.{ℕ, ◌≡◌, refl, ◌∙◌, ap, Bool, true, false, Option, List, Result, ok, err}
use vekquorum.Errors.{Code}
use vekquorum.Wire.{Action, Caller, Capability, Enrichment, EscalationReason, Policy, SignedVote}
use vekquorum.Coordinator.Tables.{Config, Coordinator, Db, Host, Meta}
use vekquorum.Coordinator.Exec.{Exec, pure, raise, raise_unless, continue, settle, tx, ◌>>=◌}
use vekquorum.Coordinator.Rows.{authorize}
use vekquorum.Coordinator.Configure.{configure}
use vekquorum.Coordinator.Propose.{propose}
use vekquorum.Coordinator.Submit.{submit}
use vekquorum.Coordinator.Requests.{get, cancel, escalate}
use vekquorum.Coordinator.Deliver.{deliver}
use vekquorum.Coordinator.Reconcile.{export_proof}

-- the database where a method raises
abbrev Kept : {A : Type 0} → Db → Result A → Coordinator → Type 0
Kept before (ok a) s = Unit
Kept before (err e) s = s.db ≡ before

-- If the method raises, the database is as it was.
pub record IsAtomic {A : Type 0} (m : Exec A) : Type 0 where
  pub kept : (s : Coordinator) → Kept s.db (m s).0 (m s).1

-- The method leaves the state alone.
pub record IsReading {A : Type 0} (m : Exec A) : Type 0 where
  pub still : (s : Coordinator) → (m s).1 ≡ s

module _ {A : Type 0} where
  settle-Kept :
      (s : Coordinator) (r : Result A) (t : Coordinator)
      → let (r', u) = settle s.db r t in Kept s.db r' u
  settle-Kept s (ok a) t = tt
  settle-Kept s (err e) t = refl

  tx-IsAtomic : (m : Exec A) → IsAtomic (tx m)
  unfolding tx
  tx-IsAtomic m = record { kept = λ s. settle-Kept s (m s).0 (m s).1 }

raise_unless-IsReading : (b : Bool) (e : Code) → IsReading (raise_unless b e)
unfolding raise_unless pure raise
raise_unless-IsReading true e = record { still = λ s. refl }
raise_unless-IsReading false e = record { still = λ s. refl }

module _ {A B : Type 0} where
  continue-Kept :
      (s : Coordinator) (r : Result A) (f : A → Exec B) (t : Coordinator)
      → t ≡ s
      → ((a : A) → IsAtomic (f a))
      → let (r', u) = continue r f t in Kept s.db r' u
  continue-Kept s (ok a) f t h q = rw (← h) ((q a).kept t)
  continue-Kept s (err e) f t h q = ap (λ (x : Coordinator). x.db) h

  bind-IsAtomic :
      (m : Exec A) (f : A → Exec B) → IsReading m → ((a : A) → IsAtomic (f a)) → IsAtomic (m >>= f)
  unfolding ◌>>=◌
  bind-IsAtomic m f r q = record { kept = λ s. continue-Kept s (m s).0 f (m s).1 (r.still s) q }

  continue-still :
      (s : Coordinator) (r : Result A) (f : A → Exec B) (t : Coordinator)
      → t ≡ s
      → ((a : A) → IsReading (f a))
      → (continue r f t).1 ≡ s
  continue-still s (ok a) f t h q = (q a).still t ∙ h
  continue-still s (err e) f t h q = h

  bind-IsReading :
      (m : Exec A) (f : A → Exec B)
      → IsReading m
      → ((a : A) → IsReading (f a))
      → IsReading (m >>= f)
  unfolding ◌>>=◌
  bind-IsReading m f r q = record { still = λ s. continue-still s (m s).0 f (m s).1 (r.still s) q }

authorize-IsReading :
    (c : Config) (caller : Caller) (k : Capability) → IsReading (authorize c caller k)
unfolding authorize
authorize-IsReading c caller k = search (raise_unless-IsReading, bind-IsReading) depth 5

ruleset atomic = (raise_unless-IsReading, authorize-IsReading, bind-IsAtomic, tx-IsAtomic)

-- A call of `configure`, `propose`, `submit`, `get`, `cancel`, `escalate`, `deliver` or
-- `export_proof` that raises leaves the database as it was before the call: no event, vote,
-- response or clock reading of it remains.
pub calls-IsAtomic :
    (c : Config) (meta : Meta)
    → ((n : ℕ) (p : Policy) (denied revoked : List ℕ)
        → IsAtomic (configure c n p denied revoked meta))
      × ((a : Action) (p : Policy) (e : Option Enrichment) → IsAtomic (propose c a p e meta))
      × ((id n : ℕ) (v : SignedVote) → IsAtomic (submit c id n v meta))
      × ((id : ℕ) → IsAtomic (get c id meta))
      × ((id n : ℕ) → IsAtomic (cancel c id n meta))
      × ((id n : ℕ) (r : EscalationReason) → IsAtomic (escalate c id n r meta))
      × ((h : Host) (id : ℕ) → IsAtomic (deliver c h id meta))
      × ((id : ℕ) → IsAtomic (export_proof c id meta))
unfolding configure propose submit get cancel escalate deliver export_proof
calls-IsAtomic c meta = (
  (λ n p denied revoked. search (atomic) depth 10),
  (λ a p e. search (atomic) depth 10),
  (λ id n v. search (atomic) depth 10),
  (λ id. search (atomic) depth 10),
  (λ id n. search (atomic) depth 10),
  (λ id n r. search (atomic) depth 10),
  (λ h id. search (atomic) depth 10),
  (λ id. search (atomic) depth 10),
)
