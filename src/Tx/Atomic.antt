-- ===== src/Tx/Atomic.antt =====
-- `InTx` (pkg/sqlutil/tx.go) is atomic on the tables, and on nothing else.
use gxydb_api.Base.{ℕ, ◌≡◌, Bool, true, false, arith, none}
use gxydb_api.Errors.{Outcome, ok}
use gxydb_api.World.{Env, Commit, committed, lost, World, Action, counted}
use gxydb_api.Tx.{in_tx}

-- The transaction was carried out although its COMMIT reported an error.
abbrev pub is_lost : Commit → Bool
is_lost (lost _) = true
is_lost _ = false

-- No answer of a COMMIT is lost.
abbrev pub NoLoss : Env → Type 0
NoLoss env = (n : ℕ) → is_lost (env.commit n) ≡ false

abbrev pub is_ok : {A : Type 0} → Outcome A → Bool
is_ok (ok _) = true
is_ok _ = false

module _ {C A : Type 0} (env : Env) (body : Action C A) (w : World C) where
  -- If a transaction succeeds with a value, it could begin, its body succeeded with that value, the
  -- commit was carried out and acknowledged, and the state is that after the body and the commit.
  pub in_tx-eq-ok :
      (a : A) (v : World C)
      → in_tx env body w ≡ (ok a, v)
      → (env.fault w.calls ≡ none)
        × ((body (counted w)).0 ≡ ok a)
        × (v ≡ counted (body (counted w)).1)
        × (env.commit (body (counted w)).1.calls ≡ committed)
  unfolding in_tx
  in_tx-eq-ok a v h = ground arith

  -- A transaction that does not succeed, by an error or by a panic of its body, leaves the tables
  -- as they were, where no answer to COMMIT is lost.
  pub in_tx-rollback :
      NoLoss env → is_ok (in_tx env body w).0 ≡ false → (in_tx env body w).1.db ≡ w.db
  unfolding in_tx
  in_tx-rollback h fails = ground (arith, h (body (counted w)).1.calls)

  -- The caches are not part of the transaction: once it has begun, what its body wrote to them
  -- stays, also after a rollback.
  pub in_tx-cache :
      env.fault w.calls ≡ none → (in_tx env body w).1.cache ≡ (body (counted w)).1.cache
  unfolding in_tx
  in_tx-cache h = ground arith
