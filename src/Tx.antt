-- ===== src/Tx.antt =====
-- pkg/sqlutil/tx.go: `InTx`. The body runs on the tables as they are; ROLLBACK puts back those that
-- BEGIN found, also where its answer is an error, since the server then drops the connection.
-- Transactions run one after another: what other clients of the server do between BEGIN and COMMIT
-- is not modelled.
pub mod Atomic
pub mod Tests
use gxydb_api.Base.{ℕ, ◌+◌, String, Option, none, some}
use gxydb_api.Errors.{Error, tx_error, with_stack, Outcome, ok, err, panic}
use gxydb_api.Models.{Db}
use gxydb_api.World.{Env, Commit, committed, refused, lost, World, Action, counted}

-- The text and the cause of a `*TxError`.
abbrev wrapping_tx_error : Error → String → Error
wrapping_tx_error e message = with_stack (tx_error e message)

-- `tx.Rollback()`, and the error that it gives.
abbrev rollback : {C : Type 0} → Env → Db → World C → Option Error × World C
rollback env saved w = (env.fault w.calls, record w { db = saved; calls = w.calls + 1 })

abbrev finish_commit : {C A : Type 0} → Env → Db → A → World C → Outcome A × World C
finish_commit env saved a w = elim (env.commit w.calls) [
  | committed ↦ (ok a, counted w)
  | refused e ↦
      (err (wrapping_tx_error e "tx.Commit"), record w { db = saved; calls = w.calls + 1 })
  | lost e ↦ (err (wrapping_tx_error e "tx.Commit"), counted w)
]

abbrev finish_error : {C A : Type 0} → Env → Db → Error → World C → Outcome A × World C
finish_error env saved e w =
    let (failed, v) = rollback env saved w in
    elim failed [ none ↦ (err e, v) | some _ ↦ (err (wrapping_tx_error e "tx.Rollback"), v) ]

unfoldable pub in_tx : {C A : Type 0} → Env → Action C A → Action C A
in_tx env body w = elim (env.fault w.calls) [
  | some e ↦ (err (wrapping_tx_error e "begin tx"), counted w)
  | none ↦
      let (r, v) = body (counted w) in
      elim r [
        | ok a ↦ finish_commit env w.db a v
        | err e ↦ finish_error env w.db e v
        | panic p ↦ (panic p, (rollback env w.db v).1)
      ]
]
