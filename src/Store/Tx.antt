-- ===== src/Store/Tx.antt =====
-- One SQL statement, and transactions as gorm runs them: `DoWrite` and `DoRead` of
-- micro/ledger/internal/infra/out/persistence/gorm/uow/uow.go and db.Transaction, which is a
-- savepoint inside an open transaction. What PostgreSQL documents is written out: a failed
-- statement aborts the open transaction, and a commit of an aborted transaction rolls back.

pub mod Laws
use microservice_workspace.Base.{none, some, Option}
use microservice_workspace.Base.Result.{Result, ok, err, M, Error}
use microservice_workspace.Domain.External.{External}
use microservice_workspace.Store.{
  Db, TxState, idle, active, aborted, World, tx_aborted, tx_rolled_back,
}

module _ (X : External) where
  module _ {A : Type 0} where
    -- The statement's effect on the tables; `after` is the transaction's state if it fails.
    abbrev pub settle : TxState → World X → Result (A × Db X.Decimal) → Result A × World X
    settle after w (ok (a, db')) = (ok a, record w { db = db' })
    settle after w (err e) = (err e, record w { tx = after })

    abbrev pub execute :
        (Db X.Decimal → Result (A × Db X.Decimal)) → TxState → World X → Result A × World X
    execute q after w =
        let (fault, env') = X.db_fault w.env in
        let w' : World X = record w { env = env' } in
        elim fault [ some e ↦ (err e, record w' { tx = after }) | none ↦ settle after w' (q w.db) ]

    abbrev pub in_state :
        TxState → (Db X.Decimal → Result (A × Db X.Decimal)) → World X → Result A × World X
    in_state idle q w = execute q idle w
    in_state active q w = execute q aborted w
    in_state aborted q w = (err tx_aborted, w)

    unfoldable pub statement : (Db X.Decimal → Result (A × Db X.Decimal)) → M (World X) A
    statement q w = in_state w.tx q w

    -- COMMIT. The tables go back to `before` unless it succeeds.
    abbrev pub commit : Db X.Decimal → A → World X → Result A × World X
    commit before a w =
        let (fault, env') = X.db_fault w.env in
        let w' : World X = record w { tx = idle; env = env' } in
        elim w.tx [
          | aborted ↦ (err tx_rolled_back, record w' { db = before })
          | _ ↦ elim fault [ some e ↦ (err e, record w' { db = before }) | none ↦ (ok a, w') ]
        ]

    -- COMMIT if the body returned, ROLLBACK if it failed.
    abbrev pub finish : Db X.Decimal → Result A × World X → Result A × World X
    finish before (ok a, w) = commit before a w
    finish before (err e, w) = (err e, record w { db = before; tx = idle })

    -- ROLLBACK TO SAVEPOINT if the body failed.
    abbrev pub finish_nested : Db X.Decimal → Result A × World X → Result A × World X
    finish_nested before (ok a, w) = (ok a, w)
    finish_nested before (err e, w) = (err e, record w { db = before; tx = active })

    -- BEGIN or SAVEPOINT, which can fail as any statement can: by the state of the transaction and
    -- the fault, from the world `w` before it to `w'` after it.
    abbrev pub begun :
        TxState → Option Error → M (World X) A → World X → World X → Result A × World X
    begun idle (some e) body w w' = (err e, w')
    begun idle none body w w' = finish w.db (body (record w' { tx = active }))
    begun active (some e) body w w' = (err e, record w' { tx = aborted })
    begun active none body w w' = finish_nested w.db (body w')
    begun aborted fault body w w' = (err tx_aborted, w)

    unfoldable pub transaction : M (World X) A → M (World X) A
    transaction body w =
        let (fault, env') = X.db_fault w.env in begun w.tx fault body w (record w { env = env' })

    -- `gormUnitOfWork.DoWrite`
    unfoldable pub do_write : M (World X) A → M (World X) A
    unfolding transaction
    do_write fn = transaction fn

    -- `gormUnitOfWork.DoRead`: the repositories on the plain connection, with no transaction.
    unfoldable pub do_read : M (World X) A → M (World X) A
    do_read fn = fn
