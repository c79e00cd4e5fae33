-- ===== src/Ledger/Holds.antt =====
-- The state of the transaction over the use case of payments, if it returns.
use mathlib.Core.Path.{subst}
use microservice_workspace.Base.{◌≡◌, refl, sym, Option, none, some, List, [], ◌∷◌}
use microservice_workspace.Base.Result.{
  Result, ok, err, Error, M, Post, Post-bind, ◌>>=◌, pure, from_result,
}
use microservice_workspace.Domain.{JournalEntry, Uuid}
use microservice_workspace.Domain.External.{External}
use microservice_workspace.Store.{
  idle, active, aborted, TxState, World, Db, EntryLineEntity, tx_rolled_back,
}
use microservice_workspace.Store.Calls.{new_uuid, time_now}
use microservice_workspace.Store.Tx.{
  statement, transaction, settle, in_state, finish, finish_nested, begun,
}
use microservice_workspace.Store.Journals.{insert_lines, insert_journal, create_lines}
use microservice_workspace.Store.Payments
use microservice_workspace.Store.Outbox
use microservice_workspace.Store.Idempotency
use microservice_workspace.Ledger.Payment.{Order, open_payment, close_payment}

module _ (X : External) (P : TxState → Type 0) where
  -- If the action returns, the transaction is in a state of the kind in which it was before.
  pub record Holds {A : Type 0} (m : M (World X) A) : Type 0 where
    pub run : (w : World X) → P w.tx → Post (λ _ v. P v.tx) (λ _ _. Unit) (m w)

  Holds-bind :
      {A B : Type 0} {m : M (World X) A} {k : A → M (World X) B}
      → Holds m
      → ((a : A) → Holds (k a))
      → Holds (m >>= k)
  Holds-bind {m = m} {k = k} h g = record {
    run = λ w p.
        Post-bind (λ _ v. P v.tx) (λ _ v. P v.tx) (λ _ _. Unit) m k w (h.run w p)
          (λ a v q. (g a).run v q);
  }

  pub pure-Holds : {A : Type 0} (a : A) → Holds (pure {W = World X} a)
  pure-Holds a = record { run = λ w p. p }

  pub from_result-Holds : {A : Type 0} (r : Result A) → Holds (from_result {W = World X} r)
  from_result-Holds (ok a) = record { run = λ w p. p }
  from_result-Holds (err e) = record { run = λ w p. tt }

  pub new_uuid-Holds : Holds (new_uuid X)
  unfolding new_uuid
  new_uuid-Holds = record { run = λ w p. p }

  pub time_now-Holds : Holds (time_now X)
  unfolding time_now
  time_now-Holds = record { run = λ w p. p }

  settled :
      {A : Type 0} (r : Result (A × Db X.Decimal)) (after : TxState) (w : World X)
      → P w.tx
      → Post (λ _ v. P v.tx) (λ _ _. Unit) (settle X after w r)
  settled (ok (a, db)) after w p = p
  settled (err e) after w p = tt

  executed :
      {A : Type 0} (q : Db X.Decimal → Result (A × Db X.Decimal)) (fault : Option Error)
      (after : TxState) (w : World X) (env' : X.Env)
      → P w.tx
      → Post
          (λ _ v. P v.tx)
          (λ _ _. Unit)
          (elim fault as (λ _. Result A × World X) [
            | some e ↦ (err e, record w { env = env'; tx = after })
            | none ↦ settle X after (record w { env = env' }) (q w.db)
          ])
  executed q (some e) after w env' p = tt
  executed q none after w env' p = settled (q w.db) after (record w { env = env' }) p

  statement-Holds :
      {A : Type 0} (q : Db X.Decimal → Result (A × Db X.Decimal)) → Holds (statement X q)
  unfolding statement
  statement-Holds {A} q = record { run = λ w p. go w p w.tx }
    where
      go :
          (w : World X)
          → P w.tx
          → (t : TxState) → Post (λ _ v. P v.tx) (λ _ _. Unit) (in_state X t q w)
      go w p idle = let (fault, env') = X.db_fault w.env in executed q fault idle w env' p
      go w p active = let (fault, env') = X.db_fault w.env in executed q fault aborted w env' p
      go w p aborted = tt

  finished :
      {A : Type 0} (before : Db X.Decimal) (r : Result A × World X)
      → P idle
      → Post (λ _ v. P v.tx) (λ _ _. Unit) (finish X before r)
  finished before (err e, w) p = tt
  finished {A} before (ok a, w) p = committed w.tx (X.db_fault w.env).0
    where
      committed :
          (t : TxState) (fault : Option Error)
          → Post
              (λ _ v. P v.tx)
              (λ _ _. Unit)
              (elim t as (λ _. Result A × World X) [
                | aborted ↦ (
                  err tx_rolled_back,
                  record w { tx = idle; env = (X.db_fault w.env).1; db = before },
                )
                | _ ↦ elim fault as (λ _. Result A × World X) [
                  | some e ↦
                      (err e, record w { tx = idle; env = (X.db_fault w.env).1; db = before })
                  | none ↦ (ok a, record w { tx = idle; env = (X.db_fault w.env).1 })
                ]
              ])
      committed idle (some e) = tt
      committed idle none = p
      committed active (some e) = tt
      committed active none = p
      committed aborted fault = tt

  nested :
      {A : Type 0} (before : Db X.Decimal) (r : Result A × World X)
      → Post (λ _ v. P v.tx) (λ _ _. Unit) r
      → Post (λ _ v. P v.tx) (λ _ _. Unit) (finish_nested X before r)
  nested before (ok a, w) h = h
  nested before (err e, w) h = tt

  transaction-Holds : {A : Type 0} {body : M (World X) A} → Holds body → Holds (transaction X body)
  unfolding transaction
  transaction-Holds {A} {body} h = record { run = λ w p. go w w.tx (X.db_fault w.env).0 p refl }
    where
      go :
          (w : World X) (t : TxState) (fault : Option Error)
          → P t
          → w.tx ≡ t
          → Post
              (λ _ v. P v.tx)
              (λ _ _. Unit)
              (begun X t fault body w (record w { env = (X.db_fault w.env).1 }))
      go w idle (some e) p s = tt
      go w idle none p s =
          finished w.db (body (record w { env = (X.db_fault w.env).1; tx = active })) p
      go w active (some e) p s = tt
      go w active none p s =
          nested w.db (body (record w { env = (X.db_fault w.env).1 }))
            (h.run (record w { env = (X.db_fault w.env).1 }) (subst P (sym s) p))
      go w aborted fault p s = tt

  insert_lines-Holds : (ls : List (EntryLineEntity X.Decimal)) → Holds (insert_lines X ls)
  unfolding insert_lines
  insert_lines-Holds [] = pure-Holds tt
  insert_lines-Holds (l ∷ ls) = statement-Holds (create_lines (l ∷ ls))

  insert_journal-Holds : (j : JournalEntry X.Decimal) → Holds (insert_journal X j)
  unfolding insert_journal
  insert_journal-Holds j =
      search (transaction-Holds, Holds-bind, statement-Holds, insert_lines-Holds)

  ruleset holding = (
    Holds-bind, from_result-Holds, pure-Holds, statement-Holds, new_uuid-Holds, time_now-Holds,
    insert_journal-Holds,
  )

  pub open_payment-Holds : (o : Order X) → Holds (open_payment X o)
  unfolding open_payment Payments.insert
  open_payment-Holds o = search holding depth 20

  pub close_payment-Holds : (o : Order X) (jid : Uuid) → Holds (close_payment X o jid)
  unfolding close_payment Outbox.insert Idempotency.put Payments.update_status
  close_payment-Holds o jid = search holding depth 20
