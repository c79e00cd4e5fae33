-- ===== src/Ledger/Unwritten.antt =====
-- The transaction of a payment on the table payment_steps as the migration creates it, without the
-- column to which the entity's details are written.
use mathlib.Core.Path.{subst}
use microservice_workspace.Base.{◌≡◌, ◌≢◌, ◌∙◌, refl, sym, Option, none, some}
use microservice_workspace.Base.Text.{lit}
use microservice_workspace.Base.Result.{Result, ok, err, Error, Post, Post-bind, ◌>>=◌, attempt}
use microservice_workspace.Domain.{Uuid, PaymentStep}
use microservice_workspace.Domain.External.{External}
use microservice_workspace.Store.{
  idle, active, aborted, TxState, World, migrated_step_columns, undefined_column, Db,
}
use microservice_workspace.Store.Calls.{new_uuid}
use microservice_workspace.Store.Tx.{statement, do_write, settle, in_state, finish, begun}
use microservice_workspace.Store.Payments
use microservice_workspace.Ledger.Holds.{open_payment-Holds, close_payment-Holds}
use microservice_workspace.Ledger.Payment.{
  Order, open_payment, close_payment, record_steps, write_payment, hold_step, ledger_step,
}

module _ (X : External) (migrated : X.step_columns ≡ migrated_step_columns) where
  -- A step is refused, which aborts the transaction.
  insert_step-aborts :
      (s : PaymentStep) (w : World X)
      → w.tx ≢ idle
      → (attempt (Payments.insert_step X s) w).1.tx ≡ aborted
  unfolding Payments.insert_step Payments.create_step statement lit
  insert_step-aborts s w h = go w.tx refl (X.db_fault w.env).0
    where
      refused :
          (db : Db X.Decimal)
          → Payments.create_step X.step_columns (Payments.step_row s) db ≡ err undefined_column
      refused db = rw migrated refl

      executed_step :
          (fault : Option Error)
          → (elim fault as (λ _. Result (Unit {0}) × World X) [
            | some e ↦ (err e, record w { env = (X.db_fault w.env).1; tx = aborted })
            | none ↦
                settle X aborted
                  (record w { env = (X.db_fault w.env).1 })
                  (Payments.create_step X.step_columns (Payments.step_row s) w.db)
          ]).1.tx
            ≡ aborted
      executed_step (some e) = refl
      executed_step none = rw (refused w.db) refl

      go :
          (t : TxState)
          → w.tx ≡ t
          → Option Error
          → (in_state X t (Payments.create_step X.step_columns (Payments.step_row s)) w).1.tx
            ≡ aborted
      go idle e fault = elim (h e) [ ]
      go active e fault = executed_step (X.db_fault w.env).0
      go aborted e fault = e

  aborted-inside : (t : TxState) → t ≡ aborted → t ≢ idle
  aborted-inside t h e = let k : aborted ≡ idle = sym h ∙ e in cc

  record_steps-aborts :
      (o : Order X) (jid : Uuid) (w : World X)
      → w.tx ≢ idle
      → Post (λ _ v. v.tx ≡ aborted) (λ _ _. Unit) (record_steps X o jid w)
  unfolding record_steps new_uuid
  record_steps-aborts o jid w h =
      let (step1, env1) = X.new_uuid w.env in
      let v =
        (attempt (Payments.insert_step X (hold_step X o step1)) (record w { env = env1 })).1 in
      let a = insert_step-aborts (hold_step X o step1) (record w { env = env1 }) h in
      let (step2, env2) = X.new_uuid v.env in
      insert_step-aborts (ledger_step X o jid step2) (record v { env = env2 })
        (aborted-inside v.tx a)

  write_payment-aborts :
      (o : Order X) (w : World X)
      → w.tx ≢ idle
      → Post (λ _ v. v.tx ≡ aborted) (λ _ _. Unit) (write_payment X o w)
  unfolding write_payment
  write_payment-aborts o w h =
      Post-bind (λ _ v. v.tx ≢ idle) (λ _ v. v.tx ≡ aborted) (λ _ _. Unit) (open_payment X o)
        (λ jid. record_steps X o jid >>= λ _. close_payment X o jid) w
        ((open_payment-Holds X (λ t. t ≢ idle) o).run w h)
        λ jid v k.
          Post-bind (λ _ v. v.tx ≡ aborted) (λ _ v. v.tx ≡ aborted) (λ _ _. Unit)
            (record_steps X o jid) (λ _. close_payment X o jid) v (record_steps-aborts o jid v k)
            λ _ u a. (close_payment-Holds X (λ t. t ≡ aborted) o jid).run u a

  unfoldable pub Fails : {A : Type 0} → Result A × World X → Type 0
  Fails r = Post (λ _ _. ⊥) (λ _ _. Unit) r

  finished-Fails :
      {A : Type 0} (before : Db X.Decimal) (r : Result A × World X)
      → Post (λ _ v. v.tx ≡ aborted) (λ _ _. Unit) r
      → Fails (finish X before r)
  unfolding Fails
  finished-Fails before (ok a, w) h = rw h tt
  finished-Fails before (err e, w) h = tt

  -- Outside a transaction, the transaction of a payment fails.
  pub write_payment-Fails :
      (o : Order X) (w : World X) → w.tx ≡ idle → Fails (do_write X (write_payment X o) w)
  unfolding do_write Fails
  write_payment-Fails o w h =
      let (fault, env') = X.db_fault w.env in
      subst (λ t. Fails (begun X t fault (write_payment X o) w (record w { env = env' }))) (sym h)
        (go fault env')
    where
      go :
          (fault : Option Error) (env' : X.Env)
          → Fails (begun X idle fault (write_payment X o) w (record w { env = env' }))
      go (some e) env' = tt
      go none env' =
          finished-Fails w.db (write_payment X o (record w { env = env'; tx = active })) (
            write_payment-aborts o (record w { env = env'; tx = active })
              (λ e. let k : active ≡ idle = e in cc))
