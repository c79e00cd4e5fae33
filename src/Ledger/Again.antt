-- ===== src/Ledger/Again.antt =====
-- A call that is sent again with its key, after it has succeeded.
use microservice_workspace.Ledger.Atomic.{
  post_payment-Atomic, credit_account-Atomic, credit_account_system-Atomic,
}
use microservice_workspace.Domain.{
  Actor, CreditAccountResult, PostPaymentCommand, PostPaymentResult, CreditAccountSystemCommand,
  CreditAccountCommand,
}
use microservice_workspace.Ledger.Replay.{IsAnswered, IsAmount, post_payment-eq, guarded-eq}
use microservice_workspace.Ledger.Credit.{
  guarded, new_booking, credit_account_system, credit_account, user_booking, system_booking,
  system_audit, user_audit,
}
use microservice_workspace.Ledger.Payment.{post_payment}
use microservice_workspace.Store.Tx.Laws.{Atomic}
use microservice_workspace.Base.Result.{M, Post, ok}
use microservice_workspace.Store.{World, idle}
use microservice_workspace.Domain.External.{External, Laws}
use microservice_workspace.Ledger.Kept.{
  IsKept, Kept, find-insert_new, post_payment-Kept, guarded-Kept, new_booking-Records,
}
use mathlib.Core.Path.{subst, ◌∙◌, ap}
use microservice_workspace.Base.{◌≡◌, refl, sym, none, some, false, find, Option, ap}
use microservice_workspace.Base.Text.{Text, is_empty}
use microservice_workspace.Store.Idempotency
use microservice_workspace.Ledger.Keys.{keys}
use microservice_workspace.Ledger.Records.{Records}

module _ (X : External) where
  -- What a kept answer gives the next call with its key.
  module _ {A : Type 0} (marshal : A → Text) (unmarshal : Text → Option A)
      (nonempty : (a : A) → is_empty (marshal a) ≡ false)
      (back : (a : A) → unmarshal (marshal a) ≡ some a) (key : Text) (w v : World X) (o : Option A)
      (new_key : find (Idempotency.has_key key) (keys w) ≡ none)
      (kept : IsKept marshal key w o v) where
    answered : IsAnswered X v key
    answered =
        let r = kept.recorded in
        record {
          row = r.row;
          found = rw (r.stored) (find-insert_new key r.row (keys w) r.row_key new_key);
          nonempty = rw (r.row_response) (nonempty kept.value);
        }

    unmarshal-answered : unmarshal answered.row.response_json ≡ o
    unfolding answered
    unmarshal-answered =
        ap unmarshal kept.recorded.row_response ∙ back kept.value ∙ sym kept.is_value

  closed :
      {A : Type 0} (m : M (World X) A) (w v : World X) (a : A)
      → Atomic m w
      → m w ≡ (ok a, v)
      → v.tx ≡ idle
  closed m w v a h e =
      subst (λ r. Post (λ _ w'. w'.tx ≡ idle) (λ _ w'. (w'.db ≡ w.db) × (w'.tx ≡ idle)) r) e h

-- The call `m` has succeeded for a key that had no row, from a connection without an open
-- transaction, and the database does not fail when the record is read again.
module _ (X : External) (laws : Laws X) (w v : World X) (start : w.tx ≡ idle)
    (no_fault : (X.db_fault v.env).0 ≡ none) where
  -- From a connection without an open transaction, a payment under a key without a stored response
  -- that succeeds, and is sent again when no other call has come between and the database does not
  -- fail, its amount being one that float64 represents exactly, has the same result, and changes
  -- nothing: no table, and no call leaves the process.
  pub post_payment-again :
      (actor : Actor) (cmd : PostPaymentCommand) (o : Option PostPaymentResult)
      → find (Idempotency.has_key cmd.idempotency_key) w.db.idempotency_records ≡ none
      → post_payment X actor cmd w ≡ (ok o, v)
      → (m : IsAmount X v cmd.amount)
      → post_payment X actor cmd v ≡ (ok o, record v { env = (X.db_fault v.env).1 })
  post_payment-again actor cmd o new_key ran m =
      let k = Post-ran (post_payment-Kept X actor cmd w new_key) in
      post_payment-eq X v actor cmd
        (record {
          start =
              closed X (post_payment X actor cmd) w v o (post_payment-Atomic X w start actor cmd)
                ran;
          no_fault = no_fault;
        })
        (answered X X.marshal_payment X.unmarshal_payment laws.marshal_payment-nonempty
          laws.unmarshal-marshal_payment cmd.idempotency_key w v o new_key k)
        m
      ∙ ap (λ r. (ok r, record v { env = (X.db_fault v.env).1 }))
          (unmarshal-answered X X.marshal_payment X.unmarshal_payment laws.marshal_payment-nonempty
            laws.unmarshal-marshal_payment cmd.idempotency_key w v o new_key k)
    where
      Post-ran :
          Kept X.marshal_payment cmd.idempotency_key w (post_payment X actor cmd w)
          → IsKept X.marshal_payment cmd.idempotency_key w o v
      Post-ran h = subst (λ r. Kept X.marshal_payment cmd.idempotency_key w r) ran h

  guarded-again :
      (amount key account currency : Text) (proceed : X.Decimal → M (World X) CreditAccountResult)
      (o : Option CreditAccountResult)
      → find (Idempotency.has_key key) w.db.idempotency_records ≡ none
      → ((amt : X.Decimal) → Records X.marshal_credit key (proceed amt))
      → Atomic (guarded X amount key account currency proceed) w
      → guarded X amount key account currency proceed w ≡ (ok o, v)
      → (m : IsAmount X v amount)
      → guarded X amount key account currency proceed v
        ≡ (ok o, record v { env = (X.db_fault v.env).1 })
  guarded-again amount key account currency proceed o new_key h atomic ran m =
      let k =
        subst (λ r. Kept X.marshal_credit key w r) ran
          (guarded-Kept X amount key account currency proceed w new_key h) in
      guarded-eq X v amount key account currency proceed
        (record {
          start = closed X (guarded X amount key account currency proceed) w v o atomic ran;
          no_fault = no_fault;
        })
        (answered X X.marshal_credit X.unmarshal_credit laws.marshal_credit-nonempty
          laws.unmarshal-marshal_credit key w v o new_key k)
        m
      ∙ ap (λ r. (ok r, record v { env = (X.db_fault v.env).1 }))
          (unmarshal-answered X X.marshal_credit X.unmarshal_credit laws.marshal_credit-nonempty
            laws.unmarshal-marshal_credit key w v o new_key k)

  -- From a connection without an open transaction, a credit under a key without a stored response
  -- that succeeds, and is sent again when no other call has come between and the database does not
  -- fail, its amount being one that float64 represents exactly, has the same result, and changes
  -- nothing: no table, and no call leaves the process.
  pub credit_account-again :
      (actor : Actor) (cmd : CreditAccountCommand) (o : Option CreditAccountResult)
      → find (Idempotency.has_key cmd.idempotency_key) w.db.idempotency_records ≡ none
      → credit_account X actor cmd w ≡ (ok o, v)
      → (m : IsAmount X v cmd.amount)
      → credit_account X actor cmd v ≡ (ok o, record v { env = (X.db_fault v.env).1 })
  unfolding credit_account
  credit_account-again actor cmd o new_key ran m =
      guarded-again cmd.amount cmd.idempotency_key (X.uuid_string cmd.account_id) cmd.currency
        (λ amt. new_booking X (user_booking X actor cmd amt) (user_audit X cmd amt)) o new_key
        (λ amt.
          new_booking-Records X cmd.idempotency_key (user_booking X actor cmd amt)
            (user_audit X cmd amt) λ _ _. refl)
        (credit_account-Atomic X w start actor cmd) ran m

  -- From a connection without an open transaction, a system credit under a key without a stored
  -- response that succeeds, and is sent again when no other call has come between and the database
  -- does not fail, its amount being one that float64 represents exactly, has the same result, and
  -- changes nothing: no table, and no call leaves the process.
  pub credit_account_system-again :
      (cmd : CreditAccountSystemCommand) (o : Option CreditAccountResult)
      → find (Idempotency.has_key cmd.idempotency_key) w.db.idempotency_records ≡ none
      → credit_account_system X cmd w ≡ (ok o, v)
      → (m : IsAmount X v cmd.amount)
      → credit_account_system X cmd v ≡ (ok o, record v { env = (X.db_fault v.env).1 })
  unfolding credit_account_system
  credit_account_system-again cmd o new_key ran m =
      guarded-again cmd.amount cmd.idempotency_key (X.uuid_string cmd.account_id) cmd.currency
        (λ amt. new_booking X (system_booking X cmd amt) (system_audit X cmd amt)) o new_key
        (λ amt.
          new_booking-Records X cmd.idempotency_key (system_booking X cmd amt)
            (system_audit X cmd amt) λ _ _. refl)
        (credit_account_system-Atomic X w start cmd) ran m
