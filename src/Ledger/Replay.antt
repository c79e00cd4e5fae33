-- ===== src/Ledger/Replay.antt =====
-- Repeated idempotency keys: a call whose key has a stored response.
use microservice_workspace.Store.Tx.{do_read, statement}
use microservice_workspace.Ledger.Rules.{cached_json}
use microservice_workspace.Ledger.Credit.{
  guarded, credit_account, answer_or_book, credit_account_system,
}
use microservice_workspace.Ledger.Payment.{post_payment, answer_or_start}
use microservice_workspace.Base.{refl, ◌≡◌, ◌∙◌, true, false, none, some, find, ap}
use microservice_workspace.Base.Text.{Text, is_empty}
use microservice_workspace.Base.{arith}
use microservice_workspace.Store.{Db}
use microservice_workspace.Ledger.Rules.{response_of}
use microservice_workspace.Base.Result.{ok, M, bind-eq, pure}
use microservice_workspace.Domain.{
  Actor, PostPaymentCommand, CreditAccountCommand, CreditAccountResult, CreditAccountSystemCommand,
}
use microservice_workspace.Domain.External.{External}
use microservice_workspace.Store.{World, idle, IdempotencyRecordEntity}
use microservice_workspace.Store.Idempotency

module _ (X : External) (w : World X) where
  -- The read of the record succeeds: no transaction is open and the database does not fail.
  pub record IsReadable : Type 0 where
    pub start : w.tx ≡ idle
    pub no_fault : (X.db_fault w.env).0 ≡ none

  -- A response is stored under the key.
  pub record IsAnswered (key : Text) : Type 0 where
    pub row : IdempotencyRecordEntity
    pub found : find (Idempotency.has_key key) w.db.idempotency_records ≡ some row
    pub nonempty : is_empty row.response_json ≡ false

  -- The amount is a number that float64 represents exactly.
  pub record IsAmount (amount : Text) : Type 0 where
    pub value : X.Decimal
    pub parsed : X.decimal_from_string amount ≡ ok value
    pub exact : (X.float64 value).1 ≡ true

  abbrev after_read : World X
  after_read = record w { env = (X.db_fault w.env).1 }

  read-eq :
      {A : Type 0} (f : Db X.Decimal → A) (r : IsReadable)
      → statement X (λ db. ok (f db, db)) w ≡ (ok (f w.db), after_read)
  unfolding statement
  read-eq f r = let s = r.start in let n = r.no_fault in ground arith

  get-eq :
      (key : Text) (r : IsReadable) (a : IsAnswered key)
      → Idempotency.get X key w ≡ (ok (some (Idempotency.to_record a.row)), after_read)
  unfolding Idempotency.get
  get-eq key r a =
      read-eq
        (λ db. Idempotency.found_record (find (Idempotency.has_key key) db.idempotency_records)) r
      ∙ ap (λ o. (ok (Idempotency.found_record o), after_read)) a.found

  cached_json-eq :
      (key : Text) (r : IsReadable) (a : IsAnswered key)
      → cached_json X key w ≡ (ok a.row.response_json, after_read)
  unfolding cached_json do_read
  cached_json-eq key r a =
      bind-eq (Idempotency.get X key) (λ rec. pure (response_of rec)) w
        (some (Idempotency.to_record a.row)) after_read (get-eq key r a)

  answer_or_start-eq :
      (actor : Actor) (cmd : PostPaymentCommand) (amt : X.Decimal) (t : Text) (v : World X)
      → is_empty t ≡ false
      → answer_or_start X actor cmd amt t v ≡ (ok (X.unmarshal_payment t), v)
  unfolding answer_or_start
  answer_or_start-eq actor cmd amt t v h = rw h refl

  -- If no transaction is open and the database does not fail, a payment with an exact amount, under
  -- a key with a stored response, is answered by that response, and nothing else happens: no table
  -- changes, and no call leaves the process.
  pub post_payment-eq :
      (actor : Actor) (cmd : PostPaymentCommand) (r : IsReadable)
      (a : IsAnswered cmd.idempotency_key) (m : IsAmount cmd.amount)
      → post_payment X actor cmd w
        ≡ (ok (X.unmarshal_payment a.row.response_json), record w { env = (X.db_fault w.env).1 })
  unfolding post_payment
  post_payment-eq actor cmd r a m =
      rw (m.parsed, m.exact)
        (bind-eq (cached_json X cmd.idempotency_key) (answer_or_start X actor cmd m.value) w
            a.row.response_json after_read (cached_json-eq cmd.idempotency_key r a)
          ∙ answer_or_start-eq actor cmd m.value a.row.response_json after_read a.nonempty)

  answer_or_book-eq :
      (account currency : Text) (amt : X.Decimal) (proceed : M (World X) CreditAccountResult)
      (t : Text) (v : World X)
      → is_empty t ≡ false
      → answer_or_book X account currency amt proceed t v ≡ (ok (X.unmarshal_credit t), v)
  unfolding answer_or_book
  answer_or_book-eq account currency amt proceed t v h = rw h refl

  pub guarded-eq :
      (amount key account currency : Text) (proceed : X.Decimal → M (World X) CreditAccountResult)
      (r : IsReadable) (a : IsAnswered key) (m : IsAmount amount)
      → guarded X amount key account currency proceed w
        ≡ (ok (X.unmarshal_credit a.row.response_json), record w { env = (X.db_fault w.env).1 })
  unfolding guarded
  guarded-eq amount key account currency proceed r a m =
      rw (m.parsed, m.exact)
        (bind-eq (cached_json X key) (answer_or_book X account currency m.value (proceed m.value)) w
            a.row.response_json after_read (cached_json-eq key r a)
          ∙ answer_or_book-eq account currency m.value (proceed m.value) a.row.response_json
              after_read a.nonempty)

  -- If no transaction is open and the database does not fail, a credit with an exact amount, under
  -- a key with a stored response, is answered by that response; no table changes, and no call
  -- leaves the process.
  pub credit_account-eq :
      (actor : Actor) (cmd : CreditAccountCommand) (r : IsReadable)
      (a : IsAnswered cmd.idempotency_key) (m : IsAmount cmd.amount)
      → credit_account X actor cmd w
        ≡ (ok (X.unmarshal_credit a.row.response_json), record w { env = (X.db_fault w.env).1 })
  unfolding credit_account
  credit_account-eq actor cmd r a m = guarded-eq cmd.amount cmd.idempotency_key _ _ _ r a m

  -- If no transaction is open and the database does not fail, a system credit with an exact amount,
  -- under a key with a stored response, is answered by that response; no table changes, and no call
  -- leaves the process.
  pub credit_account_system-eq :
      (cmd : CreditAccountSystemCommand) (r : IsReadable) (a : IsAnswered cmd.idempotency_key)
      (m : IsAmount cmd.amount)
      → credit_account_system X cmd w
        ≡ (ok (X.unmarshal_credit a.row.response_json), record w { env = (X.db_fault w.env).1 })
  unfolding credit_account_system
  credit_account_system-eq cmd r a m = guarded-eq cmd.amount cmd.idempotency_key _ _ _ r a m
