-- ===== src/Ledger/Either.antt =====
-- `CreditAccount` and `CreditAccountSystem` as one call: what holds of both.
use microservice_workspace.Base.{◌≡◌, none, Option, find}
use microservice_workspace.Base.Text.{Text}
use microservice_workspace.Base.Result.{ok, M}
use microservice_workspace.Domain.{
  Actor, CreditAccountCommand, CreditAccountSystemCommand, CreditAccountResult,
}
use microservice_workspace.Domain.External.{External, Laws}
use microservice_workspace.Store.{World, idle}
use microservice_workspace.Store.Idempotency
use microservice_workspace.Store.Tx.Laws.{Atomic}
use microservice_workspace.Ledger.Credit.{credit_account, credit_account_system}
use microservice_workspace.Ledger.Atomic.{credit_account-Atomic, credit_account_system-Atomic}
use microservice_workspace.Ledger.Replay.{
  IsReadable, IsAnswered, IsAmount, credit_account-eq, credit_account_system-eq,
}
use microservice_workspace.Ledger.Again.{credit_account-again, credit_account_system-again}

-- The call of a user, and the call of the system.
pub data CreditCall : Type 0 where
  by_user : Actor → CreditAccountCommand → CreditCall
  by_system : CreditAccountSystemCommand → CreditCall

abbrev pub key_of : CreditCall → Text
key_of (by_user actor cmd) = cmd.idempotency_key
key_of (by_system cmd) = cmd.idempotency_key

abbrev pub amount_of : CreditCall → Text
amount_of (by_user actor cmd) = cmd.amount
amount_of (by_system cmd) = cmd.amount

module _ (X : External) where
  abbrev pub credited : CreditCall → M (World X) (Option CreditAccountResult)
  credited (by_user actor cmd) = credit_account X actor cmd
  credited (by_system cmd) = credit_account_system X cmd

  -- From a connection without an open transaction, CreditAccount or CreditAccountSystem that fails
  -- leaves the tables as they were; and no transaction stays open, whether it fails or not.
  pub credited-Atomic : (w : World X) → w.tx ≡ idle → (c : CreditCall) → Atomic (credited c) w
  credited-Atomic w start (by_user actor cmd) = credit_account-Atomic X w start actor cmd
  credited-Atomic w start (by_system cmd) = credit_account_system-Atomic X w start cmd

  -- If no transaction is open and the database does not fail, CreditAccount or CreditAccountSystem
  -- with an exact amount, under a key with a stored response, is answered by that response; no
  -- table changes, and no call leaves the process.
  pub credited-eq :
      (w : World X) (c : CreditCall) (r : IsReadable X w) (a : IsAnswered X w (key_of c))
      (m : IsAmount X w (amount_of c))
      → credited c w
        ≡ (ok (X.unmarshal_credit a.row.response_json), record w { env = (X.db_fault w.env).1 })
  credited-eq w (by_user actor cmd) r a m = credit_account-eq X w actor cmd r a m
  credited-eq w (by_system cmd) r a m = credit_account_system-eq X w cmd r a m

  -- From a connection without an open transaction, CreditAccount or CreditAccountSystem under a key
  -- without a stored response that succeeds, and is sent again when no other call has come between
  -- and the database does not fail, its amount being one that float64 represents exactly, has the
  -- same result, and changes nothing: no table, and no call leaves the process.
  pub credited-again :
      (laws : Laws X) (w v : World X) (start : w.tx ≡ idle) (no_fault : (X.db_fault v.env).0 ≡ none)
      (c : CreditCall) (o : Option CreditAccountResult)
      → find (Idempotency.has_key (key_of c)) w.db.idempotency_records ≡ none
      → credited c w ≡ (ok o, v)
      → (m : IsAmount X v (amount_of c))
      → credited c v ≡ (ok o, record v { env = (X.db_fault v.env).1 })
  credited-again laws w v start no_fault (by_user actor cmd) o new_key ran m =
      credit_account-again X laws w v start no_fault actor cmd o new_key ran m
  credited-again laws w v start no_fault (by_system cmd) o new_key ran m =
      credit_account_system-again X laws w v start no_fault cmd o new_key ran m
