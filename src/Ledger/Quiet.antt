-- ===== src/Ledger/Quiet.antt =====
-- Code that sends nothing out of the process: statements, transactions, and the bodies of the
-- transactions of payment and credit.
use microservice_workspace.Ledger.Credit.{book, Booking}
use microservice_workspace.Ledger.Always.{Always-attempt, Always, Always-bind}
use microservice_workspace.Domain.{JournalEntry, Uuid}
use microservice_workspace.Ledger.Payment.{
  open_payment, Order, close_payment, record_steps, write_payment,
}
use microservice_workspace.Store.Journals.{insert_lines, insert_journal, create_lines}
use microservice_workspace.Base.{◌≡◌, refl, ◌∙◌, none, some, [], ◌∷◌, arith, Option, List}
use microservice_workspace.Base.Result.{
  Result, ok, err, M, ◌>>=◌, pure, attempt, from_result, Error,
}
use microservice_workspace.Domain.External.{External}
use microservice_workspace.Store.{Db, TxState, idle, active, aborted, World, EntryLineEntity}
use microservice_workspace.Store.Tx.{statement, transaction, do_write, finish, finish_nested, begun}
use microservice_workspace.Store.Payments
use microservice_workspace.Store.Outbox
use microservice_workspace.Store.Idempotency
use microservice_workspace.Store.Calls.{new_uuid, time_now}

module _ {X : External} where
  -- Nothing was sent between the two worlds.
  abbrev pub SameLog : World X → World X → Type 0
  SameLog w v = v.log ≡ w.log

  -- However it ends, the action logs no call.
  abbrev pub Quiet : {A : Type 0} → M (World X) A → Type 0
  Quiet m = Always SameLog m

  here : (w : World X) → SameLog w w
  here w = refl

  next : (u v w : World X) → SameLog u v → SameLog v w → SameLog u w
  next u v w h k = k ∙ h

  module _ {A B : Type 0} where
    pub Quiet-bind :
        (m : M (World X) A) (f : A → M (World X) B)
        → Quiet m
        → ((a : A) → Quiet (f a))
        → Quiet (m >>= f)
    Quiet-bind m f h k = Always-bind SameLog here next m f h k

  module _ {A : Type 0} where
    pub Quiet-attempt : (m : M (World X) A) → Quiet m → Quiet (attempt m)
    Quiet-attempt m h = Always-attempt SameLog here next m h

    pub from_result-Quiet : (r : Result A) → Quiet (from_result r)
    from_result-Quiet r = record { run = λ w. refl }

    pub pure-Quiet : (a : A) → Quiet (pure a)
    pure-Quiet a = record { run = λ w. refl }

    pub statement-Quiet : (q : Db X.Decimal → Result (A × Db X.Decimal)) → Quiet (statement X q)
    unfolding statement
    statement-Quiet q = record { run = λ w. ground arith }

    finish-Quiet :
        (before : Db X.Decimal) (r : Result A × World X) → (finish X before r).1.log ≡ r.1.log
    finish-Quiet before (ok a, w) = ground arith
    finish-Quiet before (err e, w) = refl

    finish_nested-Quiet :
        (before : Db X.Decimal) (r : Result A × World X)
        → (finish_nested X before r).1.log ≡ r.1.log
    finish_nested-Quiet before (ok a, w) = refl
    finish_nested-Quiet before (err e, w) = refl

    begun-Quiet :
        (t : TxState) (fault : Option Error) (body : M (World X) A) (w w' : World X)
        → Quiet body
        → w'.log ≡ w.log
        → (begun X t fault body w w').1.log ≡ w.log
    begun-Quiet idle (some e) body w w' h k = k
    begun-Quiet idle none body w w' h k =
        finish-Quiet w.db (body (record w' { tx = active }))
        ∙ (h.run (record w' { tx = active }) ∙ k)
    begun-Quiet active (some e) body w w' h k = k
    begun-Quiet active none body w w' h k = finish_nested-Quiet w.db (body w') ∙ (h.run w' ∙ k)
    begun-Quiet aborted fault body w w' h k = refl

    pub transaction-Quiet : (body : M (World X) A) → Quiet body → Quiet (transaction X body)
    unfolding transaction
    transaction-Quiet body h = record {
      run = λ w.
          let (fault, env') = X.db_fault w.env in
          begun-Quiet w.tx fault body w (record w { env = env' }) h refl;
    }

    pub do_write-Quiet : (body : M (World X) A) → Quiet body → Quiet (do_write X body)
    unfolding do_write
    do_write-Quiet body h = transaction-Quiet body h

module _ (X : External) where
  pub new_uuid-Quiet : Quiet (new_uuid X)
  unfolding new_uuid
  new_uuid-Quiet = record { run = λ w. refl }

  pub time_now-Quiet : Quiet (time_now X)
  unfolding time_now
  time_now-Quiet = record { run = λ w. refl }

  insert_lines-Quiet : (ls : List (EntryLineEntity X.Decimal)) → Quiet (insert_lines X ls)
  unfolding insert_lines
  insert_lines-Quiet [] = pure-Quiet tt
  insert_lines-Quiet (l ∷ ls) = statement-Quiet (create_lines (l ∷ ls))

  insert_journal-Quiet : (j : JournalEntry X.Decimal) → Quiet (insert_journal X j)
  unfolding insert_journal
  insert_journal-Quiet j =
      search (transaction-Quiet, Quiet-bind, statement-Quiet, insert_lines-Quiet)

  ruleset quiet_rules = (
    Quiet-bind, Quiet-attempt, from_result-Quiet, pure-Quiet, statement-Quiet, new_uuid-Quiet,
    time_now-Quiet, insert_journal-Quiet,
  )

  open_payment-Quiet : (o : Order X) → Quiet (open_payment X o)
  unfolding open_payment Payments.insert
  open_payment-Quiet o = search quiet_rules depth 20

  record_steps-Quiet : (o : Order X) (jid : Uuid) → Quiet (record_steps X o jid)
  unfolding record_steps Payments.insert_step
  record_steps-Quiet o jid = search quiet_rules depth 20

  close_payment-Quiet : (o : Order X) (jid : Uuid) → Quiet (close_payment X o jid)
  unfolding close_payment Outbox.insert Idempotency.put Payments.update_status
  close_payment-Quiet o jid = search quiet_rules depth 20

  pub write_payment-Quiet : (o : Order X) → Quiet (do_write X (write_payment X o))
  unfolding write_payment
  write_payment-Quiet o =
      search
        (do_write-Quiet, Quiet-bind, open_payment-Quiet, record_steps-Quiet, close_payment-Quiet)

  pub book-Quiet : (b : Booking X) → Quiet (do_write X (book X b))
  unfolding book Outbox.insert Idempotency.put
  book-Quiet b = search (do_write-Quiet, quiet_rules) depth 20
