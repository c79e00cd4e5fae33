-- ===== src/Ledger/Statements.antt =====
-- What the reads show.
use microservice_workspace.Ledger.Views.{EntriesQuery}
use microservice_workspace.Ledger.Payment.{Order, payment_lines}
use microservice_workspace.Ledger.Query.{tally, list_account_journal_entries, no_tally}
use microservice_workspace.Base.{zero, suc, refl, ◌≡◌, true, false, ℕ, suc}
use microservice_workspace.Base.Int.{ℤ, pos, negsuc, is_nonpos, positive_or}
use microservice_workspace.Base.Text.{is_empty, text_eq, text_eq_refl}
use microservice_workspace.Domain.{Uuid}
use microservice_workspace.Domain.External.{External, Laws}
use microservice_workspace.Store.{World}

positive_or-nonpos : (z : ℤ) (d : ℕ) → is_nonpos z ≡ true → positive_or z d ≡ d
positive_or-nonpos (pos zero) d h = refl
positive_or-nonpos (pos (suc n)) d h = cc
positive_or-nonpos (negsuc n) d h = refl

module _ (X : External) where
  -- The list of journal entries answers a page of zero or less by its first page, so that page 0,
  -- which validation counts as the first, and page 1 are the same.
  pub list_account_journal_entries-page :
      (q : EntriesQuery) (w : World X)
      → is_nonpos q.page ≡ true
      → list_account_journal_entries X q w
        ≡ list_account_journal_entries X (record q { page = pos 1 }) w
  unfolding list_account_journal_entries
  list_account_journal_entries-page q w h = rw (positive_or-nonpos q.page 1 h) refl

  -- The two accounts of a payment are written differently, and neither as nothing.
  pub record IsApart (o : Order X) : Type 0 where
    pub apart :
        text_eq (X.uuid_string o.cmd.source_account_id) (X.uuid_string o.cmd.destination_account)
        ≡ false
    pub apart_back :
        text_eq (X.uuid_string o.cmd.destination_account) (X.uuid_string o.cmd.source_account_id)
        ≡ false
    pub source_nonempty : is_empty (X.uuid_string o.cmd.source_account_id) ≡ false
    pub destination_nonempty : is_empty (X.uuid_string o.cmd.destination_account) ≡ false

  -- If decimals are exact and the identifiers of the two accounts are written differently and not
  -- as nothing, the lines that a payment books count in the statement of its source as a debit of
  -- the amount with the destination as the counterparty, and in the statement of its destination as
  -- a credit of the amount with the source as the counterparty.
  pub tally-payment_lines :
      (laws : Laws X) (o : Order X) (journal_id id1 id2 : Uuid)
      → IsApart o
      → (tally X
            (X.uuid_string o.cmd.source_account_id)
            (no_tally X)
            (payment_lines X o journal_id id1 id2)
          ≡ record {
            credit = X.decimal_zero;
            debit = o.amount;
            other = X.uuid_string o.cmd.destination_account;
          })
        × (tally X
              (X.uuid_string o.cmd.destination_account)
              (no_tally X)
              (payment_lines X o journal_id id1 id2)
            ≡ record {
              credit = o.amount;
              debit = X.decimal_zero;
              other = X.uuid_string o.cmd.source_account_id;
            })
  unfolding tally payment_lines
  tally-payment_lines laws o journal_id id1 id2 a = (
    rw
        (
          text_eq_refl (X.uuid_string o.cmd.source_account_id),
          a.apart_back,
          a.destination_nonempty,
          laws.zero_add X.decimal_zero,
          laws.zero_add o.amount,
        )
        refl,
    rw
        (
          text_eq_refl (X.uuid_string o.cmd.destination_account),
          a.apart,
          a.source_nonempty,
          laws.zero_add X.decimal_zero,
          laws.zero_add o.amount,
        )
        refl,
  )
