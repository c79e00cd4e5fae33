-- ===== src/Store/Journals.antt =====
-- The adapter of journals:
-- micro/ledger/internal/infra/out/persistence/gorm/adapter/journal_repo.go.
pub mod Laws
use microservice_workspace.Base.{
  ◌-◌, ◌*◌, Bool, false, not, ◌&&◌, ◌||◌, none, some, List, [], ◌∷◌, map, any, find, select, take,
  drop, leb, ◌==◌, if◌then◌else◌, ◌++◌,
}
use microservice_workspace.Base.Int.{ℤ, positive_or}
use microservice_workspace.Base.Text.{Text, text_eq}
use microservice_workspace.Base.Result.{
  Result, ok, err, record_not_found, and_then, M, ◌>>=◌, ◌>>◌, pure,
}
use mathlib.Core.Option
use microservice_workspace.Domain.{Time, Uuid, JournalEntry, EntryLine}
use microservice_workspace.Domain.External.{External}
use microservice_workspace.Store.{
  Db, World, JournalEntryEntity, EntryLineEntity, unique_violation, foreign_key_violation,
}
use microservice_workspace.Store.Tx.{statement, transaction}

abbrev pub has_id : Uuid → JournalEntryEntity → Bool
has_id id m = m.id == id

-- `ORDER BY booked_at DESC`: insertion of a row before the first that is not newer.
unfoldable pub insert_desc : JournalEntryEntity → List JournalEntryEntity → List JournalEntryEntity
insert_desc m [] = m ∷ []
insert_desc m (r ∷ rs) = if leb r.booked_at m.booked_at then m ∷ r ∷ rs else r ∷ insert_desc m rs

unfoldable pub sort_desc : List JournalEntryEntity → List JournalEntryEntity
sort_desc [] = []
sort_desc (r ∷ rs) = insert_desc r (sort_desc rs)

module _ {D : Type 0} where
  abbrev pub journal_row : JournalEntry D → JournalEntryEntity
  journal_row j = record {
    id = j.id;
    external_ref = j.external_ref;
    booked_at = j.booked_at;
    created_by = j.created_by;
    status = j.status;
    currency = j.currency;
  }

  -- The line is filed under the journal that is inserted, whatever the line itself says.
  abbrev pub line_row : Uuid → EntryLine D → EntryLineEntity D
  line_row journal_id l = record {
    id = l.id;
    journal_id = journal_id;
    gl_account_id = l.gl_account_id;
    gl_account_code = l.gl_account_code;
    counterparty_ref = l.counterparty_ref;
    debit = l.debit;
    credit = l.credit;
  }

  abbrev pub to_line : EntryLineEntity D → EntryLine D
  to_line l = record {
    id = l.id;
    journal_id = l.journal_id;
    gl_account_id = l.gl_account_id;
    gl_account_code = l.gl_account_code;
    counterparty_ref = l.counterparty_ref;
    debit = l.debit;
    credit = l.credit;
  }

  abbrev pub line_of : Uuid → EntryLineEntity D → Bool
  line_of journal_id l = l.journal_id == journal_id

  -- A row of journal_entries with its lines preloaded.
  abbrev pub to_journal : Db D → JournalEntryEntity → JournalEntry D
  to_journal db m = record {
    id = m.id;
    external_ref = m.external_ref;
    booked_at = m.booked_at;
    created_by = m.created_by;
    status = m.status;
    currency = m.currency;
    lines = map to_line (select (line_of m.id) db.entry_lines);
  }

  unfoldable pub create_journal : JournalEntryEntity → Db D → Result ((Unit {0}) × Db D)
  create_journal m db =
      if any (has_id m.id) db.journal_entries
      then err unique_violation
      else ok (tt, record db { journal_entries = m ∷ db.journal_entries })

  abbrev pub line_error : EntryLineEntity D → Db D → Bool
  line_error l db =
      not (any (has_id l.journal_id) db.journal_entries)
      || not (any (λ g. g == l.gl_account_id) db.gl_accounts)

  unfoldable pub create_line : EntryLineEntity D → Db D → Result ((Unit {0}) × Db D)
  create_line l db =
      if any (λ r. r.id == l.id) db.entry_lines
      then err unique_violation
      else (if line_error l db
          then err foreign_key_violation
          else ok (tt, record db { entry_lines = db.entry_lines ++ l ∷ [] }))

  unfoldable pub create_lines : List (EntryLineEntity D) → Db D → Result ((Unit {0}) × Db D)
  create_lines [] db = ok (tt, db)
  create_lines (l ∷ ls) db = and_then (create_line l db) (λ r. create_lines ls r.1)

  -- `counterparty_ref = ?`; NULL equals nothing.
  abbrev pub refers_to : Text → EntryLineEntity D → Bool
  refers_to account l = elim (l.counterparty_ref) [ none ↦ false | some cp ↦ text_eq cp account ]

  -- The join: the journal has a line of this account, and was booked in the window.
  abbrev pub in_activity : Db D → Text → Time → Time → JournalEntryEntity → Bool
  in_activity db account from to m =
      any (λ l. line_of m.id l && refers_to account l) db.entry_lines
      && (leb from m.booked_at && leb m.booked_at to)

module _ (X : External) where
  -- `if len(lines) > 0`
  unfoldable pub insert_lines : List (EntryLineEntity X.Decimal) → M (World X) (Unit {0})
  insert_lines [] = pure tt
  insert_lines (l ∷ ls) = statement X (create_lines (l ∷ ls))

  unfoldable pub insert_journal : JournalEntry X.Decimal → M (World X) (Unit {0})
  insert_journal j =
      transaction X
        (statement X (create_journal (journal_row j)) >> insert_lines (map (line_row j.id) j.lines))

  unfoldable pub get_journal_by_id : Uuid → M (World X) (JournalEntry X.Decimal)
  get_journal_by_id id = do
    found ←
        statement X
          (λ db. ok (Option.map (to_journal db) (find (has_id id) db.journal_entries), db))
    elim found [ none ↦ (λ w. (err record_not_found, w)) | some j ↦ pure j ]

  -- One page of the journals of an account, with the adapter's own defaults.
  unfoldable pub list_activity_by_account :
      Uuid → Time → Time → ℤ → ℤ → M (World X) (List (JournalEntry X.Decimal))
  list_activity_by_account account from to page size =
      let size' = positive_or size 20 in
      let offset = (positive_or page 1 - 1) * size' in
      statement X λ db. ok (
        map (to_journal db) (
            take size' (
              drop offset (
                sort_desc
                  (select (in_activity db (X.uuid_string account) from to) db.journal_entries)))),
        db,
      )
