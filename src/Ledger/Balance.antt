-- ===== src/Ledger/Balance.antt =====
-- Double entry: every journal in the tables balances, and every line belongs to a journal. No use
-- case of credit or payment breaks this, whatever faults the database has.
use microservice_workspace.Store.Journals.{to_line, line_of, line_row, has_id}
use microservice_workspace.Ledger.Rules.{totals, ensure_balanced}
use microservice_workspace.Domain.{Uuid, EntryLine}
use microservice_workspace.Store.Journals.Laws.{
  IsFiled, IsFiled-cons, select-line_row_ne, IsFiled-line_row, select-line_of_absent,
  select-line_row_self,
}
use mathlib.Core.List.{append-nil}
use mathlib.Core.Path.{subst₂}
use microservice_workspace.Base.{
  ◌≡◌, refl, sym, false, [], ◌∷◌, ◌++◌, map, any, All, All-append, select, select-append, arith,
  List,
}
use microservice_workspace.Base.Result.{ok}
use microservice_workspace.Domain.External.{External}
use microservice_workspace.Store.{Db, JournalEntryEntity, EntryLineEntity}

module _ (X : External) where
  -- The totals of the entry lines do not depend on the identifier they are filed under.
  totals-filed :
      (id : Uuid) (d c : X.Decimal) (ls : List (EntryLine X.Decimal))
      → totals X d c (map to_line (map (line_row id) ls)) ≡ totals X d c ls
  unfolding totals
  totals-filed id d c [] = refl
  totals-filed id d c (l ∷ ls) = totals-filed id (X.add d l.debit) (X.add c l.credit) ls

  -- The check of `EnsureBalanced` passes on the stored lines.
  abbrev pub IsBalanced : List (EntryLineEntity X.Decimal) → Type 0
  IsBalanced rows = ensure_balanced X (map to_line rows) ≡ ok tt

  filed-IsBalanced :
      (id : Uuid) (ls : List (EntryLine X.Decimal))
      → ensure_balanced X ls ≡ ok tt
      → IsBalanced (map (line_row id) ls)
  unfolding ensure_balanced
  filed-IsBalanced id ls h = rw (totals-filed id X.decimal_zero X.decimal_zero ls) h

  pub record IsSound (db : Db X.Decimal) : Type 0 where
    pub filed : All (IsFiled db.journal_entries) db.entry_lines
    pub balanced :
        All
          (λ (m : JournalEntryEntity). IsBalanced (select (line_of m.id) db.entry_lines))
          db.journal_entries

  -- The journals that were there keep their lines.
  others-IsBalanced :
      (id : Uuid) (rows : List (EntryLineEntity X.Decimal)) (ls : List (EntryLine X.Decimal))
      (es : List JournalEntryEntity)
      → any (has_id id) es ≡ false
      → All (λ (m : JournalEntryEntity). IsBalanced (select (line_of m.id) rows)) es
      → All
          (λ (m : JournalEntryEntity).
            IsBalanced (select (line_of m.id) (rows ++ map (line_row id) ls)))
          es
  others-IsBalanced id rows ls [] h b = tt
  others-IsBalanced id rows ls (m ∷ es) h b = (
    rw
        (
          select-append (line_of m.id) rows (map (line_row id) ls),
          select-line_row_ne id m.id ls (ground arith),
          append-nil (select (line_of m.id) rows),
        )
        b.0,
    others-IsBalanced id rows ls es (ground arith) b.1,
  )

  -- A balanced journal under a new identifier, with its lines, keeps the invariant.
  pub journal-IsSound :
      (m : JournalEntryEntity) (ls : List (EntryLine X.Decimal)) (db db' : Db X.Decimal)
      → IsSound db
      → ensure_balanced X ls ≡ ok tt
      → any (has_id m.id) db.journal_entries ≡ false
      → db'.journal_entries ≡ m ∷ db.journal_entries
      → db'.entry_lines ≡ db.entry_lines ++ map (line_row m.id) ls
      → IsSound db'
  journal-IsSound m ls db db' s b fresh es rows = record {
    filed =
        rw (es, rows)
          (All-append (IsFiled (m ∷ db.journal_entries)) db.entry_lines (map (line_row m.id) ls)
            (IsFiled-cons m db.journal_entries db.entry_lines s.filed)
            (IsFiled-line_row m db.journal_entries ls));
    balanced =
        subst₂ (λ r e. All (λ (k : JournalEntryEntity). IsBalanced (select (line_of k.id) r)) e)
          (sym rows) (sym es)
          (
            rw
                (
                  select-append (line_of m.id) db.entry_lines (map (line_row m.id) ls),
                  select-line_of_absent m.id db.journal_entries db.entry_lines fresh s.filed,
                  select-line_row_self m.id ls,
                )
                (filed-IsBalanced m.id ls b),
            others-IsBalanced m.id db.entry_lines ls db.journal_entries fresh s.balanced,
          );
  }
