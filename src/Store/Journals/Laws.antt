-- ===== src/Store/Journals/Laws.antt =====
-- What the inserts of journals and lines write, and which lines a journal has.
use microservice_workspace.Base.{
  ◌≡◌, refl, ◌∙◌, ap, sym, ==_iff, true, false, [], ◌∷◌, ◌++◌, map, any, All, select, ◌==◌, arith,
  Bool-cases, inl, inr, List,
}
use microservice_workspace.Base.Result.{ok, and_then-eq-ok}
use microservice_workspace.Domain.{Uuid, EntryLine}
use microservice_workspace.Store.{Db, JournalEntryEntity, EntryLineEntity}
use microservice_workspace.Store.Journals.{
  create_journal, create_line, create_lines, line_row, line_of, has_id,
}
use mathlib.Core.List.{append_assoc, append-nil}

module _ {D : Type 0} where
  -- Lines are appended, and nothing else changes in the two tables of journals.
  pub create_line-writes :
      (l : EntryLineEntity D) (db db' : Db D)
      → create_line l db ≡ ok (tt, db')
      → (db'.entry_lines ≡ db.entry_lines ++ l ∷ []) × (db'.journal_entries ≡ db.journal_entries)
  unfolding create_line
  create_line-writes l db db' h = ground arith

  pub create_lines-writes :
      (ls : List (EntryLineEntity D)) (db db' : Db D)
      → create_lines ls db ≡ ok (tt, db')
      → (db'.entry_lines ≡ db.entry_lines ++ ls) × (db'.journal_entries ≡ db.journal_entries)
  unfolding create_lines
  create_lines-writes [] db db' h =
      let same : db ≡ db' = cc in
      (
        ap (λ d. d.entry_lines) (sym same) ∙ sym (append-nil db.entry_lines),
        ap (λ d. d.journal_entries) (sym same),
      )
  create_lines-writes (l ∷ ls) db db' h =
      let ((u, db1), first, rest) = and_then-eq-ok (create_line l db) _ h in
      let (lines1, same1) = create_line-writes l db db1 first in
      let (lines2, same2) = create_lines-writes ls db1 db' rest in
      (lines2 ∙ (ap (λ x. x ++ ls) lines1 ∙ append_assoc db.entry_lines (l ∷ []) ls), same2 ∙ same1)

  pub create_journal-writes :
      (m : JournalEntryEntity) (db db' : Db D)
      → create_journal m db ≡ ok (tt, db')
      → (any (has_id m.id) db.journal_entries ≡ false)
        × (db'.entry_lines ≡ db.entry_lines)
        × (db'.journal_entries ≡ m ∷ db.journal_entries)
  unfolding create_journal
  create_journal-writes m db db' h = ground arith

  -- Every line is filed under a journal that is there.
  abbrev pub IsFiled : List JournalEntryEntity → EntryLineEntity D → Type 0
  IsFiled es l = any (has_id l.journal_id) es ≡ true

  pub select-line_of_absent :
      (id : Uuid) (es : List JournalEntryEntity) (ls : List (EntryLineEntity D))
      → any (has_id id) es ≡ false
      → All (IsFiled es) ls
      → select (line_of id) ls ≡ []
  select-line_of_absent id es [] h f = refl
  select-line_of_absent id es (l ∷ ls) h f = elim (Bool-cases (l.journal_id == id)) [
    | inl same ↦
        (let e = (==_iff l.journal_id id).0 same in cc (f.0, h, ap (λ k. any (has_id k) es) e))
    | inr other ↦ rw other (select-line_of_absent id es ls h f.1)
  ]

  pub select-line_row_self :
      (id : Uuid) (ls : List (EntryLine D))
      → select (line_of id) (map (line_row id) ls) ≡ map (line_row id) ls
  select-line_row_self id [] = refl
  select-line_row_self id (l ∷ ls) = ground (arith, select-line_row_self id ls)

  pub select-line_row_ne :
      (id k : Uuid) (ls : List (EntryLine D))
      → (id == k) ≡ false
      → select (line_of k) (map (line_row id) ls) ≡ []
  select-line_row_ne id k [] h = refl
  select-line_row_ne id k (l ∷ ls) h = ground (arith, select-line_row_ne id k ls h)

  pub IsFiled-cons :
      (m : JournalEntryEntity) (es : List JournalEntryEntity) (ls : List (EntryLineEntity D))
      → All (IsFiled es) ls
      → All (IsFiled (m ∷ es)) ls
  IsFiled-cons m es [] f = tt
  IsFiled-cons m es (l ∷ ls) f = (ground arith, IsFiled-cons m es ls f.1)

  pub IsFiled-line_row :
      (m : JournalEntryEntity) (es : List JournalEntryEntity) (ls : List (EntryLine D))
      → All (IsFiled (m ∷ es)) (map (line_row m.id) ls)
  IsFiled-line_row m es [] = tt
  IsFiled-line_row m es (l ∷ ls) = (ground arith, IsFiled-line_row m es ls)
