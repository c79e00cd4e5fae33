-- ===== src/Ledger/Sound.antt =====
-- The use cases of credit and payment keep the books: however they end, and whatever faults the
-- database has, every journal still balances.
use microservice_workspace.Ledger.Rules.{ensure_balanced}
use microservice_workspace.Store.Journals.Laws.{IsFiled, create_lines-writes, create_journal-writes}
use microservice_workspace.Domain.{JournalEntry}
use microservice_workspace.Store.Journals.{
  insert_journal, insert_lines, create_lines, create_journal, journal_row, line_row, line_of,
}
use microservice_workspace.Store.Tx.Laws.{Steady, Unchanged}
use microservice_workspace.Ledger.Balance.{IsSound, IsBalanced, journal-IsSound}
use microservice_workspace.Ledger.Always.{Always, Always-bind, Always-attempt}
use mathlib.Core.Path.{subst, subst₂}
use mathlib.Core.List.{append-nil}
use microservice_workspace.Base.{
  ◌≡◌, refl, sym, ap, ◌∙◌, [], ◌∷◌, ◌++◌, map, arith, List, none, some, Option, All, inl, inr, ◌⊎◌,
  select,
}
use microservice_workspace.Base.Result.{
  Result, ok, err, M, Post, Post-weaken, Post-bind, ◌>>=◌, ◌>>◌, pure, attempt, from_result,
  Post-world, Error,
}
use microservice_workspace.Domain.External.{External}
use microservice_workspace.Store.{
  Db, TxState, idle, active, aborted, World, EntryLineEntity, JournalEntryEntity,
}
use microservice_workspace.Store.Tx.{
  statement, transaction, do_write, finish, commit, finish_nested, begun,
}

-- A query that leaves the two tables of journals as they were.
pub record Elsewhere {D A : Type 0} (q : Db D → Result (A × Db D)) : Type 0 where
  pub leaves :
      (db db' : Db D) (a : A)
      → q db ≡ ok (a, db')
      → (db'.journal_entries ≡ db.journal_entries) × (db'.entry_lines ≡ db.entry_lines)

module _ {X : External} where
  abbrev pub KeepsSound : World X → World X → Type 0
  KeepsSound w v = IsSound X w.db → IsSound X v.db

  abbrev pub Keeps : {A : Type 0} → M (World X) A → Type 0
  Keeps m = Always KeepsSound m

  here : (w : World X) → KeepsSound w w
  here w s = s

  next : (u v w : World X) → KeepsSound u v → KeepsSound v w → KeepsSound u w
  next u v w h k s = k (h s)

  IsSound-of_same :
      (db db' : Db X.Decimal)
      → db'.journal_entries ≡ db.journal_entries
      → db'.entry_lines ≡ db.entry_lines
      → IsSound X db
      → IsSound X db'
  IsSound-of_same db db' es rows s = record {
    filed = subst₂ (λ e r. All (IsFiled e) r) (sym es) (sym rows) s.filed;
    balanced =
        subst₂ (λ e r. All (λ (m : JournalEntryEntity). IsBalanced X (select (line_of m.id) r)) e)
          (sym es) (sym rows) s.balanced;
  }

  module _ {A B : Type 0} where
    pub Keeps-bind :
        (m : M (World X) A) (f : A → M (World X) B)
        → Keeps m
        → ((a : A) → Keeps (f a))
        → Keeps (m >>= f)
    Keeps-bind m f h k = Always-bind KeepsSound here next m f h k

  module _ {A : Type 0} where
    pub Keeps-attempt : (m : M (World X) A) → Keeps m → Keeps (attempt m)
    Keeps-attempt m h = Always-attempt KeepsSound here next m h

    pub from_result-Keeps : (r : Result A) → Keeps (from_result r)
    from_result-Keeps r = record { run = λ w s. s }

    -- What follows a check may rely on it.
    pub guard-Keeps :
        (r : Result (Unit {0})) (m : M (World X) A)
        → (r ≡ ok tt → Keeps m)
        → Keeps (from_result r >> m)
    guard-Keeps (ok tt) m h = record { run = (h refl).run }
    guard-Keeps (err e) m h = record { run = λ w s. s }

    pub pure-Keeps : (a : A) → Keeps (pure a)
    pure-Keeps a = record { run = λ w s. s }

    -- A statement that succeeds has the effect of its query.
    pub statement-Post :
        (q : Db X.Decimal → Result (A × Db X.Decimal)) (w : World X)
        → Post (λ a v. q w.db ≡ ok (a, v.db)) (λ _ v. v.db ≡ w.db) (statement X q w)
    unfolding statement
    statement-Post q w = ground arith

    pub statement-Keeps :
        (q : Db X.Decimal → Result (A × Db X.Decimal)) → Elsewhere q → Keeps (statement X q)
    statement-Keeps q h = record {
      run = λ w s.
          Post-world (λ v. IsSound X v.db) (statement X q w)
            (Post-weaken _ _ _ _ (statement X q w) (statement-Post q w)
              (λ a v e.
                let (es, rows) = h.leaves w.db v.db a e in IsSound-of_same w.db v.db es rows s)
              (λ _ v e. subst (IsSound X) (sym e) s));
    }

    commit-db :
        (before : Db X.Decimal) (a : A) (w : World X)
        → ((commit X before a w).1.db ≡ before) ⊎ ((commit X before a w).1.db ≡ w.db)
    commit-db before a w = ground arith

    finish-Sound :
        (before : Db X.Decimal) (r : Result A × World X)
        → IsSound X before
        → Post (λ _ v. IsSound X v.db) (λ _ _. Unit {0}) r
        → IsSound X (finish X before r).1.db
    finish-Sound before (ok a, w) s h = elim (commit-db before a w) [
      | inl undone ↦ subst (IsSound X) (sym undone) s
      | inr done ↦ subst (IsSound X) (sym done) h
    ]
    finish-Sound before (err e, w) s h = s

    finish_nested-Sound :
        (before : Db X.Decimal) (r : Result A × World X)
        → IsSound X before
        → Post (λ _ v. IsSound X v.db) (λ _ _. Unit {0}) r
        → IsSound X (finish_nested X before r).1.db
    finish_nested-Sound before (ok a, w) s h = h
    finish_nested-Sound before (err e, w) s h = s

    -- The body leaves sound tables where it returns; where it fails they are rolled back.
    abbrev pub Delivers : M (World X) A → Type 0
    Delivers m =
        (w : World X) → IsSound X w.db → Post (λ _ v. IsSound X v.db) (λ _ _. Unit {0}) (m w)

    Delivers-of_Keeps : (m : M (World X) A) → Keeps m → Delivers m
    Delivers-of_Keeps m h w s = go (m w) (h.run w s)
      where
        go :
            (r : Result A × World X)
            → IsSound X r.1.db
            → Post (λ _ v. IsSound X v.db) (λ _ _. Unit {0}) r
        go (ok a, v) k = k
        go (err e, v) k = tt

    begun-Sound :
        (t : TxState) (fault : Option Error) (body : M (World X) A) (w w' : World X)
        → Delivers body
        → w'.db ≡ w.db
        → IsSound X w.db
        → IsSound X (begun X t fault body w w').1.db
    begun-Sound idle (some e) body w w' h k s = subst (IsSound X) (sym k) s
    begun-Sound idle none body w w' h k s =
        finish-Sound w.db (body (record w' { tx = active })) s
          (h (record w' { tx = active }) (subst (IsSound X) (sym k) s))
    begun-Sound active (some e) body w w' h k s = subst (IsSound X) (sym k) s
    begun-Sound active none body w w' h k s =
        finish_nested-Sound w.db (body w') s (h w' (subst (IsSound X) (sym k) s))
    begun-Sound aborted fault body w w' h k s = s

    transaction-Delivers : (body : M (World X) A) → Delivers body → Keeps (transaction X body)
    unfolding transaction
    transaction-Delivers body h = record {
      run = λ w s.
          let (fault, env') = X.db_fault w.env in
          begun-Sound w.tx fault body w (record w { env = env' }) h refl s;
    }

    pub do_write-Keeps : (body : M (World X) A) → Keeps body → Keeps (do_write X body)
    unfolding do_write
    do_write-Keeps body h = transaction-Delivers body (Delivers-of_Keeps body h)

    -- A step that touches neither tables nor transaction.
    pub Steady-Keeps : (m : M (World X) A) → ((w : World X) → Steady m w) → Keeps m
    Steady-Keeps m h = record {
      run = λ w s. let u = Post-world (Unchanged w) (m w) (h w) in subst (IsSound X) (sym u.0) s;
    }

module _ (X : External) where
  insert_lines-writes :
      (ls : List (EntryLineEntity X.Decimal)) (w : World X)
      → Post
          (λ _ v.
            (v.db.entry_lines ≡ w.db.entry_lines ++ ls)
            × (v.db.journal_entries ≡ w.db.journal_entries))
          (λ _ _. Unit {0})
          (insert_lines X ls w)
  unfolding insert_lines
  insert_lines-writes [] w = (sym (append-nil w.db.entry_lines), refl)
  insert_lines-writes (l ∷ ls) w =
      Post-weaken _ _ _ _ (statement X (create_lines (l ∷ ls)) w)
        (statement-Post (create_lines (l ∷ ls)) w)
        (λ _ v e. create_lines-writes (l ∷ ls) w.db v.db e) (λ _ v e. tt)

  -- The insert of a journal that has passed the check.
  pub insert_journal-Keeps :
      (j : JournalEntry X.Decimal) → ensure_balanced X j.lines ≡ ok tt → Keeps (insert_journal X j)
  unfolding insert_journal
  insert_journal-Keeps j b =
      transaction-Delivers
        (statement X (create_journal (journal_row j))
          >> insert_lines X (map (line_row j.id) j.lines))
        λ w s.
          Post-bind _ _ _ (statement X (create_journal (journal_row j)))
            (λ _. insert_lines X (map (line_row j.id) j.lines)) w
            (Post-weaken _ _ _ _ (statement X (create_journal (journal_row j)) w)
              (statement-Post (create_journal (journal_row j)) w) (λ a v e. e) (λ _ v e. tt))
            λ a v e.
              let (fresh, rows, es) = create_journal-writes (journal_row j) w.db v.db e in
              Post-weaken _ _ _ _ (insert_lines X (map (line_row j.id) j.lines) v)
                (insert_lines-writes (map (line_row j.id) j.lines) v)
                (λ _ u k.
                  journal-IsSound X (journal_row j) j.lines w.db u.db s b fresh (k.1 ∙ es)
                    (k.0 ∙ ap (λ r. r ++ map (line_row j.id) j.lines) rows))
                (λ _ u k. tt)
