-- ===== src/Ledger/Keyed.antt =====
-- The table of idempotency records as a partial map from keys to records, in which the first record
-- of a key stays.
use mathlib.Core.Path.{◌≡◌, refl, ap, ◌∙◌, subst}
use mathlib.Core.Bool.{Bool, true, false}
use microservice_workspace.Base.{
  Option, none, some, List, [], ◌∷◌, find, any, Bool-cases, Option-cases, ◌⊎◌, inl, inr,
  if◌then◌else◌, arith,
}
use microservice_workspace.Base.Text.{Text, text_eq, text_eq_iff, text_eq_refl}
use microservice_workspace.Base.Result.{Post, Post-weaken}
use microservice_workspace.Domain.{IdempotencyRecord}
use microservice_workspace.Domain.External.{External}
use microservice_workspace.Store.{World, IdempotencyRecordEntity, Db}
use microservice_workspace.Ledger.Sound.{statement-Post}
use microservice_workspace.Store.Idempotency.{
  get, put, has_key, insert_new, of_record, found_record,
}

abbrev pub Keyed : Type 0
Keyed = Text → Option IdempotencyRecordEntity

abbrev pub first_of :
    Option IdempotencyRecordEntity → IdempotencyRecordEntity → IdempotencyRecordEntity
first_of none row = row
first_of (some first) row = first

-- The map after a record is put into it.
abbrev pub put_first : IdempotencyRecordEntity → Keyed → Keyed
put_first row m key = if text_eq row.key key then some (first_of (m key) row) else m key

abbrev pub keyed : List IdempotencyRecordEntity → Keyed
keyed rows key = find (has_key key) rows

find-none : {A : Type 0} (p : A → Bool) (xs : List A) → find p xs ≡ none → any p xs ≡ false
find-none p [] h = refl
find-none p (x ∷ xs) h = ground (arith, find-none p xs)

find-some : {A : Type 0} (p : A → Bool) (xs : List A) (a : A) → find p xs ≡ some a → any p xs ≡ true
find-some p [] a h = cc
find-some p (x ∷ xs) a h = ground (arith, find-some p xs a)

insert_new-own :
    (row : IdempotencyRecordEntity) (rows : List IdempotencyRecordEntity)
    → keyed (insert_new row rows) row.key ≡ some (first_of (keyed rows row.key) row)
insert_new-own row rows = elim (Option-cases (keyed rows row.key)) [
  | inl h ↦ rw (find-none (has_key row.key) rows h, text_eq_refl row.key, h) refl
  | inr h ↦ rw (find-some (has_key row.key) rows h.0 h.1, h.1) refl
]

insert_new-keyed :
    (row : IdempotencyRecordEntity) (rows : List IdempotencyRecordEntity) (key : Text)
    → keyed (insert_new row rows) key ≡ put_first row (keyed rows) key
insert_new-keyed row rows key = go (Bool-cases (text_eq row.key key))
  where
    apart :
        (b : Bool)
        → text_eq row.key key ≡ false
        → find (has_key key) (if b then rows else row ∷ rows) ≡ find (has_key key) rows
    apart true e = refl
    apart false e = rw e refl

    go :
        (text_eq row.key key ≡ true) ⊎ (text_eq row.key key ≡ false)
        → keyed (insert_new row rows) key ≡ put_first row (keyed rows) key
    go (inl e) = rw e (
        subst (λ k. keyed (insert_new row rows) k ≡ some (first_of (keyed rows k) row))
          ((text_eq_iff row.key key).0 e) (insert_new-own row rows))
    go (inr e) = rw e (apart (any (has_key row.key) rows) e)

module _ (X : External) where
  abbrev pub view : World X → Keyed
  view w = keyed w.db.idempotency_records

  -- Seen as a map from keys to records, the table changes by a put that succeeds as the map in
  -- which the first record of a key stays, and not at all by a put that fails; a get that succeeds
  -- answers what the map holds under the key, an empty record if it holds nothing, and no get
  -- changes the map.
  pub idempotency-Refines :
      (r : IdempotencyRecord) (key : Text) (w : World X)
      → Post
          (λ _ v. (k : Text) → view v k ≡ put_first (of_record r) (view w) k)
          (λ _ v. (k : Text) → view v k ≡ view w k)
          (put X r w)
        × Post
            (λ o v. (o ≡ found_record (view w key)) × ((k : Text) → view v k ≡ view w k))
            (λ _ v. (k : Text) → view v k ≡ view w k)
            (get X key w)
  unfolding put get
  idempotency-Refines r key w = (
    Post-weaken _ _ _ _ (put X r w) (statement-Post _ w) (λ _ v e k. written v k (ground arith))
        (λ _ v e k. same v k e),
    Post-weaken _ _ _ _ (get X key w) (statement-Post _ w)
        (λ o v e. (ground arith, λ k. same v k (ground arith))) (λ _ v e k. same v k e),
  )
    where
      same : (v : World X) (k : Text) → v.db ≡ w.db → view v k ≡ view w k
      same v k e = ap (λ (db : Db X.Decimal). keyed db.idempotency_records k) e

      written :
          (v : World X) (k : Text)
          → v.db.idempotency_records ≡ insert_new (of_record r) w.db.idempotency_records
          → view v k ≡ put_first (of_record r) (view w) k
      written v k e =
          ap (λ rows. keyed rows k) e ∙ insert_new-keyed (of_record r) w.db.idempotency_records k
