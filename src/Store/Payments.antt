-- ===== src/Store/Payments.antt =====
-- The adapter of payments:
-- micro/ledger/internal/infra/out/persistence/gorm/adapter/payment_repo.go.
use microservice_workspace.Base.{
  Option, Bool, ◌||◌, none, some, List, [], ◌∷◌, map, any, find, select, update, leb, ◌==◌,
  if◌then◌else◌, not,
}
use microservice_workspace.Base.Text.{Text, text_eq, lit}
use microservice_workspace.Base.Result.{Result, ok, err, record_not_found, M, ◌>>=◌, pure, raise}
use microservice_workspace.Domain.{Time, Uuid, Payment, PaymentStep}
use microservice_workspace.Domain.External.{External}
use microservice_workspace.Store.{
  Db, World, PaymentEntity, PaymentStepEntity, unique_violation, foreign_key_violation,
  undefined_column,
}
use microservice_workspace.Store.Tx.{statement}
use microservice_workspace.Store.Calls.{time_now}

module _ {D : Type 0} where
  unfoldable pub to_domain_payment : PaymentEntity D → Payment D
  to_domain_payment m = record {
    id = m.id;
    idempotency_key = m.idempotency_key;
    source_account = m.source_account;
    dest_account = m.dest_account;
    amount = m.amount;
    currency = m.currency;
    status = m.status;
    customer_id = m.customer_id;
    hold_id = m.hold_id;
    journal_id = m.journal_id;
    correlation_id = m.correlation_id;
    created_at = m.created_at;
    updated_at = m.updated_at;
  }

  unfoldable pub from_domain_payment : Payment D → PaymentEntity D
  from_domain_payment p = record {
    id = p.id;
    idempotency_key = p.idempotency_key;
    source_account = p.source_account;
    dest_account = p.dest_account;
    amount = p.amount;
    currency = p.currency;
    status = p.status;
    customer_id = p.customer_id;
    hold_id = p.hold_id;
    journal_id = p.journal_id;
    correlation_id = p.correlation_id;
    created_at = p.created_at;
    updated_at = p.updated_at;
  }

  abbrev pub has_id : Uuid → PaymentEntity D → Bool
  has_id id m = m.id == id

  abbrev pub has_key : Text → PaymentEntity D → Bool
  has_key key m = text_eq m.idempotency_key key

  abbrev pub collides : PaymentEntity D → PaymentEntity D → Bool
  collides m r = has_id m.id r || has_key m.idempotency_key r

  unfoldable pub create_payment : PaymentEntity D → Db D → Result ((Unit {0}) × Db D)
  create_payment m db =
      if any (collides m) db.payments
      then err unique_violation
      else ok (tt, record db { payments = m ∷ db.payments })

  -- `DetailsJSON` has no column tag: gorm writes it to the column details_json.
  unfoldable pub create_step : List Text → PaymentStepEntity → Db D → Result ((Unit {0}) × Db D)
  create_step columns m db =
      if not (any (text_eq (lit "details_json")) columns)
      then err undefined_column
      else if any (λ (r : PaymentStepEntity). r.id == m.id) db.payment_steps
      then err unique_violation
      else (if any (has_id m.payment_id) db.payments
          then ok (tt, record db { payment_steps = m ∷ db.payment_steps })
          else err foreign_key_violation)

  abbrev pub with_status : Text → Time → PaymentEntity D → PaymentEntity D
  with_status status now m = record m { status = status; updated_at = now }

  unfoldable pub set_status : Uuid → Text → Time → Db D → Result ((Unit {0}) × Db D)
  set_status id status now db =
      ok (tt, record db { payments = update (has_id id) (with_status status now) db.payments })

abbrev pub step_row : PaymentStep → PaymentStepEntity
step_row s = record {
  id = s.id;
  payment_id = s.payment_id;
  step = s.step;
  state = s.state;
  details_json = s.details_json;
  attempted_at = s.attempted_at;
}

abbrev pub to_step : PaymentStepEntity → PaymentStep
to_step m = record {
  id = m.id;
  payment_id = m.payment_id;
  step = m.step;
  state = m.state;
  details_json = m.details_json;
  attempted_at = m.attempted_at;
}

-- `ORDER BY attempted_at ASC`
unfoldable pub insert_asc : PaymentStepEntity → List PaymentStepEntity → List PaymentStepEntity
insert_asc m [] = m ∷ []
insert_asc m (r ∷ rs) =
    if leb m.attempted_at r.attempted_at then m ∷ r ∷ rs else r ∷ insert_asc m rs

unfoldable pub sort_asc : List PaymentStepEntity → List PaymentStepEntity
sort_asc [] = []
sort_asc (r ∷ rs) = insert_asc r (sort_asc rs)

module _ (X : External) where
  -- `Preload("Steps")` queries the steps of a payment that was found; the domain's payment has
  -- none.
  abbrev pub preloaded : Option (PaymentEntity X.Decimal) → M (World X) (Payment X.Decimal)
  preloaded none = raise record_not_found
  preloaded (some m) = statement X (λ db. ok (tt, db)) >>= λ _. pure (to_domain_payment m)

  unfoldable pub find_by_id : Uuid → M (World X) (Payment X.Decimal)
  find_by_id id = do
    found ← statement X (λ db. ok (find (has_id id) db.payments, db))
    preloaded found

  unfoldable pub insert : Payment X.Decimal → M (World X) (Unit {0})
  insert p = statement X (create_payment (from_domain_payment p))

  unfoldable pub insert_step : PaymentStep → M (World X) (Unit {0})
  insert_step s = statement X (create_step X.step_columns (step_row s))

  unfoldable pub update_status : Uuid → Text → M (World X) (Unit {0})
  update_status id status = do now ← time_now X; statement X (set_status id status now)

  unfoldable pub list_steps : Uuid → M (World X) (List PaymentStep)
  list_steps payment_id = statement X λ db.
      ok (map to_step (sort_asc (select (λ m. m.payment_id == payment_id) db.payment_steps)), db)
