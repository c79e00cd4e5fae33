-- ===== src/Store/Idempotency.antt =====
-- The adapter of idempotency records:
-- micro/ledger/internal/infra/out/persistence/gorm/adapter/idempotency_repo.go.
use microservice_workspace.Base.{Bool, Option, none, some, List, [], ◌∷◌, any, find, if◌then◌else◌}
use microservice_workspace.Base.Text.{Text, text_eq}
use microservice_workspace.Base.Result.{ok, M}
use microservice_workspace.Domain.{IdempotencyRecord}
use microservice_workspace.Domain.External.{External}
use microservice_workspace.Store.{World, IdempotencyRecordEntity}
use microservice_workspace.Store.Tx.{statement}

-- `&model.IdempotencyRecord{}`
abbrev pub no_record : IdempotencyRecord
no_record = record { key = []; operation = []; response_json = []; status_code = 0; created_at = 0 }

abbrev pub to_record : IdempotencyRecordEntity → IdempotencyRecord
to_record m = record {
  key = m.key;
  operation = m.operation;
  response_json = m.response_json;
  status_code = m.status_code;
  created_at = m.created_at;
}

abbrev pub of_record : IdempotencyRecord → IdempotencyRecordEntity
of_record r = record {
  key = r.key;
  operation = r.operation;
  response_json = r.response_json;
  status_code = r.status_code;
  created_at = r.created_at;
}

abbrev pub has_key : Text → IdempotencyRecordEntity → Bool
has_key key m = text_eq m.key key

-- A missing key is an empty record, not nil.
abbrev pub found_record : Option IdempotencyRecordEntity → Option IdempotencyRecord
found_record none = some no_record
found_record (some m) = some (to_record m)

-- `ON CONFLICT (key) DO NOTHING`
abbrev pub insert_new :
    IdempotencyRecordEntity → List IdempotencyRecordEntity → List IdempotencyRecordEntity
insert_new m rows = if any (has_key m.key) rows then rows else m ∷ rows

module _ (X : External) where
  unfoldable pub get : Text → M (World X) (Option IdempotencyRecord)
  get key = statement X (λ db. ok (found_record (find (has_key key) db.idempotency_records), db))

  unfoldable pub put : IdempotencyRecord → M (World X) (Unit {0})
  put r = statement X λ db.
      ok (tt, record db { idempotency_records = insert_new (of_record r) db.idempotency_records })
