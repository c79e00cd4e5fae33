-- ===== src/Bff/Asked.antt =====
-- What the ledger's validation says to the requests of the gateway.
use microservice_workspace.Domain.{Uuid}
use microservice_workspace.Base.Text.{Text, lit}
use microservice_workspace.Validation.Requests.{
  to_list_query, ListRequest, to_list_account_journal_entries_query,
  to_list_account_statement_query,
}
use microservice_workspace.Validation.Fields.{normalize_page_size, require_timestamp, require_uuid}
use microservice_workspace.Domain.External.{External}
use microservice_workspace.Bff.Statement.{
  size_param, statement_request, Times, StatementParams, journal_entries_request,
}
use mathlib.Core.Path.{◌≡◌, refl}
use Prim.Native.Nat.{zero, suc}
use microservice_workspace.Base.Int.{int32, of_word}
use microservice_workspace.Base.{
  ℕ, ltb, inl, inr, Option, true, false, none, some, ◌≤◌, arith, ◌%◌, ◌^◌, Bool-cases, Option, suc,
  Bool,
}
use microservice_workspace.Base.Result.{ok, err, Error, and_then, Result}
use microservice_workspace.Base.Int.{ℤ, pos, negsuc, positive_or}

int32-small : (n : ℕ) → n ≤ 200 → int32 (pos n) ≡ pos n
unfolding int32
int32-small n h = let below : n % 2 ^ 32 ≡ n = omega arith in rw (below) (small n h)
  where
    small : (n : ℕ) → n ≤ 200 → of_word n ≡ pos n
    small n h = ground arith

positive_or-bound : (n : ℕ) → n ≤ 200 → positive_or (pos n) 50 ≤ 200
positive_or-bound zero h = ground arith
positive_or-bound (suc n) h = ground arith

size_param-bound : (o : Option ℤ) → positive_or (size_param o) 50 ≤ 200
unfolding size_param
size_param-bound none = ground arith
size_param-bound (some (pos zero)) = ground arith
size_param-bound (some (pos (suc n))) = elim (Bool-cases (ltb 200 (suc n))) [
  | inl e ↦ rw e (ground arith)
  | inr e ↦ rw (e, int32-small (suc n) (ground arith)) (positive_or-bound (suc n) (ground arith))
]
size_param-bound (some (negsuc n)) = ground arith

-- Whatever page and size the client asks the gateway for, the ledger does not refuse them: it
-- takes the page that it is sent, or the first if that is not positive, and the size that it is
-- sent, or 50.
pub statement_request-accepted :
    (T : Times) (account : Text) (p : StatementParams)
    → normalize_page_size
        (statement_request T account p).page
        (statement_request T account p).size
        200
        true
      ≡ ok (
        positive_or (statement_request T account p).page 1,
        positive_or (statement_request T account p).size 50,
      )
unfolding normalize_page_size statement_request and_then
statement_request-accepted T account p =
    rw (above (positive_or (size_param p.size) 50) (size_param-bound p.size)) refl
  where
    above : (n : ℕ) → n ≤ 200 → ltb 200 n ≡ false
    above n h = ground arith

module _ (X : External) where
  -- A request without the start of the window is refused, whatever else it holds.
  from_missing :
      (max_days : ℕ) (one_based : Bool) (r : ListRequest)
      → r.from ≡ none
      → (e : Error) × (to_list_query X max_days one_based (some r) ≡ err e)
  unfolding to_list_query and_then require_timestamp
  from_missing max_days one_based r h = go (require_uuid X r.account_id (lit "account_id")) refl
    where
      go :
          (q : Result Uuid)
          → require_uuid X r.account_id (lit "account_id") ≡ q
          → (e : Error) × (to_list_query X max_days one_based (some r) ≡ err e)
      go (ok u) k = rw (k, h) (_, refl)
      go (err x) k = rw k (_, refl)

  -- The ledger refuses every list of journal entries that the gateway asks for, and every
  -- statement that it asks for without the start of the window.
  pub requests-refused :
      (T : Times) (account : Text) (page size : ℤ) (p : StatementParams)
      → p.from ≡ none
      → ((e : Error) × (to_list_account_journal_entries_query X
              (some (journal_entries_request account page size))
            ≡ err e))
        × ((e : Error) × (to_list_account_statement_query X (some (statement_request T account p))
              ≡ err e))
  unfolding to_list_account_journal_entries_query to_list_account_statement_query and_then
      journal_entries_request statement_request
  requests-refused T account page size p h =
      let (e, k) = from_missing 90 false (journal_entries_request account page size) refl in
      let (f, l) = from_missing 180 true (statement_request T account p) (rw h refl) in
      ((e, rw k refl), (f, l))
