-- ===== src/Validation/Bounds.antt =====
-- The bounds that validated pages and time windows respect.
use microservice_workspace.Base.Text.{lit}
use microservice_workspace.Domain.External.{External}
use microservice_workspace.Validation.Requests.{to_list_query, ListQuery, ListRequest}
use microservice_workspace.Validation.Fields.{
  normalize_page_size, validate_time_window, normalize_page, days, invalid,
}
use microservice_workspace.Base.{
  ℕ, zero, suc, ◌≡◌, ◌≤◌, ◌<◌, Bool, true, false, Option, none, some, arith, ◌-◌, ltb, Bool-cases,
  inl, inr, if◌then◌else◌,
}
use microservice_workspace.Base.Result.{ok, err, Ensures, Ensures-and_then, Ensures-any}
use microservice_workspace.Base.Int.{pos, negsuc, ℤ, positive_or}

abbrev pub IsPage : ℕ → Bool → ℕ × ℕ → Type 0
IsPage max_size one_based b = (1 ≤ b.1) × (b.1 ≤ max_size) × (one_based ≡ true → 1 ≤ b.0)

normalize_page-one_based :
    (page : ℤ) (one_based : Bool)
    → Ensures (λ p. one_based ≡ true → 1 ≤ p) (normalize_page page one_based)
normalize_page-one_based (pos zero) true = λ h. omega arith
normalize_page-one_based (pos (suc n)) true = λ h. omega arith
normalize_page-one_based (negsuc n) true = λ h. omega arith
normalize_page-one_based (pos n) false = λ h. cc
normalize_page-one_based (negsuc n) false = tt

positive_or-positive : (z : ℤ) (d : ℕ) → 1 ≤ d → 1 ≤ positive_or z d
positive_or-positive (pos zero) d h = h
positive_or-positive (pos (suc n)) d h = omega arith
positive_or-positive (negsuc n) d h = h

-- A page size that passes is at least 1 and at most the maximum, whatever the request said; a page
-- that is counted from 1 is at least 1.
pub normalize_page_size-IsPage :
    (page size : ℤ) (max_size : ℕ) (one_based : Bool)
    → Ensures (IsPage max_size one_based) (normalize_page_size page size max_size one_based)
unfolding normalize_page_size
normalize_page_size-IsPage page size max_size one_based =
    Ensures-and_then (IsPage max_size one_based) (normalize_page page one_based) _
      (normalize_page-one_based page one_based)
      λ p h. sized p h (positive_or size 50) (positive_or-positive size 50 (omega arith))
  where
    sized :
        (p : ℕ)
        → (one_based ≡ true → 1 ≤ p)
        → (s : ℕ) → 1 ≤ s
        → Ensures
            (IsPage max_size one_based)
            (if ltb max_size s then err (invalid (lit "size max")) else ok (p, s))
    sized p h s k = elim (Bool-cases (ltb max_size s)) [
      | inl e ↦ rw e tt
      | inr e ↦ rw e (k, ground arith, h)
    ]

abbrev pub IsWindow : ℕ → Bool → ListQuery → Type 0
IsWindow max_days one_based q =
    (q.from ≤ q.to) × (q.to - q.from ≤ days max_days) × IsPage 200 one_based (q.page, q.size)

validate_time_window-Ensures :
    (from to max_range : ℕ)
    → 0 < max_range
    → Ensures (λ _. (from ≤ to) × (to - from ≤ max_range)) (validate_time_window from to max_range)
unfolding validate_time_window
validate_time_window-Ensures from to max_range h = ground arith

query-IsWindow :
    (max_days : ℕ) (one_based : Bool) (account from to : ℕ) (b : ℕ × ℕ) (counterparty : Bool)
    → (from ≤ to) × (to - from ≤ days max_days)
    → IsPage 200 one_based b
    → IsWindow max_days one_based (record {
      account_id = account;
      from = from;
      to = to;
      page = b.0;
      size = b.1;
      include_counterparty = counterparty;
    })
query-IsWindow max_days one_based account from to b counterparty w p = (w.0, w.1, p)

-- A list request that passes asks for a window that does not end before it starts, is no longer
-- than the number of days given, if that is positive, and for a page of 1 to 200 rows.
pub to_list_query-IsWindow :
    (X : External) (max_days : ℕ) (one_based : Bool) (req : Option ListRequest)
    → 0 < days max_days
    → Ensures (IsWindow max_days one_based) (to_list_query X max_days one_based req)
unfolding to_list_query
to_list_query-IsWindow X max_days one_based none h = tt
to_list_query-IsWindow X max_days one_based (some req) h =
    Ensures-any (IsWindow max_days one_based) _ _ λ acc.
      Ensures-any (IsWindow max_days one_based) _ _ λ from.
        Ensures-any (IsWindow max_days one_based) _ _ λ to.
          Ensures-and_then (IsWindow max_days one_based) _ _
            (validate_time_window-Ensures from to (days max_days) h)
            λ _ w.
              Ensures-and_then (IsWindow max_days one_based) _ _
                (normalize_page_size-IsPage req.page req.size 200 one_based)
                λ b p. query-IsWindow max_days one_based acc from to b req.include_counterparty w p
