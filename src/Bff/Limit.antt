-- ===== src/Bff/Limit.antt =====
-- The limit on the rate of requests: bff/internal/api/rest/middleware/ratelimit.go. Times are in
-- nanoseconds of a clock that does not run backwards.
use microservice_workspace.Base.{
  ℕ, ◌+◌, ◌-◌, ◌*◌, ◌/◌, suc, Bool, true, false, Option, none, some, List, [], ◌∷◌, ltb, leb, ◌==◌,
  if◌then◌else◌, ◌&&◌,
}
use microservice_workspace.Base.Text.{Text, text_eq}
use microservice_workspace.Base.Int.{ℤ, positive_or}

pub record Bucket : Type 0 where
  pub tokens : ℕ
  pub last : ℕ

abbrev pub second : ℕ
second = 1000000000

abbrev pub capped : ℕ → ℕ → ℕ
capped rps n = if ltb rps n then rps else n

-- Whole seconds that have passed are refilled.
unfoldable pub refill : ℕ → ℕ → Bucket → Bucket
refill rps now b =
    let elapsed = now - b.last in
    if leb second elapsed
    then record { tokens = capped rps (b.tokens + elapsed / second * rps); last = now }
    else b

-- Whether a request is let through, and the bucket after it.
unfoldable pub take_token : Bucket → Bool × Bucket
take_token b = if b.tokens == 0 then (false, b) else (true, record b { tokens = b.tokens - 1 })

unfoldable pub serve : ℕ → ℕ → Bucket → Bool × Bucket
serve rps now b = take_token (refill rps now b)

-- The buckets by remote address.
abbrev pub Store : Type 0
Store = Text → Option Bucket

abbrev pub bucket_or_new : ℕ → ℕ → Option Bucket → Bucket
bucket_or_new rps t none = record { tokens = rps; last = t }
bucket_or_new rps t (some b) = b

abbrev pub put_bucket : Text → Bucket → Store → Store
put_bucket addr b store a = if text_eq a addr then some b else store a

-- A limit below one counts as one; `t` is the time at which a new bucket is made, `now` that of
-- the request.
unfoldable pub rate_limit : ℤ → Text → ℕ → ℕ → Store → Bool × Store
rate_limit rps addr t now store =
    let limit = positive_or rps 1 in
    let (admitted, b) = serve limit now (bucket_or_new limit t (store addr)) in
    (admitted, put_bucket addr b store)

-- How many requests of `addr` are let through, of those that arrive from many addresses.
unfoldable pub admitted : ℤ → Text → List (Text × ℕ) → Store → ℕ
admitted rps addr [] store = 0
admitted rps addr ((a, t) ∷ reqs) store =
    let (through, store') = rate_limit rps a t t store in
    let rest = admitted rps addr reqs store' in if text_eq a addr && through then suc rest else rest
