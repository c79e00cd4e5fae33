-- ===== src/Bff/Rate.antt =====
-- How many requests of one address the limit lets through.
use Prim.Native.Nat.{zero, suc}
use microservice_workspace.Base.Text.{Text, text_eq, text_eq_refl, text_eq_iff}
use mathlib.Core.Path.{subst, ◌≡◌, refl, sym, ap, ◌∙◌}
use microservice_workspace.Bff.Limit.{
  Bucket, Store, refill, take_token, serve, second, rate_limit, admitted, bucket_or_new,
}
use microservice_workspace.Base.{
  ℕ, ◌+◌, ◌≤◌, ◌<◌, true, false, none, some, [], ◌∷◌, leb, if◌then◌else◌, arith, List, Bool, Option,
  ◌⊎◌, inl, inr, Bool-cases, ◌&&◌, ◌*◌, ap, ◌-◌, ◌/◌, All,
}
use microservice_workspace.Base.Int.{ℤ, positive_or, pos, negsuc}

-- No bucket ever holds more than the limit.
pub record IsBounded (rps : ℤ) (store : Store) : Type 0 where
  pub bounded : (addr : Text) (b : Bucket) → store addr ≡ some b → b.tokens ≤ positive_or rps 1

serve-bounded : (rps now : ℕ) (b : Bucket) → b.tokens ≤ rps → (serve rps now b).1.tokens ≤ rps
unfolding serve take_token refill
serve-bounded rps now b h = ground arith

-- Times of a window that begins at `s` and is shorter than a second.
unfoldable pub Within : ℕ → List (Text × ℕ) → Type 0
Within s [] = Unit
Within s ((a, t) ∷ ts) = (s ≤ t) × (t < s + second) × Within s ts

-- What an address can still be let through in the window: a bucket that was refilled in it is not
-- refilled again.
allowance : ℕ → ℕ → Option Bucket → ℕ
allowance rps s none = rps
allowance rps s (some b) = if leb s b.last then b.tokens else b.tokens + rps

le_trans : {a b c : ℕ} → a ≤ b → b ≤ c → a ≤ c
le_trans h k = omega arith

abbrev one_if : Bool → ℕ
one_if true = 1
one_if false = 0

serve-allowance :
    (rps s t : ℕ) (b : Bucket)
    → s ≤ t
    → t < s + second
    → b.tokens ≤ rps
    → one_if (serve rps t b).0 + allowance rps s (some (serve rps t b).1) ≤ allowance rps s (some b)
unfolding serve take_token refill allowance
serve-allowance rps s t b h k bound = ground arith

positive_or-pos : (rps : ℤ) → 1 ≤ positive_or rps 1
positive_or-pos (pos n) = ground arith
positive_or-pos (negsuc n) = ground arith

allowance-new :
    (rps s t : ℕ) (o : Option Bucket)
    → s ≤ t
    → allowance rps s (some (bucket_or_new rps t o)) ≤ allowance rps s o
unfolding allowance
allowance-new rps s t none h = ground arith
allowance-new rps s t (some b) h = ground arith

new-bounded :
    (rps : ℤ) (t : ℕ) (o : Option Bucket)
    → ((b : Bucket) → o ≡ some b → b.tokens ≤ positive_or rps 1)
    → (bucket_or_new (positive_or rps 1) t o).tokens ≤ positive_or rps 1
new-bounded rps t none h = ground arith
new-bounded rps t (some b) h = h b refl

chosen-bounded :
    (c : Bool) (n : ℕ) (x b : Bucket) (o : Option Bucket)
    → (if c then some x else o) ≡ some b
    → x.tokens ≤ n
    → ((b : Bucket) → o ≡ some b → b.tokens ≤ n)
    → b.tokens ≤ n
chosen-bounded true n x b o e h k = ground arith
chosen-bounded false n x b o e h k = k b e

-- Whatever requests arrive, no bucket comes to hold more tokens than the limit, which is one if
-- less is configured.
pub rate_limit-IsBounded :
    (rps : ℤ) (addr : Text) (t now : ℕ) (store : Store) (h : IsBounded rps store)
    → IsBounded rps (rate_limit rps addr t now store).1
unfolding rate_limit
rate_limit-IsBounded rps addr t now store h = record {
  bounded = λ a b e.
      chosen-bounded (text_eq a addr) (positive_or rps 1) _ b (store a) e
        (serve-bounded (positive_or rps 1) now _ (new-bounded rps t (store addr) (h.bounded addr)))
        (h.bounded a);
}

-- Two texts that differ, in either order.
text_eq-swap : (s t : Text) → text_eq s t ≡ false → text_eq t s ≡ false
text_eq-swap s t h = go (Bool-cases (text_eq t s))
  where
    go : (text_eq t s ≡ true) ⊎ (text_eq t s ≡ false) → text_eq t s ≡ false
    go (inl e) = e ∙ sym (text_eq_refl s) ∙ ap (λ u. text_eq s u) (sym ((text_eq_iff t s).0 e)) ∙ h
    go (inr e) = e

-- What a request of `a` leaves of the allowance of `addr`.
abbrev LeavesAllowance : ℤ → Text → ℕ → ℕ → Store → Text → Type 0
LeavesAllowance rps a s t store addr =
    one_if (text_eq a addr && (rate_limit rps a t t store).0)
      + allowance (positive_or rps 1) s ((rate_limit rps a t t store).1 addr)
    ≤ allowance (positive_or rps 1) s (store addr)

own-allowance :
    (rps : ℤ) (a : Text) (s t : ℕ) (store : Store)
    → IsBounded rps store
    → s ≤ t
    → t < s + second
    → LeavesAllowance rps a s t store a
unfolding rate_limit
own-allowance rps a s t store b h k =
    let b0 = bucket_or_new (positive_or rps 1) t (store a) in
    let x =
      serve-allowance (positive_or rps 1) s t b0 h k (new-bounded rps t (store a) (b.bounded a)) in
    let y = allowance-new (positive_or rps 1) s t (store a) h in rw (text_eq_refl a) (le_trans x y)

rate_limit-allowance :
    (rps : ℤ) (addr a : Text) (s t : ℕ) (store : Store)
    → IsBounded rps store
    → s ≤ t
    → t < s + second
    → LeavesAllowance rps a s t store addr
unfolding rate_limit
rate_limit-allowance rps addr a s t store b h k = go (Bool-cases (text_eq a addr))
  where
    go : (text_eq a addr ≡ true) ⊎ (text_eq a addr ≡ false) → LeavesAllowance rps a s t store addr
    go (inl e) =
        subst (LeavesAllowance rps a s t store) ((text_eq_iff a addr).0 e)
          (own-allowance rps a s t store b h k)
    go (inr e) = rw (e, text_eq-swap a addr e) (ground arith)

admitted-allowance :
    (rps : ℤ) (addr : Text) (s : ℕ) (reqs : List (Text × ℕ)) (store : Store)
    → IsBounded rps store
    → Within s reqs
    → admitted rps addr reqs store ≤ allowance (positive_or rps 1) s (store addr)
unfolding admitted Within
admitted-allowance rps addr s [] store b h = ground arith
admitted-allowance rps addr s ((a, t) ∷ reqs) store b (h, k, l) =
    let ih =
      admitted-allowance rps addr s reqs (rate_limit rps a t t store).1
        (rate_limit-IsBounded rps a t t store b) l in
    counted (text_eq a addr && (rate_limit rps a t t store).0) _ _ _
      (rate_limit-allowance rps addr a s t store b h k) ih
  where
    counted : (c : Bool) (n p q : ℕ) → one_if c + p ≤ q → n ≤ p → (if c then suc n else n) ≤ q
    counted c n p q h k = ground arith

allowance-bound :
    (rps s : ℕ) (o : Option Bucket)
    → ((b : Bucket) → o ≡ some b → b.tokens ≤ rps)
    → allowance rps s o ≤ 2 * rps
unfolding allowance
allowance-bound rps s none h = ground arith
allowance-bound rps s (some b) h = let k = h b refl in ground arith

-- Of the requests that arrive within less than a second, from many addresses and in any order, at
-- most twice the limit are let through from one address, if no bucket holds more than the limit at
-- the start.
pub admitted-bound :
    (rps : ℤ) (addr : Text) (s : ℕ) (reqs : List (Text × ℕ)) (store : Store)
    (b : IsBounded rps store) (h : Within s reqs)
    → admitted rps addr reqs store ≤ 2 * positive_or rps 1
admitted-bound rps addr s reqs store b h =
    let k = admitted-allowance rps addr s reqs store b h in
    let l = allowance-bound (positive_or rps 1) s (store addr) (b.bounded addr) in omega arith

mul_pos : (x y : ℕ) → 1 ≤ x → 1 ≤ y → 1 ≤ x * y
mul_pos zero y h k = ground arith
mul_pos (suc n) y h k = ground arith

refill-some :
    (rps later : ℕ) (b : Bucket)
    → 1 ≤ rps
    → b.last + second ≤ later
    → 1 ≤ (refill rps later b).tokens
unfolding refill
refill-some rps later b h k =
    let m = mul_pos ((later - b.last) / second) rps (omega arith) h in ground arith

serve-again :
    (rps later : ℕ) (b : Bucket) → 1 ≤ rps → b.last + second ≤ later → (serve rps later b).0 ≡ true
unfolding serve take_token
serve-again rps later b h k = let m = refill-some rps later b h k in ground arith

serve-last : (rps now : ℕ) (b : Bucket) → b.last ≤ now → (serve rps now b).1.last ≤ now
unfolding serve take_token refill
serve-last rps now b h = ground arith

new-last :
    (rps t now : ℕ) (o : Option Bucket)
    → t ≤ now
    → ((b : Bucket) → o ≡ some b → b.last ≤ now)
    → (bucket_or_new rps t o).last ≤ now
new-last rps t now none h k = h
new-last rps t now (some b) h k = k b refl

-- The buckets after requests of the addresses at the times.
unfoldable pub after_requests : ℤ → List (Text × ℕ) → Store → Store
after_requests rps [] store = store
after_requests rps ((a, t) ∷ reqs) store = after_requests rps reqs (rate_limit rps a t t store).1

rate_limit-other :
    (rps : ℤ) (addr a : Text) (t : ℕ) (store : Store)
    → text_eq a addr ≡ false
    → (rate_limit rps a t t store).1 addr ≡ store addr
unfolding rate_limit
rate_limit-other rps addr a t store h = rw (text_eq-swap a addr h) refl

after_requests-other :
    (rps : ℤ) (addr : Text) (reqs : List (Text × ℕ)) (store : Store)
    → All (λ (r : Text × ℕ). text_eq r.0 addr ≡ false) reqs
    → after_requests rps reqs store addr ≡ store addr
unfolding after_requests
after_requests-other rps addr [] store h = refl
after_requests-other rps addr ((a, t) ∷ reqs) store h =
    after_requests-other rps addr reqs (rate_limit rps a t t store).1 h.1
    ∙ rate_limit-other rps addr a t store h.0

-- After a request of a client that arrives at `now`, not before the last refill of its bucket, the
-- next request of the same client is let through if it arrives a second later or more, whatever
-- requests of others are served between the two.
pub rate_limit-again :
    (rps : ℤ) (addr : Text) (t now u later : ℕ) (store : Store) (h : t ≤ now)
    (k : (b : Bucket) → store addr ≡ some b → b.last ≤ now) (l : now + second ≤ later)
    (others : List (Text × ℕ)) (o : All (λ (r : Text × ℕ). text_eq r.0 addr ≡ false) others)
    → (rate_limit rps addr u later
        (after_requests rps others (rate_limit rps addr t now store).1)).0
      ≡ true
unfolding rate_limit
rate_limit-again rps addr t now u later store h k l others o =
    rw
      (
        after_requests-other rps addr others (rate_limit rps addr t now store).1 o,
        text_eq_refl addr,
      )
      (serve-again (positive_or rps 1) later _ (positive_or-pos rps) (
        le_trans
          (le_add (
            serve-last (positive_or rps 1) now (bucket_or_new (positive_or rps 1) t (store addr))
              (new-last (positive_or rps 1) t now (store addr) h k)))
          l))
  where
    le_add : {a b : ℕ} → a ≤ b → a + second ≤ b + second
    le_add h = omega arith
