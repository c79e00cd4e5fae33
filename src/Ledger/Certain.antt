-- ===== src/Ledger/Certain.antt =====
-- Use cases that answer with a pointer: if it is nil, or if the use case fails, no table changed.
use microservice_workspace.Base.{◌≡◌, [], ◌∷◌, Option, none, some, not}
use microservice_workspace.Base.Text.{Text}
use microservice_workspace.Base.Result.{M, Post, Post-bind, ◌>>=◌, pure, from_result, raise_if}
use microservice_workspace.Domain.{
  Actor, PostPaymentCommand, CreditAccountCommand, CreditAccountSystemCommand, CreditAccountResult,
}
use microservice_workspace.Domain.External.{External}
use microservice_workspace.Store.{World, idle}
use microservice_workspace.Ledger.Rules.{cached_json, accept_accounts, amount_not_exact}
use microservice_workspace.Store.Calls.{validate_accounts}
use microservice_workspace.Ledger.Frame.{
  At, Safe, Still, from_result-Still, raise_if-Still, validate_accounts-Still, cached_json-Still,
}
use microservice_workspace.Ledger.Payment.{
  start_payment, answer_or_start, post_payment, validate_request, identified,
}
use microservice_workspace.Ledger.Credit.{
  validated_booking, answer_or_book, guarded, credit_account, credit_account_system, self_request,
}
use microservice_workspace.Ledger.Atomic.{identified-Safe, new_booking-Safe}

module _ {X : External} (w₀ : World X) where
  -- If the action fails, or answers nil, the tables are those of `w₀`; no transaction stays open.
  abbrev pub Certain : {A : Type 0} → M (World X) (Option A) → Type 0
  Certain m =
      (w : World X)
      → At w₀ w
      → Post (λ o v. (v.tx ≡ idle) × (o ≡ none → At w₀ v)) (λ _ v. At w₀ v) (m w)

  module _ {A B : Type 0} where
    Certain-bind :
        (m : M (World X) A) (f : A → M (World X) (Option B))
        → Still w₀ m
        → ((a : A) → Certain (f a))
        → Certain (m >>= f)
    Certain-bind m f h k w a = Post-bind (λ _ v. At w₀ v) _ _ m f w (h w a) (λ b v. k b v)

  module _ {A : Type 0} where
    some-Certain : (m : M (World X) A) → Safe w₀ m → Certain (m >>= λ r. pure (some r))
    some-Certain m h w a =
        Post-bind (λ _ v. v.tx ≡ idle) _ _ m (λ r. pure (some r)) w (h w a) (λ b v t. (t, λ e. cc))

    pure-Certain : (o : Option A) → Certain (pure o)
    pure-Certain o w h = (h.1, λ _. h)

  start_payment-Certain :
      (actor : Actor) (cmd : PostPaymentCommand) (amt : X.Decimal)
      → Certain (start_payment X actor cmd amt)
  unfolding start_payment
  start_payment-Certain actor cmd amt =
      Certain-bind (validate_accounts X (validate_request X cmd amt)) _
        (validate_accounts-Still w₀ (validate_request X cmd amt))
        λ v.
          Certain-bind (from_result (accept_accounts v)) _
            (from_result-Still w₀ (accept_accounts v))
            λ _. some-Certain (identified X actor cmd amt) (identified-Safe w₀ actor cmd amt)

  answer_or_start-Certain :
      (actor : Actor) (cmd : PostPaymentCommand) (amt : X.Decimal) (cached : Text)
      → Certain (answer_or_start X actor cmd amt cached)
  unfolding answer_or_start
  answer_or_start-Certain actor cmd amt [] = start_payment-Certain actor cmd amt
  answer_or_start-Certain actor cmd amt (c ∷ cs) = pure-Certain (X.unmarshal_payment (c ∷ cs))

  pub post_payment-Certain :
      (actor : Actor) (cmd : PostPaymentCommand) → Certain (post_payment X actor cmd)
  unfolding post_payment
  post_payment-Certain actor cmd =
      Certain-bind (from_result (X.decimal_from_string cmd.amount)) _
        (from_result-Still w₀ (X.decimal_from_string cmd.amount))
        λ amt.
          Certain-bind (raise_if (not (X.float64 amt).1) amount_not_exact) _
            (raise_if-Still w₀ (not (X.float64 amt).1) amount_not_exact)
            λ _.
              Certain-bind (cached_json X cmd.idempotency_key) _
                (cached_json-Still w₀ cmd.idempotency_key) (answer_or_start-Certain actor cmd amt)

  validated_booking-Certain :
      (account currency : Text) (amt : X.Decimal) (proceed : M (World X) CreditAccountResult)
      → Safe w₀ proceed
      → Certain (validated_booking X account currency amt proceed)
  unfolding validated_booking
  validated_booking-Certain account currency amt proceed h =
      Certain-bind (validate_accounts X (self_request X account currency amt)) _
        (validate_accounts-Still w₀ (self_request X account currency amt))
        λ v.
          Certain-bind (from_result (accept_accounts v)) _
            (from_result-Still w₀ (accept_accounts v)) (λ _. some-Certain proceed h)

  answer_or_book-Certain :
      (account currency : Text) (amt : X.Decimal) (proceed : M (World X) CreditAccountResult)
      (cached : Text)
      → Safe w₀ proceed
      → Certain (answer_or_book X account currency amt proceed cached)
  unfolding answer_or_book
  answer_or_book-Certain account currency amt proceed [] h =
      validated_booking-Certain account currency amt proceed h
  answer_or_book-Certain account currency amt proceed (c ∷ cs) h =
      pure-Certain (X.unmarshal_credit (c ∷ cs))

  guarded-Certain :
      (amount key account currency : Text) (proceed : X.Decimal → M (World X) CreditAccountResult)
      → ((amt : X.Decimal) → Safe w₀ (proceed amt))
      → Certain (guarded X amount key account currency proceed)
  unfolding guarded
  guarded-Certain amount key account currency proceed h =
      Certain-bind (from_result (X.decimal_from_string amount)) _
        (from_result-Still w₀ (X.decimal_from_string amount))
        λ amt.
          Certain-bind (raise_if (not (X.float64 amt).1) amount_not_exact) _
            (raise_if-Still w₀ (not (X.float64 amt).1) amount_not_exact)
            λ _.
              Certain-bind (cached_json X key) _ (cached_json-Still w₀ key)
                λ cached. answer_or_book-Certain account currency amt (proceed amt) cached (h amt)

  pub credit_account-Certain :
      (actor : Actor) (cmd : CreditAccountCommand) → Certain (credit_account X actor cmd)
  unfolding credit_account
  credit_account-Certain actor cmd = guarded-Certain _ _ _ _ _ (λ amt. new_booking-Safe w₀ _ _)

  pub credit_account_system-Certain :
      (cmd : CreditAccountSystemCommand) → Certain (credit_account_system X cmd)
  unfolding credit_account_system
  credit_account_system-Certain cmd = guarded-Certain _ _ _ _ _ (λ amt. new_booking-Safe w₀ _ _)
