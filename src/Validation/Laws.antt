-- ===== src/Validation/Laws.antt =====
-- What validated commands satisfy, field by field.
use microservice_workspace.Domain.External.{External}
use microservice_workspace.Validation.Requests.{
  to_credit_account_system_command, to_post_payment_command, fail_if, CreditAccountSystemRequest,
  PostPaymentRequest,
}
use microservice_workspace.Domain.{PostPaymentCommand, CreditAccountSystemCommand, Uuid}
use microservice_workspace.Base.Text.{Text, lit, text_eq, text_eq_iff, to_upper}
use microservice_workspace.Validation.Fields.{
  require_actor, require_decimal_amount, require_idempotency_key, require_currency, re_actor,
  re_amount, re_currency, re_idem, invalid, forbidden,
}
use microservice_workspace.Base.{
  refl, ◌≡◌, Bool, true, false, Option, none, some, arith, not, ◌==◌, if◌then◌else◌,
}
use microservice_workspace.Base.Result.{ok, err, Ensures, Ensures-and_then, Ensures-any, Error}

-- A test that guards what it is made of.
tested :
    (p : Text → Bool) (s : Text) (e : Error)
    → Ensures (λ t. p t ≡ true) (if p s then ok s else err e)
tested p s e = ground arith

fail_if-Ensures : (b : Bool) (e : Error) → Ensures (λ _. b ≡ false) (fail_if b e)
fail_if-Ensures true e = tt
fail_if-Ensures false e = refl

require_idempotency_key-Ensures :
    (raw field : Text) → Ensures (λ s. re_idem s ≡ true) (require_idempotency_key raw field)
unfolding require_idempotency_key
require_idempotency_key-Ensures raw field =
    Ensures-any (λ s. re_idem s ≡ true) _ _ λ s. tested re_idem s _

require_currency-Ensures : (raw : Text) → Ensures (λ s. re_currency s ≡ true) (require_currency raw)
unfolding require_currency
require_currency-Ensures raw =
    Ensures-any (λ s. re_currency s ≡ true) _ _ λ s. tested re_currency (to_upper s) _

require_decimal_amount-Ensures :
    (raw field : Text) → Ensures (λ s. re_amount s ≡ true) (require_decimal_amount raw field)
unfolding require_decimal_amount
require_decimal_amount-Ensures raw field =
    Ensures-any (λ s. re_amount s ≡ true) _ _ λ s. tested re_amount s _

require_actor-Ensures : (raw : Text) → Ensures (λ s. re_actor s ≡ true) (require_actor raw)
unfolding require_actor
require_actor-Ensures raw = Ensures-any (λ s. re_actor s ≡ true) _ _ λ s. tested re_actor s _

-- The fields of every command with money.
pub record IsMoney (key currency amount : Text) : Type 0 where
  pub key-ok : re_idem key ≡ true
  pub currency-ok : re_currency currency ≡ true
  pub amount-ok : re_amount amount ≡ true

abbrev pub IsPayment : PostPaymentCommand → Type 0
IsPayment c =
    IsMoney c.idempotency_key c.currency c.amount
    × (re_actor c.initiated_by ≡ true)
    × ((c.source_account_id == c.destination_account) ≡ false)

paid :
    (key currency amount actor : Text) (src dst : Uuid)
    → re_idem key ≡ true
    → re_currency currency ≡ true
    → re_amount amount ≡ true
    → re_actor actor ≡ true
    → (src == dst) ≡ false
    → IsPayment (record {
      idempotency_key = key;
      source_account_id = src;
      destination_account = dst;
      currency = currency;
      amount = amount;
      initiated_by = actor;
    })
paid key currency amount actor src dst k c a i d =
    (record { key-ok = k; currency-ok = c; amount-ok = a }, i, d)

-- A payment request that passes names two different accounts, and its key, currency, amount and
-- initiator have the form that their patterns ask for.
to_post_payment_command-IsPayment :
    (X : External) (req : Option PostPaymentRequest)
    → Ensures IsPayment (to_post_payment_command X req)
unfolding to_post_payment_command
to_post_payment_command-IsPayment X none = tt
to_post_payment_command-IsPayment X (some req) =
    Ensures-and_then IsPayment _ _
      (require_idempotency_key-Ensures req.idempotency_key (lit "idempotency_key"))
      λ key k. Ensures-any IsPayment _ _ λ src. Ensures-any IsPayment _ _ λ dst.
        Ensures-and_then IsPayment _ _
          (fail_if-Ensures (src == dst)
            (invalid (lit "source_account_id must be different from destination_account_id")))
          λ _ d. Ensures-and_then IsPayment _ _ (require_currency-Ensures req.currency) λ ccy c.
            Ensures-and_then IsPayment _ _
              (require_decimal_amount-Ensures req.amount (lit "amount"))
              λ amt a.
                Ensures-and_then IsPayment _ _ (require_actor-Ensures req.initiated_by)
                  λ actor i. paid key ccy amt actor src dst k c a i d

abbrev pub IsBonus : CreditAccountSystemCommand → Type 0
IsBonus c = IsMoney c.idempotency_key c.currency c.amount × (c.reason ≡ lit "registration_bonus")

bonus :
    (key currency amount ext reason : Text) (account : Uuid)
    → re_idem key ≡ true
    → re_currency currency ≡ true
    → re_amount amount ≡ true
    → text_eq reason (lit "registration_bonus") ≡ true
    → IsBonus (record {
      idempotency_key = key;
      account_id = account;
      currency = currency;
      amount = amount;
      external_ref = ext;
      reason = reason;
    })
bonus key currency amount ext reason account k c a r = (
  record { key-ok = k; currency-ok = c; amount-ok = a },
  (text_eq_iff reason (lit "registration_bonus")).0 r,
)

-- A system credit that passes is for the reason registration_bonus and no other, and its key,
-- currency and amount have the form that their patterns ask for.
to_credit_account_system_command-IsBonus :
    (X : External) (req : Option CreditAccountSystemRequest)
    → Ensures IsBonus (to_credit_account_system_command X req)
unfolding to_credit_account_system_command
to_credit_account_system_command-IsBonus X none = tt
to_credit_account_system_command-IsBonus X (some req) =
    Ensures-and_then IsBonus _ _
      (require_idempotency_key-Ensures req.idempotency_key (lit "idempotency_key"))
      λ key k. Ensures-any IsBonus _ _ λ acc.
        Ensures-and_then IsBonus _ _ (require_currency-Ensures req.currency) λ ccy c.
          Ensures-and_then IsBonus _ _ (require_decimal_amount-Ensures req.amount (lit "amount"))
            λ amt a. Ensures-any IsBonus _ _ λ ext. Ensures-any IsBonus _ _ λ _.
              Ensures-any IsBonus _ _ λ given. Ensures-any IsBonus _ _ λ reason.
                Ensures-any IsBonus _ _ λ _.
                  Ensures-and_then IsBonus _ _
                    (fail_if-Ensures (not (text_eq reason (lit "registration_bonus")))
                      (forbidden (lit "reason not allowed")))
                    λ _ r. bonus key ccy amt ext reason acc k c a (ground arith)

-- A payment request that passes names two different accounts, and its key, currency, amount and
-- initiator have the form that their patterns ask for. A system credit that passes is for the
-- reason registration_bonus and no other, and its key, currency and amount have the form that their
-- patterns ask for.
pub commands-Ensures :
    (X : External) (req : Option PostPaymentRequest) (sys : Option CreditAccountSystemRequest)
    → Ensures IsPayment (to_post_payment_command X req)
      × Ensures IsBonus (to_credit_account_system_command X sys)
commands-Ensures X req sys =
    (to_post_payment_command-IsPayment X req, to_credit_account_system_command-IsBonus X sys)
