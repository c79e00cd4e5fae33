-- ===== src/Ledger/Saga.antt =====
-- The saga of a payment as the accounts service sees it: which holds are reserved and released.
use microservice_workspace.Ledger.Quiet.{write_payment-Quiet}
use microservice_workspace.Store.Tx.{do_write}
use microservice_workspace.Store.Calls.{record_audit, release_hold, reserve_hold, call}
use microservice_workspace.Domain.{PostPaymentResult}
use microservice_workspace.Ledger.Rules.{accept_hold}
use microservice_workspace.Ledger.Payment.{
  Order, settle_outcome, run_saga, post_reserved, write_or_release, payment_audit, reserve_request,
  write_payment, release_request,
}
use microservice_workspace.Base.{◌++◌}
use microservice_workspace.Base.Text.{Text, lit}
use microservice_workspace.Domain.Remote.{
  HoldRequest, HoldResponse, Effect, audited, reserved, released,
}
use microservice_workspace.Base.{
  ◌≡◌, refl, ◌∙◌, ◌⊎◌, inl, inr, Bool, true, false, Option, none, some, ◌∷◌, List, ap, Bool-cases,
}
use microservice_workspace.Base.Result.{
  Result, ok, err, Post, ◌>>=◌, pure, attempt, from_result, Post-weaken, ◌>>◌,
}
use microservice_workspace.Domain.External.{External}
use microservice_workspace.Store.{World}

-- The accounts service granted the hold: it answered, and did not refuse.
abbrev pub is_granted : Result (Option HoldResponse) → Bool
is_granted (ok none) = true
is_granted (ok (some r)) = r.is_ok
is_granted (err e) = false

module _ (X : External) (o : Order X) where
  -- After the hold: a payment is audited, a failure releases the hold.
  abbrev Closed : World X → Result PostPaymentResult × World X → Type 0
  Closed w r =
      Post (λ _ v. v.log ≡ audited (payment_audit X o) ∷ w.log)
        (λ _ v. v.log ≡ released (release_request X o) ∷ w.log) r

  settle_outcome-log :
      (r : Result PostPaymentResult) (w v : World X)
      → v.log ≡ w.log
      → Closed w (
          (settle_outcome X o r >>= λ result.
          attempt (record_audit X (payment_audit X o)) >> pure result)
            v)
  unfolding settle_outcome record_audit release_hold call
  settle_outcome-log (ok r) w v h = ap (λ l. audited (payment_audit X o) ∷ l) h
  settle_outcome-log (err e) w v h = ap (λ l. released (release_request X o) ∷ l) h

  post_reserved-log : (w : World X) → Closed w (post_reserved X o w)
  unfolding post_reserved write_or_release
  post_reserved-log w =
      let (r, v) = do_write X (write_payment X o) w in
      settle_outcome-log r w v ((write_payment-Quiet X o).run w)

  -- The hold that is asked for: of the amount, on the source account, under the identifier of the
  -- payment; and its return.
  abbrev pub hold_of : Text → Text → HoldRequest X.Float
  hold_of reason suffix = record {
    id = X.uuid_string o.cmd.source_account_id;
    currency = o.cmd.currency;
    amount = (X.float64 o.amount).0;
    reason = reason;
    hold_id = X.uuid_string o.payment_id;
    idempotency_key = o.cmd.idempotency_key ++ suffix;
  }

  abbrev pub wanted : HoldRequest X.Float
  wanted = hold_of (lit "payment") (lit ":reserve_hold")

  abbrev pub returned : HoldRequest X.Float
  returned = hold_of (lit "payment-compensation") (lit ":release_hold")

  -- What the log says of a saga that began with the log `l`, by whether the hold was granted.
  abbrev pub SagaLog : Bool → List (Effect X.Float) → Result PostPaymentResult × World X → Type 0
  SagaLog granted l =
      Post (λ _ v. (granted ≡ true) × (v.log ≡ audited (payment_audit X o) ∷ reserved wanted ∷ l))
        (λ _ v.
          ((granted ≡ true) × (v.log ≡ released returned ∷ reserved wanted ∷ l))
          ⊎ ((granted ≡ false) × (v.log ≡ reserved wanted ∷ l)))

  granted-log :
      (l : List (Effect X.Float)) (w : World X)
      → w.log ≡ reserved (reserve_request X o) ∷ l
      → SagaLog true l (post_reserved X o w)
  granted-log l w h =
      Post-weaken _ _ _ _ (post_reserved X o w) (post_reserved-log w)
        (λ _ v e. (refl, e ∙ ap (λ k. audited (payment_audit X o) ∷ k) h))
        (λ _ v e. inl (refl, e ∙ ap (λ k. released (release_request X o) ∷ k) h))

  answered-log :
      (r : Result (Option HoldResponse)) (l : List (Effect X.Float)) (w : World X)
      → w.log ≡ reserved (reserve_request X o) ∷ l
      → SagaLog
          (is_granted r)
          l
          ((from_result r >>= λ m. from_result (accept_hold m) >> post_reserved X o) w)
  unfolding accept_hold
  answered-log (ok none) l w h = granted-log l w h
  answered-log (ok (some r)) l w h = elim (Bool-cases r.is_ok) [
    | inl granted ↦ rw granted (granted-log l w h)
    | inr refused ↦ rw refused (inr (refl, h))
  ]
  answered-log (err e) l w h = inr (refl, h)

  -- The accounts service is asked for one hold. If it grants the hold, the saga ends in a payment,
  -- which is audited, or in a failure, which releases the hold of the same identifier, account,
  -- amount and currency. If it does not, nothing is released and the saga fails.
  pub run_saga-SagaLog :
      (w : World X) → SagaLog (is_granted (X.reserve_hold wanted w.env).0) w.log (run_saga X o w)
  unfolding run_saga reserve_hold call
  run_saga-SagaLog w =
      let (r, env') = X.reserve_hold (reserve_request X o) w.env in
      answered-log r w.log (record w { env = env'; log = reserved (reserve_request X o) ∷ w.log })
        refl
