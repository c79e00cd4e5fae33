-- ===== src/Ledger/Kept.antt =====
-- A use case that is called with a new key, and succeeds, returns what it recorded under the key.
use microservice_workspace.Ledger.Retry.{
  identified-Records, validate_accounts-Leaves, new_uuid-Leaves, time_now-Leaves,
  book_and_audit-Records,
}
use microservice_workspace.Domain.{Actor, CreditAccountResult, PostPaymentCommand, Uuid, Time}
use microservice_workspace.Domain.Remote.{ValidateRequest, AuditRecord}
use microservice_workspace.Ledger.Credit.{
  guarded, answer_or_book, validated_booking, self_request, new_booking, Booking, book_and_audit,
}
use microservice_workspace.Ledger.Payment.{
  post_payment, answer_or_start, start_payment, validate_request, identified,
}
use microservice_workspace.Ledger.Sound.{statement-Post}
use microservice_workspace.Store.Tx.{do_read}
use microservice_workspace.Ledger.Rules.{
  cached_json, amount_not_exact, response_of, accept_accounts,
}
use microservice_workspace.Base.Result.{
  M, Post, Result, ok, ◌>>=◌, Post-bind, err, pure, Post-weaken, from_result, raise_if, ◌>>◌,
}
use microservice_workspace.Store.{IdempotencyRecordEntity, World}
use microservice_workspace.Domain.External.{External}
use mathlib.Core.Path.{subst}
use microservice_workspace.Store.Calls.{new_uuid, time_now, validate_accounts, new_uuid, time_now}
use microservice_workspace.Base.{
  ◌≡◌, refl, sym, none, some, true, false, find, any, [], ◌∷◌, not, arith, Bool, Option, List,
}
use microservice_workspace.Base.Text.{Text, text_eq_refl}
use microservice_workspace.Store.Idempotency
use microservice_workspace.Ledger.Keys.{keys, SameKeys, Leaves, from_result-Leaves}
use microservice_workspace.Ledger.Records.{IsRecorded, Records, IsRecorded-before, Records-bind}

any-of_find : {A : Type 0} (p : A → Bool) (xs : List A) → find p xs ≡ none → any p xs ≡ false
any-of_find p [] h = refl
any-of_find p (x ∷ xs) h = ground (arith, any-of_find p xs)

-- A row under a key that no other row has is the one that is found.
find_own :
    (row : IdempotencyRecordEntity) (rows : List IdempotencyRecordEntity)
    → find (Idempotency.has_key row.key) rows ≡ none
    → find (Idempotency.has_key row.key) (Idempotency.insert_new row rows) ≡ some row
find_own row rows h =
    rw (any-of_find (Idempotency.has_key row.key) rows h, text_eq_refl row.key) refl

pub find-insert_new :
    (key : Text) (row : IdempotencyRecordEntity) (rows : List IdempotencyRecordEntity)
    → row.key ≡ key
    → find (Idempotency.has_key key) rows ≡ none
    → find (Idempotency.has_key key) (Idempotency.insert_new row rows) ≡ some row
find-insert_new key row rows k =
    subst
      (λ c.
        find (Idempotency.has_key c) rows ≡ none
        → find (Idempotency.has_key c) (Idempotency.insert_new row rows) ≡ some row)
      k (find_own row rows)

module _ {X : External} {A : Type 0} (marshal : A → Text) (key : Text) where
  -- The action returns a value, not nil, and ends by recording it.
  pub record IsKept (w : World X) (o : Option A) (v : World X) : Type 0 where
    pub value : A
    pub is_value : o ≡ some value
    pub recorded : IsRecorded marshal key value w v

  abbrev pub Kept : World X → Result (Option A) × World X → Type 0
  Kept w r = Post (λ o v. IsKept w o v) (λ _ _. Unit {0}) r

  IsKept-before : (o : Option A) (u w v : World X) → SameKeys u w → IsKept w o v → IsKept u o v
  IsKept-before o u w v h k = record {
    value = k.value;
    is_value = k.is_value;
    recorded = IsRecorded-before marshal key k.value u w v h k.recorded;
  }

  Kept-bind :
      {B : Type 0} (R : B → Type 0) (m : M (World X) B) (f : B → M (World X) (Option A))
      (w : World X)
      → Post (λ b v. R b × SameKeys w v) (λ _ _. Unit {0}) (m w)
      → ((b : B) (v : World X) → R b → Kept v (f b v))
      → Kept w ((m >>= f) w)
  Kept-bind R m f w h k =
      Post-bind (λ b v. R b × SameKeys w v) (λ o v. IsKept w o v) (λ _ _. Unit {0}) m f w h
        λ b v s.
          Post-weaken _ _ _ _ (f b v) (k b v s.0) (λ o u r. IsKept-before o w v u s.1 r)
            (λ _ _ _. tt)

  Leaves-Post :
      {B : Type 0} (m : M (World X) B) (w : World X)
      → Leaves m
      → Post (λ b v. Unit {0} × SameKeys w v) (λ _ _. Unit {0}) (m w)
  Leaves-Post m w h = go (m w) (h.run w)
    where
      go :
          {B : Type 0} (r : Result B × World X)
          → SameKeys w r.1
          → Post (λ b v. Unit {0} × SameKeys w v) (λ _ _. Unit {0}) r
      go (ok b, v) s = (tt, s)
      go (err e, v) s = tt

  Kept-some :
      (m : M (World X) A) (w : World X)
      → Records marshal key m
      → Kept w ((m >>= λ a. pure (some a)) w)
  Kept-some m w h =
      Post-bind (λ a v. IsRecorded marshal key a w v) (λ o v. IsKept w o v) (λ _ _. Unit {0}) m
        (λ a. pure (some a)) w (h.run w)
        λ a v r. record { value = a; is_value = refl; recorded = r }

module _ (X : External) where
  pub get-Ignores :
      (w : World X) (key : Text)
      → find (Idempotency.has_key key) (keys w) ≡ none
      → Post (λ t v. (t ≡ []) × SameKeys w v) (λ _ _. Unit {0}) (cached_json X key w)
  unfolding cached_json do_read Idempotency.get
  get-Ignores w key h =
      Post-bind (λ r v. (response_of r ≡ []) × SameKeys w v) (λ t v. (t ≡ []) × SameKeys w v)
        (λ _ _. Unit {0}) (Idempotency.get X key) (λ r. pure (response_of r)) w
        (Post-weaken _ _ _ _ (Idempotency.get X key w) (statement-Post _ w)
          (λ r v e. ground (arith, h)) (λ _ _ _. tt))
        λ r v e. e

  -- The amount and the key are checked first.
  module _ {A : Type 0} (marshal : A → Text) (key : Text) where
    pub prefixed-Kept :
        (amount : Result X.Decimal) (start : X.Decimal → Text → M (World X) (Option A))
        (w : World X)
        → find (Idempotency.has_key key) (keys w) ≡ none
        → ((amt : X.Decimal) (v : World X) → Kept marshal key v (start amt [] v))
        → Kept marshal key w (
            (from_result amount >>= λ amt.
            raise_if (not (X.float64 amt).1) amount_not_exact
            >> (cached_json X key >>= λ c. start amt c))
              w)
    prefixed-Kept (err e) start w h k = tt
    prefixed-Kept (ok amt) start w h k = checked (not (X.float64 amt).1)
      where
        checked :
            (b : Bool)
            → Kept marshal key w
                ((raise_if b amount_not_exact >> (cached_json X key >>= λ c. start amt c)) w)
        checked true = tt
        checked false =
            Kept-bind marshal key (λ t. t ≡ []) (cached_json X key) (λ c. start amt c) w
              (get-Ignores w key h)
              λ t v e. subst (λ t. Kept marshal key v (start amt t v)) (sym e) (k amt v)

    -- Validation of the accounts, and the write.
    pub validated-Kept :
        (q : ValidateRequest X.Float) (proceed : M (World X) A) (w : World X)
        → Records marshal key proceed
        → Kept marshal key w (
            (validate_accounts X q >>= λ vresp.
            from_result (accept_accounts vresp) >> (proceed >>= λ a. pure (some a)))
              w)
    validated-Kept q proceed w h =
        Kept-bind marshal key (λ _. Unit {0}) (validate_accounts X q)
          (λ vresp. from_result (accept_accounts vresp) >> (proceed >>= λ a. pure (some a))) w
          (Leaves-Post marshal key (validate_accounts X q) w (validate_accounts-Leaves X q))
          λ vresp v _.
            Kept-bind marshal key (λ _. Unit {0}) (from_result (accept_accounts vresp))
              (λ _. proceed >>= λ a. pure (some a)) v
              (Leaves-Post marshal key (from_result (accept_accounts vresp)) v
                (from_result-Leaves (accept_accounts vresp)))
              λ _ u _. Kept-some marshal key proceed u h

  pub post_payment-Kept :
      (actor : Actor) (cmd : PostPaymentCommand) (w : World X)
      → find (Idempotency.has_key cmd.idempotency_key) (keys w) ≡ none
      → Kept X.marshal_payment cmd.idempotency_key w (post_payment X actor cmd w)
  unfolding post_payment answer_or_start start_payment
  post_payment-Kept actor cmd w h =
      prefixed-Kept X.marshal_payment cmd.idempotency_key (X.decimal_from_string cmd.amount)
        (λ amt c. answer_or_start X actor cmd amt c) w h
        λ amt v.
          validated-Kept X.marshal_payment cmd.idempotency_key (validate_request X cmd amt)
            (identified X actor cmd amt) v (identified-Records X actor cmd amt)

  pub guarded-Kept :
      (amount key account currency : Text) (proceed : X.Decimal → M (World X) CreditAccountResult)
      (w : World X)
      → find (Idempotency.has_key key) (keys w) ≡ none
      → ((amt : X.Decimal) → Records X.marshal_credit key (proceed amt))
      → Kept X.marshal_credit key w (guarded X amount key account currency proceed w)
  unfolding guarded answer_or_book validated_booking
  guarded-Kept amount key account currency proceed w h k =
      prefixed-Kept X.marshal_credit key (X.decimal_from_string amount)
        (λ amt c. answer_or_book X account currency amt (proceed amt) c) w h
        λ amt v.
          validated-Kept X.marshal_credit key (self_request X account currency amt) (proceed amt) v
            (k amt)

  pub new_booking-Records :
      (key : Text) (b : Uuid → Time → Booking X) (a : Uuid → Time → AuditRecord)
      → ((id : Uuid) (t : Time) → (b id t).key ≡ key)
      → Records X.marshal_credit key (new_booking X b a)
  unfolding new_booking
  new_booking-Records key b a h =
      Records-bind X.marshal_credit key (new_uuid X) _ (new_uuid-Leaves X) λ id.
        Records-bind X.marshal_credit key (time_now X) _ (time_now-Leaves X) λ t.
          subst (λ k. Records X.marshal_credit k (book_and_audit X (b id t) (a id t))) (h id t)
            (book_and_audit-Records X (b id t) (a id t))
