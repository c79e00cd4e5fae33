-- ===== src/Bff/Accounts/Asked.antt =====
-- What the operations on accounts and profiles ask of the accounts service, and for whom.
use microservice_workspace.Bff.Upstream.Laws.{ok-eq, tried-world, mapped-world}
use mathlib.Core.Path.{subst}
use microservice_workspace.Base.{
  ◌≡◌, ◌⊎◌, inl, inr, refl, Bool, true, false, Option, none, some, [], ◌∷◌, if◌then◌else◌,
  Bool-cases, ap, ◌∙◌, map, List,
}
use microservice_workspace.Base.Text.{Text, lit, is_empty}
use microservice_workspace.Base.Result.{Result, ok, err, Error}
use microservice_workspace.Bff.Context.{Context, inject_outgoing}
use microservice_workspace.Bff.Upstream.{rpc}
use microservice_workspace.Bff.Login.{Reply}
use microservice_workspace.Bff.Accounts.{
  AccountsService, Wire, AccountsCall, list_of, limits_of, lookup_of, patch_of, LimitsPatch,
  list_accounts, patch_account_limits, get_account_by_number, patch_customer, customer_request,
  lookup_view, account_view, no_account, CustomerPatch, PreferenceChannel, map_pref,
}
use microservice_workspace.Bff.Accounts.Operations.{
  PatchLimitsRequest, PatchProfileRequest, overview, patch_limits, lookup_by_number, patch_profile,
  limit_of, no_customer, refusal, unavailable, customer_patch, looked_up, patch_checked,
  overview_of, not_negative, limits_of_reply, profile_patched, parsed_item, channel_of,
}

module _ (U : AccountsService) (ctx : Context) (w : Wire U) where
  -- A context without a customer is refused, and nothing is sent; with one, this call is sent.
  abbrev pub IsOwn : {A : Type 0} → AccountsCall U.Float → Result (Reply A) × Wire U → Type 0
  IsOwn call p =
      ((is_empty ctx.customer ≡ true) × (p ≡ (ok (no_customer U ctx), w)))
      ⊎ ((is_empty ctx.customer ≡ false) × (p.1.sent ≡ call ∷ w.sent))

  abbrev first_preference : Option (List (Text × Bool)) → Option (PreferenceChannel × Bool)
  first_preference none = none
  first_preference (some []) = none
  first_preference (some ((channel, opt_in) ∷ ps)) = some (map_pref (channel_of channel), opt_in)

  -- The change of the profile, of the customer of the context.
  abbrev pub own_patch : PatchProfileRequest → CustomerPatch PreferenceChannel
  own_patch body = record {
    id = ctx.customer;
    full_name = body.full_name;
    email = body.email;
    phone = body.phone;
    preferences = first_preference body.preferences;
  }

  own_patch-eq :
      (body : PatchProfileRequest) → customer_request U (customer_patch U ctx body) ≡ own_patch body
  own_patch-eq body = go body.preferences
    where
      go :
          (p : Option (List (Text × Bool)))
          → customer_request U (customer_patch U ctx (record body { preferences = p }))
            ≡ own_patch (record body { preferences = p })
      go none = refl
      go (some []) = refl
      go (some ((channel, opt_in) ∷ ps)) = refl

  -- The overview lists the accounts of the customer whom the context names, and a change of the
  -- profile asks to change that customer, in the name, address and telephone number that were given
  -- and in the first preference, each by one call and no other; without a customer they are refused
  -- and send nothing.
  pub accounts-IsOwn :
      (body : PatchProfileRequest)
      → let md = inject_outgoing ctx in
        IsOwn (list_of md ctx.customer) (overview U ctx w)
        × IsOwn (patch_of md (own_patch body)) (patch_profile U ctx body w)
  unfolding overview patch_profile list_accounts patch_customer
  accounts-IsOwn body =
      let md = inject_outgoing ctx in
      let q = customer_request U (customer_patch U ctx body) in
      elim (Bool-cases (is_empty ctx.customer)) [
        | inl e ↦ rw e (inl (refl, refl), inl (refl, refl))
        | inr e ↦ rw e (
          inr (
            refl,
            ap (λ (v : Wire U). v.sent)
                (tried-world (list_accounts U ctx ctx.customer) (overview_of U ctx) w
                  ∙ mapped-world (rpc (list_of md ctx.customer) (U.list_accounts md ctx.customer))
                      (map (account_view U)) w),
          ),
          inr (
            refl,
            ap (λ (v : Wire U). v.sent)
                  (tried-world (rpc (patch_of md q) (U.patch_customer md q)) (profile_patched U ctx)
                    w)
                ∙ ap (λ q. patch_of md q ∷ w.sent) (own_patch-eq body),
          ),
        )
      ]

  -- A limit that was not given is not sent; one that was given was read from its text, and is not
  -- negative.
  pub data IsLimit : Option Text → Option U.Float → Type 0 where
    absent : IsLimit none none
    given :
        (s : Text) (v : U.Float)
        → U.parse_float s ≡ ok v
        → U.is_negative v ≡ false
        → IsLimit (some s) (some v)

  pub record LimitsSent (account : Text) (body : PatchLimitsRequest) (v : Wire U) : Type 0 where
    pub patch : LimitsPatch U.Float
    pub of_account : patch.id ≡ account
    pub out_limit : IsLimit body.daily_out patch.daily_out
    pub in_limit : IsLimit body.daily_in patch.daily_in
    pub sent : v.sent ≡ limits_of (inject_outgoing ctx) patch ∷ w.sent

  abbrev pub IsBadRequest : {A : Type 0} → Result (Reply A) × Wire U → Type 0
  IsBadRequest p = (message : Text) × (p ≡ (ok (refusal U ctx 400 (lit "BAD_REQUEST") message), w))

  limit_of-IsLimit : (s : Option Text) (o : Option U.Float) → limit_of U s ≡ some o → IsLimit s o
  unfolding limit_of
  limit_of-IsLimit none none e = absent
  limit_of-IsLimit none (some v) e = cc
  limit_of-IsLimit (some t) o e = go (U.parse_float t) refl e
    where
      signed :
          (v : U.Float)
          → U.parse_float t ≡ ok v
          → (b : Bool) → U.is_negative v ≡ b
          → (if b then none else some (some v)) ≡ some o
          → IsLimit (some t) o
      signed v p true n e = cc
      signed v p false n e =
          let q : some v ≡ o = cc in subst (λ o. IsLimit (some t) o) q (given t v p n)

      go :
          (r : Result U.Float)
          → U.parse_float t ≡ r
          → not_negative U r ≡ some o
          → IsLimit (some t) o
      go (err x) p e = cc
      go (ok v) p e = signed v p (U.is_negative v) refl e

  checked-Limits :
      (account : Text) (body : PatchLimitsRequest) (dout din : Option (Option U.Float))
      → limit_of U body.daily_out ≡ dout
      → limit_of U body.daily_in ≡ din
      → IsBadRequest (patch_checked U ctx account dout din w)
        ⊎ LimitsSent account body (patch_checked U ctx account dout din w).1
  unfolding patch_account_limits
  checked-Limits account body none din e f = inl (_, refl)
  checked-Limits account body (some dout) none e f = inl (_, refl)
  checked-Limits account body (some dout) (some din) e f =
      let patch : LimitsPatch U.Float = record { id = account; daily_out = dout; daily_in = din } in
      inr (record {
        patch = patch;
        of_account = refl;
        out_limit = limit_of-IsLimit body.daily_out dout e;
        in_limit = limit_of-IsLimit body.daily_in din f;
        sent =
            ap (λ (v : Wire U). v.sent)
              (tried-world (patch_account_limits U ctx patch) (limits_of_reply U ctx) w);
      })

  -- A change of the limits of an account either is refused with 400 and sends nothing, or sends one
  -- call, for that account, with the limits that were given, each of which parses and is not
  -- negative, and with no other.
  pub patch_limits-LimitsSent :
      (account : Text) (body : PatchLimitsRequest)
      → IsBadRequest (patch_limits U ctx account body w)
        ⊎ LimitsSent account body (patch_limits U ctx account body w).1
  unfolding patch_limits
  patch_limits-LimitsSent account body =
      checked-Limits account body (limit_of U body.daily_out) (limit_of U body.daily_in) refl refl

  -- If the service answers that no account has the number, and the empty text is no UUID, the
  -- operation does not say that the account was not found: it answers 502, an invalid identifier.
  pub lookup_by_number-missing :
      (number : Text)
      → is_empty number ≡ false
      → (U.get_account_by_number (inject_outgoing ctx) number w.env).0 ≡ ok none
      → (e : Error) → U.uuid_parse [] ≡ err e
      → (lookup_by_number U ctx number w).0
        ≡ ok (unavailable U ctx (lit "invalid account_id format from upstream"))
  unfolding lookup_by_number get_account_by_number
  lookup_by_number-missing number n missing e p =
      let md = inject_outgoing ctx in
      rw n (
        ok-eq (rpc (lookup_of md number) (U.get_account_by_number md number)) (lookup_view U)
          (looked_up U ctx) w none missing
        ∙ ap (λ r. ok (parsed_item U ctx (no_account U) r)) p)
