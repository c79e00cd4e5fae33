-- ===== src/Security/Keys/Held.antt =====
-- `getKeyByKID` as a whole.
use microservice_workspace.Base.{
  ◌≡◌, ◌⊎◌, inl, inr, refl, true, false, none, some, Bool-cases, Option-cases,
}
use microservice_workspace.Base.Text.{Text}
use microservice_workspace.Base.Result.{Post, Post-weaken, Post-any, Post-both}
use microservice_workspace.Domain.{Time}
use microservice_workspace.Domain.External.{External}
use microservice_workspace.Security.Routes.{lookup}
use microservice_workspace.Security.Keys.{
  PublicKey, KeySource, KeyWorld, is_stale, get_key_at, get_key_by_kid,
}
use microservice_workspace.Security.Keys.Cache.{AllChecked, IsHeld, Within, get_key_at-Post}

module _ (X : External) (s : KeySource X) where
  -- The server of keys was not asked, or the cache was stale or without the key.
  abbrev pub IsSpared : Text → Time → KeyWorld X → KeyWorld X → Type 0
  IsSpared kid now w v =
      (v.requests ≡ w.requests)
      ⊎ ((is_stale X s now w.cached_at w.keys ≡ true) ⊎ (lookup kid w.keys ≡ none))

  abbrev pub KeyFound : Text → Time → KeyWorld X → PublicKey → KeyWorld X → Type 0
  KeyFound kid now w k v = IsHeld X s 2 kid now w k v × IsSpared kid now w v

  found-IsSpared :
      (kid : Text) (now : Time) (w : KeyWorld X) (k : PublicKey)
      → is_stale X s now w.cached_at w.keys ≡ false
      → lookup kid w.keys ≡ some k
      → Post (λ _ v. IsSpared kid now w v) (λ _ _. Unit) (get_key_at X s kid now w)
  unfolding get_key_at
  found-IsSpared kid now w k e f = rw (e, f) (inl refl)

  spared :
      (kid : Text) (now : Time) (w : KeyWorld X)
      → Post (λ _ v. IsSpared kid now w v) (λ _ _. Unit) (get_key_at X s kid now w)
  spared kid now w = elim (Bool-cases (is_stale X s now w.cached_at w.keys)) [
    | inl e ↦ Post-any _ (get_key_at X s kid now w) (λ _ _. inr (inl e))
    | inr e ↦ elim (Option-cases (lookup kid w.keys)) [
      | inl f ↦ Post-any _ (get_key_at X s kid now w) (λ _ _. inr (inr f))
      | inr (k, f) ↦ found-IsSpared kid now w k e f
    ]
  ]

  -- If the cache holds only keys with an identifier and an exponent from 1 to 2^31 - 1, the same
  -- holds after a call, which sends at most two requests, whether it fails or not. A key that it
  -- returns is the one that the cache then holds under the identifier, its exponent is in these
  -- bounds, and the cache was filled no longer ago than its time to live; and no request was sent
  -- if the cache was current before and held the identifier.
  pub get_key_by_kid-KeyFound :
      (kid : Text) (w : KeyWorld X)
      → AllChecked w.keys
      → Post
          (λ k v. KeyFound kid (X.time_now w.env).0 w k v)
          (λ _ v. Within X s 2 w v)
          (get_key_by_kid X s kid w)
  unfolding get_key_by_kid
  get_key_by_kid-KeyFound kid w h =
      let (now, env') = X.time_now w.env in
      let v : KeyWorld X = record w { env = env' } in
      Post-weaken _ _ _ _ (get_key_at X s kid now v)
        (Post-both _ _ _ (get_key_at X s kid now v) (get_key_at-Post X s kid now v h)
          (spared kid now v))
        (λ k u f. (
          record {
            held = f.0.held;
            current = f.0.current;
            checked_exponent = f.0.checked_exponent;
            within = f.0.within;
          },
          f.1,
        ))
        (λ _ u f. f)
