-- ===== src/Security/Keys/Cache.antt =====
-- What the cache of signing keys holds, and how often the server of keys is asked.
use mathlib.Core.Path.{subst}
use microservice_workspace.Base.{
  ℕ, ◌+◌, ◌^◌, ◌≤◌, ◌<◌, ◌≡◌, inl, inr, refl, Bool, true, false, Option, none, some, List, [], ◌∷◌,
  if◌then◌else◌, All, arith, Bool-cases, length, leb,
}
use microservice_workspace.Base.Text.{Text, lit, is_empty, text_eq}
use microservice_workspace.Base.Result.{
  Result, ok, err, ◌>>=◌, ◌>>◌, Post, Post-bind, Ensures, Ensures-any, raise_if, from_result, plain,
  Post-weaken,
}
use microservice_workspace.Domain.{Time}
use microservice_workspace.Domain.External.{External}
use microservice_workspace.Security.Routes.{lookup}
use microservice_workspace.Security.Keys.{
  Jwk, PublicKey, KeySource, KeySet, KeyWorld, is_exponent, public_key, rsa_from_jwk, is_skipped,
  add_key, key_set, nonempty, of_response, requested, fetch_jwks, store, refresh, is_stale,
  refresh_if, cached_key, found_or_refresh, get_key_at, key_or_error,
}

-- An identifier that is not empty, and an exponent from 1 to 2^31 - 1. Neither the modulus nor an
-- exponent of 1, which crypto/rsa refuses later, is ruled out.
abbrev pub IsChecked : Text × PublicKey → Type 0
IsChecked k = (is_empty k.0 ≡ false) × ((0 < k.1.exponent) × (k.1.exponent < 2 ^ 31))

abbrev pub AllChecked : KeySet → Type 0
AllChecked ks = All IsChecked ks

lookup-IsChecked :
    (kid : Text) (ks : KeySet) (k : PublicKey)
    → AllChecked ks
    → lookup kid ks ≡ some k
    → (0 < k.exponent) × (k.exponent < 2 ^ 31)
lookup-IsChecked kid [] k h e = cc
lookup-IsChecked kid ((i, p) ∷ ks) k h e = go (text_eq i kid) e (lookup-IsChecked kid ks k h.1)
  where
    go :
        (b : Bool)
        → (if b then some p else lookup kid ks) ≡ some k
        → (lookup kid ks ≡ some k → (0 < k.exponent) × (k.exponent < 2 ^ 31))
        → (0 < k.exponent) × (k.exponent < 2 ^ 31)
    go true e f =
        let q : p ≡ k = cc in subst (λ k. (0 < k.exponent) × (k.exponent < 2 ^ 31)) q h.0.1
    go false e f = f e

module _ (X : External) (s : KeySource X) where
  public_key-Ensures :
      (n e : ℕ)
      → Ensures (λ (p : PublicKey). (0 < p.exponent) × (p.exponent < 2 ^ 31)) (public_key X s n e)
  unfolding is_exponent
  public_key-Ensures n e = ground arith

  rsa_from_jwk-Ensures :
      (n e : Text)
      → Ensures (λ (p : PublicKey). (0 < p.exponent) × (p.exponent < 2 ^ 31)) (rsa_from_jwk X s n e)
  unfolding rsa_from_jwk
  rsa_from_jwk-Ensures n e =
      Ensures-any _ (s.base64_decode n) _
        λ nb. Ensures-any _ (s.base64_decode e) _ λ eb. public_key-Ensures _ _

  add_key-AllChecked :
      (kid : Text) (r : Result PublicKey) (out : KeySet)
      → is_empty kid ≡ false
      → Ensures (λ (p : PublicKey). (0 < p.exponent) × (p.exponent < 2 ^ 31)) r
      → AllChecked out
      → AllChecked (add_key X s kid r out)
  add_key-AllChecked kid (ok p) out n h g = ((n, h), g)
  add_key-AllChecked kid (err e) out n h g = g

  key_set-AllChecked :
      (ks : List Jwk) (out : KeySet) → AllChecked out → AllChecked (key_set X s out ks)
  unfolding key_set
  key_set-AllChecked [] out h = h
  key_set-AllChecked (k ∷ ks) out h = elim (Bool-cases (is_skipped X s k)) [
    | inl e ↦ rw e (key_set-AllChecked ks out h)
    | inr e ↦ rw e (
        key_set-AllChecked ks (add_key X s k.kid (rsa_from_jwk X s k.n k.e) out) (
          add_key-AllChecked k.kid (rsa_from_jwk X s k.n k.e) out (ground arith)
            (rsa_from_jwk-Ensures k.n k.e) h))
  ]

  nonempty-Ensures : (ks : KeySet) → AllChecked ks → Ensures (λ ks. AllChecked ks) (nonempty X s ks)
  nonempty-Ensures [] h = tt
  nonempty-Ensures (k ∷ ks) h = h

  of_response-Ensures : (r : ℕ × Text) → Ensures (λ ks. AllChecked ks) (of_response X s r)
  of_response-Ensures (status, body) = elim (Bool-cases (leb 300 status)) [
    | inl e ↦ rw e tt
    | inr e ↦ rw e (
        Ensures-any _ (s.decode body) _
          λ ks. nonempty-Ensures (key_set X s [] ks) (key_set-AllChecked ks [] tt))
  ]

  -- How far an action went: the set is sound, and at most `n` requests were sent since `w`.
  abbrev pub Within : ℕ → KeyWorld X → KeyWorld X → Type 0
  Within n w v = AllChecked v.keys × (length v.requests ≤ n + length w.requests)

  -- The cache was filled at a time from which its time to live reaches `now`.
  abbrev pub IsCurrent : Time → Option Time → Type 0
  IsCurrent now at = (t : Time) × (at ≡ some t) × (now ≤ t + s.cache_ttl)

  fetched-Post :
      (r : Result (ℕ × Text)) (now : Time) (w v : KeyWorld X)
      → AllChecked v.keys
      → length v.requests ≤ 1 + length w.requests
      → Post
          (λ _ v. Within 1 w v × IsCurrent now v.cached_at)
          (λ _ v. Within 1 w v)
          (((λ v. (r, v)) >>= (λ p. from_result (of_response X s p)) >>= store X s now) v)
  fetched-Post (err e) now w v h l = (h, l)
  fetched-Post (ok p) now w v h l = go (of_response X s p) (of_response-Ensures p)
    where
      go :
          (q : Result KeySet)
          → Ensures (λ ks. AllChecked ks) q
          → Post
              (λ _ v. Within 1 w v × IsCurrent now v.cached_at)
              (λ _ v. Within 1 w v)
              ((from_result q >>= store X s now) v)
      go (ok ks) g = ((g, l), (now, refl, omega arith))
      go (err e) g = (h, l)

  refresh-Post :
      (now : Time) (w : KeyWorld X)
      → AllChecked w.keys
      → Post
          (λ _ v. Within 1 w v × IsCurrent now v.cached_at)
          (λ _ v. Within 1 w v)
          (refresh X s now w)
  unfolding refresh fetch_jwks
  refresh-Post now w h = go (is_empty s.jwks_url)
    where
      go :
          (b : Bool)
          → Post
              (λ _ v. Within 1 w v × IsCurrent now v.cached_at)
              (λ _ v. Within 1 w v)
              ((raise_if b (plain (lit "JWKS_URL is empty"))
                  >> (requested X s >>= λ r. from_result (of_response X s r))
                  >>= store X s now)
                w)
      go true = (h, omega arith)
      go false =
          let (r, env') = s.get s.jwks_url w.env in
          fetched-Post r now w (record w { env = env'; requests = s.jwks_url ∷ w.requests }) h
            (omega arith)

  -- The key is the one of the identifier in a cache that is current, and its exponent is in bounds.
  pub record IsHeld (n : ℕ) (kid : Text) (now : Time) (w : KeyWorld X) (k : PublicKey)
      (v : KeyWorld X) : Type 0 where
    pub held : lookup kid v.keys ≡ some k
    pub current : IsCurrent now v.cached_at
    pub checked_exponent : (0 < k.exponent) × (k.exponent < 2 ^ 31)
    pub within : Within n w v

  looked_up-Post :
      (n : ℕ) (kid : Text) (now : Time) (w v : KeyWorld X) (o : Option PublicKey)
      → lookup kid v.keys ≡ o
      → Within n w v
      → IsCurrent now v.cached_at
      → Post (λ k v. IsHeld n kid now w k v) (λ _ v. Within n w v) (key_or_error X s o v)
  looked_up-Post n kid now w v none e h c = h
  looked_up-Post n kid now w v (some k) e h c = record {
    held = e;
    current = c;
    checked_exponent = lookup-IsChecked kid v.keys k h.0 e;
    within = h;
  }

  -- After a look into a cache that is current: the key, or another fetch.
  found_or_refresh-Post :
      (kid : Text) (now : Time) (w v : KeyWorld X) (o : Option PublicKey)
      → lookup kid v.keys ≡ o
      → Within 1 w v
      → IsCurrent now v.cached_at
      → Post
          (λ k v. IsHeld 2 kid now w k v)
          (λ _ v. Within 2 w v)
          (found_or_refresh X s kid now o v)
  found_or_refresh-Post kid now w v (some k) e h c = record {
    held = e;
    current = c;
    checked_exponent = lookup-IsChecked kid v.keys k h.0 e;
    within = (h.0, let l = h.1 in omega (arith, l));
  }
  found_or_refresh-Post kid now w v none e h c =
      Post-bind (λ _ u. Within 2 w u × IsCurrent now u.cached_at) _ _ (refresh X s now)
        (λ _. cached_key X s kid >>= key_or_error X s) v
        (Post-weaken _ _ _ _ (refresh X s now v) (refresh-Post now v h.0)
          (λ _ u g. ((g.0.0, let l = g.0.1 in let m = h.1 in omega (arith, l, m)), g.1))
          (λ _ u g. (g.0, let l = g.1 in let m = h.1 in omega (arith, l, m))))
        λ _ u g. looked_up-Post 2 kid now w u (lookup kid u.keys) refl g.0 g.1

  is_stale-IsCurrent :
      (now : Time) (at : Option Time) (ks : KeySet)
      → is_stale X s now at ks ≡ false
      → IsCurrent now at
  unfolding is_stale
  is_stale-IsCurrent now none ks e = cc
  is_stale-IsCurrent now (some at) [] e = cc
  is_stale-IsCurrent now (some at) (k ∷ ks) e = (at, refl, ground arith)

  pub get_key_at-Post :
      (kid : Text) (now : Time) (w : KeyWorld X)
      → AllChecked w.keys
      → Post (λ k v. IsHeld 2 kid now w k v) (λ _ v. Within 2 w v) (get_key_at X s kid now w)
  unfolding get_key_at
  get_key_at-Post kid now w h = go (is_stale X s now w.cached_at w.keys) refl
    where
      go :
          (b : Bool)
          → is_stale X s now w.cached_at w.keys ≡ b
          → Post
              (λ k v. IsHeld 2 kid now w k v)
              (λ _ v. Within 2 w v)
              ((refresh_if X s b now >> (cached_key X s kid >>= found_or_refresh X s kid now)) w)
      go true e =
          Post-bind (λ _ v. Within 1 w v × IsCurrent now v.cached_at) _ _ (refresh X s now)
            (λ _. cached_key X s kid >>= found_or_refresh X s kid now) w
            (Post-weaken _ _ _ _ (refresh X s now w) (refresh-Post now w h) (λ _ v g. g)
              (λ _ v g. (g.0, let l = g.1 in omega (arith, l))))
            λ _ v g. found_or_refresh-Post kid now w v (lookup kid v.keys) refl g.0 g.1
      go false e =
          found_or_refresh-Post kid now w w (lookup kid w.keys) refl (h, omega arith)
            (is_stale-IsCurrent now w.cached_at w.keys e)
