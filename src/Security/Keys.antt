-- ===== src/Security/Keys.antt =====
-- The keys that tokens are signed with, of micro/ledger/internal/infra/security/jwt/validator.go:
-- `fetchJWKS`, `rsaFromJWK` and `getKeyByKID` with its cache. net/http, encoding/json and
-- encoding/base64 are fields of the source of keys. The lock of the cache admits one call at a
-- time, as the model does.
pub mod Cache
pub mod Held
use microservice_workspace.Base.{
  ℕ, ◌+◌, ◌-◌, ◌*◌, ◌%◌, ◌^◌, Bool, true, false, not, ◌||◌, Option, none, some, List, [], ◌∷◌, ltb,
  leb, if◌then◌else◌, ◌&&◌,
}
use microservice_workspace.Base.Text.{Text, lit, is_empty, text_eq}
use microservice_workspace.Base.Result.{
  plain, Result, ok, err, and_then, M, ◌>>=◌, ◌>>◌, pure, raise, raise_if, from_result,
}
use microservice_workspace.Domain.{Time}
use microservice_workspace.Domain.External.{External}
use microservice_workspace.Security.Routes.{lookup}

-- A key as the server writes it, with the fields that are read.
pub record Jwk : Type 0 where
  pub kty : Text
  pub kid : Text
  pub n : Text
  pub e : Text

-- `rsa.PublicKey`
pub record PublicKey : Type 0 where
  pub modulus : ℕ
  pub exponent : ℕ

-- The validator's fields for keys, an HTTP GET that answers a status and a body, `json.Decode` of
-- the body, and `base64.RawURLEncoding`, which answers bytes.
pub record KeySource (X : External) : Type 0 where
  pub jwks_url : Text
  pub cache_ttl : Time
  pub get : Text → X.Env → Result (ℕ × Text) × X.Env
  pub decode : Text → Result (List Jwk)
  pub base64_decode : Text → Result (List ℕ)

abbrev pub KeySet : Type 0
KeySet = List (Text × PublicKey)

-- The cache, none while `cachedAt` is zero, the world outside, and the requests sent, newest first.
pub record KeyWorld (X : External) : Type 0 where
  pub keys : KeySet
  pub cached_at : Option Time
  pub env : X.Env
  pub requests : List Text

-- `new(big.Int).SetBytes`: big-endian.
unfoldable pub number_of : ℕ → List ℕ → ℕ
number_of n [] = n
number_of n (b ∷ bs) = number_of (n * 256 + b) bs

-- Whether the low 64 bits, as a signed number, are from 1 to 2^31 - 1.
unfoldable pub is_exponent : ℕ → Bool
is_exponent n = let m = n % 2 ^ 64 in ltb 0 m && leb m (2 ^ 31 - 1)

module _ (X : External) (s : KeySource X) where
  abbrev pub public_key : ℕ → ℕ → Result PublicKey
  public_key n e =
      if is_exponent e
      then ok (record { modulus = n; exponent = e % 2 ^ 64 })
      else err (plain (lit "invalid exponent"))

  unfoldable pub rsa_from_jwk : Text → Text → Result PublicKey
  rsa_from_jwk n e =
      and_then (s.base64_decode n)
        λ nb. and_then (s.base64_decode e) λ eb. public_key (number_of 0 nb) (number_of 0 eb)

  -- `k.Kty != "RSA" || k.Kid == "" || k.N == "" || k.E == ""`
  abbrev pub is_skipped : Jwk → Bool
  is_skipped k = not (text_eq k.kty (lit "RSA")) || is_empty k.kid || is_empty k.n || is_empty k.e

  -- `out[k.Kid] = pub`: the newest entry of an identifier counts.
  abbrev pub add_key : Text → Result PublicKey → KeySet → KeySet
  add_key kid (ok p) out = (kid, p) ∷ out
  add_key kid (err e) out = out

  unfoldable pub key_set : KeySet → List Jwk → KeySet
  key_set out [] = out
  key_set out (k ∷ ks) =
      key_set (if is_skipped k then out else add_key k.kid (rsa_from_jwk k.n k.e) out) ks

  abbrev pub nonempty : KeySet → Result KeySet
  nonempty [] = err (plain (lit "jwks empty/invalid"))
  nonempty (k ∷ ks) = ok (k ∷ ks)

  abbrev pub of_response : ℕ × Text → Result KeySet
  of_response (status, body) =
      if leb 300 status
      then err (plain (lit "jwks http"))
      else and_then (s.decode body) (λ ks. nonempty (key_set [] ks))

  -- The request; it is sent whatever comes of it.
  abbrev pub requested : M (KeyWorld X) (ℕ × Text)
  requested w =
      let (r, env') = s.get s.jwks_url w.env in
      (r, record w { env = env'; requests = s.jwks_url ∷ w.requests })

  unfoldable pub fetch_jwks : M (KeyWorld X) KeySet
  fetch_jwks =
      raise_if (is_empty s.jwks_url) (plain (lit "JWKS_URL is empty"))
      >> (requested >>= λ r. from_result (of_response r))

  abbrev pub store : Time → KeySet → M (KeyWorld X) (Unit {0})
  store now ks w = (ok tt, record w { keys = ks; cached_at = some now })

  unfoldable pub refresh : Time → M (KeyWorld X) (Unit {0})
  refresh now = fetch_jwks >>= store now

  -- `v.cachedAt.IsZero() || now.Sub(v.cachedAt) > v.CacheTTL || len(v.keysByKID) == 0`
  unfoldable pub is_stale : Time → Option Time → KeySet → Bool
  is_stale now none ks = true
  is_stale now (some at) [] = true
  is_stale now (some at) (k ∷ ks) = ltb (at + s.cache_ttl) now

  abbrev pub refresh_if : Bool → Time → M (KeyWorld X) (Unit {0})
  refresh_if true now = refresh now
  refresh_if false now = pure tt

  abbrev pub cached_key : Text → M (KeyWorld X) (Option PublicKey)
  cached_key kid w = (ok (lookup kid w.keys), w)

  abbrev pub key_or_error : Option PublicKey → M (KeyWorld X) PublicKey
  key_or_error none = raise (plain (lit "jwks kid not found"))
  key_or_error (some k) = pure k

  -- The key that was found, or another fetch.
  abbrev pub found_or_refresh : Text → Time → Option PublicKey → M (KeyWorld X) PublicKey
  found_or_refresh kid now (some k) = pure k
  found_or_refresh kid now none = do refresh now; found ← cached_key kid; key_or_error found

  abbrev pub key_clock : M (KeyWorld X) Time
  key_clock w = let (t, env') = X.time_now w.env in (ok t, record w { env = env' })

  unfoldable pub get_key_at : Text → Time → M (KeyWorld X) PublicKey
  get_key_at kid now w =
      ((refresh_if (is_stale now w.cached_at w.keys) now
          >> (cached_key kid >>= found_or_refresh kid now))
        w)

  unfoldable pub get_key_by_kid : Text → M (KeyWorld X) PublicKey
  get_key_by_kid kid = key_clock >>= get_key_at kid
