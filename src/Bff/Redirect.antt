-- ===== src/Bff/Redirect.antt =====
-- Where a login may lead: bff/internal/security/redirect_policy.go.
use microservice_workspace.Base.{
  Bool, true, not, ◌&&◌, ◌||◌, Option, none, some, List, [], ◌∷◌, ◌++◌, any, take, length, ◌-◌,
  if◌then◌else◌, ◌≡◌, false, arith,
}
use mathlib.Core.Path.{◌≡◌, refl}
use microservice_workspace.Base.{Bool-cases, ◌⊎◌, inl, inr}
use microservice_workspace.Base.Text.{Text, lit, is_empty, text_eq, has_prefix}
use microservice_workspace.Bff.Peers.{Peers, Url}

pub record RedirectPolicy : Type 0 where
  pub allow_exact : List Text
  pub allow_prefix : List Text

abbrev pub default_route : Text
default_route = b'/' ∷ []

-- `strings.HasSuffix`, and `strings.TrimSuffix` of a suffix that is there.
unfoldable pub has_suffix : Text → Text → Bool
has_suffix [] suffix = is_empty suffix
has_suffix (c ∷ s) suffix = let rest = has_suffix s suffix in text_eq (c ∷ s) suffix || rest

unfoldable pub trim_suffix : Text → Text → Text
trim_suffix s suffix = take (length s - length suffix) s

-- The path without a name of its own, if it is not inside the site.
unfoldable pub inside : Text → Text
inside p = if has_prefix p default_route then p else []

abbrev pub or_root : Text → Text
or_root s = if is_empty s then default_route else s

-- The path is below one of the prefixes, or is one of them.
unfoldable pub is_below : List Text → Text → Bool
is_below prefixes path =
    any
      (λ pref.
        not (is_empty pref) && (text_eq path pref || has_prefix path (pref ++ default_route)))
      prefixes

unfoldable pub is_allowed : RedirectPolicy → Text → Bool
is_allowed p path = any (λ s. text_eq s path) p.allow_exact || is_below p.allow_prefix path

module _ (X : Peers) where
  -- The empty text if the path does not start at the root.
  unfoldable pub normalize_path : Text → Text
  normalize_path p = if has_prefix p default_route then inside (X.clean p) else []

  abbrev pub add_route : RedirectPolicy → Text → RedirectPolicy
  add_route p s =
      if is_empty s
      then p
      else if has_suffix s (lit "/*")
      then record p { allow_prefix = p.allow_prefix ++ trim_suffix s (lit "/*") ∷ [] }
      else record p { allow_exact = s ∷ p.allow_exact }

  unfoldable pub add_routes : List Text → RedirectPolicy → RedirectPolicy
  add_routes [] p = p
  add_routes (raw ∷ rest) p = add_routes rest (add_route p (normalize_path raw))

  abbrev pub allow_root : RedirectPolicy → RedirectPolicy
  allow_root p = record p { allow_exact = default_route ∷ p.allow_exact }

  unfoldable pub new_redirect_policy : List Text → RedirectPolicy
  new_redirect_policy allowlist =
      allow_root (add_routes allowlist (record { allow_exact = []; allow_prefix = [] }))

  -- `u.IsAbs()` asks for a scheme too.
  unfoldable pub safe_url : RedirectPolicy → Option Url → Text
  safe_url p none = default_route
  safe_url p (some u) =
      let path = or_root (normalize_path u.path) in
      if not (is_empty u.scheme) || not (is_empty u.host)
      then default_route
      else if is_allowed p path
      then X.url_string (record u { path = path })
      else default_route

  unfoldable pub safe : RedirectPolicy → Text → Text
  safe p target = if is_empty target then default_route else safe_url p (X.url_parse target)

-- A target that stays on the site: the root, or a URL without scheme and host, whose path is
-- allowed and begins at the root.
pub data IsInside (X : Peers) (p : RedirectPolicy) (target : Text) : Type 0 where
  root : target ≡ default_route → IsInside X p target
  within :
      (u : Url)
      → target ≡ X.url_string u
      → is_empty u.scheme ≡ true
      → is_empty u.host ≡ true
      → is_allowed p u.path ≡ true
      → has_prefix u.path default_route ≡ true
      → IsInside X p target

or_root-rooted : (s : Text) → has_prefix (or_root (inside s)) default_route ≡ true
unfolding inside
or_root-rooted s = ground arith

module _ (X : Peers) (p : RedirectPolicy) where
  normalize_path-rooted :
      (s : Text) → has_prefix (or_root (normalize_path X s)) default_route ≡ true
  unfolding normalize_path
  normalize_path-rooted s = elim (Bool-cases (has_prefix s default_route)) [
    | inl e ↦ rw e (or_root-rooted (X.clean s))
    | inr e ↦ rw e refl
  ]

  safe_url-IsInside : (o : Option Url) → IsInside X p (safe_url X p o)
  unfolding safe_url
  safe_url-IsInside none = root refl
  safe_url-IsInside (some u) =
      checked (Bool-cases (is_empty u.scheme)) (Bool-cases (is_empty u.host))
        (Bool-cases (is_allowed p (or_root (normalize_path X u.path))))
    where
      checked :
          (is_empty u.scheme ≡ true) ⊎ (is_empty u.scheme ≡ false)
          → (is_empty u.host ≡ true) ⊎ (is_empty u.host ≡ false)
          → (is_allowed p (or_root (normalize_path X u.path)) ≡ true)
            ⊎ (is_allowed p (or_root (normalize_path X u.path)) ≡ false)
          → IsInside X p (safe_url X p (some u))
      checked (inl a) (inl b) (inl c) =
          rw (a, b, c)
            (within (record u { path = or_root (normalize_path X u.path) }) refl a b c
              (normalize_path-rooted u.path))
      checked (inl a) (inl b) (inr c) = rw (a, b, c) (root refl)
      checked (inl a) (inr b) c = rw (a, b) (root refl)
      checked (inr a) b c = rw a (root refl)

  -- Whatever the target, the policy answers the root, or a URL without scheme and host, whose path
  -- begins at the root and is allowed.
  pub safe-IsInside : (target : Text) → IsInside X p (safe X p target)
  unfolding safe
  safe-IsInside target = elim (Bool-cases (is_empty target)) [
    | inl e ↦ rw e (root refl)
    | inr e ↦ rw e (safe_url-IsInside (X.url_parse target))
  ]
