-- ===== src/Bff/Http.antt =====
-- What the gateway uses of net/http: a request, the response that is being written, and cookies.
use microservice_workspace.Base.{◌*◌, ◌^◌, ℕ, Bool, Option, none, some, List, [], ◌∷◌, find}
use microservice_workspace.Base.Text.{Text, text_eq}
use microservice_workspace.Base.Int.{ℤ}
use microservice_workspace.Domain.{Time}

pub data SameSite : Type 0 where
  lax strict same_site_none : SameSite

-- `http.Cookie`; all cookies of the gateway have the path "/".
pub record Cookie : Type 0 where
  pub name : Text
  pub value : Text
  pub http_only : Bool
  pub secure : Bool
  pub same_site : SameSite
  pub max_age : ℤ
  pub expires : Time

-- `time.Unix(0, 0)`
abbrev pub unix_epoch : Time
unix_epoch = 62135596800 * 10 ^ 9

-- Names of headers are in their canonical form.
pub record Request : Type 0 where
  pub method : Text
  pub path : Text
  pub remote_addr : Text
  pub headers : List (Text × Text)
  pub cookies : List (Text × Text)

abbrev pub value_of : Option (Text × Text) → Option Text
value_of none = none
value_of (some p) = some p.1

abbrev pub lookup : Text → List (Text × Text) → Option Text
lookup name ps = value_of (find (λ p. text_eq p.0 name) ps)

abbrev pub text_or_nothing : Option Text → Text
text_or_nothing none = []
text_or_nothing (some t) = t

-- `r.Header.Get`
abbrev pub header_get : Text → Request → Text
header_get name r = text_or_nothing (lookup name r.headers)

-- The value of `r.Cookie`, nothing if there is none or it is empty.
abbrev pub cookie_value : Text → Request → Text
cookie_value name r = text_or_nothing (lookup name r.cookies)

-- The response so far: the cookies and headers set, the last first, and the status once it is
-- written. After that, headers no longer change.
pub record Writer : Type 0 where
  pub cookies : List Cookie
  pub headers : List (Text × Text)
  pub status : Option ℕ
  pub body : Text

abbrev pub no_response : Writer
no_response = record { cookies = []; headers = []; status = none; body = [] }

-- `http.SetCookie`
unfoldable pub set_cookie : Cookie → Writer → Writer
set_cookie c w = elim w.status [ none ↦ record w { cookies = c ∷ w.cookies } | some s ↦ w ]

-- `w.Header().Set`
unfoldable pub set_header : Text → Text → Writer → Writer
set_header name value w = elim w.status [
  | none ↦ record w { headers = (name, value) ∷ w.headers }
  | some s ↦ w
]

-- `w.WriteHeader`: the first status stays.
unfoldable pub write_header : ℕ → Writer → Writer
write_header code w = elim w.status [ none ↦ record w { status = some code } | some s ↦ w ]

-- The cookie of a name that the client is left with: the last one set.
abbrev pub last_cookie : Text → Writer → Option Cookie
last_cookie name w = find (λ c. text_eq c.name name) w.cookies
