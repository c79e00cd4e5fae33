-- ===== src/Bff/Peers.antt =====
-- What the gateway calls and does not define, as a parameter: the identity service behind its port
-- (bff/internal/client/ports/identity.go), the router of the OpenAPI document, the clock and the
-- random source, and the parsers of net and net/url. The state of a request that is being served,
-- and the calls as actions on it.
use microservice_workspace.Base.{ℕ, Bool, Option, List, ◌∷◌}
use microservice_workspace.Base.Text.{Text}
use microservice_workspace.Base.Int.{ℤ}
use microservice_workspace.Base.Result.{Result, ok, M}
use microservice_workspace.Domain.{Time}
use microservice_workspace.Bff.Http.{Request, Writer}
use microservice_workspace.Bff.Context.{Context, inject_outgoing}

pub record SessionInfo : Type 0 where
  pub identity_id : Text
  pub subject_id_oidc : Text
  pub roles : List Text
  pub customer_id : Text
  pub user_status : Text
  pub access_token : Text
  pub access_token_expires_in : ℤ

pub record RefreshSessionOutput : Type 0 where
  pub session_id : Text
  pub session_expires_in : ℤ
  pub access_token : Text

-- `GetSessionInfoInput` and `RefreshSessionInput`
pub record SessionInput : Type 0 where
  pub session_id : Text
  pub ip : Text
  pub user_agent : Text

pub record CompleteOidcLoginInput : Type 0 where
  pub code : Text
  pub state : Text
  pub ip : Text
  pub user_agent : Text

pub record CompleteOidcLoginOutput : Type 0 where
  pub session_id : Text
  pub session_expires_in : ℤ
  pub redirect_after_login : Text

-- `url.URL`: the scheme, the host, the path, and the rest of what was parsed.
pub record Url : Type 0 where
  pub scheme : Text
  pub host : Text
  pub path : Text
  pub rest : Text

-- A security requirement names schemes that are all needed; of several requirements one is enough.
abbrev pub SecurityRequirements : Type 0
SecurityRequirements = List (List Text)

-- `routers.Route` and its operation.
pub record Route : Type 0 where
  pub path : Text
  pub operation_id : Text
  pub security : Option SecurityRequirements

-- `ValidateAccountsAndLimitsInput` and its output, `ok` with a reason.
pub record LimitsInput (F : Type 0) : Type 0 where
  pub source_account_id : Text
  pub destination_account_id : Text
  pub currency : Text
  pub amount : F

pub record LimitsOutput : Type 0 where
  pub is_ok : Bool
  pub reason : Option Text

-- The messages of PaymentsService.PostPayment, which `LedgerPaymentsClient.PostPayment` fills
-- field by field.
pub record PaymentRequest : Type 0 where
  pub idempotency_key : Text
  pub source_account_id : Text
  pub destination_account_id : Text
  pub currency : Text
  pub amount : Text
  pub initiated_by : Text

pub record PostPaymentReply : Type 0 where
  pub payment_id : Text
  pub status : Text

pub record Peers : Type 1 where
  pub Env : Type 0
  -- A float64, `strconv.ParseFloat`, and the test `<= 0`.
  pub Float : Type 0
  pub parse_float : Text → Result Float
  pub is_at_most_zero : Float → Bool
  -- The accounts of a customer by their identifiers; and the limits of a transfer.
  pub list_accounts : List (Text × Text) → Text → Env → Result (List Text) × Env
  pub validate_accounts_and_limits :
      List (Text × Text) → LimitsInput Float → Env → Result LimitsOutput × Env
  pub post_payment : List (Text × Text) → PaymentRequest → Env → Result PostPaymentReply × Env
  pub get_session_info : List (Text × Text) → SessionInput → Env → Result SessionInfo × Env
  pub refresh_session : List (Text × Text) → SessionInput → Env → Result RefreshSessionOutput × Env
  pub logout_session : List (Text × Text) → Text → Env → Result Bool × Env
  -- The channel is "web"; the answer is the authorization URL.
  pub start_oidc_login : List (Text × Text) → Text → Env → Result Text × Env
  pub complete_oidc_login :
      List (Text × Text) → CompleteOidcLoginInput → Env → Result CompleteOidcLoginOutput × Env
  -- The time after so many seconds from now.
  pub time_after : ℤ → Env → Time × Env
  pub time_now : Env → Time × Env
  pub rand_read : ℕ → Env → Result (List ℕ) × Env
  -- `base64.RawURLEncoding`
  pub encode_to_string : List ℕ → Text
  -- `net.SplitHostPort`, the host only, and `net.ParseIP` with the text of the address that it
  -- reads.
  pub split_host_port : Text → Option Text
  pub parse_ip : Text → Option Text
  pub url_parse : Text → Option Url
  pub url_string : Url → Text
  -- `path.Clean`
  pub clean : Text → Text
  -- The router of the OpenAPI document, and the document's own requirements.
  pub find_route : Request → Option Route
  pub global_security : SecurityRequirements
  -- `strings.EqualFold`
  pub equal_fold : Text → Text → Bool

-- The calls to other services, each with its metadata.
pub data Call (F : Type 0) : Type 0 where
  session_info_of : List (Text × Text) → SessionInput → Call F
  refresh_of : List (Text × Text) → SessionInput → Call F
  logout_of : List (Text × Text) → Text → Call F
  login_start_of : List (Text × Text) → Text → Call F
  login_completion_of : List (Text × Text) → CompleteOidcLoginInput → Call F
  accounts_of : List (Text × Text) → Text → Call F
  limits_of : List (Text × Text) → LimitsInput F → Call F
  payment_of : List (Text × Text) → PaymentRequest → Call F

-- A request that is being served: the world outside, the response, and the calls made, the last
-- first.
pub record Web (X : Peers) : Type 0 where
  pub env : X.Env
  pub writer : Writer
  pub calls : List (Call X.Float)

module _ (X : Peers) where
  -- A change of the response.
  abbrev pub on_writer : (Writer → Writer) → M (Web X) (Unit {0})
  on_writer f w = (ok tt, record w { writer = f w.writer })

  abbrev pub asked : {A : Type 0} → Call X.Float → (X.Env → A × X.Env) → Web X → A × Web X
  asked call f w = let (a, env') = f w.env in (a, record w { env = env'; calls = call ∷ w.calls })

  abbrev pub get_session_info : Context → SessionInput → M (Web X) SessionInfo
  get_session_info ctx input =
      let md = inject_outgoing ctx in
      asked (session_info_of md input) (λ e. X.get_session_info md input e)

  abbrev pub refresh_session : Context → SessionInput → M (Web X) RefreshSessionOutput
  refresh_session ctx input =
      let md = inject_outgoing ctx in
      asked (refresh_of md input) (λ e. X.refresh_session md input e)

  abbrev pub logout_session : Context → Text → M (Web X) Bool
  logout_session ctx sid =
      let md = inject_outgoing ctx in asked (logout_of md sid) (λ e. X.logout_session md sid e)

  abbrev pub start_oidc_login : Context → Text → M (Web X) Text
  start_oidc_login ctx redirect =
      let md = inject_outgoing ctx in
      asked (login_start_of md redirect) (λ e. X.start_oidc_login md redirect e)

  abbrev pub complete_oidc_login :
      Context → CompleteOidcLoginInput → M (Web X) CompleteOidcLoginOutput
  complete_oidc_login ctx input =
      let md = inject_outgoing ctx in
      asked (login_completion_of md input) (λ e. X.complete_oidc_login md input e)

  abbrev pub list_accounts : Context → Text → M (Web X) (List Text)
  list_accounts ctx customer =
      let md = inject_outgoing ctx in
      asked (accounts_of md customer) (λ e. X.list_accounts md customer e)

  abbrev pub validate_accounts_and_limits : Context → LimitsInput X.Float → M (Web X) LimitsOutput
  validate_accounts_and_limits ctx input =
      let md = inject_outgoing ctx in
      asked (limits_of md input) (λ e. X.validate_accounts_and_limits md input e)

  abbrev pub ask_payment : Context → PaymentRequest → M (Web X) PostPaymentReply
  ask_payment ctx req =
      let md = inject_outgoing ctx in asked (payment_of md req) (λ e. X.post_payment md req e)
