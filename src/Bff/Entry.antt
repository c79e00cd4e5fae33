-- ===== src/Bff/Entry.antt =====
-- Which requests the session middleware lets through to the handler of an operation with a session.
use microservice_workspace.Bff.Routes.{RouteInfo, find_info, requires_scheme}
use microservice_workspace.Bff.Cookies.{read_session_id, new_cookie_manager}
use microservice_workspace.Bff.Address.{or_else, get_client_ip}
use microservice_workspace.Bff.Http.{Request, Writer, write_header, header_get}
use microservice_workspace.Base.Text.{Text, text_eq_iff, is_empty, lit, text_eq}
use microservice_workspace.Bff.Peers.{Peers, Web, SessionInfo, Call, session_info_of}
use microservice_workspace.Bff.Context.{Context, with_session_id, inject_outgoing}
use microservice_workspace.Bff.Confirm.{
  PeerLaws, IsFailing, IsConfirmed, get_session_info_with_refresh-Confirmed,
}
use microservice_workspace.Bff.Ended.{IsEnded}
use microservice_workspace.Bff.Session.{
  auth_session, auth_route, with_session, enter, user_context, session_context, is_locked_out,
  is_rotated, Session, Handler, session_input,
}
use microservice_workspace.Base.{
  ◌≡◌, refl, true, false, some, none, ◌⊎◌, inl, inr, arith, Bool, if◌then◌else◌, ℕ, Option, List,
  Bool-cases, [], not, ◌∷◌, ◌&&◌, ◌∙◌,
}
use microservice_workspace.Base.Result.{Result, ok, err, Post}

session-or_else :
    (sid : Text) (s : Session)
    → (if is_rotated sid s then s.new_sid else sid) ≡ or_else s.new_sid sid
session-or_else sid s = ground (arith, (text_eq_iff s.new_sid sid).0)

with_session_id-token :
    (ctx : Context) (v : Text) → (with_session_id ctx v).access_token ≡ ctx.access_token
with_session_id-token ctx v = ground arith

user_context-token :
    (ctx : Context) (ri : RouteInfo) (sid : Text) (s : Session)
    → is_empty s.access_token ≡ false
    → (user_context ctx ri sid s).access_token ≡ s.access_token
user_context-token ctx ri sid s h = ground arith

pub write_header-open :
    (code : ℕ) (w : Writer) → w.status ≡ none → (write_header code w).status ≡ some code
unfolding write_header
write_header-open code w h = rw h refl

write_header-eq :
    (code : ℕ) (w : Writer)
    → w.status ≡ none
    → write_header code w ≡ record w { status = some code }
unfolding write_header
write_header-eq code w h = rw h refl

is_locked_out-status :
    (info : SessionInfo)
    → is_locked_out info ≡ false
    → (info.user_status ≡ []) ⊎ (info.user_status ≡ lit "ACTIVE")
is_locked_out-status info h = go info.user_status h
  where
    go :
        (s : Text)
        → (not (is_empty s) && not (text_eq s (lit "ACTIVE"))) ≡ false
        → (s ≡ []) ⊎ (s ≡ lit "ACTIVE")
    go [] h = inl refl
    go (c ∷ s) h = elim (Bool-cases (text_eq (c ∷ s) (lit "ACTIVE"))) [
      | inl e ↦ inr ((text_eq_iff (c ∷ s) (lit "ACTIVE")).0 e)
      | inr e ↦ (let k : true ≡ false = (rw e refl) ∙ h in cc)
    ]

module _ (X : Peers) (laws : PeerLaws X) (same_site : Text) (secure : Bool) where
  -- The context in which a handler runs is that of a user whose status is ACTIVE or not given, and
  -- whose session identity described in the last call before the handler.
  pub record IsAuthenticated (r : Request) (ctx : Context) (v : Web X) : Type 0 where
    pub sid : Text
    pub sent : read_session_id (new_cookie_manager same_site secure) r ≡ some sid
    pub info : SessionInfo
    pub metadata : List (Text × Text)
    pub before : X.Env
    pub described :
        (X.get_session_info metadata
          (session_input ctx.session (get_client_ip X r) (header_get (lit "User-Agent") r))
          before).0
        ≡ ok info
    pub latest :
        (X.get_session_info metadata
          (session_input ctx.session (get_client_ip X r) (header_get (lit "User-Agent") r))
          before).1
        ≡ v.env
    pub called :
        (rest : List (Call X.Float)) × (v.calls
          ≡ session_info_of metadata
              (session_input ctx.session (get_client_ip X r) (header_get (lit "User-Agent") r))
            ∷ rest)
    pub not_locked_out : (info.user_status ≡ []) ⊎ (info.user_status ≡ lit "ACTIVE")
    pub of_customer : ctx.customer ≡ info.customer_id
    pub of_subject : ctx.subject ≡ info.subject_id_oidc
    pub has_token : is_empty ctx.access_token ≡ false

  -- How a request ends that passes the middleware with the response `w`.
  pub data Outcome (next : Handler X) (r : Request) (w : Writer) (result : Web X) : Type 0 where
    passed :
        (ctx : Context) (v : Web X)
        → result ≡ next ctx v
        → v.writer.status ≡ none
        → IsAuthenticated r ctx v
        → Outcome next r w result
    without_session : result.writer ≡ record w { status = some 401 } → Outcome next r w result
    locked_out : result.writer.status ≡ some 403 → Outcome next r w result
    ended : IsEnded result.writer → Outcome next r w result
    failing : IsFailing w result.writer → Outcome next r w result

  module _ (next : Handler X) (r : Request) (ri : RouteInfo) where
    enter-Outcome :
        (ctx : Context) (sid : Text) (u : Writer) (p : Result Session × Web X)
        → read_session_id (new_cookie_manager same_site secure) r ≡ some sid
        → Post
            (λ s v.
              IsConfirmed X laws same_site secure ctx sid
                (get_client_ip X r)
                (header_get (lit "User-Agent") r)
                s
                v)
            (λ e v. IsEnded v.writer ⊎ IsFailing u v.writer)
            p
        → Outcome next r u (enter X (new_cookie_manager same_site secure) next ctx ri sid p)
    unfolding enter
    enter-Outcome ctx sid u (err e, v) h (inl x) = ended x
    enter-Outcome ctx sid u (err e, v) h (inr x) = failing x
    enter-Outcome ctx sid u (ok s, v) h c = decided (Bool-cases (is_locked_out s.info))
      where
        decided :
            (is_locked_out s.info ≡ true) ⊎ (is_locked_out s.info ≡ false)
            → Outcome next r u
                (enter X (new_cookie_manager same_site secure) next ctx ri sid (ok s, v))
        decided (inl b) = locked_out (rw b (write_header-open 403 v.writer c.still_open))
        decided (inr b) = passed (user_context ctx ri sid s) v (rw b refl) c.still_open (record {
          sid = sid;
          sent = h;
          info = s.info;
          metadata = inject_outgoing ctx;
          before = c.before;
          described = rw (session-or_else sid s) c.described;
          latest = rw (session-or_else sid s) c.latest;
          called = rw (session-or_else sid s) c.called;
          not_locked_out = is_locked_out-status s.info b;
          of_customer = refl;
          of_subject = refl;
          has_token = rw (user_context-token ctx ri sid s c.has_token) c.has_token;
        })

    with_session-Outcome :
        (ctx : Context) (sid : Option Text) (w : Web X)
        → read_session_id (new_cookie_manager same_site secure) r ≡ sid
        → w.writer.status ≡ none
        → Outcome next r w.writer
            (with_session X (new_cookie_manager same_site secure) next r ri sid ctx w)
    unfolding with_session
    with_session-Outcome ctx none w e h = without_session (write_header-eq 401 w.writer h)
    with_session-Outcome ctx (some sid) w e h =
        enter-Outcome (session_context X ctx ri sid r) sid w.writer _ e (
          get_session_info_with_refresh-Confirmed X laws same_site secure
            (session_context X ctx ri sid r) sid (get_client_ip X r)
            (header_get (lit "User-Agent") r) w h)

    -- If identity never hands out empty identifiers or tokens, a request for an operation whose
    -- requirements name cookieAuth, no status being written yet, either is served in the context
    -- of a user whose status is ACTIVE or not given, whose session cookie was sent, and whose
    -- session identity described in the last call before, with a token; or it ends with 401 and no
    -- other change of the response, with 403, with 401 and both session cookies dropped, or with
    -- 502 or 503 and the cookies as they were.
    pub auth_session-Outcome :
        (ctx : Context) (w : Web X)
        → find_info X r ≡ some ri
        → requires_scheme X ri.security (lit "cookieAuth") ≡ true
        → w.writer.status ≡ none
        → Outcome next r w.writer
            (auth_session X (new_cookie_manager same_site secure) next r ctx w)
    unfolding auth_session auth_route
    auth_session-Outcome ctx w found needs h =
        rw (found, needs)
          (with_session-Outcome ctx (read_session_id (new_cookie_manager same_site secure) r) w refl
            h)
