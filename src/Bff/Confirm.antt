-- ===== src/Bff/Confirm.antt =====
-- How the session middleware ends: the handler runs for a session that identity confirmed, or the
-- response is a refusal.
use microservice_workspace.Bff.Ended.{IsEnded, clear-IsEnded, set_cookie-open}
use microservice_workspace.Bff.Address.{or_else}
use microservice_workspace.Bff.Session.{
  Session, reject, rotate, refused_by_identity, session_input, rotated, reloaded,
  get_session_info_with_refresh, accepted, Refusal, refusal_of, refused_as, bad_gateway,
  has_valid_token,
}
use microservice_workspace.Base.Result.{Error, ok, ◌>>◌, raise}
use microservice_workspace.Bff.Peers.{
  Peers, Web, SessionInput, RefreshSessionOutput, SessionInfo, on_writer, Call, session_info_of,
}
use microservice_workspace.Base.Text.{Text, lit, is_empty, text_eq}
use microservice_workspace.Bff.Context.{Context, inject_outgoing}
use microservice_workspace.Base.Result.{
  Result, ok, err, Error, status, record_not_found, plain, Post,
}
use microservice_workspace.Bff.Session.{not_authenticated, lost, away, unexpected}
use microservice_workspace.Base.{
  ℕ, ◌≡◌, refl, true, false, some, none, ◌⊎◌, inl, inr, Bool, List, arith, Bool-cases,
  if◌then◌else◌, ◌∷◌,
}
use microservice_workspace.Bff.Http.{Writer, write_header}
use microservice_workspace.Bff.Cookies.{new_cookie_manager, write_session_id}

-- The identity service does not hand out empty identifiers or tokens; a text folds to itself.
pub record PeerLaws (X : Peers) : Type 0 where
  pub refreshed :
      (md : List (Text × Text)) (input : SessionInput) (e : X.Env) (out : RefreshSessionOutput)
      → (X.refresh_session md input e).0 ≡ ok out
      → (is_empty out.session_id ≡ false) × (is_empty out.access_token ≡ false)
  pub equal_fold_refl : (s : Text) → X.equal_fold s s ≡ true

-- The request is refused for a reason that leaves the session as it is.
pub record IsFailing (w v : Writer) : Type 0 where
  pub refused : (v.status ≡ some 502) ⊎ (v.status ≡ some 503)
  pub same_cookies : v.cookies ≡ w.cookies

module _ (X : Peers) (laws : PeerLaws X) (same_site : Text) (secure : Bool) where
  -- The session is one that identity described in the last call that was made, and its token is not
  -- empty.
  pub record IsConfirmed (ctx : Context) (sid ip ua : Text) (s : Session) (v : Web X) : Type 0 where
    pub before : X.Env
    pub described :
        (X.get_session_info
          (inject_outgoing ctx)
          (session_input (or_else s.new_sid sid) ip ua)
          before).0
        ≡ ok s.info
    pub latest :
        (X.get_session_info
          (inject_outgoing ctx)
          (session_input (or_else s.new_sid sid) ip ua)
          before).1
        ≡ v.env
    pub called :
        (rest : List (Call X.Float)) × (v.calls
          ≡ session_info_of (inject_outgoing ctx) (session_input (or_else s.new_sid sid) ip ua)
            ∷ rest)
    pub has_token : is_empty s.access_token ≡ false
    pub still_open : v.writer.status ≡ none

  abbrev pub Refused : Writer → Error → Web X → Type 0
  Refused w e v = IsEnded v.writer ⊎ IsFailing w v.writer

  module _ (ctx : Context) (sid ip ua : Text) where
    reject-Refused :
        (u : Writer) (e : Error) (w : Web X)
        → w.writer.status ≡ none
        → Post
            (λ s v. IsConfirmed ctx sid ip ua s v)
            (Refused u)
            (reject X (new_cookie_manager same_site secure) e w)
    unfolding reject
    reject-Refused u e w h = inl (clear-IsEnded same_site secure w.writer h)

    reloaded-Confirmed :
        (u : Writer) (ref : RefreshSessionOutput) (env : X.Env) (r : Result SessionInfo) (w : Web X)
        → is_empty ref.session_id ≡ false
        → is_empty ref.access_token ≡ false
        → (X.get_session_info (inject_outgoing ctx) (session_input ref.session_id ip ua) env).0 ≡ r
        → (X.get_session_info (inject_outgoing ctx) (session_input ref.session_id ip ua) env).1
          ≡ w.env
        → ((rest : List (Call X.Float)) × (w.calls
              ≡ session_info_of (inject_outgoing ctx) (session_input ref.session_id ip ua) ∷ rest))
        → w.writer.status ≡ none
        → Post
            (λ s v. IsConfirmed ctx sid ip ua s v)
            (Refused u)
            (reloaded X (new_cookie_manager same_site secure) ref r w)
    reloaded-Confirmed u ref env (ok info) w named token e l c h = record {
      before = env;
      described = rw named e;
      latest = rw named l;
      called = rw named c;
      has_token = token;
      still_open = h;
    }
    reloaded-Confirmed u ref env (err x) w named token e l c h = reject-Refused u x w h

    rotated-Confirmed :
        (u : Writer) (env : X.Env) (r : Result RefreshSessionOutput) (w : Web X)
        → (X.refresh_session (inject_outgoing ctx) (session_input sid ip ua) env).0 ≡ r
        → w.writer.status ≡ none
        → Post
            (λ s v. IsConfirmed ctx sid ip ua s v)
            (Refused u)
            (rotated X (new_cookie_manager same_site secure) ctx ip ua r w)
    unfolding write_session_id
    rotated-Confirmed u env (err x) w e h = reject-Refused u x w h
    rotated-Confirmed u env (ok ref) w e h =
        let (expires, env') = X.time_after ref.session_expires_in w.env in
        let (named, token) =
          laws.refreshed (inject_outgoing ctx) (session_input sid ip ua) env ref e in
        reloaded-Confirmed u ref env'
          (X.get_session_info (inject_outgoing ctx) (session_input ref.session_id ip ua) env').0 _
          named token refl refl (_, refl) (set_cookie-open _ w.writer h)

    rotate-Confirmed :
        (u : Writer) (w : Web X)
        → w.writer.status ≡ none
        → Post
            (λ s v. IsConfirmed ctx sid ip ua s v)
            (Refused u)
            (rotate X (new_cookie_manager same_site secure) ctx sid ip ua w)
    unfolding rotate
    rotate-Confirmed u w h =
        rotated-Confirmed u w.env
          (X.refresh_session (inject_outgoing ctx) (session_input sid ip ua) w.env).0 _ refl h

    failing :
        (code : ℕ) (body : Text) (w : Writer)
        → (some code ≡ some 502) ⊎ (some code ≡ some 503)
        → w.status ≡ none
        → IsFailing w (write_header code (record w { body = body }))
    unfolding write_header
    failing code body w c h = record { refused = rw h c; same_cookies = rw h refl }

    abbrev pub Settled : Web X → Result Session × Web X → Type 0
    Settled w r = Post (λ s v. IsConfirmed ctx sid ip ua s v) (Refused w.writer) r

    bad_gateway-Refused :
        (x : Error) (w : Web X)
        → w.writer.status ≡ none
        → Settled w ((on_writer X bad_gateway >> raise x) w)
    bad_gateway-Refused x w h = inr (failing 502 (lit "Session error") w.writer (inl refl) h)

    refused_as-Confirmed :
        (k : Refusal) (message : Text) (x : Error) (w : Web X)
        → w.writer.status ≡ none
        → Settled w (refused_as X (new_cookie_manager same_site secure) ctx sid ip ua k message x w)
    refused_as-Confirmed not_authenticated message x w h =
        expired (text_eq message (lit "SESSION_EXPIRED"))
      where
        expired :
            (b : Bool)
            → Settled w (
                (if b
                    then rotate X (new_cookie_manager same_site secure) ctx sid ip ua
                    else reject X (new_cookie_manager same_site secure) x)
                  w)
        expired true = rotate-Confirmed w.writer w h
        expired false = reject-Refused w.writer x w h
    refused_as-Confirmed lost message x w h = reject-Refused w.writer x w h
    refused_as-Confirmed away message x w h =
        inr (failing 503 (lit "service unavailable") w.writer (inr refl) h)
    refused_as-Confirmed unexpected message x w h = bad_gateway-Refused x w h

    refused-Confirmed :
        (x : Error) (w : Web X)
        → w.writer.status ≡ none
        → Settled w (refused_by_identity X (new_cookie_manager same_site secure) ctx sid ip ua x w)
    refused-Confirmed (status c message) w h =
        refused_as-Confirmed (refusal_of c) message (status c message) w h
    refused-Confirmed record_not_found w h = bad_gateway-Refused record_not_found w h
    refused-Confirmed (plain t) w h = bad_gateway-Refused (plain t) w h

    has_valid_token-nonempty :
        (info : SessionInfo) → has_valid_token info ≡ true → is_empty info.access_token ≡ false
    has_valid_token-nonempty info h = ground arith

    accepted-Confirmed :
        (env : X.Env) (r : Result SessionInfo) (u w : Web X)
        → w.writer ≡ u.writer
        → (X.get_session_info (inject_outgoing ctx) (session_input sid ip ua) env).0 ≡ r
        → (X.get_session_info (inject_outgoing ctx) (session_input sid ip ua) env).1 ≡ w.env
        → ((rest : List (Call X.Float)) × (w.calls
              ≡ session_info_of (inject_outgoing ctx) (session_input sid ip ua) ∷ rest))
        → w.writer.status ≡ none
        → Settled w (accepted X (new_cookie_manager same_site secure) ctx sid ip ua r w)
    accepted-Confirmed env (err x) u w k e l c h = refused-Confirmed x w h
    accepted-Confirmed env (ok info) u w k e l c h = held (Bool-cases (has_valid_token info))
      where
        held :
            (has_valid_token info ≡ true) ⊎ (has_valid_token info ≡ false)
            → Settled w (accepted X (new_cookie_manager same_site secure) ctx sid ip ua (ok info) w)
        held (inl b) = rw b (record {
          before = env;
          described = e;
          latest = l;
          called = c;
          has_token = has_valid_token-nonempty info b;
          still_open = h;
        })
        held (inr b) = rw b (rotate-Confirmed w.writer w h)

    pub get_session_info_with_refresh-Confirmed :
        (w : Web X)
        → w.writer.status ≡ none
        → Settled w
            (get_session_info_with_refresh X (new_cookie_manager same_site secure) ctx sid ip ua w)
    unfolding get_session_info_with_refresh
    get_session_info_with_refresh-Confirmed w h =
        accepted-Confirmed w.env
          (X.get_session_info (inject_outgoing ctx) (session_input sid ip ua) w.env).0 w _ refl refl
          refl (_, refl) h
