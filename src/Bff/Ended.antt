-- ===== src/Bff/Ended.antt =====
-- What the response says when a session is over.
use microservice_workspace.Base.Int.{negsuc}
use microservice_workspace.Base.Text.{Text, lit}
use mathlib.Core.Path.{subst}
use microservice_workspace.Base.{◌≡◌, refl, sym, true, false, some, none, [], Bool, arith}
use microservice_workspace.Bff.Http.{Writer, Cookie, last_cookie, set_cookie, write_header}
use microservice_workspace.Bff.Cookies.{
  new_cookie_manager, host_sid, plain_sid, cleared, clear, clear_alternate,
}

-- The client is told to drop the cookie.
pub record IsDropped (name : Text) (w : Writer) : Type 0 where
  pub cookie : Cookie
  pub found : last_cookie name w ≡ some cookie
  pub expired : cookie.max_age ≡ negsuc 0
  pub emptied : cookie.value ≡ []

-- The response is a refusal that ends the session.
pub record IsEnded (w : Writer) : Type 0 where
  pub refused : w.status ≡ some 401
  pub host_dropped : IsDropped host_sid w
  pub plain_dropped : IsDropped plain_sid w

module _ (same_site : Text) where
  clear_open-IsEnded :
      (secure : Bool) (w : Writer)
      → IsEnded (
          write_header 401
            (clear (new_cookie_manager same_site secure) (record w { status = none })))
  unfolding clear clear_alternate set_cookie new_cookie_manager host_sid plain_sid lit write_header
  clear_open-IsEnded true w = record {
    refused = refl;
    host_dropped = record {
      cookie = cleared (new_cookie_manager same_site true) host_sid;
      found = refl;
      expired = refl;
      emptied = refl;
    };
    plain_dropped = record {
      cookie = cleared (new_cookie_manager same_site true) plain_sid;
      found = refl;
      expired = refl;
      emptied = refl;
    };
  }
  clear_open-IsEnded false w = record {
    refused = refl;
    host_dropped = record {
      cookie = cleared (new_cookie_manager same_site false) host_sid;
      found = refl;
      expired = refl;
      emptied = refl;
    };
    plain_dropped = record {
      cookie = cleared (new_cookie_manager same_site false) plain_sid;
      found = refl;
      expired = refl;
      emptied = refl;
    };
  }

  pub clear-IsEnded :
      (secure : Bool) (w : Writer)
      → w.status ≡ none
      → IsEnded (write_header 401 (clear (new_cookie_manager same_site secure) w))
  clear-IsEnded secure w h =
      subst
        (λ s. IsEnded (
          write_header 401 (clear (new_cookie_manager same_site secure) (record w { status = s }))))
        (sym h) (clear_open-IsEnded secure w)

pub set_cookie-open : (c : Cookie) (w : Writer) → w.status ≡ none → (set_cookie c w).status ≡ none
unfolding set_cookie
set_cookie-open c w h = ground arith
