-- ===== src/Bff/Address.antt =====
-- The address of a client: bff/internal/util/ip.go.
use microservice_workspace.Base.{
  ℕ, Bool, ◌&&◌, ◌||◌, ◌==◌, Option, none, some, [], ◌∷◌, if◌then◌else◌,
}
use microservice_workspace.Base.Text.{Text, lit, is_empty, trim_space}
use microservice_workspace.Bff.Http.{Request, header_get}
use microservice_workspace.Bff.Peers.{Peers}

abbrev is_bracket : ℕ → Bool
is_bracket c = c == b'[' || c == b']'

unfoldable pub drop_brackets : Text → Text
drop_brackets [] = []
drop_brackets (c ∷ s) = let rest = drop_brackets s in if is_bracket c then rest else c ∷ s

unfoldable pub drop_brackets_right : Text → Text
drop_brackets_right [] = []
drop_brackets_right (c ∷ s) =
    let rest = drop_brackets_right s in if is_bracket c && is_empty rest then [] else c ∷ rest

-- `strings.Split v ","`, the first part.
unfoldable pub before_comma : Text → Text
before_comma [] = []
before_comma (c ∷ s) = let rest = before_comma s in if c == b',' then [] else c ∷ rest

abbrev pub or_else : Text → Text → Text
or_else s t = if is_empty s then t else s

module _ (X : Peers) where
  abbrev pub host_of : Text → Text
  host_of v = elim (X.split_host_port v) [ none ↦ v | some host ↦ host ]

  abbrev pub address_of : Option Text → Text
  address_of none = []
  address_of (some ip) = ip

  unfoldable pub normalize_trimmed : Text → Text
  normalize_trimmed v =
      if is_empty v
      then []
      else address_of (X.parse_ip (drop_brackets_right (drop_brackets (host_of v))))

  unfoldable pub normalize_ip : Text → Text
  normalize_ip v = normalize_trimmed (trim_space v)

  -- The remote address, else the first forwarded address, else the real address.
  unfoldable pub get_client_ip : Request → Text
  get_client_ip r = or_else (normalize_ip r.remote_addr) (
      or_else (normalize_ip (trim_space (before_comma (header_get (lit "X-Forwarded-For") r))))
        (normalize_ip (header_get (lit "X-Real-Ip") r)))
