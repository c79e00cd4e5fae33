-- ===== src/Bff/Upstream.antt =====
-- A connection of the gateway to another service: each call is answered by the world outside, and
-- kept in a log.
pub mod Laws
use microservice_workspace.Base.{List, ◌∷◌}
use microservice_workspace.Base.Result.{Result, M}

-- The world outside, and what was sent, newest first.
pub record Line (Env Q : Type 0) : Type 0 where
  pub env : Env
  pub sent : List Q

-- A unary call.
abbrev pub rpc : {Env Q A : Type 0} → Q → (Env → Result A × Env) → M (Line Env Q) A
rpc q answer w = let (r, env') = answer w.env in (r, record w { env = env'; sent = q ∷ w.sent })
