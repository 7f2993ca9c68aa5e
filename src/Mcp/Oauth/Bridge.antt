-- ===== src/Mcp/Oauth/Bridge.antt =====
-- The key of the SSO bridge in mcp_server/auth/bridge_verifier.py, and the bridge itself in
-- vargate_telemetry/api/mcp_bridge.py.
use vargate_telemetry.Base.{
  concat, ℕ, zero, suc, Bool, true, false, ◌&&◌, ◌||◌, Option, none, some, List, [], ◌∷◌, String,
  str_eq, if◌then◌else◌,
}
use vargate_telemetry.Base.Result.{Result, ok, err, failure, value_error, Error}
use vargate_telemetry.Mcp.Tokens.{rstrip_slash}
use vargate_telemetry.Mcp.Oauth.Server.{Host, Server, Claims}
use vargate_telemetry.Mcp.Oauth.Responses.{Response, returned, refused, Redirect}

pub record Jwk : Type 0 where
  pub kty : Option String
  pub crv : Option String
  pub x : Option String
  pub y : Option String

abbrev pub is_text : Option String → String → Bool
is_text none t = false
is_text (some s) t = str_eq s t

abbrev pub public_key_from_jwk : Host → Option String → Option String → Result String
public_key_from_jwk host (some x) (some y) = host.ec_public_key x y
public_key_from_jwk host _ _ = err value_error

abbrev pub cache_key : Server → Result String → Result Bool × Server
cache_key s (ok key) = (ok true, record s { public_key = some key })
cache_key s (err e) = (err e, s)

-- `set_jwk`: a key that is refused leaves the one before.
unfoldable pub set_jwk : Host → Jwk → Server → Result Bool × Server
set_jwk host jwk s =
    if is_text jwk.kty "EC" && is_text jwk.crv "P-256"
    then cache_key s (public_key_from_jwk host jwk.x jwk.y)
    else (err value_error, s)

-- One attempt: what the request delivered, and what caching it did.
abbrev pub attempt : Host → Result Jwk → Server → Result Bool × Server
attempt host (ok jwk) s = set_jwk host jwk s
attempt host (err e) s = (err e, s)

abbrev pub fetch_retries : ℕ
fetch_retries = 3

abbrev pub retry :
    Result Bool × Server → (Error → Server → Result Bool × Server) → Result Bool × Server
retry (ok done, s) again = (ok done, s)
retry (err e, s) again = again e s

-- The loop of `fetch_and_cache_jwk`: attempts left, the last exception, and what the gateway answers
-- to the attempts, in turn; where it answers no more an attempt fails.
unfoldable pub fetch_loop : Host → ℕ → Error → List (Result Jwk) → Server → Result Bool × Server
unfolding set_jwk
fetch_loop host zero last answers s = (err last, s)
fetch_loop host (suc n) last [] s = fetch_loop host n failure [] s
fetch_loop host (suc n) last (a ∷ answers) s =
    retry (attempt host a s) (λ e s'. fetch_loop host n e answers s')

unfoldable pub fetch_and_cache_jwk : Host → List (Result Jwk) → Server → Result Bool × Server
unfolding fetch_loop
fetch_and_cache_jwk host answers s = fetch_loop host fetch_retries failure answers s

-- The session of the gateway's user.
pub record Session : Type 0 where
  pub sub : String
  pub email : String
  pub tenant_id : Option String

abbrev pub is_listed : String → List String → Bool
is_listed u [] = false
is_listed u (v ∷ vs) = str_eq v u || is_listed u vs

-- What the gateway takes from outside: its settings, `urlencode` and the signing of a bridge token.
pub record Gateway : Type 0 where
  pub allowed_returns : List String
  pub ogma_origin : String
  pub path : String
  pub urlencode : List (String × String) → String
  pub sign_bridge_token : Claims → String

-- To the sign-in page, which comes back to the bridge.
unfoldable pub sso_redirect : Gateway → String → String → Redirect
unfolding concat rstrip_slash
sso_redirect g state return_url = record {
  location = concat (rstrip_slash g.ogma_origin) "/onboarding/sso";
  params =
      (
        "next_url",
        concat g.path (concat "?" (g.urlencode (("state", state) ∷ ("return", return_url) ∷ []))),
      )
      ∷ [];
}

abbrev pub bridge_claims : String → String → String → String → Claims
bridge_claims tenant_id user_id user_email mcp_state = record {
  mcp_state = some mcp_state;
  tenant_id = some tenant_id;
  user_id = some user_id;
  user_email = some user_email;
}

abbrev pub on_tenant : Gateway → String → String → Session → Option String → Redirect
on_tenant g state return_url u none = record {
  location = concat (rstrip_slash g.ogma_origin) "/onboarding/select-region";
  params = [];
}
on_tenant g state return_url u (some tenant_id) = record {
  location = return_url;
  params = ("bridge_token", g.sign_bridge_token (bridge_claims tenant_id u.sub u.email state)) ∷ [];
}

abbrev pub on_session : Gateway → String → String → Option Session → Redirect
on_session g state return_url none = sso_redirect g state return_url
on_session g state return_url (some u) = on_tenant g state return_url u u.tenant_id

-- The endpoint; the session is the one that the cookie holds, absent where it is missing or invalid.
unfoldable pub mcp_bridge : Gateway → Option Session → String → String → Response Redirect
unfolding sso_redirect
mcp_bridge g session state return_url =
    if is_listed return_url g.allowed_returns
    then returned (on_session g state return_url session)
    else refused 400 "invalid_return_url"
