-- ===== src/Mcp/OauthExamples.antt =====
-- An authorization of one client and one user. The hashes leave a text as it is, and the bridge's token
-- is the text "jwt", which decodes to the user's claims.
use vargate_telemetry.Base.{
  List, ℕ, ◌≡◌, ◌≢◌, refl, true, false, Option, none, some, [], ◌∷◌, ◌*◌, String, str_eq, arith,
  eq_iff, if◌then◌else◌, lower_eq,
}
use vargate_telemetry.Base.Result.{ok, err, failure}
use vargate_telemetry.Mcp.Oauth.Responses.{refused}
use vargate_telemetry.Mcp.Oauth.Config.{spike_mode_enabled}
use vargate_telemetry.Mcp.Oauth.Server.{Client, Claims, Host, Server, Moment}
use vargate_telemetry.Mcp.Oauth.Bridge.{Jwk, Gateway, Session, fetch_and_cache_jwk}
use vargate_telemetry.Mcp.Oauth.Authorize.{AuthorizeQuery, authorize, authorize_callback}
use vargate_telemetry.Mcp.Oauth.Token.{
  TokenForm, Pair, code_grant, token_authorization_code, token_refresh,
}
use vargate_telemetry.Mcp.Oauth.Requests.{
  Request, authorizes, calls_back, exchanges, run, new_server,
}
use vargate_telemetry.Mcp.Oauth.Attested.{Sound}
use vargate_telemetry.Mcp.Oauth.Soundness.{run-Sound}
use vargate_telemetry.Mcp.Oauth.Once.{code-once, refresh-once}
use vargate_telemetry.Mcp.Oauth.EndToEnd.{code_form, payload_for}
use vargate_telemetry.Mcp.Oauth.BridgeLaws.{fetch_served}

abbrev alice : Claims
alice = record {
  mcp_state = some "st";
  tenant_id = some "acme";
  user_id = some "u1";
  user_email = some "u1@acme.example";
}

abbrev jwt : ℕ → String → String → Option Claims
jwt now key token = if str_eq token "jwt" then some alice else none

abbrev host : Host
host = record {
  env = λ name. none;
  access_token_ttl_seconds = 3600;
  refresh_token_ttl_seconds = 2592000;
  sha256_hex = λ s. s;
  sha256_base64url = λ s. s;
  ec_public_key = λ x y. ok x;
  jwt_decode = jwt;
}

abbrev gateway : Gateway
gateway = record {
  allowed_returns = "http://localhost:8001/authorize/callback" ∷ [];
  ogma_origin = "https://ogma.vargate.ai";
  path = "/auth/mcp-bridge";
  urlencode = λ params. "";
  sign_bridge_token = λ claims. "jwt";
}

abbrev user : Session
user = record { sub = "u1"; email = "u1@acme.example"; tenant_id = some "acme" }

abbrev callback_uri : String
callback_uri = "https://claude.ai/api/mcp/auth_callback"

abbrev client : Client
client = record {
  client_id = "c1";
  client_secret_hash = "s";
  client_name = "Claude";
  redirect_uris = callback_uri ∷ [];
  grant_types = "authorization_code" ∷ [];
  response_types = "code" ∷ [];
  token_endpoint_auth_method = some "none";
  is_deleted = false;
}

abbrev server : Server
server = record new_server { clients = client ∷ []; public_key = some "k" }

abbrev query : AuthorizeQuery
query = record {
  client_id = "c1";
  redirect_uri = callback_uri;
  response_type = "code";
  code_challenge = some "v";
  code_challenge_method = some "S256";
  state = some "x";
  resource = none;
  scope = none;
}

abbrev at : ℕ → Moment
at t = record { now = t * 1000000; redis_now = t }

abbrev pair : Pair
pair = record { access_token = "a1"; refresh_token = "r1" }

not_spike : spike_mode_enabled host.env ≡ false
unfolding spike_mode_enabled lower_eq
not_spike = refl

abbrev waiting : Server
waiting =
    (authorize_callback host (at 1020) "k1" "jwt" (authorize host (at 1000) "st" query server).1).1

-- The key that is cached, and the token of the callback.
abbrev IsKey : String → Type 0
IsKey key = key ≡ "k"

abbrev IsSent : ℕ → String → Type 0
IsSent now token = (now ≡ (at 1020).now) × (token ≡ "jwt")

run-Sound_example : Sound host IsKey IsSent (
    run host
      ((at 1000, authorizes "st" query)
        ∷ (at 1020, calls_back "k1" "jwt")
        ∷ (at 1030, exchanges pair (code_form "k1" "v" "c1" callback_uri))
        ∷ [])
      server)
run-Sound_example =
    run-Sound host IsKey IsSent
      ((at 1000, authorizes "st" query)
        ∷ (at 1020, calls_back "k1" "jwt")
        ∷ (at 1030, exchanges pair (code_form "k1" "v" "c1" callback_uri))
        ∷ [])
      server not_spike (tt, ((refl, refl), (tt, tt)))
      (record {
        states = tt;
        codes = tt;
        refresh_tokens = tt;
        access_tokens = tt;
        keys = λ key e. let same : some "k" ≡ some key = e in cc;
      })

-- A server with one auth code and one refresh token.
abbrev holding : Server
holding = record server {
  auth_codes =
      (
        "k1",
        record { payload = payload_for host query "v" "acme" user; expires_at_epoch = 1600000000 },
      )
      ∷ [];
  refresh_tokens =
      (
        "r0",
        record {
          payload = code_grant "c1" (payload_for host query "v" "acme" user);
          expires_at_epoch = 1600000000;
        },
      )
      ∷ [];
}

abbrev refresh_form : String → TokenForm
refresh_form token = record {
  grant_type = some "refresh_token";
  code = none;
  code_verifier = none;
  client_id = some "c1";
  redirect_uri = none;
  refresh_token = some token;
}

-- Between the two requests another browser gets a code and redeems it.
abbrev between : List (Moment × Request)
between =
    (at 1031, calls_back "k2" "jwt")
    ∷ (
      at 1032,
      exchanges (record pair { refresh_token = "r2" }) (code_form "k2" "v" "c1" callback_uri),
    )
    ∷ []

codes-apart : ◌≢◌ {A = String} "k2" "k1"
codes-apart p = ground (arith, (eq_iff "k2" "k1").1 p)

code-once_example :
    let s =
      run host between
        (token_authorization_code host
          (at 1030)
          pair
          (code_form "k1" "v" "c1" callback_uri)
          holding).1 in
    token_authorization_code host (at 1033) pair (code_form "k1" "v" "c1" callback_uri) s
    ≡ (refused 400 "invalid_grant", s)
code-once_example =
    code-once host (at 1030) (at 1033) pair pair (code_form "k1" "v" "c1" callback_uri)
      (code_form "k1" "v" "c1" callback_uri) holding between "k1" "v" "c1" "v" "c1" refl refl refl
      refl refl refl (codes-apart, (tt, tt))

tokens-apart : ◌≢◌ {A = String} "r1" "r0"
tokens-apart p = ground (arith, (eq_iff "r1" "r0").1 p)

later-apart : ◌≢◌ {A = String} "r2" "r0"
later-apart p = ground (arith, (eq_iff "r2" "r0").1 p)

refresh-once_example :
    let s = run host between (token_refresh host (at 1030) pair (refresh_form "r0") holding).1 in
    token_refresh host (at 1033) pair (refresh_form "r0") s ≡ (refused 400 "invalid_grant", s)
refresh-once_example =
    refresh-once host (at 1030) (at 1033) pair pair (refresh_form "r0") (refresh_form "r0") holding
      between "r0" "c1" "c1" refl refl refl refl tokens-apart (tt, (later-apart, tt))

abbrev return_url : String
return_url = "http://localhost:8001/authorize/callback"

abbrev jwk : Jwk
jwk = record { kty = some "EC"; crv = some "P-256"; x = some "x1"; y = some "y1" }

fetch_served_example :
    fetch_and_cache_jwk host (err failure ∷ err failure ∷ ok jwk ∷ []) server
    ≡ (ok true, record server { public_key = some "x1" })
fetch_served_example =
    fetch_served host (failure ∷ failure ∷ []) jwk "x1" [] server (omega arith) (record {
      kty = refl;
      crv = refl;
      x = "x1";
      y = "y1";
      has_x = refl;
      has_y = refl;
      makes = refl;
    })
