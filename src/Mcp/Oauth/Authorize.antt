-- ===== src/Mcp/Oauth/Authorize.antt =====
-- `register_client`, `authorize` and `authorize_callback` of mcp_server/auth/oauth_routes.py. The
-- random values that a handler draws are its arguments.
use vargate_telemetry.Base.{
  ℕ, Bool, true, false, not, ◌&&◌, ◌||◌, Option, none, some, List, [], ◌∷◌, String, str_eq, any,
  starts_with, if◌then◌else◌,
}
use vargate_telemetry.Base.Result.{Result, ok, err, unique_violation}
use vargate_telemetry.Mcp.Tokens.{McpIdentity, complete}
use vargate_telemetry.Mcp.States.{OauthState, Redis, store, claim}
use vargate_telemetry.Mcp.Oauth.Responses.{
  Response, returned, refused, raised, Redirect, ◌>>=◌, require, require_some, given, or_default,
}
use vargate_telemetry.Mcp.Oauth.Stores.{store_put}
use vargate_telemetry.Mcp.Oauth.Config.{
  allowed_redirect_uri_prefixes, spike_mode_enabled, test_identity, resource_indicator,
  ogma_bridge_url, authorize_callback_url,
}
use vargate_telemetry.Mcp.Oauth.Server.{Client, CodePayload, Server, Claims, Host, Moment}

abbrev pub is_member : String → List String → Bool
is_member u vs = any (λ v. str_eq v u) vs

unfoldable pub redirect_uri_allowed : String → Bool
redirect_uri_allowed uri =
    any (λ prefix. str_eq uri prefix || starts_with uri prefix) allowed_redirect_uri_prefixes

-- The first of the body's redirect URIs that is not allowed refuses the body.
abbrev pub all_allowed : List String → Bool
all_allowed [] = true
all_allowed (uri ∷ uris) = redirect_uri_allowed uri && all_allowed uris

-- The body of a registration; pydantic has seen to it that it names a redirect URI.
pub record Registration : Type 0 where
  pub client_name : Option String
  pub redirect_uris : List String
  pub grant_types : List String
  pub response_types : List String
  pub token_endpoint_auth_method : Option String

-- The row with its secret, in place of the secret's hash, is what the client is told.
pub record Registered : Type 0 where
  pub client : Client
  pub client_secret : String

abbrev pub client_row : Host → String → String → Registration → Client
client_row host client_id client_secret body = record {
  client_id = client_id;
  client_secret_hash = host.sha256_hex client_secret;
  client_name = or_default body.client_name "Unnamed MCP Client";
  redirect_uris = body.redirect_uris;
  grant_types = body.grant_types;
  response_types = body.response_types;
  token_endpoint_auth_method = body.token_endpoint_auth_method;
  is_deleted = false;
}

abbrev pub has_client : String → List Client → Bool
has_client id rows = any (λ (c : Client). str_eq c.client_id id) rows

-- The INSERT, whose primary key is the client's id.
abbrev pub insert_client : Client → String → Server → Response Registered × Server
insert_client row secret s =
    if has_client row.client_id s.clients then (raised unique_violation, s) else (
      returned (record { client = row; client_secret = secret }),
      record s { clients = row ∷ s.clients },
    )

unfoldable pub register_client :
    Host → String → String → Registration → Server → Response Registered × Server
unfolding redirect_uri_allowed
register_client host client_id client_secret body s =
    if all_allowed body.redirect_uris
    then insert_client (client_row host client_id client_secret body) client_secret s
    else (refused 400 "invalid_redirect_uri", s)

pub record AuthorizeQuery : Type 0 where
  pub client_id : String
  pub redirect_uri : String
  pub response_type : String
  pub code_challenge : Option String
  pub code_challenge_method : Option String
  pub state : Option String
  pub resource : Option String
  pub scope : Option String

-- The challenge, where one is given with the method S256.
abbrev pub pkce_challenge : Option String → Option String → Option String
pkce_challenge challenge none = none
pkce_challenge challenge (some method) = if str_eq method "S256" then given challenge else none

-- The SELECT of a client that is not deleted.
unfoldable pub find_client : String → List Client → Option Client
find_client id [] = none
find_client id (c ∷ rows) =
    let rest = find_client id rows in
    if str_eq c.client_id id && not c.is_deleted then some c else rest

-- The checks of `authorize`, in their order; the challenge that they leave.
unfoldable pub validate : AuthorizeQuery → List Client → Response String
unfolding redirect_uri_allowed find_client
validate q clients = do
  is_code ← require (str_eq q.response_type "code") 400 "unsupported_response_type"
  challenge ←
      require_some (pkce_challenge q.code_challenge q.code_challenge_method) 400 "invalid_request"
  is_allowed ← require (redirect_uri_allowed q.redirect_uri) 400 "invalid_redirect_uri"
  client ← require_some (find_client q.client_id clients) 400 "invalid_client"
  is_registered ← require (is_member q.redirect_uri client.redirect_uris) 400 "invalid_redirect_uri"
  returned challenge

abbrev pub auth_code_ttl_seconds : ℕ
auth_code_ttl_seconds = 600

abbrev pub code_params : String → Option String → List (String × String)
code_params code none = ("code", code) ∷ []
code_params code (some state) = ("code", code) ∷ ("state", state) ∷ []

unfoldable pub mint_code_and_redirect :
    Moment → String → CodePayload → Option String → Server → Response Redirect × Server
unfolding store_put
mint_code_and_redirect m code p claude_state s = (
  returned (record { location = p.redirect_uri; params = code_params code claude_state }),
  record s { auth_codes = store_put m.now code p auth_code_ttl_seconds s.auth_codes },
)

-- What `authorize` keeps for the callback, with the challenge that was checked.
abbrev pub pending : Host → AuthorizeQuery → String → OauthState
pending host q challenge = record {
  client_id = q.client_id;
  redirect_uri = q.redirect_uri;
  code_challenge = challenge;
  code_challenge_method = "S256";
  scope = or_default q.scope "log_interaction";
  resource = or_default q.resource (resource_indicator host.env);
  claude_state = q.state;
}

-- The payload of a code, from what was kept and the identity that signed in.
abbrev pub code_payload : OauthState → McpIdentity → CodePayload
code_payload p i = record {
  client_id = p.client_id;
  redirect_uri = p.redirect_uri;
  code_challenge = p.code_challenge;
  code_challenge_method = p.code_challenge_method;
  tenant_id = i.tenant_id;
  user_id = i.user_id;
  user_email = i.user_email;
  resource = p.resource;
  scope = p.scope;
}

abbrev pub spike :
    Moment → String → OauthState → Option McpIdentity → Server → Response Redirect × Server
spike m code p none s = (refused 503 "spike_misconfigured", s)
spike m code p (some i) s = mint_code_and_redirect m code (code_payload p i) p.claude_state s

abbrev pub to_bridge : Host → String → Result Redis → Server → Response Redirect × Server
to_bridge host mcp_state (err e) s = (raised e, s)
to_bridge host mcp_state (ok states) s = (
  returned (record {
    location = ogma_bridge_url host.env;
    params = ("state", mcp_state) ∷ ("return", authorize_callback_url host.env) ∷ [];
  }),
  record s { states = states },
)

abbrev pub on_challenge :
    Host → Moment → String → AuthorizeQuery → Response String → Server → Response Redirect × Server
on_challenge host m token q (refused code error) s = (refused code error, s)
on_challenge host m token q (raised e) s = (raised e, s)
on_challenge host m token q (returned challenge) s =
    let p = pending host q challenge in
    if spike_mode_enabled host.env
    then spike m token p (test_identity host.env) s
    else to_bridge host token (store m.redis_now token p s.states) s

-- `token` is the random value that the branch taken draws: a code in spike mode, a state otherwise.
unfoldable pub authorize :
    Host → Moment → String → AuthorizeQuery → Server → Response Redirect × Server
unfolding validate mint_code_and_redirect
authorize host m token q s = on_challenge host m token q (validate q s.clients) s

abbrev pub on_identity :
    Moment → String → OauthState → Option McpIdentity → Server → Response Redirect × Server
on_identity m code p none s = (refused 400 "invalid_grant", s)
on_identity m code p (some i) s = mint_code_and_redirect m code (code_payload p i) p.claude_state s

abbrev pub on_payload :
    Moment → String → Claims → Option OauthState → Server → Response Redirect × Server
on_payload m code c none s = (refused 400 "invalid_grant", s)
on_payload m code c (some p) s =
    on_identity m code p (complete c.tenant_id c.user_id c.user_email) s

abbrev pub on_claimed :
    Moment → String → Claims → Option OauthState × Redis → Server → Response Redirect × Server
on_claimed m code c (p, states) s = on_payload m code c p (record s { states = states })

abbrev pub on_state : Moment → String → Claims → Option String → Server → Response Redirect × Server
on_state m code c none s = (refused 400 "invalid_grant", s)
on_state m code c (some mcp_state) s = on_claimed m code c (claim m.redis_now mcp_state s.states) s

abbrev pub on_claims : Moment → String → Option Claims → Server → Response Redirect × Server
on_claims m code none s = (refused 400 "invalid_grant", s)
on_claims m code (some c) s = on_state m code c (given c.mcp_state) s

abbrev pub on_key :
    Host → Moment → String → String → Option String → Server → Response Redirect × Server
on_key host m code bridge_token none s = (refused 503 "server_not_ready", s)
on_key host m code bridge_token (some key) s =
    on_claims m code (host.jwt_decode m.now key bridge_token) s

unfoldable pub authorize_callback :
    Host → Moment → String → String → Server → Response Redirect × Server
unfolding mint_code_and_redirect
authorize_callback host m code bridge_token s = on_key host m code bridge_token s.public_key s
