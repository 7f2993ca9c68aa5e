-- ===== src/Mcp/Oauth/Token.antt =====
-- `token_endpoint` of mcp_server/auth/oauth_routes.py: the exchange of an auth code or a refresh
-- token for a token pair.
use vargate_telemetry.Base.{
  concat, ℕ, ◌+◌, ◌*◌, Bool, false, not, ◌||◌, Option, none, some, List, [], ◌∷◌, String, str_eq,
  any, if◌then◌else◌,
}
use vargate_telemetry.Base.Result.{unique_violation}
use vargate_telemetry.Mcp.Tokens.{TokenRow}
use vargate_telemetry.Mcp.Oauth.Responses.{Response, returned, refused, raised, given}
use vargate_telemetry.Mcp.Oauth.Stores.{Store, store_put, store_pop}
use vargate_telemetry.Mcp.Oauth.Server.{CodePayload, Grant, Server, Host, Moment}
use vargate_telemetry.Mcp.Oauth.Authorize.{has_client}

pub record TokenForm : Type 0 where
  pub grant_type : Option String
  pub code : Option String
  pub code_verifier : Option String
  pub client_id : Option String
  pub redirect_uri : Option String
  pub refresh_token : Option String

pub record TokenBody : Type 0 where
  pub access_token : String
  pub token_type : String
  pub expires_in : ℕ
  pub refresh_token : String
  pub scope : String

-- The two random values of a pair.
pub record Pair : Type 0 where
  pub access_token : String
  pub refresh_token : String

abbrev pub verify_pkce : Host → String → String → Bool
verify_pkce host verifier expected = str_eq (host.sha256_base64url verifier) expected

-- `" ".join(scopes)`.
unfoldable pub join_scopes : List String → String
unfolding concat
join_scopes [] = ""
join_scopes (s ∷ []) = s
join_scopes (s ∷ t ∷ ss) = concat s (concat " " (join_scopes (t ∷ ss)))

abbrev pub token_row : Host → Moment → Pair → Grant → TokenRow
token_row host m pair g = record {
  token_hash = host.sha256_hex pair.access_token;
  client_id = g.client_id;
  tenant_id = g.tenant_id;
  user_id = g.user_id;
  user_email = g.user_email;
  resource = g.resource;
  scopes = g.scopes;
  expires_at = m.now + host.access_token_ttl_seconds * 1000000;
  is_revoked = false;
  refresh_token_hash = some (host.sha256_hex pair.refresh_token);
}

abbrev pub has_token : String → List TokenRow → Bool
has_token h rows = any (λ (r : TokenRow). str_eq r.token_hash h) rows

abbrev pub token_body : Host → Pair → Grant → TokenBody
token_body host pair g = record {
  access_token = pair.access_token;
  token_type = "Bearer";
  expires_in = host.access_token_ttl_seconds;
  refresh_token = pair.refresh_token;
  scope = join_scopes g.scopes;
}

-- The INSERT raises where the hash is there already, its primary key, or the client is not, its
-- foreign key; the refresh token is stored after it.
unfoldable pub issue_token_pair :
    Host → Moment → Pair → Grant → Server → Response TokenBody × Server
unfolding store_put join_scopes
issue_token_pair host m pair g s =
    if has_token (host.sha256_hex pair.access_token) s.access_tokens
      || not (has_client g.client_id s.clients)
    then (raised unique_violation, s)
    else (
      returned (token_body host pair g),
      record s {
        access_tokens = token_row host m pair g ∷ s.access_tokens;
        refresh_tokens =
            store_put m.now (host.sha256_hex pair.refresh_token) g host.refresh_token_ttl_seconds
              s.refresh_tokens;
      },
    )

-- `redirect_uri and payload["redirect_uri"] != redirect_uri`, for the text that is given, if any.
abbrev pub differs : Option String → String → Bool
differs none uri = false
differs (some u) uri = not (str_eq uri u)

abbrev pub code_grant : String → CodePayload → Grant
code_grant client_id p = record {
  client_id = client_id;
  tenant_id = p.tenant_id;
  user_id = p.user_id;
  user_email = p.user_email;
  resource = p.resource;
  scopes = p.scope ∷ [];
}

abbrev pub on_code :
    Host
    → Moment
    → Pair
    → String
    → String
    → Option String
    → Option CodePayload
    → Server
    → Response TokenBody × Server
on_code host m pair verifier client_id redirect_uri none s = (refused 400 "invalid_grant", s)
on_code host m pair verifier client_id redirect_uri (some p) s =
    if not (str_eq p.client_id client_id)
    then (refused 400 "invalid_grant", s)
    else if differs redirect_uri p.redirect_uri
    then (refused 400 "invalid_grant", s)
    else if not (verify_pkce host verifier p.code_challenge)
    then (refused 400 "invalid_grant", s)
    else issue_token_pair host m pair (code_grant client_id p) s

abbrev pub on_popped_code :
    Host
    → Moment
    → Pair
    → String
    → String
    → Option String
    → Option CodePayload × Store CodePayload
    → Server
    → Response TokenBody × Server
on_popped_code host m pair verifier client_id redirect_uri (p, codes) s =
    on_code host m pair verifier client_id redirect_uri p (record s { auth_codes = codes })

abbrev pub exchange :
    Host
    → Moment
    → Pair
    → Option String
    → Option String
    → Option String
    → Option String
    → Server
    → Response TokenBody × Server
exchange host m pair (some code) (some verifier) (some client_id) redirect_uri s =
    on_popped_code host m pair verifier client_id redirect_uri (store_pop m.now code s.auth_codes) s
exchange host m pair _ _ _ redirect_uri s = (refused 400 "invalid_request", s)

unfoldable pub token_authorization_code :
    Host → Moment → Pair → TokenForm → Server → Response TokenBody × Server
unfolding issue_token_pair store_pop
token_authorization_code host m pair f s =
    exchange host m pair (given f.code) (given f.code_verifier) (given f.client_id)
      (given f.redirect_uri) s

abbrev pub on_grant :
    Host → Moment → Pair → String → Option Grant → Server → Response TokenBody × Server
on_grant host m pair client_id none s = (refused 400 "invalid_grant", s)
on_grant host m pair client_id (some g) s =
    if str_eq g.client_id client_id
    then issue_token_pair host m pair (record g { client_id = client_id }) s
    else (refused 400 "invalid_grant", s)

abbrev pub on_popped_grant :
    Host
    → Moment
    → Pair
    → String
    → Option Grant × Store Grant
    → Server
    → Response TokenBody × Server
on_popped_grant host m pair client_id (g, tokens) s =
    on_grant host m pair client_id g (record s { refresh_tokens = tokens })

abbrev pub rotate :
    Host → Moment → Pair → Option String → Option String → Server → Response TokenBody × Server
rotate host m pair (some refresh_token) (some client_id) s =
    on_popped_grant host m pair client_id
      (store_pop m.now (host.sha256_hex refresh_token) s.refresh_tokens) s
rotate host m pair _ _ s = (refused 400 "invalid_request", s)

unfoldable pub token_refresh :
    Host → Moment → Pair → TokenForm → Server → Response TokenBody × Server
unfolding issue_token_pair store_pop
token_refresh host m pair f s = rotate host m pair (given f.refresh_token) (given f.client_id) s

abbrev pub on_grant_type :
    Host → Moment → Pair → Option String → TokenForm → Server → Response TokenBody × Server
on_grant_type host m pair none f s = (refused 400 "unsupported_grant_type", s)
on_grant_type host m pair (some t) f s =
    if str_eq t "authorization_code"
    then token_authorization_code host m pair f s
    else if str_eq t "refresh_token"
    then token_refresh host m pair f s
    else (refused 400 "unsupported_grant_type", s)

unfoldable pub token_endpoint :
    Host → Moment → Pair → TokenForm → Server → Response TokenBody × Server
unfolding token_authorization_code token_refresh
token_endpoint host m pair f s = on_grant_type host m pair f.grant_type f s
