-- ===== src/Mcp/Oauth/EndToEnd.antt =====
-- A whole authorization: mcp_server/auth/oauth_routes.py, the bridge of
-- vargate_telemetry/api/mcp_bridge.py and mcp_server/auth/token_verifier.py.
use vargate_telemetry.Base.{Option, none, some, String}
use vargate_telemetry.Mcp.Tokens.{McpIdentity, identity_from_access_token, AccessToken}
use vargate_telemetry.Mcp.Oauth.Server.{CodePayload, Server, Host}
use vargate_telemetry.Mcp.Oauth.Bridge.{Session}
use vargate_telemetry.Mcp.Oauth.Authorize.{AuthorizeQuery, pending, code_payload}
use vargate_telemetry.Mcp.Oauth.Token.{TokenForm}

abbrev pub code_form : String → String → String → String → TokenForm
code_form code verifier client_id redirect_uri = record {
  grant_type = some "authorization_code";
  code = some code;
  code_verifier = some verifier;
  client_id = some client_id;
  redirect_uri = some redirect_uri;
  refresh_token = none;
}

abbrev pub identity_of : Option AccessToken → Option McpIdentity
identity_of none = none
identity_of (some a) = identity_from_access_token a

-- The code's payload, for a request that was checked and a user of a tenant.
abbrev pub payload_for : Host → AuthorizeQuery → String → String → Session → CodePayload
payload_for host q challenge tenant u =
    code_payload (pending host q challenge)
      (record { tenant_id = tenant; user_id = u.sub; user_email = u.email })
