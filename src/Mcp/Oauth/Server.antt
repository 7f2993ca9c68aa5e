-- ===== src/Mcp/Oauth/Server.antt =====
-- The state of the authorization server: the tables `mcp_oauth_clients` and `mcp_access_tokens`, the
-- in-memory stores of mcp_server/auth/oauth_routes.py, the namespace of oauth_state.py in Redis, and
-- the public key that bridge_verifier.py caches.
use vargate_telemetry.Base.{ℕ, Bool, Option, List, String}
use vargate_telemetry.Base.Result.{Result}
use vargate_telemetry.Mcp.Tokens.{TokenRow}
use vargate_telemetry.Mcp.States.{Redis}
use vargate_telemetry.Mcp.Oauth.Stores.{Store}
use vargate_telemetry.Mcp.Oauth.Config.{Environ}

-- A row of `mcp_oauth_clients`.
pub record Client : Type 0 where
  pub client_id : String
  pub client_secret_hash : String
  pub client_name : String
  pub redirect_uris : List String
  pub grant_types : List String
  pub response_types : List String
  pub token_endpoint_auth_method : Option String
  pub is_deleted : Bool

-- The payload of an auth code.
pub record CodePayload : Type 0 where
  pub client_id : String
  pub redirect_uri : String
  pub code_challenge : String
  pub code_challenge_method : String
  pub tenant_id : String
  pub user_id : String
  pub user_email : String
  pub resource : String
  pub scope : String

-- The payload of a refresh token, which is what a token pair is issued for.
pub record Grant : Type 0 where
  pub client_id : String
  pub tenant_id : String
  pub user_id : String
  pub user_email : String
  pub resource : String
  pub scopes : List String

pub record Server : Type 0 where
  pub clients : List Client
  pub auth_codes : Store CodePayload
  pub refresh_tokens : Store Grant
  pub states : Redis
  pub access_tokens : List TokenRow
  pub public_key : Option String

-- The four claims that the callback reads, absent where they are missing or no text.
pub record Claims : Type 0 where
  pub mcp_state : Option String
  pub tenant_id : Option String
  pub user_id : Option String
  pub user_email : Option String

-- What the server takes from outside: its environment, the two lifetimes, SHA-256 as hexadecimal and
-- as base64url text, an EC public key from its coordinates, and the decoding of a bridge JWT at a
-- time under a key, for the algorithm, audience and issuer of the bridge.
pub record Host : Type 0 where
  pub env : Environ
  pub access_token_ttl_seconds : ℕ
  pub refresh_token_ttl_seconds : ℕ
  pub sha256_hex : String → String
  pub sha256_base64url : String → String
  pub ec_public_key : String → String → Result String
  pub jwt_decode : ℕ → String → String → Option Claims

-- The clocks of the process, in microseconds, and of Redis, in seconds.
pub record Moment : Type 0 where
  pub now : ℕ
  pub redis_now : ℕ
