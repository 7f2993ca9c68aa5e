-- ===== src/Mcp/Oauth/Requests.antt =====
-- The requests that change the authorization server's state, one after the other.
use vargate_telemetry.Base.{none, List, [], ◌∷◌, String}
use vargate_telemetry.Mcp.Oauth.Server.{Server, Host, Moment}
use vargate_telemetry.Mcp.Oauth.Bridge.{Jwk, set_jwk}
use vargate_telemetry.Mcp.Oauth.Authorize.{
  Registration, AuthorizeQuery, register_client, authorize, authorize_callback,
}
use vargate_telemetry.Mcp.Oauth.Token.{TokenForm, Pair, token_endpoint}

-- A request with the random values that its handler draws.
pub data Request : Type 0 where
  registers : String → String → Registration → Request
  authorizes : String → AuthorizeQuery → Request
  calls_back : String → String → Request
  exchanges : Pair → TokenForm → Request
  refreshes_key : Jwk → Request

unfoldable pub step : Host → Moment → Request → Server → Server
unfolding register_client authorize authorize_callback token_endpoint set_jwk
step host m (registers client_id secret body) s = (register_client host client_id secret body s).1
step host m (authorizes token q) s = (authorize host m token q s).1
step host m (calls_back code bridge_token) s = (authorize_callback host m code bridge_token s).1
step host m (exchanges pair f) s = (token_endpoint host m pair f s).1
step host m (refreshes_key jwk) s = (set_jwk host jwk s).1

unfoldable pub run : Host → List (Moment × Request) → Server → Server
unfolding step
run host [] s = s
run host ((m, r) ∷ requests) s = run host requests (step host m r s)

-- A server that has just come up.
abbrev pub new_server : Server
new_server = record {
  clients = [];
  auth_codes = [];
  refresh_tokens = [];
  states = [];
  access_tokens = [];
  public_key = none;
}
