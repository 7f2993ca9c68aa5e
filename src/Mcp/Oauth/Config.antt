-- ===== src/Mcp/Oauth/Config.antt =====
-- mcp_server/config.py: the settings that the authorization server reads from its environment.
use vargate_telemetry.Base.{
  concat, ◌≡◌, Bool, true, false, ◌||◌, Option, none, some, List, [], ◌∷◌, String, lower_eq,
  if◌then◌else◌, Bool-cases, inl, inr,
}
use vargate_telemetry.Base.Result.{Result, ok, err, failure, err-ok}
use vargate_telemetry.Mcp.Tokens.{McpIdentity, complete, rstrip_slash}
use vargate_telemetry.Mcp.Oauth.Responses.{or_default}

abbrev pub Environ : Type 0
Environ = String → Option String

-- `os.environ.get(name, default)`.
abbrev pub or_else : Option String → String → String
or_else none d = d
or_else (some s) d = s

unfoldable pub server_url : Environ → String
server_url env = or_else (env "MCP_SERVER_URL") "http://localhost:8001"

unfoldable pub ogma_bridge_url : Environ → String
ogma_bridge_url env = or_else (env "OGMA_BRIDGE_URL") "https://ogma.vargate.ai/auth/mcp-bridge"

unfoldable pub authorize_callback_url : Environ → String
unfolding server_url concat rstrip_slash
authorize_callback_url env =
    or_default (env "MCP_AUTHORIZE_CALLBACK_URL")
      (concat (rstrip_slash (server_url env)) "/authorize/callback")

unfoldable pub resource_indicator : Environ → String
unfolding server_url
resource_indicator env = server_url env

abbrev pub is_on : String → Bool
is_on s = lower_eq s "1" || (lower_eq s "true" || (lower_eq s "yes" || lower_eq s "on"))

unfoldable pub spike_mode_enabled : Environ → Bool
spike_mode_enabled env = is_on (or_else (env "MCP_SPIKE_MODE") "")

unfoldable pub test_bypass_enabled : Environ → Bool
test_bypass_enabled env = is_on (or_else (env "MCP_ALLOW_SPIKE_MODE_FOR_TESTING") "")

-- The call at start-up; a server whose call raises does not come up.
unfoldable pub assert_spike_mode_safe : Environ → Result Bool
unfolding spike_mode_enabled test_bypass_enabled
assert_spike_mode_safe env =
    if spike_mode_enabled env
    then (if test_bypass_enabled env then ok true else err failure)
    else ok true

unfoldable pub test_identity : Environ → Option McpIdentity
test_identity env =
    complete (env "MCP_TEST_IDENTITY_TENANT_ID") (env "MCP_TEST_IDENTITY_USER_ID")
      (env "MCP_TEST_IDENTITY_USER_EMAIL")

abbrev pub allowed_redirect_uri_prefixes : List String
allowed_redirect_uri_prefixes =
    "https://claude.ai/api/mcp/auth_callback" ∷ "https://claude.com/api/mcp/auth_callback"
    ∷ "http://localhost:6274/oauth/callback" ∷ "http://localhost:6274/oauth/callback/debug" ∷ []

-- A server that came up without the test bypass is not in spike mode.
pub booted-not-spike :
    (env : Environ)
    → assert_spike_mode_safe env ≡ ok true
    → test_bypass_enabled env ≡ false
    → spike_mode_enabled env ≡ false
unfolding assert_spike_mode_safe
booted-not-spike env up tests = elim (Bool-cases (spike_mode_enabled env)) [
  | inl on ↦ elim (err-ok failure true (rw (on, tests) at up)) [ ]
  | inr off ↦ off
]
