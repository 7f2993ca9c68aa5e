-- ===== src/Mcp/Oauth.antt =====
-- The authorization server: mcp_server/auth/oauth_routes.py, bridge_verifier.py and the settings of
-- mcp_server/config.py, with the gateway's end of the bridge, vargate_telemetry/api/mcp_bridge.py.
pub mod Responses
pub mod Stores
pub mod Config
pub mod Server
pub mod Bridge
pub mod Authorize
pub mod Token
pub mod Kept
pub mod Requests
pub mod Attested
pub mod Validated
pub mod AuthorizeSound
pub mod TokenSound
pub mod Soundness
pub mod Exchanged
pub mod Spent
pub mod Once
pub mod Flow
pub mod EndToEnd
pub mod BridgeLaws
