-- ===== src/Mcp.antt =====
-- The MCP server: mcp_server/auth/token_verifier.py and mcp_server/auth/oauth_state.py.
pub mod Tokens
pub mod Identity
pub mod Cache
pub mod Verified
pub mod Bounds
pub mod Examples
pub mod States
pub mod StateExamples
pub mod Oauth
pub mod OauthExamples
