-- ===== src/Mcp/Oauth/Flow.antt =====
-- From the authorization request to the identity that a tool reads: mcp_server/auth/oauth_routes.py,
-- the bridge of vargate_telemetry/api/mcp_bridge.py and mcp_server/auth/token_verifier.py, together.
use vargate_telemetry.Base.{
  ℕ, ◌+◌, ◌*◌, ◌<◌, ◌≡◌, ◌≢◌, refl, true, false, some, List, [], ◌∷◌, String, eq_iff, ltb, lt→ltb,
  not-empty,
}
use vargate_telemetry.Mcp.Tokens.{
  complete, TokenRow, rstrip_slash, verify_token, access_token, admit, look_up_row, find_row,
  cache_get, lookup,
}
use vargate_telemetry.Mcp.States.{store, remove, state_ttl_seconds}
use vargate_telemetry.Mcp.Oauth.Responses.{Response, returned}
use vargate_telemetry.Mcp.Oauth.Stores.{store_put}
use vargate_telemetry.Mcp.Oauth.Config.{
  spike_mode_enabled, resource_indicator, ogma_bridge_url, authorize_callback_url,
}
use vargate_telemetry.Mcp.Oauth.Server.{Grant, Server, Host, Moment}
use vargate_telemetry.Mcp.Oauth.Bridge.{Gateway, Session, is_listed, bridge_claims, mcp_bridge}
use vargate_telemetry.Mcp.Oauth.Authorize.{AuthorizeQuery, validate, pending, authorize, has_client}
use vargate_telemetry.Mcp.Oauth.Token.{
  TokenBody, Pair, token_row, token_body, has_token, issue_token_pair,
}

-- The state is kept under the random value that the redirect carries.
abbrev pub parked : Host → Moment → String → AuthorizeQuery → String → Server → Server
parked host m st q challenge s = record s {
  states =
      (
        st,
        record { payload = pending host q challenge; expires_at = m.redis_now + state_ttl_seconds },
      )
      ∷ remove st s.states;
}

pub authorize-parked :
    (host : Host) (m : Moment) (st challenge : String) (q : AuthorizeQuery) (s : Server)
    → spike_mode_enabled host.env ≡ false
    → st ≢ ""
    → validate q s.clients ≡ returned challenge
    → authorize host m st q s ≡ (
      returned (record {
        location = ogma_bridge_url host.env;
        params = ("state", st) ∷ ("return", authorize_callback_url host.env) ∷ [];
      }),
      parked host m st q challenge s,
    )
unfolding authorize store
authorize-parked host m st challenge q s off full h = rw (h, off, not-empty st full) refl

-- The bridge signs the user's identity and the state.
pub bridge-signed :
    (g : Gateway) (u : Session) (st return_url tenant : String)
    → is_listed return_url g.allowed_returns ≡ true
    → u.tenant_id ≡ some tenant
    → mcp_bridge g (some u) st return_url
      ≡ returned (record {
        location = return_url;
        params = ("bridge_token", g.sign_bridge_token (bridge_claims tenant u.sub u.email st)) ∷ [];
      })
unfolding mcp_bridge
bridge-signed g u st return_url tenant listed t = rw (listed, t) refl

pub complete-given :
    (t u e : String)
    → t ≢ ""
    → u ≢ ""
    → e ≢ ""
    → complete (some t) (some u) (some e)
      ≡ some (record { tenant_id = t; user_id = u; user_email = e })
complete-given t u e p q r = rw (not-empty t p, not-empty u q, not-empty e r) refl

-- A pair for a free hash and a known client is issued.
abbrev pub issued : Host → Moment → Pair → Grant → Server → Response TokenBody × Server
issued host m pair g s = (
  returned (token_body host pair g),
  record s {
    access_tokens = token_row host m pair g ∷ s.access_tokens;
    refresh_tokens =
        store_put m.now (host.sha256_hex pair.refresh_token) g host.refresh_token_ttl_seconds
          s.refresh_tokens;
  },
)

pub issue-issued :
    (host : Host) (m : Moment) (pair : Pair) (g : Grant) (s : Server)
    → has_token (host.sha256_hex pair.access_token) s.access_tokens ≡ false
    → has_client g.client_id s.clients ≡ true
    → issue_token_pair host m pair g s ≡ issued host m pair g s
unfolding issue_token_pair
issue-issued host m pair g s free known = rw (free, known) refl

-- A row that was just inserted is found by its hash.
pub verify-issued :
    (host : Host) (m : Moment) (pair : Pair) (g : Grant) (rows : List TokenRow) (now : ℕ)
    → pair.access_token ≢ ""
    → now < m.now + host.access_token_ttl_seconds * 1000000
    → rstrip_slash g.resource ≡ rstrip_slash (resource_indicator host.env)
    → (verify_token host.sha256_hex
        (resource_indicator host.env)
        now
        (some (token_row host m pair g ∷ rows))
        pair.access_token
        []).0
      ≡ some (access_token pair.access_token (token_row host m pair g))
unfolding verify_token look_up_row find_row admit cache_get lookup
verify-issued host m pair g rows now full early audience =
    let h = host.sha256_hex pair.access_token in
    let live : ltb now (m.now + host.access_token_ttl_seconds * 1000000) ≡ true =
      lt→ltb _ _ early in
    rw (not-empty pair.access_token full, (eq_iff h h).1 refl, live, (eq_iff _ _).1 audience) refl
