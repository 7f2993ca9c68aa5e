-- ===== src/Mcp/StateExamples.antt =====
-- One state that is stored and claimed.
use vargate_telemetry.Base.{◌≡◌, ◌≢◌, refl, none, some, [], ◌∷◌, String, arith, eq_iff}
use vargate_telemetry.Base.Result.{ok}
use vargate_telemetry.Mcp.States.{OauthState, Redis, store, claim, claim-store}

abbrev payload : OauthState
payload = record {
  client_id = "c";
  redirect_uri = "https://claude.example/cb";
  code_challenge = "x";
  code_challenge_method = "S256";
  scope = "log_interaction";
  resource = "https://mcp.example";
  claude_state = none;
}

abbrev holding : Redis
holding = ("s1", record { payload = payload; expires_at = 1600 }) ∷ []

stored : store 1000 "s1" payload [] ≡ ok holding
unfolding store
stored = refl

states-apart : ◌≢◌ {A = String} "s1" "s2"
states-apart p = ground (arith, (eq_iff "s1" "s2").1 p)

claim-store_example :
    ((claim 1599 "s1" holding).0 ≡ some payload)
    × ((claim 1599 "s1" (claim 1599 "s1" holding).1).0 ≡ none)
claim-store_example = claim-store 1000 1599 1599 "s1" payload [] holding stored (omega arith)
