-- ===== src/Mcp/Oauth/Soundness.antt =====
-- The authorization server of mcp_server/auth/oauth_routes.py is sound over any requests.
use vargate_telemetry.Base.{
  ℕ, All, subst, ◌≡◌, refl, Bool, false, List, [], ◌∷◌, String, if-elim, ◌&&◌,
}
use vargate_telemetry.Base.Result.{Result, ok, err}
use vargate_telemetry.Mcp.Oauth.Config.{spike_mode_enabled}
use vargate_telemetry.Mcp.Oauth.Server.{Server, Host, Moment}
use vargate_telemetry.Mcp.Oauth.Bridge.{is_text, public_key_from_jwk, cache_key, set_jwk}
use vargate_telemetry.Mcp.Oauth.Authorize.{validate, authorize, authorize_callback}
use vargate_telemetry.Mcp.Oauth.Token.{token_endpoint}
use vargate_telemetry.Mcp.Oauth.Requests.{
  Request, registers, authorizes, calls_back, exchanges, refreshes_key, step, run, new_server,
}
use vargate_telemetry.Mcp.Oauth.Attested.{Sound}
use vargate_telemetry.Mcp.Oauth.Validated.{validate-Passed}
use vargate_telemetry.Mcp.Oauth.AuthorizeSound.{register-Sound, on_challenge-Sound, on_key-Sound}
use vargate_telemetry.Mcp.Oauth.TokenSound.{token-Sound}

module _ (host : Host) (Trusted : String → Type 0) (Sent : ℕ → String → Type 0) where
  cache_key-Sound :
      (s : Server) (r : Result String)
      → ((key : String) → r ≡ ok key → Trusted key)
      → Sound host Trusted Sent s
      → Sound host Trusted Sent (cache_key s r).1
  cache_key-Sound s (ok key) kt h = record {
    states = h.states;
    codes = h.codes;
    refresh_tokens = h.refresh_tokens;
    access_tokens = h.access_tokens;
    keys = λ k e. let same : key ≡ k = cc in subst Trusted same (kt key refl);
  }
  cache_key-Sound s (err e) kt h = h

  -- The key that a refresh would cache is a trusted one, and the token of a callback is a sent one.
  abbrev pub IsKnown : Moment × Request → Type 0
  IsKnown (m, calls_back code bridge_token) = Sent m.now bridge_token
  IsKnown (m, refreshes_key jwk) =
      (key : String) → public_key_from_jwk host jwk.x jwk.y ≡ ok key → Trusted key
  IsKnown (m, _) = Unit

  step-Sound :
      (m : Moment) (r : Request) (s : Server)
      → spike_mode_enabled host.env ≡ false
      → IsKnown (m, r)
      → Sound host Trusted Sent s
      → Sound host Trusted Sent (step host m r s)
  unfolding step authorize authorize_callback token_endpoint set_jwk
  step-Sound m (registers id secret body) s off known h =
      register-Sound host Trusted Sent id secret body s h
  step-Sound m (authorizes token q) s off known h =
      on_challenge-Sound host Trusted Sent m token q (validate q s.clients) s off
        (validate-Passed q s.clients) h
  step-Sound m (calls_back code bridge_token) s off known h =
      on_key-Sound host Trusted Sent m code bridge_token s.public_key s h.keys known h
  step-Sound m (exchanges pair f) s off known h =
      token-Sound host Trusted Sent m pair f.grant_type f s h
  step-Sound m (refreshes_key jwk) s off known h =
      if-elim (λ (x : Result Bool × Server). Sound host Trusted Sent x.1)
        (is_text jwk.kty "EC" && is_text jwk.crv "P-256") _ _
        (λ fits. cache_key-Sound s (public_key_from_jwk host jwk.x jwk.y) known h) (λ other. h)

  -- Whatever is known of all keys that are cached and of all bridge tokens that callbacks bring: after
  -- any requests, one after the other, to a sound server that is not in spike mode it is sound. Every
  -- pending state and every auth code has a challenge by S256 and an allowed redirect URI that is
  -- registered for its client; and every code, refresh token and access token has an identity, with no
  -- part empty, to which the bridge token of a callback decoded, at the time of that callback and under
  -- a key that was cached.
  pub run-Sound :
      (requests : List (Moment × Request)) (s : Server)
      → spike_mode_enabled host.env ≡ false
      → All IsKnown requests
      → Sound host Trusted Sent s
      → Sound host Trusted Sent (run host requests s)
  unfolding run
  run-Sound [] s off known h = h
  run-Sound ((m, r) ∷ requests) s off known h =
      run-Sound requests (step host m r s) off known.1 (step-Sound m r s off known.0 h)

  pub new_server-Sound : Sound host Trusted Sent new_server
  new_server-Sound = record {
    states = tt;
    codes = tt;
    refresh_tokens = tt;
    access_tokens = tt;
    keys = λ k e. cc;
  }
