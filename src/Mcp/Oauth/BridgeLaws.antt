-- ===== src/Mcp/Oauth/BridgeLaws.antt =====
-- The key of mcp_server/auth/bridge_verifier.py over its refreshes, and where
-- vargate_telemetry/api/mcp_bridge.py sends a browser.
use vargate_telemetry.Base.{
  concat, ℕ, zero, suc, ◌<◌, ◌≡◌, refl, Bool, true, ◌&&◌, some, List, [], ◌∷◌, map, ◌++◌, String,
  arith, if-elim, length,
}
use vargate_telemetry.Base.Result.{Result, ok, err, failure, Error}
use vargate_telemetry.Mcp.Oauth.Responses.{Response, returned, Redirect}
use vargate_telemetry.Mcp.Tokens.{rstrip_slash}
use vargate_telemetry.Mcp.Oauth.Server.{Host, Server, Claims}
use vargate_telemetry.Mcp.Oauth.Bridge.{
  Jwk, is_text, public_key_from_jwk, cache_key, set_jwk, attempt, retry, fetch_loop,
  fetch_and_cache_jwk, fetch_retries, Gateway, Session,
}

-- A key that the gateway may serve: an EC key on P-256 with coordinates that make a public key.
pub record IsUsable (host : Host) (jwk : Jwk) (key : String) : Type 0 where
  pub kty : jwk.kty ≡ some "EC"
  pub crv : jwk.crv ≡ some "P-256"
  pub x : String
  pub y : String
  pub has_x : jwk.x ≡ some x
  pub has_y : jwk.y ≡ some y
  pub makes : host.ec_public_key x y ≡ ok key

-- What a refresh does: the key is a new one and the refresh returned, or nothing changed.
abbrev Refreshed : Server → Result Bool × Server → Type 0
Refreshed s (ok done, s') = (key : String) × (s' ≡ record s { public_key = some key })
Refreshed s (err e, s') = s' ≡ s

cache_key-Refreshed : (s : Server) (r : Result String) → Refreshed s (cache_key s r)
cache_key-Refreshed s (ok key) = (key, refl)
cache_key-Refreshed s (err e) = refl

set_jwk-Refreshed : (host : Host) (jwk : Jwk) (s : Server) → Refreshed s (set_jwk host jwk s)
unfolding set_jwk
set_jwk-Refreshed host jwk s =
    if-elim (Refreshed s) (is_text jwk.kty "EC" && is_text jwk.crv "P-256") _ _
      (λ fits. cache_key-Refreshed s (public_key_from_jwk host jwk.x jwk.y)) (λ other. refl)

attempt-Refreshed : (host : Host) (a : Result Jwk) (s : Server) → Refreshed s (attempt host a s)
attempt-Refreshed host (ok jwk) s = set_jwk-Refreshed host jwk s
attempt-Refreshed host (err e) s = refl

retry-Refreshed :
    (s : Server) (x : Result Bool × Server) (again : Error → Server → Result Bool × Server)
    → Refreshed s x
    → ((e : Error) → Refreshed s (again e s))
    → Refreshed s (retry x again)
retry-Refreshed s (ok done, s') again h k = h
retry-Refreshed s (err e, s') again h k = rw h (k e)

fetch_loop-Refreshed :
    (host : Host) (n : ℕ) (last : Error) (answers : List (Result Jwk)) (s : Server)
    → Refreshed s (fetch_loop host n last answers s)
unfolding fetch_loop
fetch_loop-Refreshed host zero last answers s = refl
fetch_loop-Refreshed host (suc n) last [] s = fetch_loop-Refreshed host n failure [] s
fetch_loop-Refreshed host (suc n) last (a ∷ answers) s =
    retry-Refreshed s (attempt host a s) _ (attempt-Refreshed host a s)
      (λ e. fetch_loop-Refreshed host n e answers s)

-- Whatever the gateway answers to its attempts, a fetch that returns has cached a key and changed
-- nothing else, and one that raises has changed nothing.
pub fetch-Refreshed :
    (host : Host) (answers : List (Result Jwk)) (s : Server)
    → Refreshed s (fetch_and_cache_jwk host answers s)
unfolding fetch_and_cache_jwk
fetch-Refreshed host answers s = fetch_loop-Refreshed host fetch_retries failure answers s

set_jwk-usable :
    (host : Host) (jwk : Jwk) (key : String) (s : Server)
    → IsUsable host jwk key
    → set_jwk host jwk s ≡ (ok true, record s { public_key = some key })
unfolding set_jwk
set_jwk-usable host jwk key s h = rw (h.kty, h.crv, h.has_x, h.has_y, h.makes) refl

-- A fetch that is served a usable key after at most two attempts that got no answer caches it.
pub fetch_served :
    (host : Host) (failures : List Error) (jwk : Jwk) (key : String) (rest : List (Result Jwk))
    (s : Server)
    → length failures < fetch_retries
    → IsUsable host jwk key
    → fetch_and_cache_jwk host (map err failures ++ ok jwk ∷ rest) s
      ≡ (ok true, record s { public_key = some key })
unfolding fetch_and_cache_jwk
fetch_served host failures jwk key rest s few usable = served fetch_retries failure failures few
  where
    served :
        (n : ℕ) (last : Error) (failures : List Error)
        → length failures < n
        → fetch_loop host n last (map err failures ++ ok jwk ∷ rest) s
          ≡ (ok true, record s { public_key = some key })
    served zero last fs lt = absurd (omega (arith, lt))
    served (suc n) last [] lt = unfold fetch_loop in rw (set_jwk-usable host jwk key s usable) refl
    served (suc n) last (e ∷ fs) lt = unfold fetch_loop in served n e fs (omega (arith, lt))

-- The page that a session is sent to: without one the gateway's sign-in page, whose query comes back
-- to the bridge with the state and the return URL; without a tenant the page that selects a region; and
-- with a tenant the return URL itself, with the signed identity.
pub record IsSignIn (g : Gateway) (st return_url : String) (r : Redirect) : Type 0 where
  pub page : r.location ≡ concat (rstrip_slash g.ogma_origin) "/onboarding/sso"
  pub back : List (String × String)
  pub returns : r.params ≡ ("next_url", concat g.path (concat "?" (g.urlencode back))) ∷ []
  pub carries : back ≡ ("state", st) ∷ ("return", return_url) ∷ []

pub record IsSelection (g : Gateway) (r : Redirect) : Type 0 where
  pub page : r.location ≡ concat (rstrip_slash g.ogma_origin) "/onboarding/select-region"
  pub bare : r.params ≡ []

pub record IsReturn (g : Gateway) (st return_url tenant : String) (u : Session) (r : Redirect)
    : Type 0 where
  pub claims : Claims
  pub page : r.location ≡ return_url
  pub signed : r.params ≡ ("bridge_token", g.sign_bridge_token claims) ∷ []
  pub state : claims.mcp_state ≡ some st
  pub tenant_id : claims.tenant_id ≡ some tenant
  pub user_id : claims.user_id ≡ some u.sub
  pub user_email : claims.user_email ≡ some u.email

-- The bridge redirects to a page.
abbrev pub IsRedirect : (Redirect → Type 0) → Response Redirect → Type 0
IsRedirect page x = (r : Redirect) × (x ≡ returned r) × page r
