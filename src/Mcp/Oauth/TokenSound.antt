-- ===== src/Mcp/Oauth/TokenSound.antt =====
-- The token endpoint of mcp_server/auth/oauth_routes.py keeps the server sound.
use vargate_telemetry.Base.{ℕ, not, ◌||◌, Option, none, some, String, str_eq, if-elim}
use vargate_telemetry.Mcp.Oauth.Responses.{Response, given}
use vargate_telemetry.Mcp.Oauth.Stores.{store_pop}
use vargate_telemetry.Mcp.Oauth.Server.{CodePayload, Grant, Server, Host, Moment}
use vargate_telemetry.Mcp.Oauth.Authorize.{has_client}
use vargate_telemetry.Mcp.Oauth.Token.{
  TokenForm, TokenBody, Pair, verify_pkce, has_token, issue_token_pair, differs, code_grant,
  on_code, exchange, token_authorization_code, on_grant, rotate, token_refresh, on_grant_type,
}
use vargate_telemetry.Mcp.Oauth.Kept.{IfSome, store_put-Holds, store_pop-Holds}
use vargate_telemetry.Mcp.Oauth.Attested.{IsCoded, IsGranted, Sound}

module _ (host : Host) (Trusted : String → Type 0) (Sent : ℕ → String → Type 0) where
  abbrev After {ℓ} : {A : Type ℓ} → Response A × Server → Type 0
  After x = Sound host Trusted Sent x.1

  issue-Sound :
      (m : Moment) (pair : Pair) (g : Grant) (s : Server)
      → IsGranted host Trusted Sent g
      → Sound host Trusted Sent s
      → After (issue_token_pair host m pair g s)
  unfolding issue_token_pair
  issue-Sound m pair g s k h =
      if-elim (λ (x : Response TokenBody × Server). Sound host Trusted Sent x.1)
        (has_token (host.sha256_hex pair.access_token) s.access_tokens
          || not (has_client g.client_id s.clients))
        _ _ (λ clash. h)
        (λ free. record {
          states = h.states;
          codes = h.codes;
          refresh_tokens =
              store_put-Holds (IsGranted host Trusted Sent) m.now host.refresh_token_ttl_seconds
                (host.sha256_hex pair.refresh_token) g s.refresh_tokens k h.refresh_tokens;
          access_tokens = (k, h.access_tokens);
          keys = h.keys;
        })

  on_code-Sound :
      (m : Moment) (pair : Pair) (verifier client_id : String) (redirect_uri : Option String)
      (o : Option CodePayload) (s : Server)
      → IfSome (IsCoded host Trusted Sent s.clients) o
      → Sound host Trusted Sent s
      → After (on_code host m pair verifier client_id redirect_uri o s)
  on_code-Sound m pair verifier client_id redirect_uri none s k h = h
  on_code-Sound m pair verifier client_id redirect_uri (some p) s k h =
      let Fine = λ (x : Response TokenBody × Server). Sound host Trusted Sent x.1 in
      if-elim Fine (not (str_eq p.client_id client_id)) _ _ (λ other. h)
        (λ same.
          if-elim Fine (differs redirect_uri p.redirect_uri) _ _ (λ other. h)
            (λ same_uri.
              if-elim Fine (not (verify_pkce host verifier p.code_challenge)) _ _ (λ wrong. h)
                (λ right. issue-Sound m pair (code_grant client_id p) s k.attested h)))

  exchange-Sound :
      (m : Moment) (pair : Pair) (code verifier client_id redirect_uri : Option String) (s : Server)
      → Sound host Trusted Sent s
      → After (exchange host m pair code verifier client_id redirect_uri s)
  exchange-Sound m pair none v i r s h = h
  exchange-Sound m pair (some c) none i r s h = h
  exchange-Sound m pair (some c) (some v) none r s h = h
  exchange-Sound m pair (some c) (some v) (some i) r s h =
      let x = store_pop m.now c s.auth_codes in
      let k = store_pop-Holds (IsCoded host Trusted Sent s.clients) m.now c s.auth_codes h.codes in
      on_code-Sound m pair v i r x.0 (record s { auth_codes = x.1 }) k.0
        (record {
          states = h.states;
          codes = k.1;
          refresh_tokens = h.refresh_tokens;
          access_tokens = h.access_tokens;
          keys = h.keys;
        })

  on_grant-Sound :
      (m : Moment) (pair : Pair) (client_id : String) (o : Option Grant) (s : Server)
      → IfSome (IsGranted host Trusted Sent) o
      → Sound host Trusted Sent s
      → After (on_grant host m pair client_id o s)
  on_grant-Sound m pair client_id none s k h = h
  on_grant-Sound m pair client_id (some g) s k h =
      if-elim (λ (x : Response TokenBody × Server). Sound host Trusted Sent x.1)
        (str_eq g.client_id client_id) _ _
        (λ same. issue-Sound m pair (record g { client_id = client_id }) s k h) (λ other. h)

  rotate-Sound :
      (m : Moment) (pair : Pair) (refresh_token client_id : Option String) (s : Server)
      → Sound host Trusted Sent s
      → After (rotate host m pair refresh_token client_id s)
  rotate-Sound m pair none i s h = h
  rotate-Sound m pair (some t) none s h = h
  rotate-Sound m pair (some t) (some i) s h =
      let x = store_pop m.now (host.sha256_hex t) s.refresh_tokens in
      let k =
        store_pop-Holds (IsGranted host Trusted Sent) m.now (host.sha256_hex t) s.refresh_tokens
          h.refresh_tokens in
      on_grant-Sound m pair i x.0 (record s { refresh_tokens = x.1 }) k.0
        (record {
          states = h.states;
          codes = h.codes;
          refresh_tokens = k.1;
          access_tokens = h.access_tokens;
          keys = h.keys;
        })

  pub token-Sound :
      (m : Moment) (pair : Pair) (t : Option String) (f : TokenForm) (s : Server)
      → Sound host Trusted Sent s
      → After (on_grant_type host m pair t f s)
  unfolding token_authorization_code token_refresh
  token-Sound m pair none f s h = h
  token-Sound m pair (some t) f s h =
      let Fine = λ (x : Response TokenBody × Server). Sound host Trusted Sent x.1 in
      if-elim Fine (str_eq t "authorization_code") _ _
        (λ code.
          exchange-Sound m pair (given f.code) (given f.code_verifier) (given f.client_id)
            (given f.redirect_uri) s h)
        (λ other.
          if-elim Fine (str_eq t "refresh_token") _ _
            (λ refresh. rotate-Sound m pair (given f.refresh_token) (given f.client_id) s h)
            (λ none_of_them. h))
