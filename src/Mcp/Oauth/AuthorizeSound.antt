-- ===== src/Mcp/Oauth/AuthorizeSound.antt =====
-- The registration, the authorization and its callback, of mcp_server/auth/oauth_routes.py, keep the
-- server sound.
use vargate_telemetry.Base.{
  ℕ, ◌≡◌, refl, false, Option, none, some, List, ◌∷◌, String, inr, if-elim,
}
use vargate_telemetry.Base.Result.{Result, ok, err}
use vargate_telemetry.Mcp.Tokens.{McpIdentity, complete}
use vargate_telemetry.Mcp.States.{OauthState, Redis, store, claim}
use vargate_telemetry.Mcp.Oauth.Responses.{Response, returned, refused, raised, given}
use vargate_telemetry.Mcp.Oauth.Config.{spike_mode_enabled}
use vargate_telemetry.Mcp.Oauth.Server.{Client, CodePayload, Server, Claims, Host, Moment}
use vargate_telemetry.Mcp.Oauth.Authorize.{
  Registration, Registered, client_row, has_client, all_allowed, register_client, AuthorizeQuery,
  mint_code_and_redirect, pending, code_payload, to_bridge, on_challenge, on_identity, on_payload,
  on_state, on_claims, on_key, auth_code_ttl_seconds,
}
use vargate_telemetry.Mcp.Oauth.Kept.{
  IfSome, store_put-Holds, Holds-map, IfStored, store-HoldsState, claim-HoldsState, HoldsState-map,
}
use vargate_telemetry.Mcp.Oauth.Attested.{
  IsAttested, IsPending, IsCoded, Sound, complete-IsAttested,
}
use vargate_telemetry.Mcp.Oauth.Validated.{Passed}

module _ (host : Host) (Trusted : String → Type 0) (Sent : ℕ → String → Type 0) where
  -- A new client row keeps what stands on the rows before it.
  IsPending-client :
      (c : Client) (rows : List Client) (p : OauthState)
      → IsPending host Trusted Sent rows p
      → IsPending host Trusted Sent (c ∷ rows) p
  IsPending-client c rows p h = record {
    registered = inr h.registered;
    allowed = h.allowed;
    challenged = h.challenged;
    method = h.method;
  }

  IsCoded-client :
      (c : Client) (rows : List Client) (p : CodePayload)
      → IsCoded host Trusted Sent rows p
      → IsCoded host Trusted Sent (c ∷ rows) p
  IsCoded-client c rows p h = record {
    registered = inr h.registered;
    allowed = h.allowed;
    challenged = h.challenged;
    method = h.method;
    attested = h.attested;
  }

  abbrev After {ℓ} : {A : Type ℓ} → Response A × Server → Type 0
  After x = Sound host Trusted Sent x.1

  pub register-Sound :
      (id secret : String) (body : Registration) (s : Server)
      → Sound host Trusted Sent s
      → After (register_client host id secret body s)
  unfolding register_client
  register-Sound id secret body s h =
      if-elim (λ (x : Response Registered × Server). Sound host Trusted Sent x.1)
        (all_allowed body.redirect_uris) _ _
        (λ allowed.
          let row = client_row host id secret body in
          if-elim (λ (x : Response Registered × Server). Sound host Trusted Sent x.1)
            (has_client id s.clients) _ _ (λ taken. h)
            (λ free. record {
              states =
                  HoldsState-map (IsPending host Trusted Sent s.clients)
                    (IsPending host Trusted Sent (row ∷ s.clients)) (IsPending-client row s.clients)
                    s.states h.states;
              codes =
                  Holds-map (IsCoded host Trusted Sent s.clients)
                    (IsCoded host Trusted Sent (row ∷ s.clients)) (IsCoded-client row s.clients)
                    s.auth_codes h.codes;
              refresh_tokens = h.refresh_tokens;
              access_tokens = h.access_tokens;
              keys = h.keys;
            }))
        (λ refused. h)

  to_bridge-Sound :
      (token : String) (r : Result Redis) (s : Server)
      → IfStored (IsPending host Trusted Sent s.clients) r
      → Sound host Trusted Sent s
      → After (to_bridge host token r s)
  to_bridge-Sound token (err e) s k h = h
  to_bridge-Sound token (ok states) s k h = record {
    states = k;
    codes = h.codes;
    refresh_tokens = h.refresh_tokens;
    access_tokens = h.access_tokens;
    keys = h.keys;
  }

  pub on_challenge-Sound :
      (m : Moment) (token : String) (q : AuthorizeQuery) (r : Response String) (s : Server)
      → spike_mode_enabled host.env ≡ false
      → ((challenge : String) → r ≡ returned challenge → Passed q s.clients challenge)
      → Sound host Trusted Sent s
      → After (on_challenge host m token q r s)
  on_challenge-Sound m token q (refused code error) s off passed h = h
  on_challenge-Sound m token q (raised e) s off passed h = h
  on_challenge-Sound m token q (returned challenge) s off passed h =
      let ok_ = passed challenge refl in
      let p = pending host q challenge in
      let kept : IsPending host Trusted Sent s.clients p = record {
        registered = ok_.registered;
        allowed = ok_.allowed;
        challenged = ok_.not_empty;
        method = refl;
      } in
      rw off (
        to_bridge-Sound token (store m.redis_now token p s.states) s
          (store-HoldsState (IsPending host Trusted Sent s.clients) m.redis_now token p s.states
            kept h.states)
          h)

  on_identity-Sound :
      (m : Moment) (code : String) (p : OauthState) (o : Option McpIdentity) (s : Server)
      → IsPending host Trusted Sent s.clients p
      → ((i : McpIdentity)
          → o ≡ some i
          → IsAttested host Trusted Sent i.tenant_id i.user_id i.user_email)
      → Sound host Trusted Sent s
      → After (on_identity m code p o s)
  unfolding mint_code_and_redirect
  on_identity-Sound m code p none s k attested h = h
  on_identity-Sound m code p (some i) s k attested h = record {
    states = h.states;
    refresh_tokens = h.refresh_tokens;
    access_tokens = h.access_tokens;
    keys = h.keys;
    codes =
        store_put-Holds (IsCoded host Trusted Sent s.clients) m.now auth_code_ttl_seconds code
          (code_payload p i) s.auth_codes
          (record {
            registered = k.registered;
            allowed = k.allowed;
            challenged = k.challenged;
            method = k.method;
            attested = attested i refl;
          })
          h.codes;
  }

  on_payload-Sound :
      (m : Moment) (code key bridge_token : String) (c : Claims) (o : Option OauthState)
      (s : Server)
      → Trusted key
      → Sent m.now bridge_token
      → host.jwt_decode m.now key bridge_token ≡ some c
      → IfSome (IsPending host Trusted Sent s.clients) o
      → Sound host Trusted Sent s
      → After (on_payload m code c o s)
  on_payload-Sound m code key bridge_token c none s kt st d k h = h
  on_payload-Sound m code key bridge_token c (some p) s kt st d k h =
      on_identity-Sound m code p (complete c.tenant_id c.user_id c.user_email) s k
        (λ i. complete-IsAttested host Trusted Sent m.now key bridge_token c i kt st d) h

  on_state-Sound :
      (m : Moment) (code key bridge_token : String) (c : Claims) (o : Option String) (s : Server)
      → Trusted key
      → Sent m.now bridge_token
      → host.jwt_decode m.now key bridge_token ≡ some c
      → Sound host Trusted Sent s
      → After (on_state m code c o s)
  on_state-Sound m code key bridge_token c none s kt st d h = h
  on_state-Sound m code key bridge_token c (some mcp_state) s kt st d h =
      let x = claim m.redis_now mcp_state s.states in
      let k =
        claim-HoldsState (IsPending host Trusted Sent s.clients) m.redis_now mcp_state s.states
          h.states in
      on_payload-Sound m code key bridge_token c x.0 (record s { states = x.1 }) kt st d k.0
        (record {
          states = k.1;
          codes = h.codes;
          refresh_tokens = h.refresh_tokens;
          access_tokens = h.access_tokens;
          keys = h.keys;
        })

  on_claims-Sound :
      (m : Moment) (code key bridge_token : String) (o : Option Claims) (s : Server)
      → Trusted key
      → Sent m.now bridge_token
      → host.jwt_decode m.now key bridge_token ≡ o
      → Sound host Trusted Sent s
      → After (on_claims m code o s)
  on_claims-Sound m code key bridge_token none s kt st d h = h
  on_claims-Sound m code key bridge_token (some c) s kt st d h =
      on_state-Sound m code key bridge_token c (given c.mcp_state) s kt st d h

  pub on_key-Sound :
      (m : Moment) (code bridge_token : String) (o : Option String) (s : Server)
      → ((key : String) → o ≡ some key → Trusted key)
      → Sent m.now bridge_token
      → Sound host Trusted Sent s
      → After (on_key host m code bridge_token o s)
  on_key-Sound m code bridge_token none s kt st h = h
  on_key-Sound m code bridge_token (some key) s kt st h =
      on_claims-Sound m code key bridge_token (host.jwt_decode m.now key bridge_token) s
        (kt key refl) st refl h
