-- ===== src/Mcp/Oauth/Spent.antt =====
-- What the requests to mcp_server/auth/oauth_routes.py do to the stores of auth codes and of refresh
-- tokens: they take entries out, and put entries in under the random values that they draw.
use vargate_telemetry.Base.{
  ℕ, ◌≡◌, ◌≢◌, refl, Bool, false, not, ◌||◌, ◌&&◌, Option, none, some, List, [], ◌∷◌, String,
  str_eq, eq_iff, leb, All, Bool-cases, inl, inr, arith, if-elim,
}
use vargate_telemetry.Base.Result.{Result, ok, err}
use vargate_telemetry.Mcp.Tokens.{McpIdentity, complete}
use vargate_telemetry.Mcp.States.{OauthState, Redis, store, claim}
use vargate_telemetry.Mcp.Oauth.Responses.{Response, returned, refused, raised, given, Redirect}
use vargate_telemetry.Mcp.Oauth.Config.{spike_mode_enabled, test_identity}
use vargate_telemetry.Mcp.Oauth.Stores.{Store, discard, find_entry, sweep, store_put, store_pop}
use vargate_telemetry.Mcp.Oauth.Server.{CodePayload, Grant, Server, Claims, Host, Moment}
use vargate_telemetry.Mcp.Oauth.Bridge.{is_text, public_key_from_jwk, cache_key, set_jwk}
use vargate_telemetry.Mcp.Oauth.Authorize.{
  Registration, Registered, all_allowed, has_client, register_client, AuthorizeQuery, validate,
  auth_code_ttl_seconds, mint_code_and_redirect, spike, to_bridge, pending, on_challenge, authorize,
  on_identity, on_payload, on_state, on_claims, on_key, authorize_callback,
}
use vargate_telemetry.Mcp.Oauth.Token.{
  TokenForm, TokenBody, Pair, verify_pkce, has_token, issue_token_pair, differs, code_grant,
  on_code, exchange, token_authorization_code, on_grant, rotate, token_refresh, on_grant_type,
  token_endpoint,
}
use vargate_telemetry.Mcp.Oauth.Requests.{
  Request, registers, authorizes, calls_back, exchanges, refreshes_key, step, run,
}

-- A property of a store that taking entries out keeps, and putting entries in under fresh keys.
pub record IsClosed {A : Type 0} (P : Store A → Type 0) (Fresh : String → Type 0) : Type 0 where
  pub drops : (k : String) (entries : Store A) → P entries → P (discard k entries)
  pub puts :
      (now ttl : ℕ) (k : String) (a : A) (entries : Store A)
      → Fresh k
      → P entries
      → P (store_put now k a ttl entries)

abbrev pub IsAny : {A : Type 0} → Store A → Type 0
IsAny entries = Unit

abbrev pub IsAnyKey : String → Type 0
IsAnyKey k = Unit

pub IsAny-IsClosed : {A : Type 0} → IsClosed {A = A} IsAny IsAnyKey
IsAny-IsClosed = record { drops = λ k entries p. tt; puts = λ now ttl k a entries f p. tt }

abbrev pub IsAbsent : {A : Type 0} → String → Store A → Type 0
IsAbsent k entries = find_entry k entries ≡ none

abbrev pub IsOther : String → String → Type 0
IsOther k j = j ≢ k

module _ {A : Type 0} where
  sweep-absent :
      (now : ℕ) (k : String) (entries : Store A)
      → find_entry k entries ≡ none
      → find_entry k (sweep now entries) ≡ none
  unfolding find_entry sweep
  sweep-absent now k [] h = refl
  sweep-absent now k ((j, e) ∷ entries) h = elim (Bool-cases (str_eq j k)) [
    | inl same ↦ let never : some e ≡ none = rw same at h in cc
    | inr other ↦
        let rest = sweep-absent now k entries (rw other at h) in
        if-elim (λ (x : Store A). find_entry k x ≡ none) (leb e.expires_at_epoch now) _ _
          (λ stale. rest) (λ live. rw other rest)
  ]

  discard-absent :
      (j k : String) (entries : Store A)
      → find_entry k entries ≡ none
      → find_entry k (discard j entries) ≡ none
  unfolding find_entry discard
  discard-absent j k [] h = refl
  discard-absent j k ((l, e) ∷ entries) h = elim (Bool-cases (str_eq l k)) [
    | inl same ↦ let never : some e ≡ none = rw same at h in cc
    | inr other ↦
        let rest = discard-absent j k entries (rw other at h) in
        if-elim (λ (x : Store A). find_entry k x ≡ none) (str_eq l j) _ _ (λ same. rest)
          (λ different. rw other rest)
  ]

  store_put-absent :
      (now ttl : ℕ) (j k : String) (a : A) (entries : Store A)
      → j ≢ k
      → find_entry k entries ≡ none
      → find_entry k (store_put now j a ttl entries) ≡ none
  unfolding store_put find_entry
  store_put-absent now ttl j k a entries n h =
      let apart = apart_texts j k n in
      rw apart (discard-absent j k (sweep now entries) (sweep-absent now k entries h))
    where
      apart_texts : (a b : String) → a ≢ b → str_eq a b ≡ false
      apart_texts a b n = ground (arith, eq_iff a b)

  -- Taking out what is not there changes nothing.
  pub discard-none :
      (k : String) (entries : Store A) → find_entry k entries ≡ none → discard k entries ≡ entries
  unfolding find_entry discard
  discard-none k [] h = refl
  discard-none k ((j, e) ∷ entries) h = elim (Bool-cases (str_eq j k)) [
    | inl same ↦ let never : some e ≡ none = rw same at h in cc
    | inr other ↦ rw (other, discard-none k entries (rw other at h)) refl
  ]

  pub IsAbsent-IsClosed : (k : String) → IsClosed {A = A} (IsAbsent k) (IsOther k)
  IsAbsent-IsClosed k = record {
    drops = λ j entries h. discard-absent j k entries h;
    puts = λ now ttl j a entries n h. store_put-absent now ttl j k a entries n h;
  }

module _ (host : Host) (P : Store CodePayload → Type 0) (Q : Store Grant → Type 0)
    (FreshCode FreshHash : String → Type 0) (p : IsClosed P FreshCode)
    (q : IsClosed Q FreshHash) where
  abbrev pub Both : Server → Type 0
  Both s = P s.auth_codes × Q s.refresh_tokens

  abbrev After {ℓ} : {A : Type ℓ} → Response A × Server → Type 0
  After x = Both x.1

  -- The values that a request draws are fresh.
  abbrev pub DrawsFresh : Moment × Request → Type 0
  DrawsFresh (m, authorizes token query) = FreshCode token
  DrawsFresh (m, calls_back code bridge_token) = FreshCode code
  DrawsFresh (m, exchanges pair f) = FreshHash (host.sha256_hex pair.refresh_token)
  DrawsFresh (m, _) = Unit

  pub issue-Both :
      (m : Moment) (pair : Pair) (g : Grant) (s : Server)
      → FreshHash (host.sha256_hex pair.refresh_token)
      → Both s
      → After (issue_token_pair host m pair g s)
  unfolding issue_token_pair
  issue-Both m pair g s f h =
      if-elim (λ (x : Response TokenBody × Server). Both x.1)
        (has_token (host.sha256_hex pair.access_token) s.access_tokens
          || not (has_client g.client_id s.clients))
        _ _ (λ clash. h)
        (λ free. (
          h.0,
          q.puts m.now host.refresh_token_ttl_seconds (host.sha256_hex pair.refresh_token) g
              s.refresh_tokens f h.1,
        ))

  pub on_code-Both :
      (m : Moment) (pair : Pair) (v i : String) (r : Option String) (o : Option CodePayload)
      (s : Server)
      → FreshHash (host.sha256_hex pair.refresh_token)
      → Both s
      → After (on_code host m pair v i r o s)
  on_code-Both m pair v i r none s f h = h
  on_code-Both m pair v i r (some c) s f h =
      let Fine = λ (x : Response TokenBody × Server). Both x.1 in
      if-elim Fine (not (str_eq c.client_id i)) _ _ (λ other. h)
        (λ same.
          if-elim Fine (differs r c.redirect_uri) _ _ (λ other. h)
            (λ same_uri.
              if-elim Fine (not (verify_pkce host v c.code_challenge)) _ _ (λ wrong. h)
                (λ right. issue-Both m pair (code_grant i c) s f h)))

  exchange-Both :
      (m : Moment) (pair : Pair) (code verifier client_id redirect_uri : Option String) (s : Server)
      → FreshHash (host.sha256_hex pair.refresh_token)
      → Both s
      → After (exchange host m pair code verifier client_id redirect_uri s)
  unfolding store_pop
  exchange-Both m pair none v i r s f h = h
  exchange-Both m pair (some c) none i r s f h = h
  exchange-Both m pair (some c) (some v) none r s f h = h
  exchange-Both m pair (some c) (some v) (some i) r s f h =
      let x = store_pop m.now c s.auth_codes in
      on_code-Both m pair v i r x.0 (record s { auth_codes = x.1 }) f
        (p.drops c s.auth_codes h.0, h.1)

  pub on_grant-Both :
      (m : Moment) (pair : Pair) (i : String) (o : Option Grant) (s : Server)
      → FreshHash (host.sha256_hex pair.refresh_token)
      → Both s
      → After (on_grant host m pair i o s)
  on_grant-Both m pair i none s f h = h
  on_grant-Both m pair i (some g) s f h =
      if-elim (λ (x : Response TokenBody × Server). Both x.1) (str_eq g.client_id i) _ _
        (λ same. issue-Both m pair (record g { client_id = i }) s f h) (λ other. h)

  rotate-Both :
      (m : Moment) (pair : Pair) (refresh_token client_id : Option String) (s : Server)
      → FreshHash (host.sha256_hex pair.refresh_token)
      → Both s
      → After (rotate host m pair refresh_token client_id s)
  unfolding store_pop
  rotate-Both m pair none i s f h = h
  rotate-Both m pair (some t) none s f h = h
  rotate-Both m pair (some t) (some i) s f h =
      let x = store_pop m.now (host.sha256_hex t) s.refresh_tokens in
      on_grant-Both m pair i x.0 (record s { refresh_tokens = x.1 }) f
        (h.0, q.drops (host.sha256_hex t) s.refresh_tokens h.1)

  token-Both :
      (m : Moment) (pair : Pair) (t : Option String) (f : TokenForm) (s : Server)
      → FreshHash (host.sha256_hex pair.refresh_token)
      → Both s
      → After (on_grant_type host m pair t f s)
  unfolding token_authorization_code token_refresh
  token-Both m pair none f s fresh h = h
  token-Both m pair (some t) f s fresh h =
      let Fine = λ (x : Response TokenBody × Server). Both x.1 in
      if-elim Fine (str_eq t "authorization_code") _ _
        (λ code.
          exchange-Both m pair (given f.code) (given f.code_verifier) (given f.client_id)
            (given f.redirect_uri) s fresh h)
        (λ other.
          if-elim Fine (str_eq t "refresh_token") _ _
            (λ refresh. rotate-Both m pair (given f.refresh_token) (given f.client_id) s fresh h)
            (λ none_of_them. h))

  mint-Both :
      (m : Moment) (code : String) (c : CodePayload) (state : Option String) (s : Server)
      → FreshCode code
      → Both s
      → After (mint_code_and_redirect m code c state s)
  unfolding mint_code_and_redirect
  mint-Both m code c state s f h =
      (p.puts m.now auth_code_ttl_seconds code c s.auth_codes f h.0, h.1)

  register-Both :
      (id secret : String) (body : Registration) (s : Server)
      → Both s
      → After (register_client host id secret body s)
  unfolding register_client
  register-Both id secret body s h =
      if-elim (λ (x : Response Registered × Server). Both x.1) (all_allowed body.redirect_uris) _ _
        (λ allowed.
          if-elim (λ (x : Response Registered × Server). Both x.1) (has_client id s.clients) _ _
            (λ taken. h) (λ free. h))
        (λ refused. h)

  to_bridge-Both :
      (token : String) (r : Result Redis) (s : Server) → Both s → After (to_bridge host token r s)
  to_bridge-Both token (err e) s h = h
  to_bridge-Both token (ok states) s h = h

  spike-Both :
      (m : Moment) (code : String) (o : OauthState) (i : Option McpIdentity) (s : Server)
      → FreshCode code
      → Both s
      → After (spike m code o i s)
  spike-Both m code o none s f h = h
  spike-Both m code o (some i) s f h = mint-Both m code _ o.claude_state s f h

  challenge-Both :
      (m : Moment) (token : String) (query : AuthorizeQuery) (r : Response String) (s : Server)
      → FreshCode token
      → Both s
      → After (on_challenge host m token query r s)
  challenge-Both m token query (refused code error) s f h = h
  challenge-Both m token query (raised e) s f h = h
  challenge-Both m token query (returned challenge) s f h =
      let o = pending host query challenge in
      if-elim (λ (x : Response Redirect × Server). Both x.1) (spike_mode_enabled host.env) _ _
        (λ on. spike-Both m token o (test_identity host.env) s f h)
        (λ off. to_bridge-Both token (store m.redis_now token o s.states) s h)

  on_identity-Both :
      (m : Moment) (code : String) (o : OauthState) (i : Option McpIdentity) (s : Server)
      → FreshCode code
      → Both s
      → After (on_identity m code o i s)
  on_identity-Both m code o none s f h = h
  on_identity-Both m code o (some i) s f h = mint-Both m code _ o.claude_state s f h

  on_payload-Both :
      (m : Moment) (code : String) (c : Claims) (o : Option OauthState) (s : Server)
      → FreshCode code
      → Both s
      → After (on_payload m code c o s)
  on_payload-Both m code c none s f h = h
  on_payload-Both m code c (some o) s f h =
      on_identity-Both m code o (complete c.tenant_id c.user_id c.user_email) s f h

  on_state-Both :
      (m : Moment) (code : String) (c : Claims) (o : Option String) (s : Server)
      → FreshCode code
      → Both s
      → After (on_state m code c o s)
  on_state-Both m code c none s f h = h
  on_state-Both m code c (some mcp_state) s f h =
      let x = claim m.redis_now mcp_state s.states in
      on_payload-Both m code c x.0 (record s { states = x.1 }) f h

  on_claims-Both :
      (m : Moment) (code : String) (o : Option Claims) (s : Server)
      → FreshCode code
      → Both s
      → After (on_claims m code o s)
  on_claims-Both m code none s f h = h
  on_claims-Both m code (some c) s f h = on_state-Both m code c (given c.mcp_state) s f h

  on_key-Both :
      (m : Moment) (code bridge_token : String) (o : Option String) (s : Server)
      → FreshCode code
      → Both s
      → After (on_key host m code bridge_token o s)
  on_key-Both m code bridge_token none s f h = h
  on_key-Both m code bridge_token (some key) s f h =
      on_claims-Both m code (host.jwt_decode m.now key bridge_token) s f h

  cache_key-Both : (s : Server) (r : Result String) → Both s → Both (cache_key s r).1
  cache_key-Both s (ok key) h = h
  cache_key-Both s (err e) h = h

  step-Both :
      (m : Moment) (r : Request) (s : Server) → DrawsFresh (m, r) → Both s → Both (step host m r s)
  unfolding step authorize authorize_callback token_endpoint set_jwk
  step-Both m (registers id secret body) s f h = register-Both id secret body s h
  step-Both m (authorizes token query) s f h =
      challenge-Both m token query (validate query s.clients) s f h
  step-Both m (calls_back code bridge_token) s f h =
      on_key-Both m code bridge_token s.public_key s f h
  step-Both m (exchanges pair form) s f h = token-Both m pair form.grant_type form s f h
  step-Both m (refreshes_key jwk) s f h =
      if-elim (λ (x : Result Bool × Server). Both x.1)
        (is_text jwk.kty "EC" && is_text jwk.crv "P-256") _ _
        (λ fits. cache_key-Both s (public_key_from_jwk host jwk.x jwk.y) h) (λ other. h)

  -- Requests that draw fresh values keep both properties.
  pub run-Both :
      (requests : List (Moment × Request)) (s : Server)
      → All DrawsFresh requests
      → Both s
      → Both (run host requests s)
  unfolding run
  run-Both [] s f h = h
  run-Both ((m, r) ∷ requests) s f h =
      run-Both requests (step host m r s) f.1 (step-Both m r s f.0 h)
