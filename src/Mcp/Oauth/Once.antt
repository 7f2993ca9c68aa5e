-- ===== src/Mcp/Oauth/Once.antt =====
-- Auth codes and refresh tokens of mcp_server/auth/oauth_routes.py are good for one request.
use vargate_telemetry.Base.{subst, sym, ℕ, ◌≡◌, ◌≢◌, refl, Option, none, some, List, String, All}
use vargate_telemetry.Mcp.Oauth.Responses.{refused, given}
use vargate_telemetry.Mcp.Oauth.Stores.{Store, find_entry, store_pop, store_pop-absent}
use vargate_telemetry.Mcp.Oauth.Server.{CodePayload, Grant, Server, Host, Moment}
use vargate_telemetry.Mcp.Oauth.Token.{
  TokenForm, Pair, on_popped_code, token_authorization_code, on_popped_grant, token_refresh,
}
use vargate_telemetry.Mcp.Oauth.Requests.{Request, run}
use vargate_telemetry.Mcp.Oauth.Spent.{
  IsAny, IsAnyKey, IsAny-IsClosed, IsAbsent, IsOther, IsAbsent-IsClosed, discard-none, DrawsFresh,
  on_code-Both, on_grant-Both, run-Both,
}

store_pop-gone :
    {A : Type 0} (now : ℕ) (k : String) (entries : Store A)
    → find_entry k entries ≡ none
    → store_pop now k entries ≡ (none, entries)
unfolding store_pop
store_pop-gone now k entries h = rw (h, discard-none k entries h) refl

module _ (host : Host) where
  -- A request draws another auth code.
  abbrev pub DrawsOtherCode : String → Moment × Request → Type 0
  DrawsOtherCode code =
      DrawsFresh host (IsAbsent code) IsAny (IsOther code) IsAnyKey (IsAbsent-IsClosed code)
        IsAny-IsClosed

  -- A request draws a refresh token with another hash.
  abbrev pub DrawsOtherToken : String → Moment × Request → Type 0
  DrawsOtherToken token =
      DrawsFresh host IsAny (IsAbsent (host.sha256_hex token)) IsAnyKey
        (IsOther (host.sha256_hex token)) IsAny-IsClosed (IsAbsent-IsClosed (host.sha256_hex token))

  -- An auth code that was sent once with a verifier and a client, whatever the answer was, is refused
  -- with `invalid_grant` when it is sent so again, and nothing changes then: after any requests in
  -- between, one after the other, that do not draw the same code again.
  pub code-once :
      (m m' : Moment) (pair pair' : Pair) (f f' : TokenForm) (s : Server)
      (requests : List (Moment × Request)) (code v i v' i' : String)
      → given f.code ≡ some code
      → given f.code_verifier ≡ some v
      → given f.client_id ≡ some i
      → given f'.code ≡ some code
      → given f'.code_verifier ≡ some v'
      → given f'.client_id ≡ some i'
      → All (DrawsOtherCode code) requests
      → let s' = run host requests (token_authorization_code host m pair f s).1 in
        token_authorization_code host m' pair' f' s' ≡ (refused 400 "invalid_grant", s')
  unfolding token_authorization_code
  code-once m m' pair pair' f f' s requests code v i v' i' c1 v1 i1 c2 v2 i2 others =
      let popped = store_pop m.now code s.auth_codes in
      let closed = IsAbsent-IsClosed code in
      let first =
        on_code-Both host (IsAbsent code) IsAny (IsOther code) IsAnyKey closed IsAny-IsClosed m pair
          v i (given f.redirect_uri) popped.0 (record s { auth_codes = popped.1 }) tt
          (store_pop-absent m.now code s.auth_codes, tt) in
      rw (c1, v1, i1, c2, v2, i2)
        (again _
          (run-Both host (IsAbsent code) IsAny (IsOther code) IsAnyKey closed IsAny-IsClosed
            requests _ others first).0)
    where
      again :
          (t : Server)
          → find_entry code t.auth_codes ≡ none
          → on_popped_code host m' pair' v' i'
              (given f'.redirect_uri)
              (store_pop m'.now code t.auth_codes)
              t
            ≡ (refused 400 "invalid_grant", t)
      again t e =
          subst
            (λ (x : Option CodePayload × Store CodePayload).
              on_popped_code host m' pair' v' i' (given f'.redirect_uri) x t
              ≡ (refused 400 "invalid_grant", t))
            (sym (store_pop-gone m'.now code t.auth_codes e)) refl

  -- A refresh token that was sent once with a client, whatever the answer was and whichever the
  -- client, is refused with `invalid_grant` when it is sent so again, and nothing changes then: where
  -- the token that replaces it has another hash, and after any requests in between, one after the
  -- other, that draw no refresh token with its hash.
  pub refresh-once :
      (m m' : Moment) (pair pair' : Pair) (f f' : TokenForm) (s : Server)
      (requests : List (Moment × Request)) (token i i' : String)
      → given f.refresh_token ≡ some token
      → given f.client_id ≡ some i
      → given f'.refresh_token ≡ some token
      → given f'.client_id ≡ some i'
      → host.sha256_hex pair.refresh_token ≢ host.sha256_hex token
      → All (DrawsOtherToken token) requests
      → let s' = run host requests (token_refresh host m pair f s).1 in
        token_refresh host m' pair' f' s' ≡ (refused 400 "invalid_grant", s')
  unfolding token_refresh
  refresh-once m m' pair pair' f f' s requests token i i' t1 i1 t2 i2 n others =
      let h = host.sha256_hex token in
      let popped = store_pop m.now h s.refresh_tokens in
      let closed = IsAbsent-IsClosed h in
      let first =
        on_grant-Both host IsAny (IsAbsent h) IsAnyKey (IsOther h) IsAny-IsClosed closed m pair i
          popped.0 (record s { refresh_tokens = popped.1 }) n
          (tt, store_pop-absent m.now h s.refresh_tokens) in
      rw (t1, i1, t2, i2)
        (again _
          (run-Both host IsAny (IsAbsent h) IsAnyKey (IsOther h) IsAny-IsClosed closed requests _
            others first).1)
    where
      again :
          (t : Server)
          → find_entry (host.sha256_hex token) t.refresh_tokens ≡ none
          → on_popped_grant host m' pair' i'
              (store_pop m'.now (host.sha256_hex token) t.refresh_tokens)
              t
            ≡ (refused 400 "invalid_grant", t)
      again t e =
          subst
            (λ (x : Option Grant × Store Grant).
              on_popped_grant host m' pair' i' x t ≡ (refused 400 "invalid_grant", t))
            (sym (store_pop-gone m'.now (host.sha256_hex token) t.refresh_tokens e)) refl
