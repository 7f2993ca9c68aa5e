-- ===== src/Mcp/Oauth/Attested.antt =====
-- What every state, code and token of the authorization server stands on: a registered and allowed
-- redirect URI, and an identity from a bridge JWT.
use vargate_telemetry.Base.{
  ℕ, ◌≡◌, ◌≢◌, refl, Bool, true, ◌||◌, Option, none, some, List, [], ◌∷◌, String, str_eq, eq_iff,
  is_empty, starts_with, starts_with_self, Bool-cases, ◌⊎◌, inl, inr, arith, All, subst, sym,
}
use vargate_telemetry.Mcp.Tokens.{McpIdentity, complete, TokenRow}
use vargate_telemetry.Mcp.States.{OauthState}
use vargate_telemetry.Mcp.Oauth.Responses.{empty-not}
use vargate_telemetry.Mcp.Oauth.Server.{Client, CodePayload, Grant, Server, Claims, Host}
use vargate_telemetry.Mcp.Oauth.Kept.{Holds, HoldsState}
use vargate_telemetry.Mcp.Oauth.Authorize.{redirect_uri_allowed, is_member}

-- The URI begins with one of the prefixes for Claude's callback or the local inspector.
abbrev pub IsAllowed : String → Type 0
IsAllowed uri =
    (starts_with uri "https://claude.ai/api/mcp/auth_callback" ≡ true)
    ⊎ (starts_with uri "https://claude.com/api/mcp/auth_callback" ≡ true)
    ⊎ (starts_with uri "http://localhost:6274/oauth/callback" ≡ true)
    ⊎ (starts_with uri "http://localhost:6274/oauth/callback/debug" ≡ true)

-- A row of the client lists the URI.
abbrev pub HasUri : String → String → List Client → Type 0
HasUri id uri [] = ⊥
HasUri id uri (c ∷ rows) =
    ((c.client_id ≡ id) × (is_member uri c.redirect_uris ≡ true)) ⊎ HasUri id uri rows

-- An identity that is complete has all its parts.
complete-parts :
    (t u e : Option String) (i : McpIdentity)
    → complete t u e ≡ some i
    → (t ≡ some i.tenant_id)
      × (u ≡ some i.user_id)
      × (e ≡ some i.user_email)
      × (i.tenant_id ≢ "")
      × (i.user_id ≢ "")
      × (i.user_email ≢ "")
complete-parts none u e i h = cc
complete-parts (some t) none e i h = cc
complete-parts (some t) (some u) none i h = cc
complete-parts (some t) (some u) (some e) i h = elim (Bool-cases (is_empty t)) [
  | inl no_t ↦ let never : none ≡ some i = rw no_t at h in cc
  | inr has_t ↦ elim (Bool-cases (is_empty u)) [
    | inl no_u ↦ let never : none ≡ some i = rw (has_t, no_u) at h in cc
    | inr has_u ↦ elim (Bool-cases (is_empty e)) [
      | inl no_e ↦ let never : none ≡ some i = rw (has_t, has_u, no_e) at h in cc
      | inr has_e ↦
          let found : some (record { tenant_id = t; user_id = u; user_email = e }) ≡ some i =
            rw (has_t, has_u, has_e) at h in
          let same : record { tenant_id = t; user_id = u; user_email = e } ≡ i = cc in
          subst
            (λ (i : McpIdentity).
              (some t ≡ some i.tenant_id)
              × (some u ≡ some i.user_id)
              × (some e ≡ some i.user_email)
              × (i.tenant_id ≢ "")
              × (i.user_id ≢ "")
              × (i.user_email ≢ ""))
            same (refl, refl, refl, empty-not t has_t, empty-not u has_u, empty-not e has_e)
    ]
  ]
]

-- `Trusted` is what is known of the keys that the server has cached, and `Sent` of the bridge tokens
-- that callbacks have brought it, each with the time of its callback.
module _ (host : Host) (Trusted : String → Type 0) (Sent : ℕ → String → Type 0) where
  -- A bridge token of a callback decoded, at the time of the callback and under a cached key, to claims
  -- with the identity, of which no part is empty.
  pub record IsAttested (tenant_id user_id user_email : String) : Type 0 where
    pub at : ℕ
    pub key : String
    pub bridge_token : String
    pub claims : Claims
    pub trusted : Trusted key
    pub sent : Sent at bridge_token
    pub decoded : host.jwt_decode at key bridge_token ≡ some claims
    pub tenant : claims.tenant_id ≡ some tenant_id
    pub user : claims.user_id ≡ some user_id
    pub email : claims.user_email ≡ some user_email
    pub has_tenant : tenant_id ≢ ""
    pub has_user : user_id ≢ ""
    pub has_email : user_email ≢ ""

  pub record IsPending (clients : List Client) (p : OauthState) : Type 0 where
    pub registered : HasUri p.client_id p.redirect_uri clients
    pub allowed : IsAllowed p.redirect_uri
    pub challenged : p.code_challenge ≢ ""
    pub method : p.code_challenge_method ≡ "S256"

  pub record IsCoded (clients : List Client) (p : CodePayload) : Type 0 where
    pub registered : HasUri p.client_id p.redirect_uri clients
    pub allowed : IsAllowed p.redirect_uri
    pub challenged : p.code_challenge ≢ ""
    pub method : p.code_challenge_method ≡ "S256"
    pub attested : IsAttested p.tenant_id p.user_id p.user_email

  abbrev pub IsGranted : Grant → Type 0
  IsGranted g = IsAttested g.tenant_id g.user_id g.user_email

  abbrev pub IsIssued : TokenRow → Type 0
  IsIssued r = IsAttested r.tenant_id r.user_id r.user_email

  pub record Sound (s : Server) : Type 0 where
    pub states : HoldsState (IsPending s.clients) s.states
    pub codes : Holds (IsCoded s.clients) s.auth_codes
    pub refresh_tokens : Holds IsGranted s.refresh_tokens
    pub access_tokens : All IsIssued s.access_tokens
    pub keys : (key : String) → s.public_key ≡ some key → Trusted key

  pub complete-IsAttested :
      (now : ℕ) (key bridge_token : String) (c : Claims) (i : McpIdentity)
      → Trusted key
      → Sent now bridge_token
      → host.jwt_decode now key bridge_token ≡ some c
      → complete c.tenant_id c.user_id c.user_email ≡ some i
      → IsAttested i.tenant_id i.user_id i.user_email
  complete-IsAttested now key bridge_token c i trusted sent d h =
      let (t, u, e, has_t, has_u, has_e) = complete-parts c.tenant_id c.user_id c.user_email i h in
      record {
        at = now;
        key = key;
        bridge_token = bridge_token;
        claims = c;
        trusted = trusted;
        sent = sent;
        decoded = d;
        tenant = t;
        user = u;
        email = e;
        has_tenant = has_t;
        has_user = has_u;
        has_email = has_e;
      }

prefix_allowed :
    (uri prefix : String)
    → (str_eq uri prefix || starts_with uri prefix) ≡ true
    → starts_with uri prefix ≡ true
prefix_allowed uri prefix h = elim (Bool-cases (str_eq uri prefix)) [
  | inl same ↦
      subst (λ (s : String). starts_with s prefix ≡ true) (sym ((eq_iff uri prefix).0 same))
        (starts_with_self prefix)
  | inr other ↦ rw other at h
]

or-cases : (a b : Bool) → (a || b) ≡ true → (a ≡ true) ⊎ (b ≡ true)
or-cases a b h = ground arith

pub redirect_uri_allowed-IsAllowed :
    (uri : String) → redirect_uri_allowed uri ≡ true → IsAllowed uri
unfolding redirect_uri_allowed
redirect_uri_allowed-IsAllowed uri h = elim (or-cases _ _ h) [
  | inl a ↦ inl (prefix_allowed uri _ a)
  | inr k ↦ elim (or-cases _ _ k) [
    | inl b ↦ inr (inl (prefix_allowed uri _ b))
    | inr l ↦ elim (or-cases _ _ l) [
      | inl c ↦ inr (inr (inl (prefix_allowed uri _ c)))
      | inr m ↦ elim (or-cases _ _ m) [
        | inl d ↦ inr (inr (inr (prefix_allowed uri _ d)))
        | inr n ↦ ground (arith, n)
      ]
    ]
  ]
]
