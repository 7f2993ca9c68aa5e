-- ===== src/Mcp/Oauth/Validated.antt =====
-- What the checks of `authorize` in mcp_server/auth/oauth_routes.py let through.
use vargate_telemetry.Base.{
  ◌≡◌, ◌≢◌, not, ◌&&◌, Option, none, some, List, [], ◌∷◌, String, str_eq, eq_iff, Bool-cases, inl,
  inr, and-eq-true, true, subst, ap, sym, ◌∙◌,
}
use vargate_telemetry.Mcp.Oauth.Responses.{
  returned, given-some, bind-returned, require-returned, require_some-returned,
}
use vargate_telemetry.Mcp.Oauth.Server.{Client}
use vargate_telemetry.Mcp.Oauth.Authorize.{
  AuthorizeQuery, is_member, pkce_challenge, find_client, validate,
}
use vargate_telemetry.Mcp.Oauth.Attested.{IsAllowed, HasUri, redirect_uri_allowed-IsAllowed}

find_client-HasUri :
    (id uri : String) (rows : List Client) (c : Client)
    → find_client id rows ≡ some c
    → is_member uri c.redirect_uris ≡ true
    → HasUri id uri rows
unfolding find_client
find_client-HasUri id uri [] c h m = cc
find_client-HasUri id uri (d ∷ rows) c h m =
    elim (Bool-cases (str_eq d.client_id id && not d.is_deleted)) [
      | inl live ↦
          let (same, kept) = and-eq-true (str_eq d.client_id id) (not d.is_deleted) live in
          let found : some d ≡ some c = rw live at h in
          let p : d ≡ c = cc in
          inl (
            (eq_iff d.client_id id).0 same,
            subst (λ (z : Client). is_member uri z.redirect_uris ≡ true) (sym p) m,
          )
      | inr other ↦ inr (find_client-HasUri id uri rows c (rw other at h) m)
    ]

pkce_challenge-some :
    (challenge method : Option String) (c : String)
    → pkce_challenge challenge method ≡ some c
    → (challenge ≡ some c) × (method ≡ some "S256") × (c ≢ "")
pkce_challenge-some challenge none c h = cc
pkce_challenge-some challenge (some m) c h = elim (Bool-cases (str_eq m "S256")) [
  | inl same ↦
      let (e, full) = given-some challenge c (rw same at h) in
      (e, ap some ((eq_iff m "S256").0 same), full)
  | inr other ↦ let never : none ≡ some c = rw other at h in cc
]

-- What the checks leave: the response type, a challenge by S256, and a URI that is allowed and
-- registered for the client.
pub record Passed (q : AuthorizeQuery) (clients : List Client) (challenge : String) : Type 0 where
  pub is_code : q.response_type ≡ "code"
  pub method : q.code_challenge_method ≡ some "S256"
  pub challenged : q.code_challenge ≡ some challenge
  pub not_empty : challenge ≢ ""
  pub allowed : IsAllowed q.redirect_uri
  pub registered : HasUri q.client_id q.redirect_uri clients

pub validate-Passed :
    (q : AuthorizeQuery) (clients : List Client) (challenge : String)
    → validate q clients ≡ returned challenge
    → Passed q clients challenge
unfolding validate
validate-Passed q clients challenge h =
    let (a, code, h1) = bind-returned _ _ challenge h in
    let (c, pkce, h2) = bind-returned _ _ challenge h1 in
    let (b, allow, h3) = bind-returned _ _ challenge h2 in
    let (client, found, h4) = bind-returned _ _ challenge h3 in
    let (d, listed, h5) = bind-returned _ _ challenge h4 in
    let same : c ≡ challenge = cc in
    let (given_challenge, method, full) =
      pkce_challenge-some _ _ challenge
        (require_some-returned _ 400 "invalid_request" c pkce ∙ ap some same) in
    record {
      is_code = (eq_iff _ _).0 (require-returned _ 400 "unsupported_response_type" a code);
      method = method;
      challenged = given_challenge;
      not_empty = full;
      allowed =
          redirect_uri_allowed-IsAllowed q.redirect_uri
            (require-returned _ 400 "invalid_redirect_uri" b allow);
      registered =
          find_client-HasUri q.client_id q.redirect_uri clients client
            (require_some-returned _ 400 "invalid_client" client found)
            (require-returned _ 400 "invalid_redirect_uri" d listed);
    }
