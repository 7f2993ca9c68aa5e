-- ===== src/Mcp/Identity.antt =====
-- The identity that a tool reads from a token is the one of the token's row: whatever other scopes
-- the row has, markers among them.
use vargate_telemetry.Base.{
  concat, ◌≡◌, ◌≢◌, refl, none, some, List, [], ◌∷◌, ◌++◌, String, ap, ◌∙◌, not-empty, starts_with,
}
use vargate_telemetry.Mcp.Tokens.{
  TokenRow, base_scopes, identity_scopes, access_token, Found, drop_chars, read_scope, read_scopes,
  complete, identity_from_access_token,
}

read_scopes-append :
    (xs ys : List String) (f : Found) → read_scopes (xs ++ ys) f ≡ read_scopes ys (read_scopes xs f)
unfolding read_scopes
read_scopes-append [] ys f = refl
read_scopes-append (x ∷ xs) ys f = read_scopes-append xs ys (read_scope x f)

read_scopes-identity :
    (r : TokenRow) (f : Found)
    → read_scopes (identity_scopes r) f ≡ record {
      tenant_id = some r.tenant_id;
      user_id = some r.user_id;
      user_email = some r.user_email;
    }
unfolding read_scopes read_scope identity_scopes concat drop_chars starts_with
read_scopes-identity r f = refl

-- The identity that is read from a row's token is the row's, where none of its three parts is empty.
pub identity-access_token :
    (token : String) (r : TokenRow)
    → r.tenant_id ≢ ""
    → r.user_id ≢ ""
    → r.user_email ≢ ""
    → identity_from_access_token (access_token token r)
      ≡ some (record { tenant_id = r.tenant_id; user_id = r.user_id; user_email = r.user_email })
unfolding identity_from_access_token access_token
identity-access_token token r t u e =
    let start : Found = record { tenant_id = none; user_id = none; user_email = none } in
    ap (λ (f : Found). complete f.tenant_id f.user_id f.user_email)
      (read_scopes-append (base_scopes r.scopes) (identity_scopes r) start
        ∙ read_scopes-identity r (read_scopes (base_scopes r.scopes) start))
    ∙ rw (not-empty r.tenant_id t, not-empty r.user_id u, not-empty r.user_email e) refl
