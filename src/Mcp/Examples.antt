-- ===== src/Mcp/Examples.antt =====
-- Calls of `verify_token` with a hash that leaves the bearer as it is.
use vargate_telemetry.Base.{◌≡◌, ◌≢◌, refl, true, false, none, some, [], ◌∷◌, String, arith, eq_iff}
use vargate_telemetry.Mcp.Tokens.{
  CacheEntry, TokenRow, lookup, cache_get, access_token, identity_from_access_token, verify_token,
}
use vargate_telemetry.Mcp.Identity.{identity-access_token}
use vargate_telemetry.Mcp.Verified.{Answer, verify_token-Answer}

abbrev plain_hash : String → String
plain_hash s = s

abbrev audience : String
audience = "https://mcp.example/"

-- A row whose own scopes name another tenant.
abbrev row : TokenRow
row = record {
  token_hash = "t0";
  client_id = "c";
  tenant_id = "acme";
  user_id = "u1";
  user_email = "u1@acme.example";
  resource = "https://mcp.example";
  scopes = "ogma:tenant_id=other" ∷ [];
  expires_at = 9000000;
  is_revoked = false;
  refresh_token_hash = none;
}

abbrev entry : CacheEntry
entry = record { access_token = access_token "t0" row; expires_at_epoch = 9000000 }

tenant_given : row.tenant_id ≢ ""
tenant_given p = ground (arith, (eq_iff row.tenant_id "").1 p)

user_given : row.user_id ≢ ""
user_given p = ground (arith, (eq_iff row.user_id "").1 p)

email_given : row.user_email ≢ ""
email_given p = ground (arith, (eq_iff row.user_email "").1 p)

bearer_given : ◌≢◌ {A = String} "t0" ""
bearer_given p = ground (arith, (eq_iff "t0" "").1 p)

identity-access_token_example :
    identity_from_access_token (access_token "t0" row)
    ≡ some (record { tenant_id = "acme"; user_id = "u1"; user_email = "u1@acme.example" })
identity-access_token_example = identity-access_token "t0" row tenant_given user_given email_given

-- The table has held this row only.
abbrev IsRow : TokenRow → Type 0
IsRow r = r ≡ row

verify_token-Answer_example :
    Answer plain_hash audience IsRow 5000000 "t0"
      (verify_token plain_hash audience 5000000 (some (row ∷ [])) "t0" [])
verify_token-Answer_example =
    verify_token-Answer plain_hash audience IsRow 5000000 (some (row ∷ [])) "t0" [] (refl, tt) tt

cached : lookup "t0" (("t0", entry) ∷ []) ≡ some entry
unfolding lookup
cached = refl

-- A row that has been revoked since its token was cached does not stop the token.
revoked_accepted :
    verify_token plain_hash audience 6000000
      (some (record row { is_revoked = true } ∷ []))
      "t0"
      (("t0", entry) ∷ [])
    ≡ (some (access_token "t0" row), ("t0", entry) ∷ [])
unfolding verify_token cache_get lookup
revoked_accepted = refl
