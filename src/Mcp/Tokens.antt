-- ===== src/Mcp/Tokens.antt =====
-- mcp_server/auth/token_verifier.py: the cache, `verify_token` and `identity_from_access_token`.
-- Times are microseconds; the SHA-256 of a bearer is a parameter, and so are the rows of
-- `mcp_access_tokens`, absent where the lookup raises.
use Prim.Native.Char.{code}
use vargate_telemetry.Base.{
  concat, ℕ, zero, suc, ◌/◌, Bool, not, ◌&&◌, Option, none, some, List, [], ◌∷◌, ◌++◌, String,
  str_eq, is_empty, length, leb, ltb, if◌then◌else◌, starts_with, ◌==◌,
}

pub record AccessToken : Type 0 where
  pub token : String
  pub client_id : String
  pub scopes : List String
  pub expires_at : ℕ
  pub resource : String

pub record CacheEntry : Type 0 where
  pub access_token : AccessToken
  pub expires_at_epoch : ℕ

-- A `dict`: the order of its entries is that of first insertion.
abbrev pub TokenCache : Type 0
TokenCache = List (String × CacheEntry)

abbrev pub cache_max_entries : ℕ
cache_max_entries = 1024

unfoldable pub lookup : String → TokenCache → Option CacheEntry
lookup h [] = none
lookup h ((k, e) ∷ cache) = let rest = lookup h cache in if str_eq k h then some e else rest

unfoldable pub drop_key : String → TokenCache → TokenCache
drop_key h [] = []
drop_key h ((k, e) ∷ cache) =
    let rest = drop_key h cache in if str_eq k h then cache else (k, e) ∷ rest

unfoldable pub assign : String → CacheEntry → TokenCache → TokenCache
assign h e [] = (h, e) ∷ []
assign h e ((k, f) ∷ cache) =
    let rest = assign h e cache in if str_eq k h then (k, e) ∷ cache else (k, f) ∷ rest

abbrev pub fresh : ℕ → String → TokenCache → Option CacheEntry → Option AccessToken × TokenCache
fresh now h cache none = (none, cache)
fresh now h cache (some e) =
    if leb e.expires_at_epoch now then (none, drop_key h cache) else (some e.access_token, cache)

-- `_cache_get`: an expired entry is dropped.
unfoldable pub cache_get : ℕ → String → TokenCache → Option AccessToken × TokenCache
unfolding lookup drop_key
cache_get now h cache = fresh now h cache (lookup h cache)

abbrev pub evict : TokenCache → TokenCache
evict [] = []
evict (e ∷ cache) = cache

-- `_cache_put`: a full cache loses its first entry.
unfoldable pub cache_put : String → CacheEntry → TokenCache → TokenCache
unfolding assign
cache_put h e cache =
    assign h e (if leb cache_max_entries (length cache) then evict cache else cache)

-- A row of `mcp_access_tokens`; `scopes` is empty where the column is null.
pub record TokenRow : Type 0 where
  pub token_hash : String
  pub client_id : String
  pub tenant_id : String
  pub user_id : String
  pub user_email : String
  pub resource : String
  pub scopes : List String
  pub expires_at : ℕ
  pub is_revoked : Bool
  pub refresh_token_hash : Option String

-- The SELECT and `first`.
unfoldable pub find_row : ℕ → String → List TokenRow → Option TokenRow
find_row now h [] = none
find_row now h (r ∷ rows) =
    let rest = find_row now h rows in
    if str_eq r.token_hash h && (not r.is_revoked && ltb now r.expires_at) then some r else rest

-- `s.rstrip("/")`.
unfoldable pub rstrip_slash : String → String
rstrip_slash String.[] = String.[]
rstrip_slash (String.◌∷◌ c s) =
    let rest = rstrip_slash s in
    if (code c == b'/') && is_empty rest then String.[] else String.◌∷◌ c rest

-- `row.scopes or ["log_interaction"]`.
abbrev pub base_scopes : List String → List String
base_scopes [] = "log_interaction" ∷ []
base_scopes (s ∷ ss) = s ∷ ss

unfoldable pub identity_scopes : TokenRow → List String
unfolding concat
identity_scopes r =
    concat "ogma:tenant_id=" r.tenant_id
    ∷ concat "ogma:user_id=" r.user_id
    ∷ concat "ogma:user_email=" r.user_email
    ∷ []

unfoldable pub access_token : String → TokenRow → AccessToken
unfolding identity_scopes
access_token token r = record {
  token = token;
  client_id = r.client_id;
  scopes = base_scopes r.scopes ++ identity_scopes r;
  expires_at = r.expires_at / 1000000;
  resource = r.resource;
}

-- The audience check and what follows it.
unfoldable pub admit :
    String → String → String → TokenCache → Option TokenRow → Option AccessToken × TokenCache
unfolding rstrip_slash access_token cache_put
admit expected h token cache none = (none, cache)
admit expected h token cache (some r) =
    let a = access_token token r in
    if str_eq (rstrip_slash r.resource) (rstrip_slash expected)
    then (some a, cache_put h (record { access_token = a; expires_at_epoch = r.expires_at }) cache)
    else (none, cache)

unfoldable pub look_up_row : ℕ → String → Option (List TokenRow) → Option TokenRow
unfolding find_row
look_up_row now h none = none
look_up_row now h (some rows) = find_row now h rows

abbrev pub on_miss :
    Option AccessToken × TokenCache
    → (TokenCache → Option AccessToken × TokenCache)
    → Option AccessToken × TokenCache
on_miss (some a, cache) cold = (some a, cache)
on_miss (none, cache) cold = cold cache

module _ (hash_bearer : String → String) (resource_indicator : String) where
  unfoldable pub verify_token :
      ℕ → Option (List TokenRow) → String → TokenCache → Option AccessToken × TokenCache
  unfolding cache_get admit look_up_row
  verify_token now rows token cache =
      let h = hash_bearer token in
      if is_empty token
      then (none, cache)
      else on_miss (cache_get now h cache)
          (λ c. admit resource_indicator h token c (look_up_row now h rows))

-- The three variables of `identity_from_access_token`.
pub record Found : Type 0 where
  pub tenant_id : Option String
  pub user_id : Option String
  pub user_email : Option String

-- `s[n:]`.
unfoldable pub drop_chars : ℕ → String → String
drop_chars zero s = s
drop_chars (suc n) String.[] = String.[]
drop_chars (suc n) (String.◌∷◌ c s) = drop_chars n s

unfoldable pub read_scope : String → Found → Found
unfolding drop_chars starts_with
read_scope s f =
    if starts_with s "ogma:tenant_id="
    then record f { tenant_id = some (drop_chars 15 s) }
    else if starts_with s "ogma:user_id="
    then record f { user_id = some (drop_chars 13 s) }
    else if starts_with s "ogma:user_email="
    then record f { user_email = some (drop_chars 16 s) }
    else f

unfoldable pub read_scopes : List String → Found → Found
unfolding read_scope
read_scopes [] f = f
read_scopes (s ∷ ss) f = read_scopes ss (read_scope s f)

pub record McpIdentity : Type 0 where
  pub tenant_id : String
  pub user_id : String
  pub user_email : String

abbrev pub complete : Option String → Option String → Option String → Option McpIdentity
complete (some t) (some u) (some e) =
    if is_empty t
    then none
    else if is_empty u
    then none
    else if is_empty e
    then none
    else some (record { tenant_id = t; user_id = u; user_email = e })
complete _ _ _ = none

unfoldable pub identity_from_access_token : AccessToken → Option McpIdentity
unfolding read_scopes
identity_from_access_token a =
    let f = read_scopes a.scopes (record { tenant_id = none; user_id = none; user_email = none }) in
    complete f.tenant_id f.user_id f.user_email
