-- ===== src/Mcp/Bounds.antt =====
-- The size of the token cache of mcp_server/auth/token_verifier.py.
use vargate_telemetry.Base.{
  ℕ, ◌≤◌, Option, none, some, List, String, str_eq, is_empty, length, leb, arith, if-elim,
}
use vargate_telemetry.Mcp.Tokens.{
  AccessToken, CacheEntry, TokenCache, TokenRow, cache_max_entries, lookup, drop_key, fresh,
  cache_get, rstrip_slash, admit, look_up_row, on_miss, verify_token,
}
use vargate_telemetry.Mcp.Cache.{length-cache_put, length-drop_key}

abbrev Within : Option AccessToken × TokenCache → Type 0
Within x = length x.1 ≤ cache_max_entries

fresh-Within :
    (now : ℕ) (h : String) (cache : TokenCache) (o : Option CacheEntry)
    → length cache ≤ cache_max_entries
    → Within (fresh now h cache o)
fresh-Within now h cache none le = le
fresh-Within now h cache (some e) le =
    if-elim Within (leb e.expires_at_epoch now) (none, drop_key h cache)
      (some e.access_token, cache) (λ stale. omega (arith, length-drop_key h cache)) (λ current. le)

admit-Within :
    (expected h token : String) (cache : TokenCache) (o : Option TokenRow)
    → length cache ≤ cache_max_entries
    → Within (admit expected h token cache o)
unfolding admit
admit-Within expected h token cache none le = le
admit-Within expected h token cache (some r) le =
    if-elim Within (str_eq (rstrip_slash r.resource) (rstrip_slash expected)) _ (none, cache)
      (λ same. length-cache_put h _ cache le) (λ other. le)

on_miss-Within :
    (x : Option AccessToken × TokenCache) (cold : TokenCache → Option AccessToken × TokenCache)
    → Within x
    → ((cache : TokenCache) → length cache ≤ cache_max_entries → Within (cold cache))
    → Within (on_miss x cold)
on_miss-Within (some a, cache) cold p q = p
on_miss-Within (none, cache) cold p q = q cache p

-- A cache of at most 1024 entries has at most 1024 after any call.
pub verify_token-Within :
    (hash_bearer : String → String) (expected : String) (now : ℕ) (rows : Option (List TokenRow))
    (token : String) (cache : TokenCache)
    → length cache ≤ cache_max_entries
    → length (verify_token hash_bearer expected now rows token cache).1 ≤ cache_max_entries
unfolding verify_token cache_get
verify_token-Within hash_bearer expected now rows token cache le =
    let h = hash_bearer token in
    if-elim Within (is_empty token) (none, cache) _ (λ empty. le)
      (λ given.
        on_miss-Within (fresh now h cache (lookup h cache)) _
          (fresh-Within now h cache (lookup h cache) le)
          (λ c small. admit-Within expected h token c (look_up_row now h rows) small))
