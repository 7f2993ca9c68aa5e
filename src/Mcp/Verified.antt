-- ===== src/Mcp/Verified.antt =====
-- What `verify_token` of mcp_server/auth/token_verifier.py answers, over any sequence of calls.
use vargate_telemetry.Base.{
  ℕ, ◌<◌, ◌≡◌, refl, Bool, true, false, not, ◌&&◌, Option, none, some, List, [], ◌∷◌, String,
  str_eq, eq_iff, is_empty, leb, ltb, arith, All, if-elim, Bool-cases, inl, inr, subst, ltb→lt,
  and-eq-true,
}
use vargate_telemetry.Mcp.Tokens.{
  AccessToken, CacheEntry, TokenCache, TokenRow, lookup, drop_key, fresh, cache_get, cache_put,
  find_row, rstrip_slash, access_token, admit, look_up_row, on_miss, verify_token,
}
use vargate_telemetry.Mcp.Cache.{drop_key-All, cache_put-All, lookup-All}

-- `Read` is what is known of the rows that the table has held whenever it was read.
module _ (hash_bearer : String → String) (expected : String) (Read : TokenRow → Type 0) where
  -- A row of the table, as it was read, that a token of the hash `h` was accepted for.
  pub record Accepts (h : String) (r : TokenRow) : Type 0 where
    pub was_read : Read r
    pub hashed : r.token_hash ≡ h
    pub active : r.is_revoked ≡ false
    pub audience : rstrip_slash r.resource ≡ rstrip_slash expected

  -- A cache entry was made from such a row.
  abbrev pub IsFrom : String × CacheEntry → Type 0
  IsFrom (h, e) =
      (r : TokenRow) × (token : String) × Accepts h r
      × (e.access_token ≡ access_token token r)
      × (e.expires_at_epoch ≡ r.expires_at)

  abbrev pub Sound : TokenCache → Type 0
  Sound cache = All IsFrom cache

  abbrev pub Answer : ℕ → String → Option AccessToken × TokenCache → Type 0
  Answer now h (none, cache) = Sound cache
  Answer now h (some a, cache) =
      Sound cache
      × ((r : TokenRow) × (token : String) × Accepts h r
          × (now < r.expires_at)
          × (a ≡ access_token token r))

  -- What the SELECT answers with.
  abbrev IsLive : ℕ → String → TokenRow → Type 0
  IsLive now h r = Read r × (r.token_hash ≡ h) × (r.is_revoked ≡ false) × (now < r.expires_at)

  find_row-IsLive :
      (now : ℕ) (h : String) (rows : List TokenRow) (r : TokenRow)
      → All Read rows
      → find_row now h rows ≡ some r
      → IsLive now h r
  unfolding find_row
  find_row-IsLive now h [] r k e = cc
  find_row-IsLive now h (q ∷ rows) r k e =
      elim (Bool-cases (str_eq q.token_hash h && (not q.is_revoked && ltb now q.expires_at))) [
        | inl live ↦
            let (same, rest) = and-eq-true (str_eq q.token_hash h) _ live in
            let (active, early) = and-eq-true (not q.is_revoked) (ltb now q.expires_at) rest in
            let found : some q ≡ some r = rw live at e in
            let p : q ≡ r = cc in
            subst (IsLive now h) p (
              k.0,
              (eq_iff q.token_hash h).0 same,
              not-true q.is_revoked active,
              ltb→lt now q.expires_at early,
            )
        | inr other ↦ find_row-IsLive now h rows r k.1 (rw other at e)
      ]
    where
      not-true : (b : Bool) → not b ≡ true → b ≡ false
      not-true true p = absurd (ground (arith, p))
      not-true false p = refl

  -- The rows that a lookup reads; a lookup that raises reads none.
  abbrev pub AllRead : Option (List TokenRow) → Type 0
  AllRead none = Unit
  AllRead (some rows) = All Read rows

  look_up_row-IsLive :
      (now : ℕ) (h : String) (rows : Option (List TokenRow)) (r : TokenRow)
      → AllRead rows
      → look_up_row now h rows ≡ some r
      → IsLive now h r
  unfolding look_up_row
  look_up_row-IsLive now h none r k e = cc
  look_up_row-IsLive now h (some rows) r k e = find_row-IsLive now h rows r k e

  admit-Answer :
      (now : ℕ) (h token : String) (cache : TokenCache) (o : Option TokenRow)
      → Sound cache
      → ((r : TokenRow) → o ≡ some r → IsLive now h r)
      → Answer now h (admit expected h token cache o)
  unfolding admit
  admit-Answer now h token cache none s live = s
  admit-Answer now h token cache (some r) s live =
      if-elim (Answer now h) (str_eq (rstrip_slash r.resource) (rstrip_slash expected))
        (
          some (access_token token r),
          cache_put h
              (record { access_token = access_token token r; expires_at_epoch = r.expires_at })
              cache,
        )
        (none, cache)
        (λ same.
          let (was_read, hashed, active, early) = live r refl in
          let accepted : Accepts h r = record {
            was_read = was_read;
            hashed = hashed;
            active = active;
            audience = (eq_iff _ _).0 same;
          } in
          (
            cache_put-All IsFrom h
                (record { access_token = access_token token r; expires_at_epoch = r.expires_at })
                cache (r, token, accepted, refl, refl) s,
            (r, token, accepted, early, refl),
          ))
        (λ other. s)

  fresh-Answer :
      (now : ℕ) (h : String) (cache : TokenCache) (o : Option CacheEntry)
      → Sound cache
      → ((e : CacheEntry) → o ≡ some e → IsFrom (h, e))
      → Answer now h (fresh now h cache o)
  fresh-Answer now h cache none s from = s
  fresh-Answer now h cache (some e) s from =
      if-elim (Answer now h) (leb e.expires_at_epoch now) (none, drop_key h cache)
        (some e.access_token, cache) (λ stale. drop_key-All IsFrom h cache s)
        (λ current.
          let (r, token, accepted, a, epoch) = from e refl in
          let early : now < e.expires_at_epoch = ground arith in
          (s, (r, token, accepted, subst (λ z. now < z) epoch early, a)))

  on_miss-Answer :
      (now : ℕ) (h : String) (x : Option AccessToken × TokenCache)
      (cold : TokenCache → Option AccessToken × TokenCache)
      → Answer now h x
      → ((cache : TokenCache) → Sound cache → Answer now h (cold cache))
      → Answer now h (on_miss x cold)
  on_miss-Answer now h (some a, cache) cold p q = p
  on_miss-Answer now h (none, cache) cold p q = q cache p

  -- Whatever is known of all the rows that the table holds when it is read: a call on a sound cache
  -- leaves a sound cache; and a token that it accepts, from the cache or from the table, is the token of
  -- such a row, with its hash and the server's audience, that was not revoked when the row was read and
  -- has not expired at the time of the call. A sound cache has entries of such rows only.
  pub verify_token-Answer :
      (now : ℕ) (rows : Option (List TokenRow)) (token : String) (cache : TokenCache)
      → AllRead rows
      → Sound cache
      → Answer now (hash_bearer token) (verify_token hash_bearer expected now rows token cache)
  unfolding verify_token cache_get
  verify_token-Answer now rows token cache k s =
      let h = hash_bearer token in
      if-elim (Answer now h) (is_empty token) (none, cache) _ (λ empty. s)
        (λ given.
          on_miss-Answer now h (fresh now h cache (lookup h cache)) _
            (fresh-Answer now h cache (lookup h cache) s (λ e q. lookup-All IsFrom h e cache q s))
            (λ c sound.
              admit-Answer now h token c (look_up_row now h rows) sound
                (λ r. look_up_row-IsLive now h rows r k)))
