-- ===== src/Mcp/Cache.antt =====
-- The token cache of mcp_server/auth/token_verifier.py: its size, and where its entries come from.
use vargate_telemetry.Base.{
  suc, ◌≤◌, ◌<◌, ◌≡◌, some, [], ◌∷◌, String, str_eq, eq_iff, length, leb, arith, All, if-elim,
  Bool-cases, inl, inr, sym, subst,
}
use vargate_telemetry.Mcp.Tokens.{
  CacheEntry, TokenCache, cache_max_entries, lookup, drop_key, assign, evict, cache_put,
}

module _ (P : String × CacheEntry → Type 0) where
  pub drop_key-All : (h : String) (cache : TokenCache) → All P cache → All P (drop_key h cache)
  unfolding drop_key
  drop_key-All h [] a = tt
  drop_key-All h ((k, e) ∷ cache) a =
      if-elim (All P) (str_eq k h) cache ((k, e) ∷ drop_key h cache) (λ same. a.1)
        (λ other. (a.0, drop_key-All h cache a.1))

  assign-All :
      (h : String) (e : CacheEntry) (cache : TokenCache)
      → P (h, e)
      → All P cache
      → All P (assign h e cache)
  unfolding assign
  assign-All h e [] p a = (p, tt)
  assign-All h e ((k, f) ∷ cache) p a =
      if-elim (All P) (str_eq k h) ((k, e) ∷ cache) ((k, f) ∷ assign h e cache)
        (λ same. (subst (λ (z : String). P (z, e)) (sym ((eq_iff k h).0 same)) p, a.1))
        (λ other. (a.0, assign-All h e cache p a.1))

  evict-All : (cache : TokenCache) → All P cache → All P (evict cache)
  evict-All [] a = tt
  evict-All (e ∷ cache) a = a.1

  pub cache_put-All :
      (h : String) (e : CacheEntry) (cache : TokenCache)
      → P (h, e)
      → All P cache
      → All P (cache_put h e cache)
  unfolding cache_put
  cache_put-All h e cache p a = assign-All h e _ p (
      if-elim (All P) (leb cache_max_entries (length cache)) (evict cache) cache
        (λ full. evict-All cache a) (λ room. a))

  pub lookup-All :
      (h : String) (e : CacheEntry) (cache : TokenCache)
      → lookup h cache ≡ some e
      → All P cache
      → P (h, e)
  unfolding lookup
  lookup-All h e [] q a = cc
  lookup-All h e ((k, f) ∷ cache) q a = elim (Bool-cases (str_eq k h)) [
    | inl same ↦
        let found : some f ≡ some e = rw same at q in
        subst P (λ i. ((eq_iff k h).0 same i, some_eq found i)) a.0
    | inr other ↦ lookup-All h e cache (rw other at q) a.1
  ]
    where
      some_eq : {x y : CacheEntry} → some x ≡ some y → x ≡ y
      some_eq p = cc

pub length-drop_key : (h : String) (cache : TokenCache) → length (drop_key h cache) ≤ length cache
unfolding drop_key
length-drop_key h [] = omega arith
length-drop_key h ((k, e) ∷ cache) =
    if-elim (λ (z : TokenCache). length z ≤ suc (length cache)) (str_eq k h) cache
      ((k, e) ∷ drop_key h cache) (λ same. omega arith)
      (λ other. omega (arith, length-drop_key h cache))

length-assign :
    (h : String) (e : CacheEntry) (cache : TokenCache)
    → length (assign h e cache) ≤ suc (length cache)
unfolding assign
length-assign h e [] = omega arith
length-assign h e ((k, f) ∷ cache) =
    if-elim (λ (z : TokenCache). length z ≤ suc (suc (length cache))) (str_eq k h) ((k, e) ∷ cache)
      ((k, f) ∷ assign h e cache) (λ same. omega arith)
      (λ other. omega (arith, length-assign h e cache))

length-evict : (cache : TokenCache) → length cache ≤ 1024 → length (evict cache) < 1024
length-evict [] h = omega arith
length-evict (e ∷ cache) h = omega arith

-- A cache within its limit stays so when an entry is put into it.
pub length-cache_put :
    (h : String) (e : CacheEntry) (cache : TokenCache)
    → length cache ≤ cache_max_entries
    → length (cache_put h e cache) ≤ cache_max_entries
unfolding cache_put
length-cache_put h e cache le = elim (Bool-cases (leb cache_max_entries (length cache))) [
  | inl full ↦ rw full (omega (arith, length-assign h e (evict cache), length-evict cache le))
  | inr room ↦
      rw room
        (let below : length cache < 1024 = ground arith in omega (arith, length-assign h e cache))
]
