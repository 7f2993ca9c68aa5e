-- ===== src/Mcp/Oauth/Kept.antt =====
-- Predicates on every entry of a store of mcp_server/auth/oauth_routes.py, or of oauth_state.py.
use vargate_telemetry.Base.{
  ℕ, Option, none, some, [], ◌∷◌, String, str_eq, is_empty, leb, ltb, if◌then◌else◌, All, All-map,
  if-elim,
}
use vargate_telemetry.Base.Result.{Result, ok, err}
use vargate_telemetry.Mcp.States.{OauthState, Stored, Redis, remove, find_live, store, claim}
use vargate_telemetry.Mcp.Oauth.Stores.{
  Entry, Store, discard, find_entry, sweep, store_put, unexpired, store_pop,
}

-- What holds of a payload that may be absent.
abbrev pub IfSome {ℓ} : {A : Type ℓ} → (A → Type 0) → Option A → Type 0
IfSome P none = Unit
IfSome P (some a) = P a

module _ {A : Type 0} (P : A → Type 0) where
  abbrev pub Holds : Store A → Type 0
  Holds store = All (λ (x : String × Entry A). P x.1.payload) store

  discard-Holds : (k : String) (store : Store A) → Holds store → Holds (discard k store)
  unfolding discard
  discard-Holds k [] h = tt
  discard-Holds k ((j, e) ∷ store) h =
      if-elim Holds (str_eq j k) (discard k store) ((j, e) ∷ discard k store)
        (λ same. discard-Holds k store h.1) (λ other. (h.0, discard-Holds k store h.1))

  sweep-Holds : (now : ℕ) (store : Store A) → Holds store → Holds (sweep now store)
  unfolding sweep
  sweep-Holds now [] h = tt
  sweep-Holds now ((j, e) ∷ store) h =
      if-elim Holds (leb e.expires_at_epoch now) (sweep now store) ((j, e) ∷ sweep now store)
        (λ stale. sweep-Holds now store h.1) (λ live. (h.0, sweep-Holds now store h.1))

  pub store_put-Holds :
      (now ttl : ℕ) (key : String) (a : A) (store : Store A)
      → P a
      → Holds store
      → Holds (store_put now key a ttl store)
  unfolding store_put
  store_put-Holds now ttl key a store p h =
      (p, discard-Holds key (sweep now store) (sweep-Holds now store h))

  abbrev IfEntry : Option (Entry A) → Type 0
  IfEntry o = IfSome (λ (e : Entry A). P e.payload) o

  find_entry-IfSome : (k : String) (store : Store A) → Holds store → IfEntry (find_entry k store)
  unfolding find_entry
  find_entry-IfSome k [] h = tt
  find_entry-IfSome k ((j, e) ∷ store) h =
      if-elim IfEntry (str_eq j k) (some e) (find_entry k store) (λ same. h.0)
        (λ other. find_entry-IfSome k store h.1)

  unexpired-IfSome : (now : ℕ) (o : Option (Entry A)) → IfEntry o → IfSome P (unexpired now o)
  unexpired-IfSome now none h = tt
  unexpired-IfSome now (some e) h =
      if-elim (IfSome P) (leb e.expires_at_epoch now) none (some e.payload) (λ stale. tt)
        (λ live. h)

  pub store_pop-Holds :
      (now : ℕ) (key : String) (store : Store A)
      → Holds store
      → IfSome P (store_pop now key store).0 × Holds (store_pop now key store).1
  unfolding store_pop
  store_pop-Holds now key store h = (
    unexpired-IfSome now (find_entry key store) (find_entry-IfSome key store h),
    discard-Holds key store h,
  )

module _ {A : Type 0} (P Q : A → Type 0) where
  pub Holds-map : ((a : A) → P a → Q a) → (entries : Store A) → Holds P entries → Holds Q entries
  Holds-map step entries h =
      All-map (λ (x : String × Entry A). P x.1.payload) (λ (x : String × Entry A). Q x.1.payload)
        (λ x. step x.1.payload) entries h

module _ (P : OauthState → Type 0) where
  abbrev pub HoldsState : Redis → Type 0
  HoldsState redis = All (λ (x : String × Stored). P x.1.payload) redis

  remove-HoldsState : (k : String) (redis : Redis) → HoldsState redis → HoldsState (remove k redis)
  unfolding remove
  remove-HoldsState k [] h = tt
  remove-HoldsState k ((j, v) ∷ rest) h =
      if-elim HoldsState (str_eq j k) (remove k rest) ((j, v) ∷ remove k rest)
        (λ same. remove-HoldsState k rest h.1) (λ other. (h.0, remove-HoldsState k rest h.1))

  find_live-IfSome :
      (now : ℕ) (k : String) (redis : Redis) → HoldsState redis → IfSome P (find_live now k redis)
  unfolding find_live
  find_live-IfSome now k [] h = tt
  find_live-IfSome now k ((j, v) ∷ rest) h =
      if-elim (IfSome P) (str_eq j k) (if ltb now v.expires_at then some v.payload else none)
        (find_live now k rest)
        (λ same.
          if-elim (IfSome P) (ltb now v.expires_at) (some v.payload) none (λ live. h.0)
            (λ stale. tt))
        (λ other. find_live-IfSome now k rest h.1)

  abbrev pub IfStored : Result Redis → Type 0
  IfStored (ok redis) = HoldsState redis
  IfStored (err e) = Unit

  pub store-HoldsState :
      (now : ℕ) (k : String) (p : OauthState) (redis : Redis)
      → P p
      → HoldsState redis
      → IfStored (store now k p redis)
  unfolding store
  store-HoldsState now k p redis q h =
      if-elim IfStored (is_empty k) _ _ (λ empty. tt) (λ full. (q, remove-HoldsState k redis h))

  pub claim-HoldsState :
      (now : ℕ) (k : String) (redis : Redis)
      → HoldsState redis
      → IfSome P (claim now k redis).0 × HoldsState (claim now k redis).1
  unfolding claim
  claim-HoldsState now k redis h =
      if-elim (λ (x : Option OauthState × Redis). IfSome P x.0 × HoldsState x.1) (is_empty k)
        (none, redis) (find_live now k redis, remove k redis) (λ empty. (tt, h))
        (λ full. (find_live-IfSome now k redis h, remove-HoldsState k redis h))

pub HoldsState-map :
    (P Q : OauthState → Type 0)
    → ((a : OauthState) → P a → Q a)
    → (redis : Redis) → HoldsState P redis
    → HoldsState Q redis
HoldsState-map P Q step redis h =
    All-map (λ (x : String × Stored). P x.1.payload) (λ (x : String × Stored). Q x.1.payload)
      (λ x. step x.1.payload) redis h
