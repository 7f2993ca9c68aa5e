-- ===== src/Mcp/Oauth/Stores.antt =====
-- `_store_put` and `_store_pop` of mcp_server/auth/oauth_routes.py. A store is a dict that no code
-- iterates in order: the newest entry stands first here. Times are microseconds.
use vargate_telemetry.Base.{
  ℕ, ◌+◌, ◌*◌, ◌<◌, ◌≡◌, refl, false, Option, none, some, List, [], ◌∷◌, String, str_eq, eq_iff,
  leb, if◌then◌else◌, Bool-cases, inl, inr, arith,
}

pub record Entry {ℓ} (A : Type ℓ) : Type ℓ where
  pub payload : A
  pub expires_at_epoch : ℕ

abbrev pub Store {ℓ} : Type ℓ → Type ℓ
Store A = List (String × Entry A)

module _ {ℓ} {A : Type ℓ} where
  unfoldable pub discard : String → Store A → Store A
  discard k [] = []
  discard k ((j, e) ∷ store) =
      let others = discard k store in if str_eq j k then others else (j, e) ∷ others

  unfoldable pub find_entry : String → Store A → Option (Entry A)
  find_entry k [] = none
  find_entry k ((j, e) ∷ store) =
      let others = find_entry k store in if str_eq j k then some e else others

  unfoldable pub sweep : ℕ → Store A → Store A
  sweep now [] = []
  sweep now ((j, e) ∷ store) =
      let others = sweep now store in if leb e.expires_at_epoch now then others else (j, e) ∷ others

  unfoldable pub store_put : ℕ → String → A → ℕ → Store A → Store A
  unfolding discard sweep
  store_put now key payload ttl_seconds store =
      (key, record { payload = payload; expires_at_epoch = now + ttl_seconds * 1000000 })
      ∷ discard key (sweep now store)

  abbrev pub unexpired : ℕ → Option (Entry A) → Option A
  unexpired now none = none
  unexpired now (some e) = if leb e.expires_at_epoch now then none else some e.payload

  unfoldable pub store_pop : ℕ → String → Store A → Option A × Store A
  unfolding discard find_entry
  store_pop now key store = (unexpired now (find_entry key store), discard key store)

  find_entry-discard : (k : String) (store : Store A) → find_entry k (discard k store) ≡ none
  unfolding find_entry discard
  find_entry-discard k [] = refl
  find_entry-discard k ((j, e) ∷ store) = elim (Bool-cases (str_eq j k)) [
    | inl same ↦ rw same (find_entry-discard k store)
    | inr other ↦ rw (other, other) (find_entry-discard k store)
  ]

  pub store_pop-absent :
      (now : ℕ) (k : String) (store : Store A) → find_entry k (store_pop now k store).1 ≡ none
  unfolding store_pop
  store_pop-absent now k store = find_entry-discard k store

  pub store_pop-none :
      (now : ℕ) (k : String) (store : Store A)
      → find_entry k store ≡ none
      → (store_pop now k store).0 ≡ none
  unfolding store_pop
  store_pop-none now k store h = rw h refl

  discard-discard : (k : String) (store : Store A) → discard k (discard k store) ≡ discard k store
  unfolding discard
  discard-discard k [] = refl
  discard-discard k ((j, e) ∷ store) = elim (Bool-cases (str_eq j k)) [
    | inl same ↦ rw same (discard-discard k store)
    | inr other ↦ rw (other, other, discard-discard k store) refl
  ]

  pub store_pop-again :
      (now later : ℕ) (key : String) (store : Store A)
      → store_pop later key (store_pop now key store).1 ≡ (none, (store_pop now key store).1)
  unfolding store_pop
  store_pop-again now later key store =
      rw (find_entry-discard key store, discard-discard key store) refl

  -- What was put is popped until it expires.
  pub store_pop-store_put :
      (now later ttl : ℕ) (key : String) (a : A) (store : Store A)
      → later < now + ttl * 1000000
      → (store_pop later key (store_put now key a ttl store)).0 ≡ some a
  unfolding store_pop store_put find_entry
  store_pop-store_put now later ttl key a store lt =
      let live : leb (now + ttl * 1000000) later ≡ false = ground arith in
      rw ((eq_iff key key).1 refl, live) refl
