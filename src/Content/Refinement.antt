-- ===== src/Content/Refinement.antt =====
-- vargate_telemetry/crypto/seal.py against its abstract view: the relation, and the calls on keys.
use vargate_telemetry.Base.{
  codes_eq_self, ◌≡◌, refl, true, false, Option, none, some, ◌∷◌, String, str_eq, eq_iff, is_empty,
  if◌then◌else◌, Bool-cases, inl, inr, ap, subst,
}
use vargate_telemetry.Base.Result.{Result, ok, ◌>>=◌}
use vargate_telemetry.Content.Seal.{
  Bytes, Crypto, Contract, TenantDek, EncryptedSecret, Vault, find_dek, drop_dek, find_secret,
  aad_for_secret, tag_message, compute_integrity_tag, verify_integrity_tag, or_lookup_error,
  or_key_error, commit, add_dek, provision_tenant_dek, shred, destroy_tenant_dek,
}
use vargate_telemetry.Content.SealLaws.{find_dek-drop_dek, find_dek-drop_dek_ne}
use vargate_telemetry.Content.View.{
  View, provisions, destroys, Outcome, flag, set_key, after, provision_view, destroy_view, promise,
  outcome, exec,
}

module _ (c : Crypto) where
  abbrev pub KeyMatches : String → Option TenantDek → Option Bytes → Type 0
  KeyMatches t none none = Unit
  KeyMatches t (some d) (some k) =
      (d.wrapped_dek ≡ c.wrap_dek k) × (d.integrity_tag ≡ c.hmac (tag_message t d.wrapped_dek))
  KeyMatches t _ _ = ⊥

  abbrev pub SecretMatches :
      String → String → Option EncryptedSecret → Option (Bytes × Bytes) → Type 0
  SecretMatches t name none none = Unit
  SecretMatches t name (some r) (some (dek, p)) =
      (r.ciphertext ≡ c.encrypt dek r.iv p (aad_for_secret t name))
      × (r.integrity_tag ≡ c.hmac (tag_message t r.ciphertext))
  SecretMatches t name _ _ = ⊥

  -- The tables hold what the view says: wrapped, encrypted and tagged.
  pub record Implements (v : Vault) (a : View) : Type 0 where
    pub keys : (t : String) → KeyMatches t (find_dek t v.deks) (a.key t)
    pub secrets :
        (t name : String) → SecretMatches t name (find_secret t name v.secrets) (a.secret t name)

  abbrev pub Agrees : Result Outcome × Vault → Result Outcome × View → Type 0
  Agrees x y = (x.0 ≡ y.0) × Implements x.1 y.1

  pub verified :
      (t : String) (bytes tag : Bytes)
      → is_empty t ≡ false
      → tag ≡ c.hmac (tag_message t bytes)
      → verify_integrity_tag c t bytes tag ≡ ok true
  unfolding verify_integrity_tag compute_integrity_tag
  verified t bytes tag full e = rw (full, e, codes_eq_self (c.hmac (tag_message t bytes))) refl

  pub open-key :
      (t : String) (o : Option TenantDek) (k : Option Bytes)
      → Contract c
      → is_empty t ≡ false
      → KeyMatches t o k
      → (do
        d ← or_lookup_error o
        ok_ ← verify_integrity_tag c t d.wrapped_dek d.integrity_tag
        c.unwrap_dek d.wrapped_dek)
        ≡ or_lookup_error k
  open-key t none none l full h = refl
  open-key t none (some k) l full h = absurd h
  open-key t (some d) none l full h = absurd h
  open-key t (some d) (some k) l full (w, tag) =
      rw (verified t d.wrapped_dek d.integrity_tag full tag, w) (l.unwraps k)

  provision-new :
      (t label : String) (dek : Bytes) (v : Vault) (a : View)
      → is_empty t ≡ false
      → Implements v a
      → Agrees
          (let x = commit v (add_dek c t label dek v none) in (outcome flag x.0, x.1))
          (ok (flag true), set_key t (some dek) a)
  unfolding compute_integrity_tag
  provision-new t label dek v a full h =
      rw full (refl, record { keys = keyed; secrets = h.secrets })
    where
      new : TenantDek
      new = record {
        tenant_id = t;
        wrapped_dek = c.wrap_dek dek;
        kek_label = label;
        integrity_tag = c.hmac (tag_message t (c.wrap_dek dek));
      }

      keyed :
          (u : String)
          → KeyMatches u (find_dek u (new ∷ v.deks)) (if str_eq t u then some dek else a.key u)
      keyed u = elim (Bool-cases (str_eq t u)) [
        | inl same ↦
            unfold find_dek in
            rw same (
              refl,
              ap (λ (z : String). c.hmac (tag_message z (c.wrap_dek dek))) ((eq_iff t u).0 same),
            )
        | inr other ↦ unfold find_dek in rw other (h.keys u)
      ]

  provision-key :
      (t label : String) (dek : Bytes) (v : Vault) (a : View) (o : Option TenantDek)
      (k : Option Bytes)
      → is_empty t ≡ false
      → KeyMatches t o k
      → Implements v a
      → Agrees
          (let x = commit v (add_dek c t label dek v o) in (outcome flag x.0, x.1))
          (after a (ok (provision_view t dek a k)))
  provision-key t label dek v a none none full m h = provision-new t label dek v a full h
  provision-key t label dek v a none (some k) full m h = absurd m
  provision-key t label dek v a (some d) none full m h = absurd m
  provision-key t label dek v a (some d) (some k) full m h = (refl, h)

  provision-label :
      (t : String) (dek : Bytes) (v : Vault) (a : View) (o : Option String)
      → is_empty t ≡ false
      → Implements v a
      → Agrees
          (let x =
              commit v (do label ← or_key_error o; add_dek c t label dek v (find_dek t v.deks)) in
            (outcome flag x.0, x.1))
          (after a (do has_label ← or_key_error o; ok (provision_view t dek a (a.key t))))
  provision-label t dek v a none full h = (refl, h)
  provision-label t dek v a (some label) full h =
      provision-key t label dek v a (find_dek t v.deks) (a.key t) full (h.keys t) h

  pub provision-Agrees :
      (t : String) (dek : Bytes) (v : Vault) (a : View)
      → Implements v a
      → Agrees (exec c (provisions t dek) v) (promise c.kek_label (provisions t dek) a)
  unfolding exec promise provision_tenant_dek
  provision-Agrees t dek v a h = elim (Bool-cases (is_empty t)) [
    | inl empty ↦ rw empty (refl, h)
    | inr full ↦ rw full (provision-label t dek v a c.kek_label full h)
  ]

  destroy-key :
      (t : String) (v : Vault) (a : View) (o : Option TenantDek) (k : Option Bytes)
      → KeyMatches t o k
      → Implements v a
      → Agrees
          (let x = commit v (ok (shred t v o)) in (outcome flag x.0, x.1))
          (after a (ok (destroy_view t a k)))
  destroy-key t v a none none m h = (refl, h)
  destroy-key t v a none (some k) m h = absurd m
  destroy-key t v a (some d) none m h = absurd m
  destroy-key t v a (some d) (some k) m h = (refl, record { keys = keyed; secrets = h.secrets })
    where
      keyed :
          (u : String)
          → KeyMatches u (find_dek u (drop_dek t v.deks)) (if str_eq t u then none else a.key u)
      keyed u = elim (Bool-cases (str_eq t u)) [
        | inl same ↦ rw same (
            subst (λ (z : String). KeyMatches u (find_dek z (drop_dek t v.deks)) none)
              ((eq_iff t u).0 same) (rw (find_dek-drop_dek t v.deks) tt))
        | inr other ↦ rw (other, find_dek-drop_dek_ne t u v.deks other) (h.keys u)
      ]

  pub destroy-Agrees :
      (t : String) (v : Vault) (a : View)
      → Implements v a
      → Agrees (exec c (destroys t) v) (promise c.kek_label (destroys t) a)
  unfolding exec promise destroy_tenant_dek
  destroy-Agrees t v a h = elim (Bool-cases (is_empty t)) [
    | inl empty ↦ rw empty (refl, h)
    | inr full ↦ rw full (destroy-key t v a (find_dek t v.deks) (a.key t) (h.keys t) h)
  ]
