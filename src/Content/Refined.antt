-- ===== src/Content/Refined.antt =====
-- vargate_telemetry/crypto/seal.py against its abstract view: the calls on secrets, and any sequence of
-- calls.
use vargate_telemetry.Base.{
  codes_eq-eq, codes_eq_self, ℕ, ◌≡◌, refl, Bool, true, false, ◌&&◌, Option, none, some, List, [],
  ◌∷◌, String, str_eq, codes_eq, eq_iff, is_empty, and-eq-true, if◌then◌else◌, Bool-cases, inl, inr,
  sym, ap, subst, true-false, ◌⊎◌,
}
use vargate_telemetry.Base.Result.{Result, ok, err, value_error, ◌>>=◌}
use vargate_telemetry.Content.Seal.{
  Bytes, Crypto, Contract, EncryptedSecret, Vault, find_dek, find_secret, aad_for_secret,
  tag_message, compute_integrity_tag, verify_integrity_tag, or_lookup_error, commit, open_dek,
  upsert_secret, seal_secret, unseal_secret, with_names, seal_under, unseal_under,
}
use vargate_telemetry.Content.SealLaws.{find_secret-upsert_secret, find_secret-upsert_secret_ne}
use vargate_telemetry.Content.View.{
  View, Call, provisions, destroys, seals, unseals, Outcome, flag, plaintext, set_secret, reveal,
  after, promise, outcome, exec,
}
use vargate_telemetry.Content.Refinement.{
  SecretMatches, Implements, Agrees, verified, open-key, provision-Agrees, destroy-Agrees,
}

module _ (c : Crypto) (l : Contract c) where
  -- The encrypted row and the view's entry, after a seal.
  sealed-Implements :
      (now : ℕ) (t name : String) (dek p iv : Bytes) (v : Vault) (a : View)
      → Implements c v a
      → let ciphertext = c.encrypt dek iv p (aad_for_secret t name) in
        Implements c
          (record v {
            secrets =
                upsert_secret now t name iv ciphertext
                  (c.hmac (tag_message t ciphertext))
                  v.secrets;
          })
          (set_secret t name (dek, p) a)
  sealed-Implements now t name dek p iv v a h = record { keys = h.keys; secrets = found }
    where
      ciphertext : Bytes
      ciphertext = c.encrypt dek iv p (aad_for_secret t name)

      tag : Bytes
      tag = c.hmac (tag_message t ciphertext)

      own :
          SecretMatches c t name
            (find_secret t name (upsert_secret now t name iv ciphertext tag v.secrets))
            (some (dek, p))
      own =
          let (r, e, (i, ct, tg)) =
            find_secret-upsert_secret now t name iv ciphertext tag v.secrets in
          rw e (rw (i, ct) refl, rw (ct, tg) refl)

      found :
          (u other : String)
          → SecretMatches c u other
              (find_secret u other (upsert_secret now t name iv ciphertext tag v.secrets))
              (if str_eq t u && str_eq name other then some (dek, p) else a.secret u other)
      found u other = elim (Bool-cases (str_eq t u && str_eq name other)) [
        | inl same ↦ rw same (moved (and-eq-true _ _ same))
        | inr apart ↦
            rw
              (
                apart,
                find_secret-upsert_secret_ne now t name u other iv ciphertext tag v.secrets apart,
              )
              (h.secrets u other)
      ]
        where
          moved :
              (str_eq t u ≡ true) × (str_eq name other ≡ true)
              → SecretMatches c u other
                  (find_secret u other (upsert_secret now t name iv ciphertext tag v.secrets))
                  (some (dek, p))
          moved (q, n) =
              subst
                (λ (z : String × String).
                  SecretMatches c z.0 z.1
                    (find_secret z.0 z.1 (upsert_secret now t name iv ciphertext tag v.secrets))
                    (some (dek, p)))
                (λ i. ((eq_iff t u).0 q i, (eq_iff name other).0 n i)) own

  open-view :
      (t : String) (v : Vault) (a : View)
      → is_empty t ≡ false
      → Implements c v a
      → open_dek c t v ≡ or_lookup_error (a.key t)
  unfolding open_dek
  open-view t v a full h = open-key c t (find_dek t v.deks) (a.key t) l full (h.keys t)

  both_named :
      {A B : Type 0} (Q : Result A → Result B → Type 0) (t name : String) (x : Result A)
      (y : Result B)
      → Q (err value_error) (err value_error)
      → (is_empty t ≡ false → Q x y)
      → Q (with_names t name x) (with_names t name y)
  both_named Q t name x y refused h = elim (Bool-cases (is_empty t)) [
    | inl empty ↦ rw empty refused
    | inr full ↦ elim (Bool-cases (is_empty name)) [
      | inl empty ↦ rw (full, empty) refused
      | inr named ↦ rw (full, named) (h full)
    ]
  ]

  abbrev sealing : Vault → Result (Bool × Vault) → Result Outcome × Vault
  sealing v r = let x = commit v r in (outcome flag x.0, x.1)

  seal-key :
      (now : ℕ) (t name : String) (p iv : Bytes) (v : Vault) (a : View) (k : Option Bytes)
      → is_empty t ≡ false
      → Implements c v a
      → Agrees c
          (sealing v (or_lookup_error k >>= seal_under c now t name p iv v))
          (after a (do dek ← or_lookup_error k; ok (flag true, set_secret t name (dek, p) a)))
  unfolding seal_under compute_integrity_tag
  seal-key now t name p iv v a none full h = (refl, h)
  seal-key now t name p iv v a (some dek) full h =
      rw full (refl, sealed-Implements now t name dek p iv v a h)

  seal-Agrees :
      (now : ℕ) (t name : String) (p iv : Bytes) (v : Vault) (a : View)
      → Implements c v a
      → Agrees c (exec c (seals now t name p iv) v) (promise c.kek_label (seals now t name p iv) a)
  unfolding exec promise seal_secret
  seal-Agrees now t name p iv v a h =
      both_named (λ x y. Agrees c (sealing v x) (after a y)) t name
        (open_dek c t v >>= seal_under c now t name p iv v)
        (do dek ← or_lookup_error (a.key t); ok (flag true, set_secret t name (dek, p) a)) (refl, h)
        (λ full.
          subst
            (λ (x : Result Bytes). Agrees c (sealing v (x >>= seal_under c now t name p iv v)) (
              after a
                (do dek ← or_lookup_error (a.key t); ok (flag true, set_secret t name (dek, p) a))))
            (sym (open-view t v a full h)) (seal-key now t name p iv v a (a.key t) full h))

  revealed :
      (t name : String) (dek : Bytes) (o : Option EncryptedSecret) (s : Option (Bytes × Bytes))
      → is_empty t ≡ false
      → SecretMatches c t name o s
      → outcome plaintext (do
        r ← or_lookup_error o
        ok_ ← verify_integrity_tag c t r.ciphertext r.integrity_tag
        c.decrypt dek r.iv r.ciphertext (aad_for_secret t name))
        ≡ (do x ← or_lookup_error s; reveal dek x)
  revealed t name dek none none full m = refl
  revealed t name dek none (some s) full m = absurd m
  revealed t name dek (some r) none full m = absurd m
  revealed t name dek (some r) (some (sealed_by, p)) full (ct, tag) =
      rw (verified c t r.ciphertext r.integrity_tag full tag, ct)
        (opened (Bool-cases (codes_eq dek sealed_by)))
    where
      opened :
          (codes_eq dek sealed_by ≡ true) ⊎ (codes_eq dek sealed_by ≡ false)
          → outcome plaintext (
              c.decrypt dek r.iv
                (c.encrypt sealed_by r.iv p (aad_for_secret t name))
                (aad_for_secret t name))
            ≡ reveal dek (sealed_by, p)
      opened (inl same) =
          rw (same, codes_eq-eq dek sealed_by same)
            (ap (outcome plaintext) (l.decrypts sealed_by r.iv p (aad_for_secret t name)))
      opened (inr other) = rw other (
          ap (outcome plaintext) (
            l.authenticates dek sealed_by r.iv p (aad_for_secret t name)
              (λ e. true-false (codes_eq dek sealed_by) (rw e (codes_eq_self sealed_by)) other)))

  unseal-key :
      (t name : String) (v : Vault) (a : View) (k : Option Bytes)
      → is_empty t ≡ false
      → Implements c v a
      → outcome plaintext (or_lookup_error k >>= unseal_under c t name v)
        ≡ (do dek ← or_lookup_error k; s ← or_lookup_error (a.secret t name); reveal dek s)
  unfolding unseal_under
  unseal-key t name v a none full h = refl
  unseal-key t name v a (some dek) full h =
      revealed t name dek (find_secret t name v.secrets) (a.secret t name) full (h.secrets t name)

  unseal-Agrees :
      (t name : String) (v : Vault) (a : View)
      → Implements c v a
      → Agrees c (exec c (unseals t name) v) (promise c.kek_label (unseals t name) a)
  unfolding exec promise unseal_secret
  unseal-Agrees t name v a h = (
    both_named (λ x y. outcome plaintext x ≡ y) t name (open_dek c t v >>= unseal_under c t name v)
        (do dek ← or_lookup_error (a.key t); s ← or_lookup_error (a.secret t name); reveal dek s)
        refl
        (λ full.
          subst
            (λ (x : Result Bytes). outcome plaintext (x >>= unseal_under c t name v) ≡ (do
              dek ← or_lookup_error (a.key t)
              s ← or_lookup_error (a.secret t name)
              reveal dek s))
            (sym (open-view t v a full h)) (unseal-key t name v a (a.key t) full h)),
    h,
  )

  -- Every call answers what the abstract view promises, errors included, and leaves tables that
  -- implement the view that the call leaves.
  pub call-Agrees :
      (call : Call) (v : Vault) (a : View)
      → Implements c v a
      → Agrees c (exec c call v) (promise c.kek_label call a)
  call-Agrees (provisions t dek) v a h = provision-Agrees c t dek v a h
  call-Agrees (destroys t) v a h = destroy-Agrees c t v a h
  call-Agrees (seals now t name p iv) v a h = seal-Agrees now t name p iv v a h
  call-Agrees (unseals t name) v a h = unseal-Agrees t name v a h

-- The answers to a sequence of calls.
unfoldable pub answers : Crypto → List Call → Vault → List (Result Outcome)
unfolding exec
answers c [] v = []
answers c (call ∷ calls) v = let x = exec c call v in x.0 ∷ answers c calls x.1

unfoldable pub promised : Option String → List Call → View → List (Result Outcome)
unfolding promise
promised label [] a = []
promised label (call ∷ calls) a = let y = promise label call a in y.0 ∷ promised label calls y.1
