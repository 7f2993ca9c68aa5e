-- ===== src/Content/Shredded.antt =====
-- `destroy_tenant_dek` of vargate_telemetry/crypto/seal.py makes what a tenant sealed unreadable.
use vargate_telemetry.Base.{
  ◌≡◌, ◌≢◌, refl, Bool, false, Option, none, some, String, codes_eq, codes_eq-eq, eq_iff, is_empty,
  Bool-cases, inl, inr, ap, sym, ◌∙◌,
}
use vargate_telemetry.Base.Result.{
  ok, value_error, lookup_error, failure, err-ok, ok-injective, bind-ok,
}
use vargate_telemetry.Content.Seal.{
  Bytes, Crypto, Contract, Vault, required, or_lookup_error, provision_tenant_dek,
  destroy_tenant_dek, unseal_secret,
}
use vargate_telemetry.Content.View.{
  View, provisions, destroys, unseals, plaintext, reveal, provision_view, destroy_view, promise,
  outcome, exec,
}
use vargate_telemetry.Content.Refinement.{Implements}
use vargate_telemetry.Content.Refined.{call-Agrees}

-- What is revealed under a key that sealed nothing.
reveal-other : (dek p : Bytes) (s : Bytes × Bytes) → s.0 ≢ dek → reveal dek s ≢ ok (plaintext p)
reveal-other dek p s n e = elim (Bool-cases (codes_eq dek s.0)) [
  | inl same ↦ n (sym (codes_eq-eq dek s.0 same))
  | inr other ↦ err-ok failure (plaintext p) (rw other at e)
]

or_lookup_error-ok : {A : Type 0} (o : Option A) (a : A) → or_lookup_error o ≡ ok a → o ≡ some a
or_lookup_error-ok none a h = elim (err-ok lookup_error a h) [ ]
or_lookup_error-ok (some b) a h = ap some (ok-injective b a h)

required-ok : (s : String) (b : Bool) → required s ≡ ok b → is_empty s ≡ false
required-ok s b h = elim (Bool-cases (is_empty s)) [
  | inl empty ↦ elim (err-ok value_error b (rw empty at h)) [ ]
  | inr full ↦ full
]

unsealed :
    (label : Option String) (t name : String) (a : View) (p : Bytes)
    → (is_empty t ≡ false
        → (k : Bytes) → a.key t ≡ some k
        → (s : Bytes × Bytes) → a.secret t name ≡ some s
        → s.0 ≢ k)
    → (promise label (unseals t name) a).0 ≢ ok (plaintext p)
unfolding promise
unsealed label t name a p n h =
    let (b, named, h1) = bind-ok (required t) _ (plaintext p) h in
    let (b', has_name, h2) = bind-ok (required name) _ (plaintext p) h1 in
    let (dek, key, h3) = bind-ok (or_lookup_error (a.key t)) _ (plaintext p) h2 in
    let (s, secret, h4) = bind-ok (or_lookup_error (a.secret t name)) _ (plaintext p) h3 in
    reveal-other dek p s
      (n (required-ok t b named) dek (or_lookup_error-ok (a.key t) dek key) s
        (or_lookup_error-ok (a.secret t name) s secret))
      h4

-- The view after the key is destroyed: no key, and the same secrets.
abbrev Keyless : String → View → View → Type 0
Keyless t a b = (b.key t ≡ none) × ((name : String) → b.secret t name ≡ a.secret t name)

destroyed_view :
    (t : String) (a : View) (k : Option Bytes) → a.key t ≡ k → Keyless t a (destroy_view t a k).1
destroyed_view t a none e = (e, λ name. refl)
destroyed_view t a (some k) e = (rw ((eq_iff t t).1 refl) refl, λ name. refl)

destroyed :
    (label : Option String) (t : String) (a : View)
    → is_empty t ≡ false
    → Keyless t a (promise label (destroys t) a).1
unfolding promise
destroyed label t a full = rw full (destroyed_view t a (a.key t) refl)

-- After the next provision the tenant has the new key or none, and the same secrets.
abbrev Rekeyed : String → Bytes → View → View → Type 0
Rekeyed t fresh a b =
    ((k : Bytes) → b.key t ≡ some k → k ≡ fresh)
    × ((name : String) → b.secret t name ≡ a.secret t name)

provisioned_view :
    (t : String) (fresh : Bytes) (a : View) (k : Option Bytes)
    → k ≡ none
    → Rekeyed t fresh a (provision_view t fresh a k).1
provisioned_view t fresh a none e =
    ((λ k h. some-injective fresh k (rw ((eq_iff t t).1 refl) at h)), λ name. refl)
  where
    some-injective : (x y : Bytes) → some x ≡ some y → y ≡ x
    some-injective x y q = cc
provisioned_view t fresh a (some k) e = cc

provisioned :
    (label : Option String) (t : String) (fresh : Bytes) (a : View)
    → is_empty t ≡ false
    → a.key t ≡ none
    → Rekeyed t fresh a (promise label (provisions t fresh) a).1
unfolding promise
provisioned none t fresh a full e = rw full ((λ k h. never k (sym e ∙ h)), λ name. refl)
  where
    never : (k : Bytes) → none ≡ some k → k ≡ fresh
    never k q = cc
provisioned (some label) t fresh a full e = rw full (provisioned_view t fresh a (a.key t) e)

-- Once a tenant's key is destroyed nothing that it sealed is read, neither before a key is provisioned
-- again nor after, where the new key is not one that sealed the secret.
pub destroy-unreadable :
    (c : Crypto) (v : Vault) (a : View) (t name : String) (fresh p : Bytes)
    → Contract c
    → Implements c v a
    → ((s : Bytes × Bytes) → a.secret t name ≡ some s → s.0 ≢ fresh)
    → let v' = (destroy_tenant_dek t v).1 in
      (unseal_secret c t name v' ≢ ok p)
      × (unseal_secret c t name (provision_tenant_dek c t fresh v').1 ≢ ok p)
unfolding exec
destroy-unreadable c v a t name fresh p l h n =
    let label = c.kek_label in
    let a1 = (promise label (destroys t) a).1 in
    let a2 = (promise label (provisions t fresh) a1).1 in
    let h1 = (call-Agrees c l (destroys t) v a h).1 in
    let v1 = (destroy_tenant_dek t v).1 in
    let h2 = (call-Agrees c l (provisions t fresh) v1 a1 h1).1 in
    let v2 = (provision_tenant_dek c t fresh v1).1 in
    (
      (λ e.
          unsealed label t name a1 p
            (λ full k key s secret. keyless k (sym (destroyed label t a full).0 ∙ key))
            (sym (call-Agrees c l (unseals t name) v1 a1 h1).0 ∙ ap (outcome plaintext) e)),
      (λ e.
          unsealed label t name a2 p
            (λ full k key s secret same.
              let gone = destroyed label t a full in
              let new = provisioned label t fresh a1 full gone.0 in
              n s (sym (new.1 name ∙ gone.1 name) ∙ secret) (same ∙ new.0 k key))
            (sym (call-Agrees c l (unseals t name) v2 a2 h2).0 ∙ ap (outcome plaintext) e)),
    )
  where
    keyless : {B : Type 0} (k : Bytes) → none ≡ some k → B
    keyless k q = cc
