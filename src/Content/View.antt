-- ===== src/Content/View.antt =====
-- The abstract view of vargate_telemetry/crypto/seal.py: a key for a tenant, and for a tenant and
-- a name the key that was in force and the plaintext.
use vargate_telemetry.Base.{
  ℕ, Bool, true, false, ◌&&◌, Option, none, some, String, str_eq, codes_eq, if◌then◌else◌,
}
use vargate_telemetry.Base.Result.{Result, ok, err, failure, ◌>>=◌}
use vargate_telemetry.Content.Seal.{
  Bytes, Crypto, Vault, required, or_lookup_error, or_key_error, provision_tenant_dek,
  destroy_tenant_dek, seal_secret, unseal_secret,
}

pub record View : Type 0 where
  pub key : String → Option Bytes
  pub secret : String → String → Option (Bytes × Bytes)

pub data Call : Type 0 where
  provisions : String → Bytes → Call
  destroys : String → Call
  seals : ℕ → String → String → Bytes → Bytes → Call
  unseals : String → String → Call

pub data Outcome : Type 0 where
  flag : Bool → Outcome
  plaintext : Bytes → Outcome

abbrev pub set_key : String → Option Bytes → View → View
set_key t k a = record a { key = λ u. if str_eq t u then k else a.key u }

abbrev pub set_secret : String → String → Bytes × Bytes → View → View
set_secret t name s a = record a {
  secret = λ u other. if str_eq t u && str_eq name other then some s else a.secret u other;
}

abbrev pub reveal : Bytes → Bytes × Bytes → Result Outcome
reveal dek (sealed_by, p) = if codes_eq dek sealed_by then ok (plaintext p) else err failure

abbrev pub after {ℓ} : {A : Type ℓ} → View → Result (A × View) → Result A × View
after a (err e) = (err e, a)
after a (ok (x, a')) = (ok x, a')

abbrev pub provision_view : String → Bytes → View → Option Bytes → Outcome × View
provision_view t dek a (some k) = (flag false, a)
provision_view t dek a none = (flag true, set_key t (some dek) a)

abbrev pub destroy_view : String → View → Option Bytes → Outcome × View
destroy_view t a none = (flag false, a)
destroy_view t a (some k) = (flag true, set_key t none a)

-- What the calls promise: no wrapping, no tags, no ciphertext.
unfoldable pub promise : Option String → Call → View → Result Outcome × View
promise label (provisions t dek) a =
    after a
      (do named ← required t; has_label ← or_key_error label; ok (provision_view t dek a (a.key t)))
promise label (destroys t) a = after a (do named ← required t; ok (destroy_view t a (a.key t)))
promise label (seals now t name p iv) a = after a (do
  named ← required t
  has_name ← required name
  dek ← or_lookup_error (a.key t)
  ok (flag true, set_secret t name (dek, p) a))
promise label (unseals t name) a = (
  (do
    named ← required t
    has_name ← required name
    dek ← or_lookup_error (a.key t)
    s ← or_lookup_error (a.secret t name)
    reveal dek s),
  a,
)

abbrev pub outcome {ℓ} : {A : Type ℓ} → (A → Outcome) → Result A → Result Outcome
outcome f (ok a) = ok (f a)
outcome f (err e) = err e

unfoldable pub exec : Crypto → Call → Vault → Result Outcome × Vault
unfolding provision_tenant_dek destroy_tenant_dek seal_secret unseal_secret
exec c (provisions t dek) v = let x = provision_tenant_dek c t dek v in (outcome flag x.0, x.1)
exec c (destroys t) v = let x = destroy_tenant_dek t v in (outcome flag x.0, x.1)
exec c (seals now t name p iv) v =
    let x = seal_secret c now t name p iv v in (outcome flag x.0, x.1)
exec c (unseals t name) v = (outcome plaintext (unseal_secret c t name v), v)
