-- ===== src/Content/Seal.antt =====
-- vargate_telemetry/crypto/seal.py and integrity.py: a tenant's data encryption key and the secrets
-- sealed under it. Texts are ASCII; a session of one tenant sees its rows only.
use vargate_telemetry.Base.{
  concat, ◌≡◌, ◌≢◌, ℕ, Bool, true, false, ◌&&◌, Option, none, some, List, [], ◌∷◌, ◌++◌, String,
  str_eq, codes, codes_eq, is_empty, if◌then◌else◌,
}
use vargate_telemetry.Base.Result.{
  Result, ok, err, value_error, lookup_error, integrity_error, failure, ◌>>=◌,
}

abbrev pub Bytes : Type 0
Bytes = List ℕ

-- What is taken as it is documented: the key wrap of crypto/hsm.py, whose cipher is the HSM's, AES-GCM
-- of crypto/dek.py with its nonce as an argument, and the HMAC under the key that is derived from the
-- HSM's; and the label that the environment names. Both modules check their arguments' lengths; keys
-- are always 32 random bytes.
pub record Crypto : Type 0 where
  pub kek_label : Option String
  pub wrap_dek : Bytes → Bytes
  pub unwrap_dek : Bytes → Result Bytes
  pub encrypt : Bytes → Bytes → Bytes → Bytes → Bytes
  pub decrypt : Bytes → Bytes → Bytes → Bytes → Result Bytes
  pub hmac : Bytes → Bytes

-- Their documented contract: what is wrapped unwraps, and what is encrypted decrypts under the same
-- key and associated data, and under another key fails to authenticate.
pub record Contract (c : Crypto) : Type 0 where
  pub unwraps : (dek : Bytes) → c.unwrap_dek (c.wrap_dek dek) ≡ ok dek
  pub decrypts : (dek iv p aad : Bytes) → c.decrypt dek iv (c.encrypt dek iv p aad) aad ≡ ok p
  pub authenticates :
      (dek other iv p aad : Bytes)
      → dek ≢ other
      → c.decrypt dek iv (c.encrypt other iv p aad) aad ≡ err failure

pub record TenantDek : Type 0 where
  pub tenant_id : String
  pub wrapped_dek : Bytes
  pub kek_label : String
  pub integrity_tag : Bytes

pub record EncryptedSecret : Type 0 where
  pub tenant_id : String
  pub secret_name : String
  pub iv : Bytes
  pub ciphertext : Bytes
  pub integrity_tag : Bytes
  pub last_rotated_at : ℕ

-- The tables `tenant_deks` and `encrypted_secrets`.
pub record Vault : Type 0 where
  pub deks : List TenantDek
  pub secrets : List EncryptedSecret

unfoldable pub find_dek : String → List TenantDek → Option TenantDek
find_dek t [] = none
find_dek t (d ∷ deks) = let rest = find_dek t deks in if str_eq d.tenant_id t then some d else rest

unfoldable pub drop_dek : String → List TenantDek → List TenantDek
drop_dek t [] = []
drop_dek t (d ∷ deks) =
    let rest = drop_dek t deks in if str_eq d.tenant_id t then rest else d ∷ rest

abbrev pub names : String → String → EncryptedSecret → Bool
names t name r = str_eq r.tenant_id t && str_eq r.secret_name name

unfoldable pub find_secret : String → String → List EncryptedSecret → Option EncryptedSecret
find_secret t name [] = none
find_secret t name (r ∷ secrets) =
    let rest = find_secret t name secrets in if names t name r then some r else rest

-- `_aad_for_secret`.
unfoldable pub aad_for_secret : String → String → Bytes
unfolding concat
aad_for_secret t name = codes (concat "vargate.telemetry/secret/" (concat t (concat "/" name)))

abbrev pub tag_message : String → Bytes → Bytes
tag_message t ciphertext = codes t ++ b':' ∷ ciphertext

unfoldable pub compute_integrity_tag : Crypto → String → Bytes → Result Bytes
compute_integrity_tag c t ciphertext =
    if is_empty t then err value_error else ok (c.hmac (tag_message t ciphertext))

unfoldable pub verify_integrity_tag : Crypto → String → Bytes → Bytes → Result Bool
unfolding compute_integrity_tag
verify_integrity_tag c t ciphertext tag = do
  expected ← compute_integrity_tag c t ciphertext
  if codes_eq expected tag then ok true else err integrity_error

abbrev pub required : String → Result Bool
required s = if is_empty s then err value_error else ok true

abbrev pub or_lookup_error {ℓ} : {A : Type ℓ} → Option A → Result A
or_lookup_error none = err lookup_error
or_lookup_error (some a) = ok a

abbrev pub or_key_error : Option String → Result String
or_key_error none = err failure
or_key_error (some s) = ok s

-- A call that raises leaves the tables as they were.
abbrev pub commit {ℓ} : {A : Type ℓ} → Vault → Result (A × Vault) → Result A × Vault
commit v (err e) = (err e, v)
commit v (ok (a, v')) = (ok a, v')

abbrev pub add_dek :
    Crypto → String → String → Bytes → Vault → Option TenantDek → Result (Bool × Vault)
add_dek c t label dek v (some d) = ok (false, v)
add_dek c t label dek v none = do
  tag ← compute_integrity_tag c t (c.wrap_dek dek)
  ok (
    true,
    record v {
      deks =
          record {
            tenant_id = t;
            wrapped_dek = c.wrap_dek dek;
            kek_label = label;
            integrity_tag = tag;
          }
          ∷ v.deks;
    },
  )

-- `dek` is the key that `generate_dek` draws; whether a row was added is not in the source's answer.
unfoldable pub provision_tenant_dek : Crypto → String → Bytes → Vault → Result Bool × Vault
unfolding compute_integrity_tag find_dek
provision_tenant_dek c t dek v = commit v (do
  named ← required t
  label ← or_key_error c.kek_label
  add_dek c t label dek v (find_dek t v.deks))

-- The key of a tenant, its tag verified before it is unwrapped.
unfoldable pub open_dek : Crypto → String → Vault → Result Bytes
unfolding verify_integrity_tag find_dek
open_dek c t v = do
  d ← or_lookup_error (find_dek t v.deks)
  verified ← verify_integrity_tag c t d.wrapped_dek d.integrity_tag
  c.unwrap_dek d.wrapped_dek

unfoldable pub get_tenant_dek : Crypto → String → Vault → Result Bytes
unfolding open_dek
get_tenant_dek c t v = do named ← required t; open_dek c t v

abbrev pub shred : String → Vault → Option TenantDek → Bool × Vault
shred t v none = (false, v)
shred t v (some d) = (true, record v { deks = drop_dek t v.deks })

unfoldable pub destroy_tenant_dek : String → Vault → Result Bool × Vault
unfolding find_dek drop_dek
destroy_tenant_dek t v = commit v (do named ← required t; ok (shred t v (find_dek t v.deks)))

-- The row that is there is updated, or a new one added.
unfoldable pub upsert_secret :
    ℕ → String → String → Bytes → Bytes → Bytes → List EncryptedSecret → List EncryptedSecret
upsert_secret now t name iv ciphertext tag [] =
    record {
      tenant_id = t;
      secret_name = name;
      iv = iv;
      ciphertext = ciphertext;
      integrity_tag = tag;
      last_rotated_at = now;
    }
    ∷ []
upsert_secret now t name iv ciphertext tag (r ∷ secrets) =
    let rest = upsert_secret now t name iv ciphertext tag secrets in
    if names t name r
    then record r { iv = iv; ciphertext = ciphertext; integrity_tag = tag; last_rotated_at = now }
      ∷ secrets
    else r ∷ rest

-- The tenant and the name are required.
abbrev pub with_names {ℓ} : {A : Type ℓ} → String → String → Result A → Result A
with_names t name rest = do named ← required t; has_name ← required name; rest

unfoldable pub seal_under :
    Crypto → ℕ → String → String → Bytes → Bytes → Vault → Bytes → Result (Bool × Vault)
unfolding upsert_secret aad_for_secret compute_integrity_tag
seal_under c now t name plaintext iv v dek = do
  let ciphertext = c.encrypt dek iv plaintext (aad_for_secret t name)
  tag ← compute_integrity_tag c t ciphertext
  ok (true, record v { secrets = upsert_secret now t name iv ciphertext tag v.secrets })

-- `iv` is the nonce that `encrypt_with_dek` draws.
unfoldable pub seal_secret :
    Crypto → ℕ → String → String → Bytes → Bytes → Vault → Result Bool × Vault
unfolding open_dek seal_under
seal_secret c now t name plaintext iv v =
    commit v (with_names t name (open_dek c t v >>= seal_under c now t name plaintext iv v))

-- The tag of the row is verified before it is decrypted.
unfoldable pub unseal_under : Crypto → String → String → Vault → Bytes → Result Bytes
unfolding find_secret aad_for_secret verify_integrity_tag
unseal_under c t name v dek = do
  r ← or_lookup_error (find_secret t name v.secrets)
  verified ← verify_integrity_tag c t r.ciphertext r.integrity_tag
  c.decrypt dek r.iv r.ciphertext (aad_for_secret t name)

unfoldable pub unseal_secret : Crypto → String → String → Vault → Result Bytes
unfolding open_dek unseal_under
unseal_secret c t name v = with_names t name (open_dek c t v >>= unseal_under c t name v)
