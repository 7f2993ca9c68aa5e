-- ===== src/Content/SealLaws.antt =====
-- The keys and secrets of vargate_telemetry/crypto/seal.py: which row a tenant's call meets.
use vargate_telemetry.Base.{
  ℕ, ◌≡◌, refl, true, false, ◌&&◌, none, some, List, [], ◌∷◌, String, str_eq, eq_iff, and-eq-true,
  Bool-cases, inl, inr,
}
use vargate_telemetry.Content.Seal.{
  TenantDek, EncryptedSecret, find_dek, drop_dek, names, find_secret, upsert_secret, Bytes,
}

pub find_dek-drop_dek : (t : String) (deks : List TenantDek) → find_dek t (drop_dek t deks) ≡ none
unfolding find_dek drop_dek
find_dek-drop_dek t [] = refl
find_dek-drop_dek t (d ∷ deks) = elim (Bool-cases (str_eq d.tenant_id t)) [
  | inl same ↦ rw same (find_dek-drop_dek t deks)
  | inr other ↦ rw (other, other) (find_dek-drop_dek t deks)
]

pub find_dek-drop_dek_ne :
    (t u : String) (deks : List TenantDek)
    → str_eq t u ≡ false
    → find_dek u (drop_dek t deks) ≡ find_dek u deks
unfolding find_dek drop_dek
find_dek-drop_dek_ne t u [] n = refl
find_dek-drop_dek_ne t u (d ∷ deks) n = elim (Bool-cases (str_eq d.tenant_id t)) [
  | inl same ↦
      let apart : str_eq d.tenant_id u ≡ false = rw ((eq_iff d.tenant_id t).0 same) n in
      rw (same, apart) (find_dek-drop_dek_ne t u deks n)
  | inr other ↦ rw (other, find_dek-drop_dek_ne t u deks n) refl
]

-- The row that an UPSERT leaves for its name.
abbrev pub Sealed : ℕ → String → String → Bytes → Bytes → Bytes → EncryptedSecret → Type 0
Sealed now t name iv ciphertext tag r =
    (r.iv ≡ iv) × (r.ciphertext ≡ ciphertext) × (r.integrity_tag ≡ tag)

pub find_secret-upsert_secret :
    (now : ℕ) (t name : String) (iv ciphertext tag : Bytes) (secrets : List EncryptedSecret)
    → (r : EncryptedSecret) × (find_secret t name
          (upsert_secret now t name iv ciphertext tag secrets)
        ≡ some r)
      × Sealed now t name iv ciphertext tag r
unfolding find_secret upsert_secret
find_secret-upsert_secret now t name iv ciphertext tag [] =
    let p = (eq_iff t t).1 refl in
    let q = (eq_iff name name).1 refl in
    (
      record {
        tenant_id = t;
        secret_name = name;
        iv = iv;
        ciphertext = ciphertext;
        integrity_tag = tag;
        last_rotated_at = now;
      },
      rw (p, q) refl,
      (refl, refl, refl),
    )
find_secret-upsert_secret now t name iv ciphertext tag (r ∷ secrets) =
    let (found, e, s) = find_secret-upsert_secret now t name iv ciphertext tag secrets in
    elim (Bool-cases (names t name r)) [
      | inl same ↦ (
        record r { iv = iv; ciphertext = ciphertext; integrity_tag = tag; last_rotated_at = now },
        rw (same, same) refl,
        (refl, refl, refl),
      )
      | inr other ↦ (found, rw (other, other) e, s)
    ]

-- A name that is another tenant's, or another of the same, meets the row that it met before.
pub find_secret-upsert_secret_ne :
    (now : ℕ) (t name u other : String) (iv ciphertext tag : Bytes) (secrets : List EncryptedSecret)
    → (str_eq t u && str_eq name other) ≡ false
    → find_secret u other (upsert_secret now t name iv ciphertext tag secrets)
      ≡ find_secret u other secrets
unfolding find_secret upsert_secret
find_secret-upsert_secret_ne now t name u other iv ciphertext tag [] n = rw n refl
find_secret-upsert_secret_ne now t name u other iv ciphertext tag (r ∷ secrets) n =
    elim (Bool-cases (names t name r)) [
      | inl same ↦
          let apart : names u other r ≡ false = moved (and-eq-true _ _ same) in
          rw (same, apart) refl
      | inr different ↦
          rw
            (different, find_secret-upsert_secret_ne now t name u other iv ciphertext tag secrets n)
            refl
    ]
  where
    moved :
        (str_eq r.tenant_id t ≡ true) × (str_eq r.secret_name name ≡ true)
        → (str_eq r.tenant_id u && str_eq r.secret_name other) ≡ false
    moved (p, q) = rw ((eq_iff r.tenant_id t).0 p, (eq_iff r.secret_name name).0 q) n
