-- ===== src/Chain/Package.antt =====
-- What chain.py takes from outside of the repository: the package vargate_audit_chain, with the
-- contract that chain.py and its tests rely on, SHA-256, and what two of PostgreSQL's column types
-- read back.
use vargate_telemetry.Base.{ℕ, ◌<◌, ◌≡◌, Bool, true, Option, List, [], ◌∷◌, String, length, All}
use vargate_telemetry.Chain.Hex.{Bytes, hex}
use vargate_telemetry.Chain.Json.{Json}

-- One record of the verification walk; both hashes are hexadecimal texts, or the genesis text.
pub record ChainRecord : Type 0 where
  pub canonical_bytes : Bytes
  pub prev_hash : List ℕ
  pub record_hash : List ℕ

pub record VerifyResult : Type 0 where
  pub valid : Bool
  pub record_count : ℕ

-- From `prev` on, every record names its predecessor's hash and carries the hash of its content.
abbrev pub Linked : (String → Bytes → List ℕ → List ℕ) → String → List ℕ → List ChainRecord → Type 0
Linked hash t prev [] = Unit
Linked hash t prev (r ∷ rs) =
    (r.prev_hash ≡ prev)
    × (r.record_hash ≡ hash t r.canonical_bytes r.prev_hash)
    × Linked hash t r.record_hash rs

pub record AuditChain : Type 0 where
  -- `GENESIS_HASH`, `compute_record_hash` and `verify_record_chain`
  pub genesis_hash : List ℕ
  pub compute_record_hash : String → Bytes → List ℕ → List ℕ
  pub verify_record_chain : String → List ChainRecord → VerifyResult
  -- `hashlib.sha256(...).digest()`
  pub sha256 : Bytes → Bytes
  -- What a `timestamptz` column reads back, as ISO text, where a datetime of the ISO text is stored;
  -- and what a `jsonb` column reads back, or nothing where it refuses the value.
  pub timestamptz : String → String
  pub jsonb : Json → Option Json
  -- The hash is the hexadecimal text of a digest.
  pub digest : String → Bytes → List ℕ → Bytes
  pub digest_bytes : (t : String) (c : Bytes) (p : List ℕ) → All (λ (b : ℕ). b < 256) (digest t c p)
  pub hash_is_hex :
      (t : String) (c : Bytes) (p : List ℕ) → compute_record_hash t c p ≡ hex (digest t c p)
  -- The walk accepts exactly the linked sequences, and counts what it accepted.
  pub accepts :
      (t : String) (rs : List ChainRecord)
      → Linked compute_record_hash t genesis_hash rs
      → verify_record_chain t rs ≡ record { valid = true; record_count = length rs }
  pub rejects :
      (t : String) (rs : List ChainRecord)
      → (verify_record_chain t rs).valid ≡ true
      → Linked compute_record_hash t genesis_hash rs
