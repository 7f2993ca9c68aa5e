-- ===== src/Chain/Toy.antt =====
-- A concrete package for the examples: the hash is the sum of the bytes, modulo 256.
use vargate_telemetry.Base.{
  codes_eq-eq, codes_eq_self, ℕ, ◌+◌, ◌%◌, ◌<◌, ◌≡◌, refl, Bool, true, ◌&&◌, List, [], ◌∷◌, ◌++◌,
  String, str_eq, if◌then◌else◌, some, length, codes, codes_eq, arith, ap, and-eq-true,
}
use vargate_telemetry.Chain.Hex.{Bytes, hex}
use vargate_telemetry.Chain.Package.{ChainRecord, Linked, AuditChain}

unfoldable pub checksum : Bytes → ℕ
checksum [] = 0
checksum (b ∷ bs) = (b + checksum bs) % 256

pub checksum_bound : (bs : Bytes) → checksum bs < 256
unfolding checksum
checksum_bound [] = omega arith
checksum_bound (b ∷ bs) = omega arith

abbrev pub toy_digest : String → Bytes → List ℕ → Bytes
toy_digest t c p = checksum (codes t ++ (c ++ p)) ∷ []

abbrev pub toy_hash : String → Bytes → List ℕ → List ℕ
toy_hash t c p = hex (toy_digest t c p)

unfoldable pub walks : String → List ℕ → List ChainRecord → Bool
unfolding checksum hex
walks t prev [] = true
walks t prev (r ∷ rs) =
    codes_eq r.prev_hash prev
    && (codes_eq r.record_hash (toy_hash t r.canonical_bytes r.prev_hash)
        && walks t r.record_hash rs)

pub walks-Linked :
    (t : String) (p : List ℕ) (rs : List ChainRecord) → Linked toy_hash t p rs → walks t p rs ≡ true
unfolding walks
walks-Linked t p [] h = refl
walks-Linked t p (r ∷ rs) h = rw (walks-Linked t r.record_hash rs h.2) (both h.0 h.1)
  where
    both : {a b c d : List ℕ} → a ≡ b → c ≡ d → (codes_eq a b && (codes_eq c d && true)) ≡ true
    both {a} {b} {c} {d} e f = rw (e, f, codes_eq_self b, codes_eq_self d) refl

pub Linked-walks :
    (t : String) (p : List ℕ) (rs : List ChainRecord) → walks t p rs ≡ true → Linked toy_hash t p rs
unfolding walks
Linked-walks t p [] h = tt
Linked-walks t p (r ∷ rs) h =
    let (back, rest) = and-eq-true _ _ h in
    let (own, later) = and-eq-true _ _ rest in
    (codes_eq-eq _ _ back, codes_eq-eq _ _ own, Linked-walks t r.record_hash rs later)

-- The database's zone is UTC, so that a naive time reads back with its offset.
abbrev pub toy_naive : String
toy_naive = "2026-05-01T00:00:00"

abbrev pub toy_utc : String
toy_utc = "2026-05-01T00:00:00+00:00"

abbrev pub toy : AuditChain
toy = record {
  genesis_hash = codes "GENESIS";
  compute_record_hash = toy_hash;
  verify_record_chain =
      λ t rs. record { valid = walks t (codes "GENESIS") rs; record_count = length rs };
  sha256 = λ b. checksum b ∷ [];
  timestamptz = λ s. if str_eq s toy_naive then toy_utc else s;
  jsonb = λ m. some m;
  digest = toy_digest;
  digest_bytes = λ t c p. (checksum_bound (codes t ++ (c ++ p)), tt);
  hash_is_hex = λ t c p. refl;
  accepts = λ t rs h.
      ap (λ (b : Bool). record { valid = b; record_count = length rs })
        (walks-Linked t (codes "GENESIS") rs h);
  rejects = λ t rs h. Linked-walks t (codes "GENESIS") rs h;
}
