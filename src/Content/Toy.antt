-- ===== src/Content/Toy.antt =====
-- A concrete cryptography for the examples: a ciphertext is the key, after its length, and the
-- plaintext.
use vargate_telemetry.Base.{
  ◌≡◌, ◌≢◌, refl, some, [], ◌∷◌, ◌++◌, length, if◌then◌else◌, ◌==◌, ==_iff, Bool-cases, inl, inr,
  arith,
}
use vargate_telemetry.Base.Result.{Result, ok, err, failure}
use vargate_telemetry.Content.Seal.{Bytes, Crypto, Contract}

unfoldable pub strip : Bytes → Bytes → Result Bytes
strip [] ys = ok ys
strip (x ∷ xs) [] = err failure
strip (x ∷ xs) (y ∷ ys) = let rest = strip xs ys in if x == y then rest else err failure

unfoldable pub toy : Crypto
unfolding strip
toy = record {
  kek_label = some "kek";
  wrap_dek = λ dek. dek;
  unwrap_dek = λ wrapped. ok wrapped;
  encrypt = λ dek iv p aad. length dek ∷ (dek ++ p);
  decrypt = λ dek iv ciphertext aad. strip (length dek ∷ dek) ciphertext;
  hmac = λ message. message;
}

strip-own : (xs p : Bytes) → strip xs (xs ++ p) ≡ ok p
unfolding strip
strip-own [] p = refl
strip-own (x ∷ xs) p = rw ((==_iff x x).1 refl) (strip-own xs p)

strip-other : (xs ys p : Bytes) → length xs ≡ length ys → xs ≢ ys → strip xs (ys ++ p) ≡ err failure
unfolding strip
strip-other [] [] p e n = absurd (n refl)
strip-other [] (y ∷ ys) p e n = absurd (omega (arith, e))
strip-other (x ∷ xs) [] p e n = absurd (omega (arith, e))
strip-other (x ∷ xs) (y ∷ ys) p e n = elim (Bool-cases (x == y)) [
  | inl same ↦
      rw same (strip-other xs ys p (omega (arith, e)) (λ q. n (rw ((==_iff x y).0 same, q) refl)))
  | inr other ↦ rw other refl
]

pub toy-Contract : Contract toy
unfolding toy strip
toy-Contract = record {
  unwraps = λ dek. refl;
  decrypts = λ dek iv p aad. rw ((==_iff (length dek) (length dek)).1 refl) (strip-own dek p);
  authenticates = λ dek other iv p aad n. fails dek other p n;
}
  where
    fails :
        (dek other p : Bytes)
        → dek ≢ other
        → strip (length dek ∷ dek) (length other ∷ (other ++ p)) ≡ err failure
    fails dek other p n = elim (Bool-cases (length dek == length other)) [
      | inl same ↦
          unfold strip in
          rw same (strip-other dek other p ((==_iff (length dek) (length other)).0 same) n)
      | inr apart ↦ unfold strip in rw apart refl
    ]
