-- ===== src/Metering/Counters.antt =====
-- Tables of counts: an increment at a key, as `HINCRBY` and `ON CONFLICT DO UPDATE SET record_count
-- = usage_records.record_count + EXCLUDED.record_count` do it, and what the table holds in all.
use vargate_telemetry.Base.{
  ℕ, ◌+◌, ◌≡◌, refl, Bool, true, false, List, [], ◌∷◌, if◌then◌else◌, arith, Bool-cases, inl, inr,
}

module _ {K : Type 0} (eq : K → K → Bool) where
  unfoldable pub add_at : K → ℕ → List (K × ℕ) → List (K × ℕ)
  add_at k n [] = (k, n) ∷ []
  add_at k n ((l, m) ∷ rows) =
      let rest = add_at k n rows in if eq k l then (l, m + n) ∷ rows else (l, m) ∷ rest

-- The sum of the counts at the keys that a test picks.
unfoldable pub tally {ℓ} : {K : Type ℓ} → (K → Bool) → List (K × ℕ) → ℕ
tally p [] = 0
tally p ((k, n) ∷ rows) = (if p k then n else 0) + tally p rows

module _ {K : Type 0} (eq : K → K → Bool) (eq-eq : (k l : K) → eq k l ≡ true → k ≡ l) where
  -- An increment adds its amount to the sum where the test picks its key, and nothing elsewhere.
  pub tally-add_at :
      (p : K → Bool) (k : K) (n : ℕ) (rows : List (K × ℕ))
      → tally p (add_at eq k n rows) ≡ (if p k then n else 0) + tally p rows
  unfolding add_at tally
  tally-add_at p k n [] = refl
  tally-add_at p k n ((l, m) ∷ rows) = elim (Bool-cases (eq k l)) [
    | inl same ↦ rw (same, eq-eq k l same) (tally_same (p l) n m (tally p rows))
    | inr other ↦ rw (other, tally-add_at p k n rows) (omega arith)
  ]
    where
      tally_same :
          (b : Bool) (n m t : ℕ)
          → (if b then m + n else 0) + t ≡ (if b then n else 0) + ((if b then m else 0) + t)
      tally_same true n m t = omega arith
      tally_same false n m t = omega arith
