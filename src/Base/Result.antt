-- ===== src/Base/Result.antt =====
-- Calls that may raise: a value or the Python exception that leaves the call.
use mathlib.Core.Path.{◌≡◌, refl, ap}
use mathlib.Core.Logic.{◌⊎◌, ◌≢◌, inl, inr}
use mathlib.Core.Bool.{Bool, true, false}
use native.Mathlib.Omega.{arith}

pub data Error : Type 0 where
  -- `ValueError`, `sqlalchemy.exc.IntegrityError`, `LookupError`, `crypto.integrity.IntegrityError`,
  -- `sqlalchemy.exc.DataError`, and any other exception
  value_error unique_violation lookup_error integrity_error data_error failure : Error

pub data Result {ℓ} (A : Type ℓ) : Type ℓ where
  ok : A → Result A
  err : Error → Result A

infixl 5 ◌>>=◌
abbrev pub ◌>>=◌ {ℓ κ} : {A : Type ℓ} {B : Type κ} → Result A → (A → Result B) → Result B
err raised >>= rest = err raised
ok value >>= rest = rest value

abbrev is_ok {ℓ} : {A : Type ℓ} → Result A → Bool
is_ok (ok a) = true
is_ok (err e) = false

module _ {ℓ} {A : Type ℓ} where
  abbrev value_or : A → Result A → A
  value_or fallback (ok a) = a
  value_or fallback (err e) = fallback

  pub err-ok : (e : Error) (a : A) → err e ≢ ok a
  err-ok e a p = ground (arith, ap is_ok p)

  pub ok-injective : (a b : A) → ok a ≡ ok b → a ≡ b
  ok-injective a b p = ap (value_or a) p

  pub Result-cases : (r : Result A) → ((a : A) × (r ≡ ok a)) ⊎ ((e : Error) × (r ≡ err e))
  Result-cases (ok a) = inl (a, refl)
  Result-cases (err e) = inr (e, refl)

-- A sequence that succeeds succeeded in both parts.
pub bind-ok {ℓ κ} :
    {A : Type ℓ} {B : Type κ} (m : Result A) (f : A → Result B) (b : B)
    → (m >>= f) ≡ ok b
    → (a : A) × (m ≡ ok a) × (f a ≡ ok b)
bind-ok (ok a) f b h = (a, refl, h)
bind-ok (err e) f b h = elim (err-ok e b h) [ ]
