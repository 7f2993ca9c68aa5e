-- ===== src/Mcp/Oauth/Responses.antt =====
-- What a request is answered with: a body, an HTTP status with the `error` code of its body, or an
-- exception that no handler catches.
use vargate_telemetry.Base.{
  ℕ, ◌≡◌, ◌≢◌, refl, ap, Bool, true, false, Option, none, some, List, String, is_empty,
  if◌then◌else◌, arith, eq_iff, Bool-cases, inl, inr,
}
use vargate_telemetry.Base.Result.{Error}

pub data Response {ℓ} (A : Type ℓ) : Type ℓ where
  returned : A → Response A
  refused : ℕ → String → Response A
  raised : Error → Response A

infixl 5 ◌>>=◌
abbrev pub ◌>>=◌ {ℓ κ} : {A : Type ℓ} {B : Type κ} → Response A → (A → Response B) → Response B
returned a >>= next = next a
refused code error >>= next = refused code error
raised e >>= next = raised e

abbrev pub require : Bool → ℕ → String → Response Bool
require true code error = returned true
require false code error = refused code error

abbrev pub require_some {ℓ} : {A : Type ℓ} → Option A → ℕ → String → Response A
require_some none code error = refused code error
require_some (some a) code error = returned a

-- A redirect (302), its query as the pairs that `urlencode` prints.
pub record Redirect : Type 0 where
  pub location : String
  pub params : List (String × String)

-- A text that is present and not empty.
abbrev pub given : Option String → Option String
given none = none
given (some s) = if is_empty s then none else some s

-- `x or d`.
abbrev pub or_default : Option String → String → String
or_default none d = d
or_default (some s) d = if is_empty s then d else s

abbrev is_returned {ℓ} : {A : Type ℓ} → Response A → Bool
is_returned (returned a) = true
is_returned (refused code error) = false
is_returned (raised e) = false

module _ {ℓ} {A : Type ℓ} where
  pub refused-returned : (code : ℕ) (error : String) (a : A) → refused code error ≢ returned a
  refused-returned code error a p = ground (arith, ap is_returned p)

  pub raised-returned : (e : Error) (a : A) → raised e ≢ returned a
  raised-returned e a p = ground (arith, ap is_returned p)

  pub require_some-returned :
      (o : Option A) (code : ℕ) (error : String) (a : A)
      → require_some o code error ≡ returned a
      → o ≡ some a
  require_some-returned none code error a h = elim (refused-returned code error a h) [ ]
  require_some-returned (some b) code error a h = cc

pub require-returned :
    (b : Bool) (code : ℕ) (error : String) (a : Bool) → require b code error ≡ returned a → b ≡ true
require-returned true code error a h = refl
require-returned false code error a h = elim (refused-returned code error a h) [ ]

-- A sequence that returns returned in both parts.
pub bind-returned {ℓ κ} :
    {A : Type ℓ} {B : Type κ} (m : Response A) (f : A → Response B) (b : B)
    → (m >>= f) ≡ returned b
    → (a : A) × (m ≡ returned a) × (f a ≡ returned b)
bind-returned (returned a) f b h = (a, refl, h)
bind-returned (refused code error) f b h = elim (refused-returned code error b h) [ ]
bind-returned (raised e) f b h = elim (raised-returned e b h) [ ]

pub empty-not : (s : String) → is_empty s ≡ false → s ≢ ""
empty-not s h p = ground (arith, h, (eq_iff s "").1 p)

pub given-some : (o : Option String) (s : String) → given o ≡ some s → (o ≡ some s) × (s ≢ "")
given-some none s h = cc
given-some (some t) s h = elim (Bool-cases (is_empty t)) [
  | inl empty ↦ let never : none ≡ some s = rw empty at h in cc
  | inr full ↦ let found : some t ≡ some s = rw full at h in (found, (λ p. empty-not t full (cc)))
]
