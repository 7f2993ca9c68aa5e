-- ===== src/Base/Text.antt =====
-- Python's `str` as the native texts: equality, length in characters and `startswith`.
use Prim.Native.Nat.{ℕ, suc, ◌+◌, ◌≤◌}
use Prim.Native.Char.{code}
use Prim.Native.String.{String}
use mathlib.Core.Path.{◌≡◌, refl}
use mathlib.Core.Bool.{Bool, true, false, ◌&&◌}
use mathlib.Core.List.{List, [], ◌∷◌, map}
use native.Mathlib.Omega.{arith}
use mathlib.Core.Logic.{◌⊎◌, ◌≢◌, inl, inr}
use vargate_telemetry.Base.Tests.{◌==◌, leb, if◌then◌else◌, Bool-cases, and-eq-true, ==_iff}
pub use text.Mathlib.Text.{◌==◌ as str_eq}
pub use text.Mathlib.TextEquality.{eq_iff}

-- The bytes of an ASCII text.
abbrev pub codes : String → List ℕ
codes String.[] = []
codes (String.◌∷◌ c s) = code c ∷ codes s

-- `len(s)`: the number of characters.
unfoldable pub chars : String → ℕ
chars String.[] = 0
chars (String.◌∷◌ c s) = suc (chars s)

-- `p + s`.
unfoldable pub concat : String → String → String
concat String.[] s = s
concat (String.◌∷◌ c p) s = String.◌∷◌ c (concat p s)

-- `s.startswith(p)`, the text first.
unfoldable pub starts_with : String → String → Bool
starts_with s String.[] = true
starts_with String.[] (String.◌∷◌ d p) = false
starts_with (String.◌∷◌ c s) (String.◌∷◌ d p) = (code c == code d) && starts_with s p

-- `c.lower()` on the code of an ASCII character.
abbrev pub lower_code : ℕ → ℕ
lower_code c = if leb b'A' c && leb c b'Z' then c + 32 else c

abbrev pub codes_eq : List ℕ → List ℕ → Bool
codes_eq [] [] = true
codes_eq (a ∷ xs) (b ∷ ys) = (a == b) && codes_eq xs ys
codes_eq _ _ = false

-- `s.lower() == t`, for a text `t` of lower-case ASCII letters.
unfoldable pub lower_eq : String → String → Bool
lower_eq s t = codes_eq (map lower_code (codes s)) (codes t)

-- Truthiness of an optional text: neither absent nor empty.
abbrev pub is_empty : String → Bool
is_empty s = str_eq s ""

-- A text's prefix is no longer than the text.
pub chars-starts_with : (s p : String) → starts_with s p ≡ true → chars p ≤ chars s
unfolding starts_with chars
chars-starts_with s String.[] h = omega arith
chars-starts_with String.[] (String.◌∷◌ d p) h = ground arith
chars-starts_with (String.◌∷◌ c s) (String.◌∷◌ d p) h = ground (arith, chars-starts_with s p)

pub String-cases : (s t : String) → (s ≡ t) ⊎ (s ≢ t)
String-cases s t = elim (Bool-cases (str_eq s t)) [
  | inl e ↦ inl ((eq_iff s t).0 e)
  | inr n ↦ inr (λ p. cc (n, (eq_iff s t).1 p))
]

pub not-empty : (s : String) → s ≢ "" → is_empty s ≡ false
not-empty s h = ground (arith, eq_iff s "")

pub starts_with_self : (s : String) → starts_with s s ≡ true
unfolding starts_with
starts_with_self String.[] = refl
starts_with_self (String.◌∷◌ c s) = ground (arith, starts_with_self s)

pub codes_eq-eq : (xs ys : List ℕ) → codes_eq xs ys ≡ true → xs ≡ ys
codes_eq-eq [] [] h = refl
codes_eq-eq [] (y ∷ ys) h = absurd (ground (arith, h))
codes_eq-eq (x ∷ xs) [] h = absurd (ground (arith, h))
codes_eq-eq (x ∷ xs) (y ∷ ys) h =
    let (here, rest) = and-eq-true (x == y) (codes_eq xs ys) h in
    rw ((==_iff x y).0 here, codes_eq-eq xs ys rest) refl

pub codes_eq_self : (xs : List ℕ) → codes_eq xs xs ≡ true
codes_eq_self [] = refl
codes_eq_self (x ∷ xs) = rw ((==_iff x x).1 refl, codes_eq_self xs) refl
