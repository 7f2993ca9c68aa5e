-- ===== src/Chain/Hex.antt =====
-- `bytes.hex()` and `bytes.fromhex()`, which carry a digest between the package and a row. A text
-- of hexadecimal digits, with no white space among them, is the list of its character codes.
use vargate_telemetry.Base.{
  ℕ, ◌+◌, ◌-◌, ◌*◌, ◌/◌, ◌%◌, ◌<◌, ◌≡◌, refl, Option, none, some, List, [], ◌∷◌, arith, ltb, leb,
  ◌&&◌, if◌then◌else◌, All,
}

abbrev pub Bytes : Type 0
Bytes = List ℕ

unfoldable pub hex_code : ℕ → ℕ
hex_code n = if ltb n 10 then b'0' + n else b'a' + (n - 10)

unfoldable pub hex : Bytes → List ℕ
unfolding hex_code
hex [] = []
hex (b ∷ bs) = hex_code (b / 16) ∷ hex_code (b % 16) ∷ hex bs

digit_value : ℕ → Option ℕ
digit_value c =
    if leb b'0' c && leb c b'9'
    then some (c - b'0')
    else if leb b'a' c && leb c b'f'
    then some (c - b'a' + 10)
    else if leb b'A' c && leb c b'F'
    then some (c - b'A' + 10)
    else none

abbrev join_byte : Option ℕ → Option ℕ → Option Bytes → Option Bytes
join_byte (some h) (some l) (some bs) = some ((h * 16 + l) ∷ bs)
join_byte _ _ _ = none

unfoldable pub fromhex : List ℕ → Option Bytes
unfolding digit_value
fromhex [] = some []
fromhex (c ∷ []) = none
fromhex (c ∷ d ∷ cs) = join_byte (digit_value c) (digit_value d) (fromhex cs)

digit_value-hex_code : (n : ℕ) → n < 16 → digit_value (hex_code n) ≡ some n
unfolding digit_value hex_code
digit_value-hex_code n h = ground arith

-- Reading back what was printed, for bytes.
pub fromhex-hex : (bs : Bytes) → All (λ b. b < 256) bs → fromhex (hex bs) ≡ some bs
unfolding fromhex hex
fromhex-hex [] h = refl
fromhex-hex (b ∷ bs) h =
    ground (arith, digit_value-hex_code (b / 16), digit_value-hex_code (b % 16), fromhex-hex bs h.1)
