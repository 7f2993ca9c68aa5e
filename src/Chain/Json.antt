-- ===== src/Chain/Json.antt =====
-- JSON values and `json.dumps(..., sort_keys=True, separators=(",", ":"))`, as chain.py calls it.
use Prim.Native.Char.{code}
use Prim.Native.String.{compare}
use mathlib.Core.Path.{◌≡◌, refl}
use package.text.Mathlib.Text.{is_lt}
use vargate_telemetry.Base.{
  ℕ, ◌+◌, ◌-◌, ◌/◌, ◌%◌, Bool, true, false, List, [], ◌∷◌, ◌++◌, String, codes, ltb, ◌==◌, ◌||◌,
  if◌then◌else◌,
}
use vargate_telemetry.Chain.Hex.{hex_code}

-- A number is its text, as `json` prints it; `ascii` is a text by its character codes, none of which
-- is escaped.
mutual
  pub data Json : Type 0 where
    null : Json
    bool : Bool → Json
    number : String → Json
    text : String → Json
    ascii : List ℕ → Json
    array : Items → Json
    object : Fields → Json

  pub data Items : Type 0 where
    nil : Items
    item : Json → Items → Items

  pub data Fields : Type 0 where
    end : Fields
    field : String → Json → Fields → Fields

-- `\uXXXX` of one UTF-16 unit.
unicode_escape : ℕ → List ℕ
unfolding hex_code
unicode_escape n =
    b'\\'
    ∷ b'u'
    ∷ hex_code (n / 4096 % 16)
    ∷ hex_code (n / 256 % 16)
    ∷ hex_code (n / 16 % 16)
    ∷ hex_code (n % 16)
    ∷ []

-- One character of a text, with `ensure_ascii`.
escape : ℕ → List ℕ
unfolding unicode_escape
escape c =
    if c == 34
    then b'\\' ∷ 34 ∷ []
    else if c == 92
    then b'\\' ∷ b'\\' ∷ []
    else if c == 10
    then b'\\' ∷ b'n' ∷ []
    else if c == 13
    then b'\\' ∷ b'r' ∷ []
    else if c == 9
    then b'\\' ∷ b't' ∷ []
    else if c == 12
    then b'\\' ∷ b'f' ∷ []
    else if c == 8
    then b'\\' ∷ b'b' ∷ []
    else if ltb c 32 || ltb 126 c
    then if ltb c 65536
      then unicode_escape c
      else unicode_escape (55296 + (c - 65536) / 1024 % 1024)
        ++ unicode_escape (56320 + (c - 65536) % 1024)
    else c ∷ []

escaped : String → List ℕ
unfolding escape
escaped String.[] = []
escaped (String.◌∷◌ c s) = escape (code c) ++ escaped s

quoted : String → List ℕ
unfolding escaped
quoted s = 34 ∷ (escaped s ++ 34 ∷ [])

-- `sort_keys`: insertion by key, in the order of code points.
insert_field : String → Json → Fields → Fields
insert_field k v end = field k v end
insert_field k v (field j w fs) =
    let rest = insert_field k v fs in
    if is_lt (compare k j) then field k v (field j w fs) else field j w rest

abbrev dumps_bool : Bool → List ℕ
dumps_bool true = codes "true"
dumps_bool false = codes "false"

unfoldable mutual
  unfolding quoted insert_field

  pub sort_keys : Json → Json
  sort_keys null = null
  sort_keys (bool b) = bool b
  sort_keys (number n) = number n
  sort_keys (text s) = text s
  sort_keys (ascii cs) = ascii cs
  sort_keys (array xs) = array (sort_items xs)
  sort_keys (object fs) = object (sort_fields fs)

  pub sort_items : Items → Items
  sort_items nil = nil
  sort_items (item x xs) = item (sort_keys x) (sort_items xs)

  pub sort_fields : Fields → Fields
  sort_fields end = end
  sort_fields (field k v fs) = insert_field k (sort_keys v) (sort_fields fs)

unfoldable mutual
  unfolding quoted

  pub print : Json → List ℕ
  print null = codes "null"
  print (bool b) = dumps_bool b
  print (number n) = codes n
  print (text s) = quoted s
  print (ascii cs) = 34 ∷ (cs ++ 34 ∷ [])
  print (array xs) = b'[' ∷ (print_items xs ++ b']' ∷ [])
  print (object fs) = b'{' ∷ (print_fields fs ++ b'}' ∷ [])

  pub print_items : Items → List ℕ
  print_items nil = []
  print_items (item x nil) = print x
  print_items (item x (item y ys)) = print x ++ (b',' ∷ print_items (item y ys))

  pub print_fields : Fields → List ℕ
  print_fields end = []
  print_fields (field k v end) = quoted k ++ (b':' ∷ print v)
  print_fields (field k v (field j w fs)) =
      quoted k ++ (b':' ∷ (print v ++ (b',' ∷ print_fields (field j w fs))))

unfoldable pub dumps : Json → List ℕ
unfolding sort_keys print
dumps j = print (sort_keys j)

dumps_example :
    dumps
      (object (field "b" null (field "a" (array (item (text "x\"") (item (number "1") nil))) end)))
    ≡ codes "{\"a\":[\"x\\\"\",1],\"b\":null}"
unfolding dumps
dumps_example = refl
