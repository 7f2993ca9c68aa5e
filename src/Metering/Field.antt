-- ===== src/Metering/Field.antt =====
-- The fields of the Redis hash of metering.py: `<tenant_id>\x1f<record_type>\x1f<bucket_iso>`.
use Prim.Native.Char.{Char, code}
use vargate_telemetry.Base.{ℕ, ◌≡◌, Bool, false, String, ◌==◌, ◌||◌, if◌then◌else◌}
use vargate_telemetry.Base.Result.{Result, ok, err, value_error, ◌>>=◌}

-- `_FIELD_DELIM`.
abbrev pub field_delim : Char
field_delim = "\u{1f}"

-- `_FIELD_DELIM in s`.
unfoldable pub has_delim : String → Bool
has_delim String.[] = false
has_delim (String.◌∷◌ c s) = (code c == code field_delim) || has_delim s

-- `s + _FIELD_DELIM + rest`.
unfoldable pub join : String → String → String
join String.[] rest = String.◌∷◌ field_delim rest
join (String.◌∷◌ c s) rest = String.◌∷◌ c (join s rest)

-- One split of `str.split(_FIELD_DELIM, …)`: the text before the first delimiter and that after it;
-- with none, the unpacking raises `ValueError`.
abbrev prepend : Char → Result (String × String) → Result (String × String)
prepend c (err e) = err e
prepend c (ok p) = ok (String.◌∷◌ c p.0, p.1)

unfoldable pub split_field : String → Result (String × String)
split_field String.[] = err value_error
split_field (String.◌∷◌ c s) =
    let rest = split_field s in
    if code c == code field_delim then ok (String.[], s) else prepend c rest

-- `datetime.isoformat` and `datetime.fromisoformat` on instants, in microseconds from the calendar's
-- start: the latter raises `ValueError` on what is no time, and reads more texts than the former prints.
pub record IsoTime : Type 0 where
  pub isoformat : ℕ → String
  pub fromisoformat : String → Result ℕ
  pub fromisoformat-isoformat : (t : ℕ) → fromisoformat (isoformat t) ≡ ok t

-- A counter's tenant, record type and minute.
pub record MeterKey : Type 0 where
  pub tenant_id : String
  pub record_type : String
  pub bucket_start : ℕ

module _ (iso : IsoTime) where
  unfoldable pub encode_field : MeterKey → String
  unfolding join
  encode_field k = join k.tenant_id (join k.record_type (iso.isoformat k.bucket_start))

  -- The unpacking of `field.split(_FIELD_DELIM, 2)` into three texts, the last of which is a time.
  unfoldable pub decode_field : String → Result MeterKey
  unfolding split_field
  decode_field field = do
    outer ← split_field field
    inner ← split_field outer.1
    bucket_start ← iso.fromisoformat inner.1
    ok (record { tenant_id = outer.0; record_type = inner.0; bucket_start = bucket_start })
