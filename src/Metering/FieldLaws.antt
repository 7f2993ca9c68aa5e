-- ===== src/Metering/FieldLaws.antt =====
-- The fields of metering.py are read back as they were written.
use Prim.Native.Char.{code}
use vargate_telemetry.Base.{◌≡◌, refl, Bool, false, String, ◌==◌, ◌||◌, arith}
use vargate_telemetry.Base.Result.{ok}
use vargate_telemetry.Metering.Field.{
  field_delim, has_delim, join, split_field, IsoTime, MeterKey, encode_field, decode_field,
}

pub or-false-both : (a b : Bool) → (a || b) ≡ false → (a ≡ false) × (b ≡ false)
or-false-both a b h = ground arith

-- The first delimiter of a joined text is the one that joins.
pub split_field-join :
    (s rest : String) → has_delim s ≡ false → split_field (join s rest) ≡ ok (s, rest)
unfolding split_field join has_delim
split_field-join String.[] rest h = refl
split_field-join (String.◌∷◌ c s) rest h =
    let (here, later) = or-false-both (code c == code field_delim) (has_delim s) h in
    rw (here, split_field-join s rest later) refl

-- What is allowed into a field comes out of it.
pub decode_field-encode_field :
    (iso : IsoTime) (k : MeterKey)
    → has_delim k.tenant_id ≡ false
    → has_delim k.record_type ≡ false
    → decode_field iso (encode_field iso k) ≡ ok k
unfolding decode_field encode_field
decode_field-encode_field iso k t r =
    rw
      (
        split_field-join k.tenant_id (join k.record_type (iso.isoformat k.bucket_start)) t,
        split_field-join k.record_type (iso.isoformat k.bucket_start) r,
        iso.fromisoformat-isoformat k.bucket_start,
      )
      refl
