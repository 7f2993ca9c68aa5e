-- ===== src/Metering/Examples.antt =====
-- Runs of metering.py's operations, with a Stripe that refuses every report.
use Prim.Native.Char.{Char, code}
use vargate_telemetry.Base.{
  ℕ, zero, suc, ◌==◌, ◌+◌, ◌≡◌, refl, Bool, true, false, Option, some, [], ◌∷◌, String,
  if◌then◌else◌,
}
use vargate_telemetry.Base.Result.{Result, ok, err, value_error, failure}
use vargate_telemetry.Metering.Field.{
  IsoTime, MeterKey, has_delim, join, split_field, encode_field, decode_field,
}
use vargate_telemetry.Metering.FieldLaws.{decode_field-encode_field}
use vargate_telemetry.Metering.Counters.{add_at, tally}
use vargate_telemetry.Metering.Flush.{Hash, increment, Db, Dispatcher, Meter, flush}
use vargate_telemetry.Metering.Conservation.{
  pending, Readable, increment-conserves, flush-conserves,
}

-- Instants as texts of as many strokes.
abbrev stroke : Char
stroke = "1"

unfoldable strokes : ℕ → String
strokes zero = String.[]
strokes (suc n) = String.◌∷◌ stroke (strokes n)

abbrev count_stroke : Bool → Result ℕ → Result ℕ
count_stroke true (ok n) = ok (suc n)
count_stroke _ _ = err value_error

unfoldable read_strokes : String → Result ℕ
read_strokes String.[] = ok 0
read_strokes (String.◌∷◌ c s) = count_stroke (code c == code stroke) (read_strokes s)

read_strokes-strokes : (n : ℕ) → read_strokes (strokes n) ≡ ok n
unfolding read_strokes strokes
read_strokes-strokes zero = refl
read_strokes-strokes (suc n) = rw (read_strokes-strokes n) refl

abbrev plain_time : IsoTime
plain_time = record {
  isoformat = strokes;
  fromisoformat = read_strokes;
  fromisoformat-isoformat = read_strokes-strokes;
}

abbrev usage_key : MeterKey
usage_key = record { tenant_id = "acme"; record_type = "usage"; bucket_start = 3 }

abbrev counted : Hash
counted = (encode_field plain_time usage_key, 3) ∷ []

no_delim : has_delim "acme" ≡ false
unfolding has_delim
no_delim = refl

no_delim_type : has_delim "usage" ≡ false
unfolding has_delim
no_delim_type = refl

decode_field-encode_field_example :
    decode_field plain_time (encode_field plain_time usage_key) ≡ ok usage_key
decode_field-encode_field_example =
    decode_field-encode_field plain_time usage_key no_delim no_delim_type

counted-Readable : Readable plain_time counted
counted-Readable =
    ((usage_key, decode_field-encode_field plain_time usage_key no_delim no_delim_type), tt)

increment_twice :
    increment plain_time "acme" "usage" 2 3 counted
    ≡ ok ((encode_field plain_time usage_key, 5) ∷ [])
unfolding increment has_delim encode_field add_at strokes
increment_twice = refl

increment-conserves_example :
    Readable plain_time ((encode_field plain_time usage_key, 5) ∷ [])
    × ((p : MeterKey → Bool)
        → pending plain_time p ((encode_field plain_time usage_key, 5) ∷ [])
          ≡ (if p usage_key then 2 else 0) + pending plain_time p counted)
increment-conserves_example =
    increment-conserves plain_time "acme" "usage" 2 3 counted
      ((encode_field plain_time usage_key, 5) ∷ []) counted-Readable increment_twice

abbrev refusing : Dispatcher ℕ
refusing calls report = (false, calls + 1)

abbrev subscribed : String → Option String
subscribed t = some "si_1"

abbrev meter : Meter ℕ
meter = record {
  active = counted;
  flushing = [];
  db = record { usage_records = (usage_key, 4) ∷ []; billing_retry = []; stripe = 0 };
}

flush-conserves_example :
    (n : ℕ) × (db : Db ℕ) × (flush (some refusing) subscribed (λ t. true) plain_time meter
      ≡ (ok n, record { active = []; flushing = []; db = db }))
    × ((p : MeterKey → Bool)
        → tally p db.usage_records ≡ pending plain_time p counted + tally p ((usage_key, 4) ∷ []))
flush-conserves_example =
    flush-conserves plain_time (some refusing) subscribed meter counted-Readable

-- No transaction commits.
abbrev kept : Meter ℕ
kept = record {
  active = [];
  flushing = counted ∷ [];
  db = record { usage_records = (usage_key, 4) ∷ []; billing_retry = []; stripe = 1 };
}

flush_failed : flush (some refusing) subscribed (λ t. false) plain_time meter ≡ (err failure, kept)
unfolding flush encode_field strokes read_strokes
flush_failed = refl

-- A field whose time cannot be read: the flush raises and keeps the renamed hash.
abbrev unreadable : Hash
unreadable = (join "acme" (join "usage" "xx"), 3) ∷ []

flush-unreadable :
    (flush
      (some refusing)
      subscribed
      (λ t. true)
      plain_time
      (record meter { active = unreadable })).1
    ≡ record meter { active = []; flushing = unreadable ∷ [] }
unfolding flush decode_field split_field join read_strokes
flush-unreadable = refl
