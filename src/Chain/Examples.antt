-- ===== src/Chain/Examples.antt =====
-- Runs of chain.py's operations on a small chain.
use vargate_telemetry.Base.{
  ℕ, zero, suc, ◌≡◌, ◌≢◌, ◌⊎◌, refl, true, false, none, some, [], ◌∷◌, ◌+◌, subst, eq_iff, map,
  String, arith, length, any, ap, codes_eq, true-false,
}
use vargate_telemetry.Base.Result.{ok, err, value_error, data_error, unique_violation}
use vargate_telemetry.Chain.Hex.{Bytes, hex, fromhex}
use vargate_telemetry.Chain.Json
use vargate_telemetry.Chain.Json.{Json}
use vargate_telemetry.Chain.Package.{VerifyResult}
use vargate_telemetry.Chain.Table.{Row, violates_unique, visible, tip, order_asc}
use vargate_telemetry.Chain.Append.{
  Fields, canonical_bytes, row_fields, stored_row, fits_columns, prepare, commit,
  append_telemetry_record, row_to_chain_record, verify_telemetry_chain,
}
use vargate_telemetry.Chain.Stored.{ReadsBack}
use vargate_telemetry.Chain.Linkage.{WellFormed, prepared_row}
use vargate_telemetry.Chain.Appends.{append-WellFormed, append-outcomes, is_duplicate}
use vargate_telemetry.Chain.Interleaving.{
  Database, read, insert, Reach, here, next, Reach-WellFormed, race_refused,
}
use vargate_telemetry.Chain.Verification.{verify-WellFormed}
use vargate_telemetry.Chain.Tampering.{SameLinks, tamper_detected}
use vargate_telemetry.Chain.Isolation.{append-isolated}
use vargate_telemetry.Chain.Toy.{toy, toy_utc, toy_naive, checksum, walks}

abbrev acme : String
acme = "acme"

abbrev zeros : ℕ → Bytes
zeros zero = []
zeros (suc n) = 0 ∷ zeros n

abbrev fields : String → Fields
fields external_id = record {
  record_type = "usage";
  source_api = "admin";
  external_id = external_id;
  occurred_at = "2026-05-01T00:00:00+00:00";
  content_hash = zeros 32;
  record_metadata = Json.object Json.end;
  subject_user_id = none;
  content_ref = none;
  content_size_bytes = none;
}

abbrev first_row : Row
first_row = prepared_row toy acme (fields "a") []

empty-WellFormed : WellFormed toy []
unfolding visible
empty-WellFormed = record { linked = λ t. tt }

prepare_first : prepare toy acme (fields "a") [] ≡ ok first_row
unfolding prepare canonical_bytes fromhex hex tip visible checksum
prepare_first = refl

prepare_other : prepare toy acme (fields "b") [] ≡ ok (prepared_row toy acme (fields "b") [])
unfolding prepare canonical_bytes fromhex hex tip visible checksum
prepare_other = refl

append_first : (append_telemetry_record toy acme (fields "a") []).1 ≡ first_row ∷ []
unfolding append_telemetry_record canonical_bytes fromhex hex tip visible checksum commit
    violates_unique stored_row
append_first = refl

-- The arguments with a UTC time.
abbrev HasUtc : Fields → Type 0
HasUtc f = f.occurred_at ≡ toy_utc

HasUtc-ReadsBack : (f : Fields) → HasUtc f → ReadsBack toy f
HasUtc-ReadsBack f h = record { time = rw h refl; metadata = λ m e. cc }

one-WellFormed : WellFormed toy (first_row ∷ [])
one-WellFormed = subst (WellFormed toy) append_first (
    append-WellFormed toy acme (fields "a") [] empty-WellFormed
      (HasUtc-ReadsBack (fields "a") refl))

abbrev idle : Database
idle = record { table = []; pending = [] }

abbrev other_row : Row
other_row = prepared_row toy acme (fields "b") []

-- Two transactions read the empty table, and both insert.
race :
    Reach toy HasUtc idle
      (record { table = (commit toy other_row (first_row ∷ [])).1; pending = [] })
unfolding commit violates_unique stored_row
race =
    next
      (next
        (next (next here (read idle acme (fields "a") first_row refl prepare_first))
          (read _ acme (fields "b") other_row refl prepare_other))
        (insert _ first_row (other_row ∷ []) [] refl))
      (insert _ other_row [] [] refl)

Reach-WellFormed_example : WellFormed toy (commit toy other_row (first_row ∷ [])).1
Reach-WellFormed_example = Reach-WellFormed toy HasUtc HasUtc-ReadsBack empty-WellFormed refl race

commit_first : commit toy first_row [] ≡ (ok first_row, first_row ∷ [])
unfolding commit violates_unique stored_row
commit_first = refl

stored_other : stored_row toy other_row ≡ some other_row
unfolding stored_row
stored_other = refl

race_refused_example :
    commit toy other_row (first_row ∷ []) ≡ (err unique_violation, first_row ∷ [])
race_refused_example =
    race_refused toy acme (fields "a") (fields "b") first_row other_row first_row other_row []
      (first_row ∷ []) empty-WellFormed prepare_first prepare_other commit_first stored_other

acme-named : acme ≢ ""
acme-named p = ground (arith, (eq_iff acme "").1 p)

verify-WellFormed_example :
    verify_telemetry_chain toy acme (first_row ∷ [])
    ≡ ok (record { valid = true; record_count = length (visible acme (first_row ∷ [])) })
verify-WellFormed_example = verify-WellFormed toy acme (first_row ∷ []) one-WellFormed acme-named

append-outcomes_example :
    let (result, after) = append_telemetry_record toy acme (fields "a") (first_row ∷ []) in
    ((result ≡ err value_error)
      × (after ≡ first_row ∷ [])
      × ((acme ≡ "") ⊎ (length (zeros 32) ≢ 32)))
    ⊎ ((result ≡ err data_error)
        × (after ≡ first_row ∷ [])
        × ((fits_columns acme (fields "a") ≡ false) ⊎ (toy.jsonb (Json.object Json.end) ≡ none)))
    ⊎ ((result ≡ err unique_violation)
        × (after ≡ first_row ∷ [])
        × (any (is_duplicate "admin" "a") (visible acme (first_row ∷ [])) ≡ true))
    ⊎ ((r : Row) × (result ≡ ok r)
        × (after ≡ r ∷ first_row ∷ [])
        × (r.tenant_id ≡ acme)
        × (r.chain_seq ≡ length (visible acme (first_row ∷ [])) + 1)
        × (fits_columns acme (fields "a") ≡ true)
        × (r.occurred_at ≡ toy.timestamptz toy_utc)
        × (toy.jsonb (Json.object Json.end) ≡ some r.record_metadata)
        × (any (is_duplicate "admin" "a") (visible acme (first_row ∷ [])) ≡ false))
append-outcomes_example = append-outcomes toy acme (fields "a") (first_row ∷ []) one-WellFormed

-- A naive time is hashed without its offset, and read back with it: the chain does not verify.
abbrev naive_fields : Fields
naive_fields = record (fields "a") { occurred_at = toy_naive }

naive_unverified :
    verify_telemetry_chain toy acme (append_telemetry_record toy acme naive_fields []).1
    ≡ ok (record { valid = false; record_count = 1 })
unfolding verify_telemetry_chain append_telemetry_record canonical_bytes fromhex hex tip visible
    checksum commit violates_unique stored_row row_to_chain_record walks order_asc
naive_unverified = refl

-- A text that is longer than its column.
abbrev long_fields : Fields
long_fields = record (fields "a") { record_type = "a record type of more than 32 characters" }

long_refused : append_telemetry_record toy acme long_fields [] ≡ (err data_error, [])
unfolding append_telemetry_record canonical_bytes fromhex hex tip visible checksum commit stored_row
long_refused = refl

-- The row with another metadata.
abbrev forged_row : Row
forged_row = record first_row { record_metadata = Json.array Json.nil }

forged-SameLinks : SameLinks first_row forged_row
forged-SameLinks = record { tenant = refl; seq = refl; backward = refl; own = refl }

forged-hash :
    let prev = (row_to_chain_record toy first_row).prev_hash in
    toy.compute_record_hash acme (canonical_bytes (row_fields forged_row)) prev
    ≢ toy.compute_record_hash acme (canonical_bytes (row_fields first_row)) prev
unfolding row_to_chain_record canonical_bytes hex checksum tip visible
forged-hash p =
    let q : false ≡ true = ap (λ z. codes_eq z (hex (236 ∷ []))) p in true-false false q refl

abbrev forged_answer : VerifyResult
forged_answer =
    toy.verify_record_chain acme
      (map (row_to_chain_record toy) (order_asc (visible acme (forged_row ∷ []))))

forged_verified : verify_telemetry_chain toy acme (forged_row ∷ []) ≡ ok forged_answer
unfolding verify_telemetry_chain
forged_verified = refl

tamper_detected_example : forged_answer.valid ≡ false
tamper_detected_example =
    tamper_detected toy first_row forged_row [] [] forged_answer one-WellFormed forged-SameLinks
      acme-named forged-hash forged_verified

tenants-apart : ◌≢◌ {A = String} acme "other"
tenants-apart p = ground (arith, (eq_iff acme "other").1 p)

append-isolated_example :
    (visible "other" (append_telemetry_record toy acme (fields "a") []).1 ≡ visible "other" [])
    × (verify_telemetry_chain toy "other" (append_telemetry_record toy acme (fields "a") []).1
        ≡ verify_telemetry_chain toy "other" [])
append-isolated_example = append-isolated toy acme "other" (fields "a") [] tenants-apart
