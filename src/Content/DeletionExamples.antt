-- ===== src/Content/DeletionExamples.antt =====
-- The deletion of a chat with one captured message.
use vargate_telemetry.Base.{
  concat, ℕ, zero, suc, str_eq, false, ◌≡◌, ◌≢◌, refl, none, some, [], ◌∷◌, String, arith, eq_iff,
  length,
}
use vargate_telemetry.Base.Result.{ok}
use vargate_telemetry.Chain.Hex.{Bytes, hex, fromhex}
use vargate_telemetry.Chain.Json
use vargate_telemetry.Chain.Json.{Json}
use vargate_telemetry.Chain.Package.{AuditChain}
use vargate_telemetry.Chain.Table.{Table, visible, tip, violates_unique}
use vargate_telemetry.Chain.Append.{
  Fields, canonical_bytes, fits_columns, stored_row, commit, append_telemetry_record,
}
use vargate_telemetry.Content.Events.{AllStorable}
use vargate_telemetry.Chain.Linkage.{WellFormed}
use vargate_telemetry.Chain.Appends.{append-WellFormed}
use vargate_telemetry.Chain.Toy.{toy, toy_naive, checksum}
use vargate_telemetry.Content.Deletion.{
  record_type_message, source_api_content, select_message_records, of_chat, chat_request, no_counts,
  delete_chat,
}
use vargate_telemetry.Content.DeletionLaws.{Covered, delete_chat-twice}

abbrev zeros : ℕ → Bytes
zeros zero = []
zeros (suc n) = 0 ∷ zeros n

abbrev chain : AuditChain
chain = record toy { sha256 = λ b. zeros 32 }

abbrev keep : String → String → Unit {0} → Unit {0}
keep t ref store = store

abbrev message : Fields
message = record {
  record_type = record_type_message;
  source_api = source_api_content;
  external_id = "m1";
  occurred_at = "2026-05-01T00:00:00+00:00";
  content_hash = zeros 32;
  record_metadata = Json.object (Json.field "chat_id" (Json.text "chat1") Json.end);
  subject_user_id = none;
  content_ref = some "ref";
  content_size_bytes = none;
}

captured : Table
captured = (append_telemetry_record chain "acme" message []).1

empty-WellFormed : WellFormed chain []
unfolding visible
empty-WellFormed = record { linked = λ t. tt }

captured-WellFormed : WellFormed chain captured
unfolding captured
captured-WellFormed =
    append-WellFormed chain "acme" message [] empty-WellFormed
      (record { time = refl; metadata = λ m e. cc })

acme-given : ◌≢◌ {A = String} "acme" ""
acme-given p = ground (arith, (eq_iff "acme" "").1 p)

chat-given : ◌≢◌ {A = String} "chat1" ""
chat-given p = ground (arith, (eq_iff "chat1" "").1 p)

storable :
    (reason requested_by now : String)
    → str_eq now toy_naive ≡ false
    → AllStorable chain "acme"
        (chat_request reason requested_by now)
        (select_message_records "acme" (of_chat "chat1") captured)
unfolding captured select_message_records fits_columns append_telemetry_record commit stored_row
    fromhex hex checksum canonical_bytes tip violates_unique concat
storable reason requested_by now offset =
    (record { fits = refl; time = rw offset refl; metadata = refl }, tt)

delete_chat-twice_example :
    let messages = select_message_records "acme" (of_chat "chat1") captured in
    let x = delete_chat chain keep "acme" "chat1" "dsr" "admin" "2026-06-01" captured tt in
    let y = delete_chat chain keep "acme" "chat1" "again" "admin" "2026-06-02" x.1 tt in
    Covered chain (λ b. refl) keep "acme" messages (no_counts chain keep) captured x
    × (y.0 ≡ ok (record { deleted = 0; already_deleted = length messages }))
    × (y.1 ≡ x.1)
delete_chat-twice_example =
    delete_chat-twice chain (λ b. refl) keep "acme" "chat1" "dsr" "admin" "2026-06-01" "again"
      "admin" "2026-06-02" captured tt tt acme-given chat-given
      (storable "dsr" "admin" "2026-06-01" refl) (storable "again" "admin" "2026-06-02" refl)
      captured-WellFormed
