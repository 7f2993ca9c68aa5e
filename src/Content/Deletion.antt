-- ===== src/Content/Deletion.antt =====
-- vargate_telemetry/content_deletion.py: deletion events on the chain. A time is its ISO text; the
-- object store is a state of any type, with what `delete_content` does to it, also where it raises.
use vargate_telemetry.Base.{
  ℕ, suc, Bool, true, false, ◌&&◌, Option, none, some, List, [], ◌∷◌, String, str_eq, is_empty,
  concat, select, map, if◌then◌else◌,
}
use vargate_telemetry.Base.Result.{Result, ok, err, value_error, unique_violation}
use vargate_telemetry.Content.Seal.{Vault, destroy_tenant_dek}
use vargate_telemetry.Chain.Hex.{Bytes}
use vargate_telemetry.Chain.Json
use vargate_telemetry.Chain.Json.{Json, dumps}
use vargate_telemetry.Chain.Package.{AuditChain}
use vargate_telemetry.Chain.Table.{Row, Table, visible}
use vargate_telemetry.Chain.Append.{Fields, optional_text, append_telemetry_record}

abbrev pub record_type_deletion : String
record_type_deletion = "content_deletion"

abbrev pub record_type_reveal : String
record_type_reveal = "content_reveal"

abbrev pub record_type_message : String
record_type_message = "chat_message"

abbrev pub source_api_content : String
source_api_content = "compliance_content"

abbrev optional_field : String → Option String → Json.Fields → Json.Fields
optional_field name none rest = rest
optional_field name (some s) rest = Json.field name (Json.text s) rest

-- What is the same for every event of one request.
pub record Request : Type 0 where
  pub scope : String
  pub reason : String
  pub requested_by : String
  pub dsr_subject : Option String
  pub now : String

abbrev pub chat_request : String → String → String → Request
chat_request reason requested_by now = record {
  scope = "chat";
  reason = reason;
  requested_by = requested_by;
  dsr_subject = none;
  now = now;
}

abbrev pub user_request : String → String → String → String → Request
user_request user_id reason requested_by now = record {
  scope = "user";
  reason = reason;
  requested_by = requested_by;
  dsr_subject = some user_id;
  now = now;
}

-- A row of `_select_message_records`.
pub record Message : Type 0 where
  pub external_id : String
  pub content_ref : Option String
  pub chat_id : Option String
  pub subject_user_id : Option String

abbrev pub message_metadata : Request → Message → Json
message_metadata q m = Json.object (
    Json.field "deleted_external_id" (Json.text m.external_id) (
      Json.field "deleted_record_type" (Json.text record_type_message) (
        Json.field "chat_id" (optional_text m.chat_id) (
          Json.field "scope" (Json.text q.scope) (
            Json.field "reason" (Json.text q.reason) (
              Json.field "requested_by" (Json.text q.requested_by) (
                Json.field "deleted_at" (Json.text q.now)
                  (optional_field "dsr_subject" q.dsr_subject Json.end))))))))

abbrev pub text_of_bool : Bool → String
text_of_bool true = "true"
text_of_bool false = "false"

-- `->>`, on a value that is no array and no object.
abbrev pub as_text : Json → Option String
as_text (Json.text s) = some s
as_text (Json.number s) = some s
as_text (Json.bool b) = some (text_of_bool b)
as_text _ = none

unfoldable pub field_text : String → Json.Fields → Option String
field_text name Json.end = none
field_text name (Json.field k v rest) =
    let others = field_text name rest in if str_eq k name then as_text v else others

abbrev pub chat_id_of : Json → Option String
chat_id_of (Json.object fields) = field_text "chat_id" fields
chat_id_of _ = none

abbrev pub message_of : Row → Message
message_of r = record {
  external_id = r.external_id;
  content_ref = r.content_ref;
  chat_id = chat_id_of r.record_metadata;
  subject_user_id = r.subject_user_id;
}

abbrev pub is_message : Row → Bool
is_message r = str_eq r.source_api source_api_content && str_eq r.record_type record_type_message

-- The SELECT, with the condition that is added to it.
unfoldable pub select_message_records : String → (Row → Bool) → Table → List Message
unfolding visible field_text
select_message_records t matches table =
    map message_of (select (λ r. is_message r && matches r) (visible t table))

abbrev pub equals : Option String → String → Bool
equals none s = false
equals (some r) s = str_eq r s

abbrev pub of_chat : String → Row → Bool
of_chat chat_id r = equals (chat_id_of r.record_metadata) chat_id

abbrev pub of_user : String → Row → Bool
of_user user_id r = equals r.subject_user_id user_id

abbrev pub deletion_id : Message → String
deletion_id m = concat "deletion:" m.external_id

abbrev pub or_already : Result Row × Table → Result Bool × Table
or_already (ok r, table) = (ok true, table)
or_already (err unique_violation, table) = (ok false, table)
or_already (err e, table) = (err e, table)

pub record Counts : Type 0 where
  pub deleted : ℕ
  pub already_deleted : ℕ

abbrev pub count_event : Bool → Counts → Counts
count_event true n = record n { deleted = suc n.deleted }
count_event false n = record n { already_deleted = suc n.already_deleted }

pub record Shred : Type 0 where
  pub dek_destroyed : Bool
  pub event_appended : Bool

module _ (c : AuditChain) where
  unfoldable pub deletion_content_hash : Json → Bytes
  unfolding dumps
  deletion_content_hash metadata = c.sha256 (dumps metadata)

  abbrev pub event : String → String → String → Json → Option String → Fields
  event record_type external_id now metadata subject_user_id = record {
    record_type = record_type;
    source_api = source_api_content;
    external_id = external_id;
    occurred_at = now;
    content_hash = deletion_content_hash metadata;
    record_metadata = metadata;
    subject_user_id = subject_user_id;
    content_ref = none;
    content_size_bytes = none;
  }

  unfoldable pub append_deletion_event :
      String → String → String → Json → Option String → Table → Result Bool × Table
  unfolding append_telemetry_record deletion_content_hash
  append_deletion_event t external_id now metadata subject table = or_already (
      append_telemetry_record c t (event record_type_deletion external_id now metadata subject)
        table)

  module _ {S : Type 0} (delete_content : String → String → S → S) where
    abbrev pub delete_blob : String → Option String → S → S
    delete_blob t none store = store
    delete_blob t (some ref) store = if is_empty ref then store else delete_content t ref store

    abbrev pub on_event :
        Counts
        → Result Bool × Table
        → (Counts → Table → Result Counts × Table × S)
        → S
        → Result Counts × Table × S
    on_event n (err e, table) rest store = (err e, table, store)
    on_event n (ok is_new, table) rest store = rest (count_event is_new n) table

    -- The loop of `_delete_message_records`; an exception leaves it with what was done.
    unfoldable pub delete_message_records :
        String → Request → List Message → Counts → Table → S → Result Counts × Table × S
    unfolding append_deletion_event concat
    delete_message_records t q [] n table store = (ok n, table, store)
    delete_message_records t q (m ∷ rows) n table store =
        let store' = delete_blob t m.content_ref store in
        on_event n
          (append_deletion_event t (deletion_id m) q.now (message_metadata q m) m.subject_user_id
            table)
          (λ n' table'. delete_message_records t q rows n' table' store') store'

    abbrev pub no_counts : Counts
    no_counts = record { deleted = 0; already_deleted = 0 }

    unfoldable pub delete_selected :
        String → String → (Row → Bool) → Request → Table → S → Result Counts × Table × S
    unfolding delete_message_records select_message_records
    delete_selected t id matches q table store =
        if is_empty t
        then (err value_error, table, store)
        else if is_empty id
        then (err value_error, table, store)
        else delete_message_records t q (select_message_records t matches table) no_counts table
            store

    unfoldable pub delete_chat :
        String → String → String → String → String → Table → S → Result Counts × Table × S
    unfolding delete_selected
    delete_chat t chat_id reason requested_by now =
        delete_selected t chat_id (of_chat chat_id) (chat_request reason requested_by now)

    unfoldable pub delete_user_content :
        String → String → String → String → String → Table → S → Result Counts × Table × S
    unfolding delete_selected
    delete_user_content t user_id reason requested_by now =
        delete_selected t user_id (of_user user_id) (user_request user_id reason requested_by now)

  abbrev shred_metadata : String → String → String → Bool → Json
  shred_metadata reason requested_by now destroyed = Json.object (
      Json.field "scope" (Json.text "tenant") (
        Json.field "reason" (Json.text reason) (
          Json.field "requested_by" (Json.text requested_by) (
            Json.field "deleted_at" (Json.text now)
              (Json.field "dek_destroyed" (Json.bool destroyed) Json.end)))))

  abbrev pub shred_event : Bool → Result Bool × Table → Vault → Result Shred × Table × Vault
  shred_event destroyed (err e, table) vault = (err e, table, vault)
  shred_event destroyed (ok appended, table) vault =
      (ok (record { dek_destroyed = destroyed; event_appended = appended }), table, vault)

  abbrev pub on_destroyed :
      String → String → String → String → Result Bool × Vault → Table → Result Shred × Table × Vault
  on_destroyed t reason requested_by now (err e, vault) table = (err e, table, vault)
  on_destroyed t reason requested_by now (ok destroyed, vault) table =
      shred_event destroyed
        (append_deletion_event t "deletion:tenant" now
          (shred_metadata reason requested_by now destroyed) none table)
        vault

  -- The key is destroyed before the event is appended.
  unfoldable pub crypto_shred_tenant :
      String → String → String → String → Table → Vault → Result Shred × Table × Vault
  unfolding append_deletion_event destroy_tenant_dek
  crypto_shred_tenant t reason requested_by now table vault =
      if is_empty t
      then (err value_error, table, vault)
      else on_destroyed t reason requested_by now (destroy_tenant_dek t vault) table

  -- `uuid` is the hexadecimal text of a fresh UUID.
  unfoldable pub log_content_reveal :
      String
      → String
      → String
      → Option String
      → Option String
      → String
      → String
      → Table
      → Result Row × Table
  unfolding append_telemetry_record deletion_content_hash concat
  log_content_reveal t scope revealed_by chat_id subject now uuid table =
      append_telemetry_record c t
        (event record_type_reveal (concat "reveal:" uuid) now
          (Json.object (
            Json.field "scope" (Json.text scope) (
              Json.field "revealed_by" (Json.text revealed_by) (
                Json.field "revealed_at" (Json.text now) (
                  optional_field "chat_id" chat_id
                    (optional_field "subject_user_id" subject Json.end))))))
          subject)
        table
