-- ===== src/Chain/Append.antt =====
-- `append_telemetry_record` and `verify_telemetry_chain` of chain.py. An append is split where the
-- transaction is: `prepare` reads the tip and builds the row, `commit` runs the INSERT.
use vargate_telemetry.Base.{
  ℕ, ◌+◌, Bool, true, ◌&&◌, leb, any, chars, Option, none, some, List, ◌∷◌, map, String, codes,
  length, is_empty, ◌==◌, not, if◌then◌else◌,
}
use vargate_telemetry.Base.Result.{Result, ok, err, value_error, data_error, unique_violation}
use vargate_telemetry.Chain.Hex.{Bytes, hex, fromhex}
use vargate_telemetry.Chain.Json
use vargate_telemetry.Chain.Json.{Json, dumps}
use vargate_telemetry.Chain.Package.{AuditChain, ChainRecord, VerifyResult}
use vargate_telemetry.Chain.Table.{Row, Table, visible, violates_unique, tip, order_asc}

-- The keyword arguments of an append, `record_metadata or {}` already taken.
pub record Fields : Type 0 where
  pub record_type : String
  pub source_api : String
  pub external_id : String
  pub occurred_at : String
  pub content_hash : Bytes
  pub record_metadata : Json
  pub subject_user_id : Option String
  pub content_ref : Option String
  pub content_size_bytes : Option ℕ

abbrev pub optional_text : Option String → Json
optional_text none = Json.null
optional_text (some s) = Json.text s

-- A text given by its character codes is printed as such.
abbrev hex_text : Bytes → Json
hex_text b = Json.ascii (hex b)

unfoldable pub canonical_dict : Fields → Json
canonical_dict f = Json.object (
    Json.field "content_hash" (hex_text f.content_hash) (
      Json.field "content_ref" (optional_text f.content_ref) (
        Json.field "external_id" (Json.text f.external_id) (
          Json.field "metadata" f.record_metadata (
            Json.field "occurred_at" (Json.text f.occurred_at) (
              Json.field "record_type" (Json.text f.record_type) (
                Json.field "source_api" (Json.text f.source_api)
                  (Json.field "subject_user_id" (optional_text f.subject_user_id) Json.end))))))))

unfoldable pub canonical_bytes : Fields → Bytes
unfolding canonical_dict dumps
canonical_bytes f = dumps (canonical_dict f)

-- The arguments that a stored row was built from.
abbrev pub row_fields : Row → Fields
row_fields r = record {
  record_type = r.record_type;
  source_api = r.source_api;
  external_id = r.external_id;
  occurred_at = r.occurred_at;
  content_hash = r.content_hash;
  record_metadata = r.record_metadata;
  subject_user_id = r.subject_user_id;
  content_ref = r.content_ref;
  content_size_bytes = r.content_size_bytes;
}

abbrev is_nul : ℕ → Bool
is_nul n = n == 0

-- A `String(n)` column takes a text of at most `n` characters without NUL.
abbrev pub fits_string : ℕ → String → Bool
fits_string n s = leb (chars s) n && not (any is_nul (codes s))

abbrev pub fits_optional : ℕ → Option String → Bool
fits_optional n none = true
fits_optional n (some s) = fits_string n s

abbrev pub fits_bigint : Option ℕ → Bool
fits_bigint none = true
fits_bigint (some n) = leb n 9223372036854775807

-- The columns of the arguments take their values.
unfoldable pub fits_columns : String → Fields → Bool
unfolding chars
fits_columns t f =
    fits_string 64 t
    && fits_string 32 f.record_type
    && fits_string 64 f.source_api
    && fits_string 256 f.external_id
    && fits_optional 128 f.subject_user_id
    && fits_optional 512 f.content_ref
    && fits_bigint f.content_size_bytes

abbrev pub stored_as : Row → String → Option Json → Option Row
stored_as r at none = none
stored_as r at (some m) = some (record r { occurred_at = at; record_metadata = m })

-- The row that is read back after an INSERT of the row, where no column refuses its value.
unfoldable pub stored_row : AuditChain → Row → Option Row
unfolding fits_columns
stored_row c r =
    if fits_columns r.tenant_id (row_fields r)
    then stored_as r (c.timestamptz r.occurred_at) (c.jsonb r.record_metadata)
    else none

abbrev pub insert_stored : Option Row → Table → Result Row × Table
insert_stored none table = (err data_error, table)
insert_stored (some r) table =
    if violates_unique r table then (err unique_violation, table) else (ok r, r ∷ table)

-- The INSERT, the refresh, and the end of the transaction.
unfoldable pub commit : AuditChain → Row → Table → Result Row × Table
unfolding stored_row
commit c r table = insert_stored (stored_row c r) table

abbrev commit_prepared : AuditChain → Result Row → Table → Result Row × Table
commit_prepared c (ok r) table = commit c r table
commit_prepared c (err e) table = (err e, table)

module _ (c : AuditChain) where
  abbrev pub genesis_prev_bytes : Bytes
  genesis_prev_bytes = c.sha256 (codes "vargate.telemetry/chain/genesis")

  -- What the tip decides: the new sequence number, and the predecessor's hash as a text and as bytes.
  abbrev pub next_seq : Option Row → ℕ
  next_seq none = 1
  next_seq (some q) = q.chain_seq + 1

  abbrev pub prev_bytes : Option Row → Bytes
  prev_bytes none = genesis_prev_bytes
  prev_bytes (some q) = q.chain_self_hash

  abbrev pub prev_text : Option Row → List ℕ
  prev_text none = c.genesis_hash
  prev_text (some q) = hex q.chain_self_hash

  -- The row that the INSERT is given.
  abbrev pub build_row : String → Fields → Option Row → Bytes → Row
  build_row t f q self = record {
    tenant_id = t;
    record_type = f.record_type;
    source_api = f.source_api;
    external_id = f.external_id;
    subject_user_id = f.subject_user_id;
    occurred_at = f.occurred_at;
    content_ref = f.content_ref;
    content_hash = f.content_hash;
    content_size_bytes = f.content_size_bytes;
    record_metadata = f.record_metadata;
    chain_seq = next_seq q;
    chain_prev_hash = prev_bytes q;
    chain_self_hash = self;
  }

  abbrev build : String → Fields → Option Row → Option Bytes → Result Row
  build t f q none = err value_error
  build t f q (some self) = ok (build_row t f q self)

  unfoldable pub prepare : String → Fields → Table → Result Row
  prepare t f table =
      if is_empty t
      then err value_error
      else if not (length f.content_hash == 32)
      then err value_error
      else let q = tip (visible t table) in
        build t f q (fromhex (c.compute_record_hash t (canonical_bytes f) (prev_text q)))

  unfoldable pub append_telemetry_record : String → Fields → Table → Result Row × Table
  unfolding prepare commit
  append_telemetry_record t f table = commit_prepared c (prepare t f table) table

  unfoldable pub row_to_chain_record : Row → ChainRecord
  row_to_chain_record r = record {
    canonical_bytes = canonical_bytes (row_fields r);
    prev_hash = if r.chain_seq == 1 then c.genesis_hash else hex r.chain_prev_hash;
    record_hash = hex r.chain_self_hash;
  }

  unfoldable pub verify_telemetry_chain : String → Table → Result VerifyResult
  unfolding row_to_chain_record
  verify_telemetry_chain t table =
      if is_empty t
      then err value_error
      else ok (c.verify_record_chain t (map row_to_chain_record (order_asc (visible t table))))
