-- ===== src/Chain/Table.antt =====
-- The table `telemetry_records` (models/records.py) as a list of rows, newest first, with its
-- unique constraints, and the view that `session_scope` leaves of it.
use vargate_telemetry.Base.{
  ℕ, Bool, Option, none, some, List, [], ◌∷◌, ◌&&◌, ◌||◌, ◌==◌, String, leb, str_eq, select, any,
  if◌then◌else◌,
}
use vargate_telemetry.Chain.Hex.{Bytes}
use vargate_telemetry.Chain.Json.{Json}

-- `occurred_at` is held as its ISO text.
pub record Row : Type 0 where
  pub tenant_id : String
  pub record_type : String
  pub source_api : String
  pub external_id : String
  pub subject_user_id : Option String
  pub occurred_at : String
  pub content_ref : Option String
  pub content_hash : Bytes
  pub content_size_bytes : Option ℕ
  pub record_metadata : Json
  pub chain_seq : ℕ
  pub chain_prev_hash : Bytes
  pub chain_self_hash : Bytes

abbrev pub Table : Type 0
Table = List Row

-- The policy `tenant_isolation_telemetry_records`: the rows of the session's tenant.
abbrev pub is_of : String → Row → Bool
is_of t r = str_eq r.tenant_id t

unfoldable pub visible : String → Table → Table
visible t = select (is_of t)

-- `uq_telemetry_records_dedup` and `uq_telemetry_records_chain`, one row against another.
abbrev pub collides : Row → Row → Bool
collides r q =
    str_eq q.tenant_id r.tenant_id
    && (str_eq q.source_api r.source_api && str_eq q.external_id r.external_id
        || q.chain_seq == r.chain_seq)

unfoldable pub violates_unique : Row → Table → Bool
violates_unique r = any (collides r)

abbrev later : Row → Option Row → Option Row
later r none = some r
later r (some q) = if leb q.chain_seq r.chain_seq then some r else some q

-- `ORDER BY chain_seq DESC LIMIT 1`.
unfoldable pub tip : Table → Option Row
tip [] = none
tip (r ∷ rs) = later r (tip rs)

-- `ORDER BY chain_seq ASC`.
unfoldable pub insert_asc : Row → Table → Table
insert_asc r [] = r ∷ []
insert_asc r (q ∷ qs) =
    let rest = insert_asc r qs in if leb r.chain_seq q.chain_seq then r ∷ q ∷ qs else q ∷ rest

unfoldable pub order_asc : Table → Table
unfolding insert_asc
order_asc [] = []
order_asc (r ∷ rs) = insert_asc r (order_asc rs)
