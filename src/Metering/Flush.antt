-- ===== src/Metering/Flush.antt =====
-- metering.py's `increment`, `flush` and `_upsert_usage`, with `report_usage` of
-- billing/stripe_client.py. Stripe is a parameter: a call takes and leaves a state and may raise;
-- so are the transactions, of which any may fail to commit.
use vargate_telemetry.Base.{
  ℕ, ◌+◌, Bool, true, false, Option, none, some, List, [], ◌∷◌, ◌++◌, String, str_eq, is_empty,
  ◌==◌, ◌||◌, ◌&&◌, if◌then◌else◌, length,
}
use vargate_telemetry.Base.Result.{Result, ok, err, value_error, failure, ◌>>=◌}
use vargate_telemetry.Metering.Field.{IsoTime, MeterKey, has_delim, encode_field, decode_field}
use vargate_telemetry.Metering.Counters.{add_at}

-- The active hash; a missing hash is an empty one, since Redis keeps no empty hash.
abbrev pub Hash : Type 0
Hash = List (String × ℕ)

unfoldable pub key_eq : MeterKey → MeterKey → Bool
key_eq k l =
    str_eq k.tenant_id l.tenant_id
    && str_eq k.record_type l.record_type
    && (k.bucket_start == l.bucket_start)

-- `increment`, in the minute `bucket_start`; `n` is a count, so only zero is refused.
unfoldable pub increment : IsoTime → String → String → ℕ → ℕ → Hash → Result Hash
unfolding has_delim encode_field add_at
increment iso tenant_id record_type n bucket_start active =
    if is_empty tenant_id || is_empty record_type
    then err value_error
    else if has_delim tenant_id || has_delim record_type
    then err value_error
    else if n == 0
    then err value_error
    else ok (
        add_at str_eq
          (encode_field iso (record {
            tenant_id = tenant_id;
            record_type = record_type;
            bucket_start = bucket_start;
          }))
          n active)

-- One entry that was drained: `(record_type, bucket_start, count)`, with its tenant.
abbrev pub Item : Type 0
Item = MeterKey × ℕ

-- The loop over `entries`: a field that does not split into three, or whose last part is no time,
-- raises `ValueError`.
unfoldable pub decode_entries : IsoTime → Hash → Result (List Item)
unfolding decode_field
decode_entries iso [] = ok []
decode_entries iso ((field, count) ∷ entries) = do
  k ← decode_field iso field
  items ← decode_entries iso entries
  ok ((k, count) ∷ items)

-- `by_tenant[tenant_id].append(…)` on a dict, which keeps the order of first insertion.
unfoldable pub group_item : Item → List (String × List Item) → List (String × List Item)
group_item item [] = (item.0.tenant_id, item ∷ []) ∷ []
group_item item ((t, items) ∷ groups) =
    let rest = group_item item groups in
    if str_eq item.0.tenant_id t then (t, items ++ item ∷ []) ∷ groups else (t, items) ∷ rest

unfoldable pub group_by_tenant : List Item → List (String × List Item) → List (String × List Item)
unfolding group_item
group_by_tenant [] groups = groups
group_by_tenant (item ∷ items) groups = group_by_tenant items (group_item item groups)

-- `UsageDispatcher.report_usage`; the key stands for the text that is made of it.
pub record UsageReport : Type 0 where
  pub subscription_item_id : String
  pub quantity : ℕ
  pub timestamp : ℕ
  pub idempotency_key : MeterKey

-- A row of `billing_retry`.
pub record BillingRetry : Type 0 where
  pub key : MeterKey
  pub quantity : ℕ
  pub attempts : ℕ

-- The tables that one flush writes, and Stripe's state.
pub record Db (S : Type 0) : Type 0 where
  pub usage_records : List (MeterKey × ℕ)
  pub billing_retry : List BillingRetry
  pub stripe : S

pub record Meter (S : Type 0) : Type 0 where
  pub active : Hash
  -- the renamed hashes that were not deleted
  pub flushing : List Hash
  pub db : Db S

-- A dispatcher: whether the call returned, or raised, and what it leaves of Stripe.
abbrev pub Dispatcher : Type 0 → Type 0
Dispatcher S = S → UsageReport → Bool × S

module _ {S : Type 0} where
  -- One turn of the dispatch loop: a failure becomes a row to retry.
  unfoldable pub report_item : Dispatcher S → String → Item → Db S → Db S
  report_item send subscription (k, n) db =
      let (sent, stripe) = send db.stripe (record {
        subscription_item_id = subscription;
        quantity = n;
        timestamp = k.bucket_start;
        idempotency_key = k;
      }) in
      record {
        usage_records = db.usage_records;
        billing_retry =
            if sent
            then db.billing_retry
            else record { key = k; quantity = n; attempts = 1 } ∷ db.billing_retry;
        stripe = stripe;
      }

  unfoldable pub report_items : Dispatcher S → String → List Item → Db S → Db S
  unfolding report_item
  report_items send subscription [] db = db
  report_items send subscription (item ∷ items) db =
      report_items send subscription items (report_item send subscription item db)

  -- `report_usage`: nothing without a `tenant_billing` row or a configured dispatcher.
  unfoldable pub report_usage : Option (Dispatcher S) → Option String → List Item → Db S → Db S
  unfolding report_items
  report_usage dispatcher none items db = db
  report_usage none (some subscription) items db = db
  report_usage (some send) (some subscription) items db = report_items send subscription items db

  unfoldable pub upsert_items : List Item → Db S → Db S
  unfolding add_at key_eq
  upsert_items [] db = db
  upsert_items ((k, n) ∷ items) db =
      upsert_items items (record db { usage_records = add_at key_eq k n db.usage_records })

  module _ (dispatcher : Option (Dispatcher S)) (billing : String → Option String)
      (commits : String → Bool) where
    -- `_upsert_usage`: one transaction; where it does not commit its tables are as before, but what
    -- was sent to Stripe stays sent.
    unfoldable pub upsert_usage : String → List Item → Db S → Bool × Db S
    unfolding upsert_items report_usage
    upsert_usage tenant_id [] db = (true, db)
    upsert_usage tenant_id (item ∷ items) db =
        let done =
          report_usage dispatcher (billing tenant_id) (item ∷ items)
            (upsert_items (item ∷ items) db) in
        if commits tenant_id then (true, done) else (false, record db { stripe = done.stripe })

    -- The loop over the tenants, which an exception leaves.
    unfoldable pub upsert_groups : List (String × List Item) → ℕ → Db S → Result ℕ × Db S
    unfolding upsert_usage
    upsert_groups [] processed db = (ok processed, db)
    upsert_groups ((t, items) ∷ groups) processed db =
        let (committed, db') = upsert_usage t items db in
        let rest = upsert_groups groups (processed + length items) db' in
        if committed then rest else (err failure, db')

    -- The loop over the tenants and the delete of the renamed hash, which an exception skips.
    abbrev pub drop_if_done : Hash → List Hash → Result ℕ × Db S → Result ℕ × Meter S
    drop_if_done hash flushing (ok n, db) =
        (ok n, record { active = []; flushing = flushing; db = db })
    drop_if_done hash flushing (err e, db) =
        (err e, record { active = []; flushing = hash ∷ flushing; db = db })

    unfoldable pub drain : Hash → List Hash → Db S → Result (List Item) → Result ℕ × Meter S
    unfolding group_by_tenant upsert_groups
    drain hash flushing db (err e) =
        (err e, record { active = []; flushing = hash ∷ flushing; db = db })
    drain hash flushing db (ok items) =
        drop_if_done hash flushing (upsert_groups (group_by_tenant items []) 0 db)

    unfoldable pub flush_hash : IsoTime → Hash → List Hash → Db S → Result ℕ × Meter S
    unfolding drain decode_entries
    flush_hash iso [] flushing db = (ok 0, record { active = []; flushing = flushing; db = db })
    flush_hash iso (e ∷ es) flushing db = drain (e ∷ es) flushing db (decode_entries iso (e ∷ es))

    -- `flush`: the active hash is renamed; it is deleted only when every tenant's batch committed.
    unfoldable pub flush : IsoTime → Meter S → Result ℕ × Meter S
    unfolding flush_hash
    flush iso m = flush_hash iso m.active m.flushing m.db
