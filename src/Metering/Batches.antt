-- ===== src/Metering/Batches.antt =====
-- What the batches of metering.py's flush add to `usage_records`: grouping by tenant loses no count,
-- and the dispatch to Stripe changes no count.
use vargate_telemetry.Base.{
  ◌==◌, ==_iff, ℕ, ◌+◌, ◌≡◌, refl, Bool, true, Option, none, some, List, [], ◌∷◌, ◌++◌, String,
  str_eq, eq_iff, ◌&&◌, arith, Bool-cases, inl, inr,
}
use vargate_telemetry.Metering.Field.{MeterKey}
use vargate_telemetry.Metering.Counters.{add_at, tally, tally-add_at}
use vargate_telemetry.Metering.Flush.{
  key_eq, Item, group_item, group_by_tenant, Db, Dispatcher, report_item, report_items,
  report_usage, upsert_items,
}

and3 : (a b c : Bool) → (a && b && c) ≡ true → (a ≡ true) × (b ≡ true) × (c ≡ true)
and3 a b c h = ground arith

key-eq :
    (k l : MeterKey)
    → k.tenant_id ≡ l.tenant_id
    → k.record_type ≡ l.record_type
    → k.bucket_start ≡ l.bucket_start
    → k ≡ l
key-eq k l a b c i = record { tenant_id = a i; record_type = b i; bucket_start = c i }

pub key_eq-eq : (k l : MeterKey) → key_eq k l ≡ true → k ≡ l
unfolding key_eq
key_eq-eq k l h =
    let (t, r, b) =
      and3 (str_eq k.tenant_id l.tenant_id) (str_eq k.record_type l.record_type)
        (k.bucket_start == l.bucket_start) h in
    key-eq k l ((eq_iff k.tenant_id l.tenant_id).0 t) ((eq_iff k.record_type l.record_type).0 r)
      ((==_iff k.bucket_start l.bucket_start).0 b)

module _ (p : MeterKey → Bool) where
  tally-append : (xs ys : List Item) → tally p (xs ++ ys) ≡ tally p xs + tally p ys
  unfolding tally
  tally-append [] ys = omega arith
  tally-append ((k, n) ∷ xs) ys = omega (arith, tally-append xs ys)

  -- The sum over all groups.
  unfoldable pub tally_groups : List (String × List Item) → ℕ
  tally_groups [] = 0
  tally_groups ((t, items) ∷ groups) = tally p items + tally_groups groups

  tally_groups-group_item :
      (item : Item) (groups : List (String × List Item))
      → tally_groups (group_item item groups) ≡ tally p (item ∷ []) + tally_groups groups
  unfolding group_item tally_groups
  tally_groups-group_item item [] = refl
  tally_groups-group_item item ((t, items) ∷ groups) =
      elim (Bool-cases (str_eq item.0.tenant_id t)) [
        | inl same ↦ rw same (omega (arith, tally-append items (item ∷ [])))
        | inr other ↦ rw other (omega (arith, tally_groups-group_item item groups))
      ]

  pub tally_groups-group_by_tenant :
      (items : List Item) (groups : List (String × List Item))
      → tally_groups (group_by_tenant items groups) ≡ tally p items + tally_groups groups
  unfolding group_by_tenant tally
  tally_groups-group_by_tenant [] groups = omega arith
  tally_groups-group_by_tenant ((k, n) ∷ items) groups =
      let rest = tally_groups-group_by_tenant items (group_item (k, n) groups) in
      let here = tally_groups-group_item (k, n) groups in omega arith

  module _ {S : Type 0} where
    pub tally-upsert_items :
        (items : List Item) (db : Db S)
        → tally p (upsert_items items db).usage_records ≡ tally p items + tally p db.usage_records
    unfolding upsert_items tally
    tally-upsert_items [] db = omega arith
    tally-upsert_items ((k, n) ∷ items) db =
        let rest =
          tally-upsert_items items
            (record db { usage_records = add_at key_eq k n db.usage_records }) in
        let here = tally-add_at key_eq key_eq-eq p k n db.usage_records in omega arith

module _ {S : Type 0} where
  report_items-usage :
      (send : Dispatcher S) (subscription : String) (items : List Item) (db : Db S)
      → (report_items send subscription items db).usage_records ≡ db.usage_records
  unfolding report_items report_item
  report_items-usage send subscription [] db = refl
  report_items-usage send subscription (item ∷ items) db =
      report_items-usage send subscription items (report_item send subscription item db)

  -- Whatever Stripe does, the metered counts stand.
  pub report_usage-usage :
      (dispatcher : Option (Dispatcher S)) (subscription : Option String) (items : List Item)
      (db : Db S)
      → (report_usage dispatcher subscription items db).usage_records ≡ db.usage_records
  unfolding report_usage
  report_usage-usage dispatcher none items db = refl
  report_usage-usage none (some s) items db = refl
  report_usage-usage (some send) (some s) items db = report_items-usage send s items db
