-- ===== src/Metering/Conservation.antt =====
-- Counts are conserved by metering.py: an increment adds its amount to what is pending, and a flush
-- moves all that is pending into `usage_records`.
use vargate_telemetry.Base.{
  ℕ, ◌+◌, ◌≡◌, ◌≢◌, refl, Bool, true, false, Option, List, [], ◌∷◌, String, str_eq, eq_iff,
  is_empty, ◌||◌, ◌==◌, ==-eq-false, if◌then◌else◌, arith, if-elim, ap, sym, ◌∙◌, All, subst,
  length,
}
use vargate_telemetry.Base.Result.{Result, Error, ok, err, value_error, err-ok, ok-injective}
use vargate_telemetry.Metering.Field.{IsoTime, MeterKey, has_delim, encode_field, decode_field}
use vargate_telemetry.Metering.FieldLaws.{decode_field-encode_field, or-false-both}
use vargate_telemetry.Metering.Counters.{add_at, tally, tally-add_at}
use vargate_telemetry.Metering.Flush.{
  Hash, increment, Item, decode_entries, group_by_tenant, Db, Dispatcher, upsert_items,
  upsert_usage, upsert_groups, Meter, flush, flush_hash, drain, drop_if_done,
}
use vargate_telemetry.Metering.Batches.{
  tally_groups, tally_groups-group_by_tenant, tally-upsert_items, report_usage-usage,
}

-- The test of a field by the key that it holds.
abbrev holds : (MeterKey → Bool) → Result MeterKey → Bool
holds p (ok k) = p k
holds p (err e) = false

-- What waits in a hash for the keys of a test.
abbrev pub pending : IsoTime → (MeterKey → Bool) → Hash → ℕ
pending iso p active = tally (λ (field : String). holds p (decode_field iso field)) active

-- Every field of a hash can be read, its time included.
abbrev pub Readable : IsoTime → Hash → Type 0
Readable iso active =
    All (λ (e : String × ℕ). (k : MeterKey) × (decode_field iso e.0 ≡ ok k)) active

decode_entries-Readable :
    (iso : IsoTime) (active : Hash)
    → Readable iso active
    → (items : List Item) × (decode_entries iso active ≡ ok items)
      × ((p : MeterKey → Bool) → pending iso p active ≡ tally p items)
unfolding decode_entries tally
decode_entries-Readable iso [] r = ([], refl, λ p. refl)
decode_entries-Readable iso ((field, n) ∷ active) r =
    let (k, e) = r.0 in
    let (items, d, sums) = decode_entries-Readable iso active r.1 in
    ((k, n) ∷ items, rw (e, d) refl, λ p. rw (e, sums p) refl)

module _ {S : Type 0} (iso : IsoTime) (dispatcher : Option (Dispatcher S))
    (billing : String → Option String) where
  abbrev always : String → Bool
  always t = true

  upsert_usage-always :
      (t : String) (items : List Item) (db : Db S)
      → ((upsert_usage dispatcher billing always t items db).0 ≡ true)
        × ((p : MeterKey → Bool)
            → tally p (upsert_usage dispatcher billing always t items db).1.usage_records
              ≡ tally p items + tally p db.usage_records)
  unfolding upsert_usage tally
  upsert_usage-always t [] db = (refl, λ p. omega arith)
  upsert_usage-always t (item ∷ items) db = (
    refl,
    λ p.
        ap (tally p) (
          report_usage-usage dispatcher (billing t) (item ∷ items) (upsert_items (item ∷ items) db))
        ∙ tally-upsert_items p (item ∷ items) db,
  )

  upsert_groups-always :
      (groups : List (String × List Item)) (processed : ℕ) (db : Db S)
      → (n : ℕ) × (db' : Db S) × (upsert_groups dispatcher billing always groups processed db
          ≡ (ok n, db'))
        × ((p : MeterKey → Bool)
            → tally p db'.usage_records ≡ tally_groups p groups + tally p db.usage_records)
  unfolding upsert_groups tally_groups
  upsert_groups-always [] processed db = (processed, db, refl, λ p. omega arith)
  upsert_groups-always ((t, items) ∷ groups) processed db =
      let (done, here) = upsert_usage-always t items db in
      let (n, db', e, rest) =
        upsert_groups-always groups (processed + length items)
          (upsert_usage dispatcher billing always t items db).1 in
      (n, db', rw done e, λ p. omega (arith, rest p, here p))

  flush_hash-conserves :
      (active : Hash) (flushing : List Hash) (db : Db S)
      → Readable iso active
      → (n : ℕ) × (db' : Db S) × (flush_hash dispatcher billing always iso active flushing db
          ≡ (ok n, record { active = []; flushing = flushing; db = db' }))
        × ((p : MeterKey → Bool)
            → tally p db'.usage_records ≡ pending iso p active + tally p db.usage_records)
  unfolding tally tally_groups flush_hash drain
  flush_hash-conserves [] flushing db r = (0, db, refl, λ p. omega arith)
  flush_hash-conserves (e ∷ es) flushing db r =
      let (items, d, sums) = decode_entries-Readable iso (e ∷ es) r in
      let (n, db', u, rest) = upsert_groups-always (group_by_tenant items []) 0 db in
      (n, db', rw (d, u) refl, λ p. rw (sums p) (moved p items n db' db (rest p)))
    where
      moved :
          (p : MeterKey → Bool) (items : List Item) (n : ℕ) (db' db : Db S)
          → tally p db'.usage_records
            ≡ tally_groups p (group_by_tenant items []) + tally p db.usage_records
          → tally p db'.usage_records ≡ tally p items + tally p db.usage_records
      moved p items n db' db e = let g = tally_groups-group_by_tenant p items [] in omega arith

  -- Where every field can be read and every transaction commits, a flush returns, empties the
  -- active hash, leaves no renamed hash, and adds to the count of every key what was pending for
  -- it: whatever Stripe answers.
  pub flush-conserves :
      (m : Meter S)
      → Readable iso m.active
      → (n : ℕ) × (db' : Db S) × (flush dispatcher billing always iso m
          ≡ (ok n, record { active = []; flushing = m.flushing; db = db' }))
        × ((p : MeterKey → Bool)
            → tally p db'.usage_records ≡ pending iso p m.active + tally p m.db.usage_records)
  unfolding flush
  flush-conserves m r = flush_hash-conserves m.active m.flushing m.db r

  module _ (commits : String → Bool) where
    drop_if_done-kept :
        (hash : Hash) (flushing : List Hash) (r : Result ℕ × Db S) (e : Error) (m' : Meter S)
        → drop_if_done dispatcher billing commits hash flushing r ≡ (err e, m')
        → m'.flushing ≡ hash ∷ flushing
    drop_if_done-kept hash flushing (ok n, db) e m' h =
        elim (err-ok e n (sym (ap (λ z. z.0) h))) [ ]
    drop_if_done-kept hash flushing (err f, db) e m' h = ap (λ z. z.1.flushing) (sym h)

    -- A flush that raises keeps the hash that it drained.
    pub flush-kept :
        (m m' : Meter S) (e : Error)
        → flush dispatcher billing commits iso m ≡ (err e, m')
        → m'.flushing ≡ m.active ∷ m.flushing
    unfolding flush flush_hash drain
    flush-kept m m' e h = kept-of m.active m.flushing m.db h
      where
        kept-of :
            (active : Hash) (flushing : List Hash) (db : Db S)
            → flush_hash dispatcher billing commits iso active flushing db ≡ (err e, m')
            → m'.flushing ≡ active ∷ flushing
        kept-of [] flushing db h = elim (err-ok e 0 (sym (ap (λ z. z.0) h))) [ ]
        kept-of (x ∷ xs) flushing db h = drained (decode_entries iso (x ∷ xs)) h
          where
            drained :
                (r : Result (List Item))
                → drain dispatcher billing commits (x ∷ xs) flushing db r ≡ (err e, m')
                → m'.flushing ≡ (x ∷ xs) ∷ flushing
            drained (err f) k = ap (λ z. z.1.flushing) (sym k)
            drained (ok items) k = drop_if_done-kept (x ∷ xs) flushing _ e m' k

add_at-Readable :
    (iso : IsoTime) (k : MeterKey) (field : String) (n : ℕ) (active : Hash)
    → decode_field iso field ≡ ok k
    → Readable iso active
    → Readable iso (add_at str_eq field n active)
unfolding add_at
add_at-Readable iso k field n [] d r = ((k, d), tt)
add_at-Readable iso k field n ((f, m) ∷ active) d r =
    if-elim (Readable iso) (str_eq field f) ((f, m + n) ∷ active)
      ((f, m) ∷ add_at str_eq field n active) (λ same. r)
      (λ other. (r.0, add_at-Readable iso k field n active d r.1))

-- The counter of `increment`.
abbrev meter_key : String → String → ℕ → MeterKey
meter_key t r b = record { tenant_id = t; record_type = r; bucket_start = b }

guards :
    {A : Type 0} (a b c : Bool) (x y : A)
    → (if a
        then err value_error
        else if b
        then err value_error
        else if c
        then err value_error
        else ok x)
      ≡ ok y
    → (b ≡ false) × (c ≡ false) × (y ≡ x)
guards true b c x y h = elim (err-ok value_error y h) [ ]
guards false true c x y h = elim (err-ok value_error y h) [ ]
guards false false true x y h = elim (err-ok value_error y h) [ ]
guards false false false x y h = (refl, refl, sym (ok-injective x y h))

increment-ok :
    (iso : IsoTime) (t r : String) (n b : ℕ) (active active' : Hash)
    → increment iso t r n b active ≡ ok active'
    → (has_delim t ≡ false)
      × (has_delim r ≡ false)
      × (n ≢ 0)
      × (active' ≡ add_at str_eq (encode_field iso (meter_key t r b)) n active)
unfolding increment
increment-ok iso t r n b active active' h =
    let (delims, zeros, e) =
      guards (is_empty t || is_empty r) (has_delim t || has_delim r) (n == 0) _ active' h in
    let (dt, dr) = or-false-both (has_delim t) (has_delim r) delims in
    (dt, dr, ==-eq-false n 0 zeros, e)

-- An increment that is accepted keeps every field readable and adds its amount to its own counter.
pub increment-conserves :
    (iso : IsoTime) (t r : String) (n b : ℕ) (active active' : Hash)
    → Readable iso active
    → increment iso t r n b active ≡ ok active'
    → Readable iso active'
      × ((p : MeterKey → Bool)
          → pending iso p active' ≡ (if p (meter_key t r b) then n else 0) + pending iso p active)
increment-conserves iso t r n b active active' readable h =
    let (dt, dr, nz, e) = increment-ok iso t r n b active active' h in
    let d = decode_field-encode_field iso (meter_key t r b) dt dr in
    let field = encode_field iso (meter_key t r b) in
    (
      subst (Readable iso) (sym e)
          (add_at-Readable iso (meter_key t r b) field n active d readable),
      λ p.
          ap (pending iso p) e
          ∙ tally-add_at str_eq (λ k l. (eq_iff k l).0) (λ f. holds p (decode_field iso f)) field n
              active
          ∙ ap (λ (z : Result MeterKey). (if holds p z then n else 0) + pending iso p active) d,
    )
