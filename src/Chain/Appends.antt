-- ===== src/Chain/Appends.antt =====
-- What an append does to a well-formed table: the invariant, and the result on every branch, for
-- `append_telemetry_record` of chain.py.
use vargate_telemetry.Base.{
  ℕ, ◌+◌, ◌≤◌, ◌<◌, ◌≡◌, ◌≢◌, refl, ◌⊎◌, inl, inr, Bool, true, false, [], ◌∷◌, String, arith,
  length, eq_iff, str_eq, Bool-cases, ==-eq-false, any, ◌&&◌, ◌||◌, ◌==◌, none, some, String-cases,
  subst, sym, ◌∙◌, or-false,
}
use vargate_telemetry.Base.Result.{ok, err, value_error, data_error, unique_violation}
use vargate_telemetry.Chain.Package.{AuditChain}
use vargate_telemetry.Chain.Table.{Row, Table, visible, violates_unique}
use vargate_telemetry.Chain.Append.{
  Fields, row_fields, fits_columns, commit, append_telemetry_record,
}
use vargate_telemetry.Chain.Stored.{
  ReadsBack, read_row, commit-cases, read_row-ReadsBack, stored_row-none, stored_row-fits,
}
use vargate_telemetry.Chain.Linkage.{
  Extends, IsLinked, WellFormed, prepared_row, prepare-cases, prepare-Extends, prepared_row-Extends,
}

-- A row of another tenant is not seen.
pub visible-cons_ne :
    (t : String) (r : Row) (table : Table)
    → r.tenant_id ≢ t
    → visible t (r ∷ table) ≡ visible t table
unfolding visible
visible-cons_ne t r table h = ground (arith, eq_iff r.tenant_id t)

pub visible-cons_eq :
    (t : String) (r : Row) (table : Table)
    → r.tenant_id ≡ t
    → visible t (r ∷ table) ≡ r ∷ visible t table
unfolding visible
visible-cons_eq t r table h = ground (arith, eq_iff r.tenant_id t)

pub insert-WellFormed :
    (c : AuditChain) (r : Row) (table : Table)
    → WellFormed c table
    → Extends c r.tenant_id (visible r.tenant_id table) r
    → WellFormed c (r ∷ table)
insert-WellFormed c r table w x = record { linked = λ t. go t (String-cases r.tenant_id t) }
  where
    go : (t : String) → (r.tenant_id ≡ t) ⊎ (r.tenant_id ≢ t) → IsLinked c t (visible t (r ∷ table))
    go t (inl e) =
        subst (λ (t : String). IsLinked c t (visible t (r ∷ table))) e
          (rw (visible-cons_eq r.tenant_id r table refl) (x, w.linked r.tenant_id))
    go t (inr n) = rw (visible-cons_ne t r table n) (w.linked t)

-- A committed row that extends its tenant's chain and reads back as it was given keeps the table
-- well-formed; a refused one changes nothing.
pub commit-WellFormed :
    (c : AuditChain) (r : Row) (table : Table)
    → WellFormed c table
    → Extends c r.tenant_id (visible r.tenant_id table) r
    → ReadsBack c (row_fields r)
    → WellFormed c (commit c r table).1
commit-WellFormed c r table w x back = elim (commit-cases c r table) [
  | inl (refused, e) ↦ rw e w
  | inr (m, taken, kept, inl (bad, e)) ↦ rw e w
  | inr (m, taken, kept, inr (good, e)) ↦
      rw (e, read_row-ReadsBack c r m back taken) (insert-WellFormed c r table w x)
]

-- An append of arguments that read back keeps the chains of all tenants well-formed, whether it
-- returns or raises.
pub append-WellFormed :
    (c : AuditChain) (t : String) (f : Fields) (table : Table)
    → WellFormed c table
    → ReadsBack c f
    → WellFormed c (append_telemetry_record c t f table).1
unfolding append_telemetry_record
append-WellFormed c t f table w back = elim (prepare-cases c t f table) [
  | inl (bad, _) ↦ rw bad w
  | inr (good, _, _) ↦
      let (_, _, x) = prepare-Extends c t f table (prepared_row c t f table) (w.linked t) good in
      rw good (commit-WellFormed c (prepared_row c t f table) table w x back)
]

-- The row that an append would build is a duplicate: the stream already has its external id.
abbrev pub is_duplicate : String → String → Row → Bool
is_duplicate source external r = str_eq r.source_api source && str_eq r.external_id external

module _ (c : AuditChain) (t : String) where
  -- In a linked chain no row is numbered past its length.
  pub seq-le-length :
      (rs : Table) (n : ℕ)
      → IsLinked c t rs
      → length rs < n
      → any (λ (q : Row). q.chain_seq == n) rs ≡ false
  seq-le-length [] n h lt = refl
  seq-le-length (r ∷ rs) n h lt = let seq = h.0.numbered in ground (arith, seq-le-length rs n h.1)

  -- Every number from one to the length is taken.
  pub seq-taken :
      (rs : Table) (n : ℕ)
      → IsLinked c t rs
      → 0 < n
      → n ≤ length rs
      → any (λ (q : Row). q.chain_seq == n) rs ≡ true
  seq-taken [] n h pos le = absurd (omega arith)
  seq-taken (r ∷ rs) n h pos le = elim (Bool-cases (r.chain_seq == n)) [
    | inl here ↦ rw here
    | inr later ↦
        let seq = h.0.numbered in
        let ne = ==-eq-false r.chain_seq n later in rw later (seq-taken rs n h.1 pos (omega arith))
  ]

-- The unique constraints, seen from the tenant's own rows.
pub violates_unique-eq :
    (r : Row) (table : Table)
    → violates_unique r table ≡ (
        any (is_duplicate r.source_api r.external_id) (visible r.tenant_id table)
        || any (λ (q : Row). q.chain_seq == r.chain_seq) (visible r.tenant_id table))
unfolding violates_unique visible
violates_unique-eq r [] = refl
violates_unique-eq r (q ∷ table) = ground (arith, violates_unique-eq r table)

module _ (c : AuditChain) (t : String) (f : Fields) (table : Table) where
  -- On a well-formed table only a duplicate can violate a constraint.
  pub violates_unique-prepared_row :
      IsLinked c t (visible t table)
      → violates_unique (prepared_row c t f table) table
        ≡ any (is_duplicate f.source_api f.external_id) (visible t table)
  violates_unique-prepared_row h =
      let x = prepared_row-Extends c t f table h in
      let free =
        seq-le-length c t (visible t table) (prepared_row c t f table).chain_seq h
          (rw x.numbered (omega arith)) in
      rw (violates_unique-eq (prepared_row c t f table) table, free)
        (or-false (any (is_duplicate f.source_api f.external_id) (visible t table)))

  -- What an append does to a well-formed table, on every branch: an empty tenant or a content hash
  -- that is not 32 bytes raises `ValueError`; a value that its column refuses raises `DataError`; an
  -- external id that the tenant's stream already has raises `IntegrityError`; none of them changes the
  -- table. Any other append adds one row of this tenant, numbered one past the rows that it had, with
  -- the time and the metadata as the columns read them back.
  pub append-outcomes :
      WellFormed c table
      → let (result, after) = append_telemetry_record c t f table in
        ((result ≡ err value_error) × (after ≡ table) × ((t ≡ "") ⊎ (length f.content_hash ≢ 32)))
        ⊎ ((result ≡ err data_error)
            × (after ≡ table)
            × ((fits_columns t f ≡ false) ⊎ (c.jsonb f.record_metadata ≡ none)))
        ⊎ ((result ≡ err unique_violation)
            × (after ≡ table)
            × (any (is_duplicate f.source_api f.external_id) (visible t table) ≡ true))
        ⊎ ((r : Row) × (result ≡ ok r)
            × (after ≡ r ∷ table)
            × (r.tenant_id ≡ t)
            × (r.chain_seq ≡ length (visible t table) + 1)
            × (fits_columns t f ≡ true)
            × (r.occurred_at ≡ c.timestamptz f.occurred_at)
            × (c.jsonb f.record_metadata ≡ some r.record_metadata)
            × (any (is_duplicate f.source_api f.external_id) (visible t table) ≡ false))
  unfolding append_telemetry_record
  append-outcomes w = elim (prepare-cases c t f table) [
    | inl (bad, why) ↦ rw bad (inl (refl, refl, why))
    | inr (good, _, _) ↦
        let p = prepared_row c t f table in
        let e = violates_unique-prepared_row (w.linked t) in
        let x = prepared_row-Extends c t f table (w.linked t) in
        elim (commit-cases c p table) [
          | inl (refused, d) ↦ rw (good, d) (inr (inl (refl, refl, stored_row-none c p refused)))
          | inr (m, taken, kept, inl (bad, d)) ↦
              rw (good, d) (inr (inr (inl (refl, refl, sym e ∙ bad))))
          | inr (m, taken, kept, inr (free, d)) ↦
              rw (good, d)
                (inr (
                  inr (
                    inr (
                      read_row c p m,
                      refl,
                      refl,
                      refl,
                      x.numbered,
                      stored_row-fits c p (read_row c p m) kept,
                      refl,
                      taken,
                      sym e ∙ free,
                    ))))
        ]
  ]
