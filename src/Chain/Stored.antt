-- ===== src/Chain/Stored.antt =====
-- The INSERT of chain.py, case by case, and the arguments that the columns of models/records.py read
-- back as they were given.
use vargate_telemetry.Base.{
  ◌≡◌, refl, sym, ap, ◌∙◌, true, false, Option, none, some, ◌∷◌, String, ◌⊎◌, inl, inr, Bool-cases,
  Option-cases,
}
use vargate_telemetry.Base.Result.{ok, err, data_error, unique_violation}
use vargate_telemetry.Chain.Json.{Json}
use vargate_telemetry.Chain.Package.{AuditChain}
use vargate_telemetry.Chain.Table.{Row, Table, violates_unique}
use vargate_telemetry.Chain.Append.{Fields, row_fields, fits_columns, stored_row, stored_as, commit}

-- The row as it is read back.
abbrev pub read_row : AuditChain → Row → Json → Row
read_row c r m = record r { occurred_at = c.timestamptz r.occurred_at; record_metadata = m }

module _ (c : AuditChain) where
  -- The time and the metadata of the arguments read back as they were given, where they are taken.
  pub record ReadsBack (f : Fields) : Type 0 where
    pub time : c.timestamptz f.occurred_at ≡ f.occurred_at
    pub metadata : (m : Json) → c.jsonb f.record_metadata ≡ some m → m ≡ f.record_metadata

  -- The columns take the arguments, and read them back as they were given.
  pub record IsStorable (t : String) (f : Fields) : Type 0 where
    pub fits : fits_columns t f ≡ true
    pub time : c.timestamptz f.occurred_at ≡ f.occurred_at
    pub metadata : c.jsonb f.record_metadata ≡ some f.record_metadata

  stored_as-row :
      (r q : Row) (at : String) (o : Option Json)
      → stored_as r at o ≡ some q
      → (m : Json) × (o ≡ some m) × (q ≡ record r { occurred_at = at; record_metadata = m })
  stored_as-row r q at none e = cc
  stored_as-row r q at (some m) e = (m, refl, cc)

  pub stored_row-row :
      (r q : Row)
      → stored_row c r ≡ some q
      → (m : Json) × (c.jsonb r.record_metadata ≡ some m) × (q ≡ read_row c r m)
  unfolding stored_row
  stored_row-row r q e = elim (Bool-cases (fits_columns r.tenant_id (row_fields r))) [
    | inl fit ↦
        stored_as-row r q (c.timestamptz r.occurred_at) (c.jsonb r.record_metadata) (rw fit at e)
    | inr unfit ↦ let never : none ≡ some q = rw unfit at e in cc
  ]

  -- An INSERT is refused by a column, or by a unique constraint, or adds the row as it reads back.
  pub commit-cases :
      (r : Row) (table : Table)
      → ((stored_row c r ≡ none) × (commit c r table ≡ (err data_error, table)))
        ⊎ ((m : Json) × (c.jsonb r.record_metadata ≡ some m)
            × (stored_row c r ≡ some (read_row c r m))
            × (((violates_unique r table ≡ true)
                  × (commit c r table ≡ (err unique_violation, table)))
                ⊎ ((violates_unique r table ≡ false)
                    × (commit c r table ≡ (ok (read_row c r m), read_row c r m ∷ table)))))
  unfolding commit violates_unique
  commit-cases r table = elim (Option-cases (stored_row c r)) [
    | inl none_ ↦ inl (none_, rw none_ refl)
    | inr (q, e) ↦
        let (m, taken, same) = stored_row-row r q e in
        let e' : stored_row c r ≡ some (read_row c r m) = e ∙ ap some same in
        elim (Bool-cases (violates_unique r table)) [
          | inl bad ↦ inr (m, taken, e', inl (bad, rw (e', bad) refl))
          | inr good ↦ inr (m, taken, e', inr (good, rw (e', good) refl))
        ]
  ]

  pub stored_row-none :
      (r : Row)
      → stored_row c r ≡ none
      → (fits_columns r.tenant_id (row_fields r) ≡ false) ⊎ (c.jsonb r.record_metadata ≡ none)
  unfolding stored_row
  stored_row-none r e = elim (Bool-cases (fits_columns r.tenant_id (row_fields r))) [
    | inr unfit ↦ inl unfit
    | inl fit ↦ elim (Option-cases (c.jsonb r.record_metadata)) [
      | inl none_ ↦ inr none_
      | inr (m, taken) ↦ let never = rw (fit, taken) at e in cc
    ]
  ]

  pub stored_row-fits :
      (r q : Row) → stored_row c r ≡ some q → fits_columns r.tenant_id (row_fields r) ≡ true
  unfolding stored_row
  stored_row-fits r q e = elim (Bool-cases (fits_columns r.tenant_id (row_fields r))) [
    | inl fit ↦ fit
    | inr unfit ↦ let never : none ≡ some q = rw unfit at e in cc
  ]

  same_row :
      (r : Row) (m : Json) (at : String)
      → at ≡ r.occurred_at
      → m ≡ r.record_metadata
      → record r { occurred_at = at; record_metadata = m } ≡ r
  same_row r m at p q i = record r { occurred_at = p i; record_metadata = q i }

  -- A row of arguments that read back reads back as it was given.
  pub read_row-ReadsBack :
      (r : Row) (m : Json)
      → ReadsBack (row_fields r)
      → c.jsonb r.record_metadata ≡ some m
      → read_row c r m ≡ r
  read_row-ReadsBack r m h e = same_row r m (c.timestamptz r.occurred_at) h.time (h.metadata m e)

  pub IsStorable-ReadsBack : (t : String) (f : Fields) → IsStorable t f → ReadsBack f
  IsStorable-ReadsBack t f h = record {
    time = h.time;
    metadata = λ m e. let p : some m ≡ some f.record_metadata = sym e ∙ h.metadata in cc;
  }

  pub stored_row-IsStorable :
      (r : Row) → IsStorable r.tenant_id (row_fields r) → stored_row c r ≡ some r
  unfolding stored_row
  stored_row-IsStorable r h = rw (h.fits, h.metadata, h.time) refl
