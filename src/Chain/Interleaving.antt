-- ===== src/Chain/Interleaving.antt =====
-- Concurrent appends (the docstring of `append_telemetry_record` in chain.py): transactions read the
-- tip at one moment and insert at a later one, in any order. The arguments are of a kind `Given`, such
-- as those with a UTC time.
use vargate_telemetry.Base.{
  suc, Bool, ◌||◌, ap, none, some, eq_iff, ==_iff, true-false, ◌≤◌, ◌<◌, ◌≡◌, ◌⊎◌, inl, inr, true,
  List, [], ◌∷◌, String, arith, length, All, All-map, All-middle, String-cases, subst, or-true,
  ◌++◌, sym, ◌∙◌,
}
use vargate_telemetry.Base.Result.{ok, err, data_error, unique_violation, err-ok}
use vargate_telemetry.Chain.Package.{AuditChain}
use vargate_telemetry.Chain.Table.{Row, Table, visible, violates_unique}
use vargate_telemetry.Chain.Append.{Fields, row_fields, stored_row, prepare, commit}
use vargate_telemetry.Chain.Stored.{ReadsBack, read_row, commit-cases}
use vargate_telemetry.Chain.Linkage.{Extends, WellFormed, prepare-Extends}
use vargate_telemetry.Chain.Appends.{
  commit-WellFormed, visible-cons_ne, visible-cons_eq, violates_unique-eq, seq-taken,
}

-- The table, and the rows that open transactions have prepared.
pub record Database : Type 0 where
  pub table : Table
  pub pending : List Row

module _ (c : AuditChain) (Given : Fields → Type 0) where
  -- A transaction reads and prepares; one of the prepared rows is inserted or refused, and its
  -- transaction ends either way; a transaction is abandoned.
  pub data Step : Database → Database → Type 0 where
    read :
        (d : Database) (t : String) (f : Fields) (r : Row)
        → Given f
        → prepare c t f d.table ≡ ok r
        → Step d (record d { pending = r ∷ d.pending })
    insert :
        (d : Database) (r : Row) (before after : List Row)
        → d.pending ≡ before ++ r ∷ after
        → Step d (record { table = (commit c r d.table).1; pending = before ++ after })
    abandon :
        (d : Database) (r : Row) (before after : List Row)
        → d.pending ≡ before ++ r ∷ after
        → Step d (record d { pending = before ++ after })

  pub data Reach (d : Database) : Database → Type 0 where
    here : Reach d d
    next : {e g : Database} → Reach d e → Step e g → Reach d g

  -- A prepared row still comes next, or its number has been taken meanwhile.
  abbrev pub Fits : Table → Row → Type 0
  Fits table r =
      (Extends c r.tenant_id (visible r.tenant_id table) r × ReadsBack c (row_fields r))
      ⊎ ((0 < r.chain_seq) × (r.chain_seq ≤ length (visible r.tenant_id table)))

  pub record IsSound (d : Database) : Type 0 where
    pub formed : WellFormed c d.table
    pub fitting : All (Fits d.table) d.pending

  stale_refused :
      (r : Row) (table : Table)
      → WellFormed c table
      → 0 < r.chain_seq
      → r.chain_seq ≤ length (visible r.tenant_id table)
      → violates_unique r table ≡ true
  stale_refused r table w pos le =
      let taken =
        seq-taken c r.tenant_id (visible r.tenant_id table) r.chain_seq (w.linked r.tenant_id) pos
          le in
      rw (violates_unique-eq r table, taken) (or-true _)

  -- Another row's insertion leaves a prepared row fitting.
  Fits-cons : (r : Row) (table : Table) (q : Row) → Fits table q → Fits (r ∷ table) q
  Fits-cons r table q h = elim (String-cases r.tenant_id q.tenant_id) [
    | inr other ↦ rw (visible-cons_ne q.tenant_id r table other) h
    | inl same ↦ rw (visible-cons_eq q.tenant_id r table same) (inr (numbers h))
  ]
    where
      numbers :
          Fits table q
          → (0 < q.chain_seq) × (q.chain_seq ≤ suc (length (visible q.tenant_id table)))
      numbers (inl (x, back)) = rw x.numbered (omega arith, omega arith)
      numbers (inr (pos, le)) = (pos, omega arith)

  Fits-commit :
      (r : Row) (table : Table) (qs : List Row)
      → All (Fits table) qs
      → All (Fits (commit c r table).1) qs
  Fits-commit r table qs h = elim (commit-cases c r table) [
    | inl (refused, e) ↦ rw e h
    | inr (m, taken, kept, inl (bad, e)) ↦ rw e h
    | inr (m, taken, kept, inr (good, e)) ↦
        let q = read_row c r m in
        rw e (All-map (Fits table) (Fits (q ∷ table)) (Fits-cons q table) qs h)
  ]

  -- A prepared row keeps the invariant, or it is refused.
  commit_fitting :
      (r : Row) (table : Table)
      → WellFormed c table
      → Fits table r
      → WellFormed c (commit c r table).1
  commit_fitting r table w (inl (x, back)) = commit-WellFormed c r table w x back
  commit_fitting r table w (inr (pos, le)) = elim (commit-cases c r table) [
    | inl (refused, e) ↦ rw e w
    | inr (m, taken, kept, inl (bad, e)) ↦ rw e w
    | inr (m, taken, kept, inr (good, e)) ↦
        true-false (violates_unique r table) (stale_refused r table w pos le) good
  ]

  Step-IsSound :
      ((f : Fields) → Given f → ReadsBack c f) → {d e : Database} → Step d e → IsSound d → IsSound e
  Step-IsSound backs (read d t f r g p) s =
      let (same, fields, x) = prepare-Extends c t f d.table r (s.formed.linked t) p in
      record {
        formed = s.formed;
        fitting = (
          inl (
            subst (λ (u : String). Extends c u (visible u d.table) r) (sym same) x,
            subst (ReadsBack c) (sym fields) (backs f g),
          ),
          s.fitting,
        );
      }
  Step-IsSound backs (insert d r before after e) s =
      let all = subst (All (Fits d.table)) e s.fitting in
      let (fits, rest) = All-middle (Fits d.table) before r after all in
      record {
        formed = commit_fitting r d.table s.formed fits;
        fitting = Fits-commit r d.table (before ++ after) rest;
      }
  Step-IsSound backs (abandon d r before after e) s =
      let all = subst (All (Fits d.table)) e s.fitting in
      record { formed = s.formed; fitting = (All-middle (Fits d.table) before r after all).1 }

  -- From a well-formed table with no open transaction, every interleaving of reads, inserts and
  -- abandoned transactions, of any tenants, leaves a well-formed table, where the time and the metadata
  -- of the arguments are read back from their columns as they were given.
  pub Reach-WellFormed :
      ((f : Fields) → Given f → ReadsBack c f)
      → {d e : Database} → WellFormed c d.table
      → d.pending ≡ []
      → Reach d e
      → WellFormed c e.table
  Reach-WellFormed backs {d} w idle r = (go r).formed
    where
      start : IsSound d
      start = record { formed = w; fitting = subst (All (Fits d.table)) (sym idle) tt }

      go : {g : Database} → Reach d g → IsSound g
      go here = start
      go (next q st) = Step-IsSound backs st (go q)

-- The number of a row, and its tenant, refuse any other row with them.
number_taken :
    (r q : Row) (table : Table)
    → r.tenant_id ≡ q.tenant_id
    → r.chain_seq ≡ q.chain_seq
    → violates_unique q (r ∷ table) ≡ true
unfolding violates_unique
number_taken r q table same number =
    rw ((eq_iff r.tenant_id q.tenant_id).1 same, (==_iff r.chain_seq q.chain_seq).1 number)
      (both_true _ _)
  where
    both_true : (a b : Bool) → ((a || true) || b) ≡ true
    both_true a b = ground arith

-- Two transactions of one tenant that read the same table: once the first row is in, the second
-- INSERT, where the columns take its values, raises `IntegrityError` and changes nothing.
pub race_refused :
    (c : AuditChain) (t : String) (f g : Fields) (r q first second : Row) (table after : Table)
    → WellFormed c table
    → prepare c t f table ≡ ok r
    → prepare c t g table ≡ ok q
    → commit c r table ≡ (ok first, after)
    → stored_row c q ≡ some second
    → commit c q after ≡ (err unique_violation, after)
race_refused c t f g r q first second table after w pr pq done takes =
    let (rt, rf, rx) = prepare-Extends c t f table r (w.linked t) pr in
    let (qt, qf, qx) = prepare-Extends c t g table q (w.linked t) pq in
    elim (commit-cases c r table) [
      | inl (refused, e) ↦ elim (err-ok data_error first (ap (λ z. z.0) (sym e ∙ done))) [ ]
      | inr (m, _, _, inl (bad, e)) ↦
          elim (err-ok unique_violation first (ap (λ z. z.0) (sym e ∙ done))) [ ]
      | inr (m, _, _, inr (good, e)) ↦
          let grown : read_row c r m ∷ table ≡ after = ap (λ z. z.1) (sym e ∙ done) in
          let taken =
            number_taken (read_row c r m) q table (rt ∙ sym qt) (rx.numbered ∙ sym qx.numbered) in
          elim (commit-cases c q after) [
            | inl (refused, d) ↦ let never : none ≡ some second = sym refused ∙ takes in cc
            | inr (k, _, _, inl (bad, d)) ↦ d
            | inr (k, _, _, inr (free, d)) ↦
                true-false (violates_unique q after)
                  (subst (λ z. violates_unique q z ≡ true) grown taken) free
          ]
    ]
