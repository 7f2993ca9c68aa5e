-- ===== src/Chain/Isolation.antt =====
-- Tenants are separate: an append for one tenant (chain.py) is not seen by another.
use vargate_telemetry.Base.{◌≡◌, ◌≢◌, refl, inl, inr, String}
use vargate_telemetry.Chain.Package.{AuditChain}
use vargate_telemetry.Chain.Table.{Row, Table, visible}
use vargate_telemetry.Chain.Append.{Fields, commit, append_telemetry_record, verify_telemetry_chain}
use vargate_telemetry.Chain.Stored.{read_row, commit-cases}
use vargate_telemetry.Chain.Linkage.{prepare-cases, prepared_row}
use vargate_telemetry.Chain.Appends.{visible-cons_ne}

commit-visible_ne :
    (c : AuditChain) (u : String) (r : Row) (table : Table)
    → r.tenant_id ≢ u
    → visible u (commit c r table).1 ≡ visible u table
commit-visible_ne c u r table n = elim (commit-cases c r table) [
  | inl (refused, e) ↦ rw e refl
  | inr (m, taken, kept, inl (bad, e)) ↦ rw e refl
  | inr (m, taken, kept, inr (good, e)) ↦ rw e (visible-cons_ne u (read_row c r m) table n)
]

append-visible_ne :
    (c : AuditChain) (t u : String) (f : Fields) (table : Table)
    → t ≢ u
    → visible u (append_telemetry_record c t f table).1 ≡ visible u table
unfolding append_telemetry_record
append-visible_ne c t u f table n = elim (prepare-cases c t f table) [
  | inl (bad, _) ↦ rw bad refl
  | inr (good, _, _) ↦ rw good (commit-visible_ne c u (prepared_row c t f table) table n)
]

-- An append for one tenant changes neither the rows that another tenant sees nor the answer of its
-- verification, whatever the table holds.
pub append-isolated :
    (c : AuditChain) (t u : String) (f : Fields) (table : Table)
    → t ≢ u
    → (visible u (append_telemetry_record c t f table).1 ≡ visible u table)
      × (verify_telemetry_chain c u (append_telemetry_record c t f table).1
          ≡ verify_telemetry_chain c u table)
unfolding verify_telemetry_chain
append-isolated c t u f table n = let e = append-visible_ne c t u f table n in (e, rw e refl)
