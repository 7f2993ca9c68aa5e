-- ===== src/Chain/Tampering.antt =====
-- Changing the content of a stored row breaks the verification of its tenant's chain.
use vargate_telemetry.Base.{
  ◌≡◌, ◌≢◌, refl, inl, inr, true, false, [], ◌∷◌, ◌++◌, map, String, arith, eq_iff, All, All-middle,
  Bool-cases, ◌∙◌, ap, select-append, leb, subst, not-empty,
}
use vargate_telemetry.Base.Result.{ok}
use vargate_telemetry.Chain.Hex.{hex}
use vargate_telemetry.Chain.Package.{AuditChain, VerifyResult}
use vargate_telemetry.Chain.Table.{Row, Table, visible, is_of, insert_asc, order_asc}
use vargate_telemetry.Chain.Append.{
  canonical_bytes, row_fields, row_to_chain_record, verify_telemetry_chain,
}
use vargate_telemetry.Chain.Linkage.{IsLinked, WellFormed}
use vargate_telemetry.Chain.Verification.{IsHashed, Linked-IsHashed, chain_record-IsHashed}

-- `b` has the identity and the chain columns of `a`; only its content may differ.
pub record SameLinks (a b : Row) : Type 0 where
  pub tenant : b.tenant_id ≡ a.tenant_id
  pub seq : b.chain_seq ≡ a.chain_seq
  pub backward : b.chain_prev_hash ≡ a.chain_prev_hash
  pub own : b.chain_self_hash ≡ a.chain_self_hash

All-insert_asc_inv :
    (P : Row → Type 0) (r : Row) (qs : Table) → All P (insert_asc r qs) → P r × All P qs
unfolding insert_asc
All-insert_asc_inv P r [] h = h
All-insert_asc_inv P r (q ∷ qs) h = elim (Bool-cases (leb r.chain_seq q.chain_seq)) [
  | inl first ↦ rw first at h
  | inr later ↦
      let k = rw later at h in let (own, rest) = All-insert_asc_inv P r qs k.1 in (own, (k.0, rest))
]

-- A property of all rows in order is a property of all rows.
All-order_asc_inv : (P : Row → Type 0) (rs : Table) → All P (order_asc rs) → All P rs
unfolding order_asc
All-order_asc_inv P [] h = h
All-order_asc_inv P (r ∷ rs) h =
    let (own, rest) = All-insert_asc_inv P r (order_asc rs) h in (own, All-order_asc_inv P rs rest)

module _ (c : AuditChain) (t : String) where
  abbrev RowIsHashed : Row → Type 0
  RowIsHashed r = IsHashed c.compute_record_hash t (row_to_chain_record c r)

  All-map_inv :
      (rs : Table)
      → All (IsHashed c.compute_record_hash t) (map (row_to_chain_record c) rs)
      → All RowIsHashed rs
  All-map_inv [] h = h
  All-map_inv (r ∷ rs) h = (h.0, All-map_inv rs h.1)

  All-IsLinked : (rs : Table) → IsLinked c t rs → All RowIsHashed rs
  All-IsLinked [] h = tt
  All-IsLinked (r ∷ rs) h = (chain_record-IsHashed c t r rs h.0, All-IsLinked rs h.1)

  -- A chain that verifies has only rows that carry the hash of their content.
  All-valid :
      (table : Table) (v : VerifyResult)
      → t ≢ ""
      → verify_telemetry_chain c t table ≡ ok v
      → v.valid ≡ true
      → All RowIsHashed (visible t table)
  unfolding verify_telemetry_chain
  All-valid table v ne e valid =
      let rows = map (row_to_chain_record c) (order_asc (visible t table)) in
      let empty = not-empty t ne in
      let run : c.verify_record_chain t rows ≡ v = ground arith in
      let linked = c.rejects t rows (ap (λ (w : VerifyResult). w.valid) run ∙ valid) in
      let hashed = Linked-IsHashed c.compute_record_hash t c.genesis_hash rows linked in
      All-order_asc_inv RowIsHashed (visible t table)
        (All-map_inv (order_asc (visible t table)) hashed)

visible-middle :
    (t : String) (newer : Table) (r : Row) (older : Table)
    → r.tenant_id ≡ t
    → visible t (newer ++ r ∷ older) ≡ visible t newer ++ r ∷ visible t older
unfolding visible
visible-middle t newer r older e =
    rw (select-append (is_of t) newer (r ∷ older), (eq_iff r.tenant_id t).1 e)

clash :
    (c : AuditChain) (t : String) (a b : Row)
    → SameLinks a b
    → RowIsHashed c t b
    → RowIsHashed c t a
    → let prev = (row_to_chain_record c a).prev_hash in
      c.compute_record_hash t (canonical_bytes (row_fields b)) prev
      ≡ c.compute_record_hash t (canonical_bytes (row_fields a)) prev
unfolding row_to_chain_record
clash c t a b same here there =
    let seq = same.seq in let back = same.backward in let own = same.own in cc (ap hex own)

-- Replacing the content of one row of a well-formed table, its identity and chain columns left,
-- makes its tenant's chain fail to verify, wherever the row stands, unless the new content has
-- the hash of the old.
pub tamper_detected :
    (c : AuditChain) (a b : Row) (newer older : Table) (v : VerifyResult)
    → WellFormed c (newer ++ a ∷ older)
    → SameLinks a b
    → a.tenant_id ≢ ""
    → let prev = (row_to_chain_record c a).prev_hash in
      c.compute_record_hash a.tenant_id (canonical_bytes (row_fields b)) prev
        ≢ c.compute_record_hash a.tenant_id (canonical_bytes (row_fields a)) prev
      → verify_telemetry_chain c a.tenant_id (newer ++ b ∷ older) ≡ ok v
      → v.valid ≡ false
tamper_detected c a b newer older v w same ne differ e = elim (Bool-cases v.valid) [
  | inr invalid ↦ invalid
  | inl valid ↦
      let t = a.tenant_id in
      let hashed = All-valid c t (newer ++ b ∷ older) v ne e valid in
      let seen =
        subst (All (RowIsHashed c t)) (visible-middle t newer b older same.tenant) hashed in
      let here = (All-middle (RowIsHashed c t) (visible t newer) b (visible t older) seen).0 in
      let stored =
        subst (All (RowIsHashed c t)) (visible-middle t newer a older refl)
          (All-IsLinked c t (visible t (newer ++ a ∷ older)) (w.linked t)) in
      let there = (All-middle (RowIsHashed c t) (visible t newer) a (visible t older) stored).0 in
      absurd (differ (clash c t a b same here there))
]
