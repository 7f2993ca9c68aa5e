-- ===== src/Chain/Linkage.antt =====
-- The invariant of the chain: for every tenant the visible rows, newest first, are numbered down to
-- one, and each carries its predecessor's hash and the digest of its own content. The proofs follow
-- `append_telemetry_record` of chain.py.
use vargate_telemetry.Base.{
  ℕ, ◌+◌, ◌≡◌, ◌≢◌, refl, ◌⊎◌, inl, inr, Option, none, some, List, [], ◌∷◌, String, codes, arith,
  length, eq_iff, subst,
}
use vargate_telemetry.Base.Result.{ok, err, value_error}
use vargate_telemetry.Chain.Hex.{Bytes, hex, fromhex, fromhex-hex}
use vargate_telemetry.Chain.Package.{AuditChain}
use vargate_telemetry.Chain.Table.{Row, Table, visible, tip}
use vargate_telemetry.Chain.Append.{
  Fields, canonical_bytes, row_fields, build_row, next_seq, prev_bytes, prev_text, prepare,
}

abbrev pub newest : Table → Option Row
newest [] = none
newest (r ∷ rs) = some r

-- What the row after the rows `rs` has to refer to: the last row's own hash, or the start of a chain.
abbrev pub link_bytes : AuditChain → Table → Bytes
link_bytes c [] = c.sha256 (codes "vargate.telemetry/chain/genesis")
link_bytes c (q ∷ rs) = q.chain_self_hash

abbrev pub link_text : AuditChain → Table → List ℕ
link_text c [] = c.genesis_hash
link_text c (q ∷ rs) = hex q.chain_self_hash

module _ (c : AuditChain) (t : String) where
  -- `r` is the row that comes next after the rows `rs`.
  pub record Extends (rs : Table) (r : Row) : Type 0 where
    pub numbered : r.chain_seq ≡ length rs + 1
    pub backward : r.chain_prev_hash ≡ link_bytes c rs
    pub hashed : r.chain_self_hash ≡ c.digest t (canonical_bytes (row_fields r)) (link_text c rs)

  abbrev pub IsLinked : Table → Type 0
  IsLinked [] = Unit
  IsLinked (r ∷ rs) = Extends rs r × IsLinked rs

  pub tip-IsLinked : (rs : Table) → IsLinked rs → tip rs ≡ newest rs
  unfolding tip
  tip-IsLinked [] h = refl
  tip-IsLinked (r ∷ []) h = refl
  tip-IsLinked (r ∷ q ∷ rs) h = ground (arith, tip-IsLinked (q ∷ rs) h.1)

  pub next_seq-IsLinked : (rs : Table) → IsLinked rs → next_seq c (newest rs) ≡ length rs + 1
  next_seq-IsLinked [] h = refl
  next_seq-IsLinked (r ∷ rs) h = ground arith

prev_bytes-newest : (c : AuditChain) (rs : Table) → prev_bytes c (newest rs) ≡ link_bytes c rs
prev_bytes-newest c [] = refl
prev_bytes-newest c (q ∷ rs) = refl

prev_text-newest : (c : AuditChain) (rs : Table) → prev_text c (newest rs) ≡ link_text c rs
prev_text-newest c [] = refl
prev_text-newest c (q ∷ rs) = refl

-- The invariant of the whole table.
pub record WellFormed (c : AuditChain) (table : Table) : Type 0 where
  pub linked : (t : String) → IsLinked c t (visible t table)

module _ (c : AuditChain) (t : String) (f : Fields) (table : Table) where
  abbrev pub prepared_row : Row
  prepared_row =
      let q = tip (visible t table) in
      build_row c t f q (c.digest t (canonical_bytes f) (prev_text c q))

  fromhex-compute_record_hash :
      (b : Bytes) (p : List ℕ) → fromhex (c.compute_record_hash t b p) ≡ some (c.digest t b p)
  fromhex-compute_record_hash b p =
      rw (c.hash_is_hex t b p) (fromhex-hex (c.digest t b p) (c.digest_bytes t b p))

  -- Both guards pass, or `ValueError` is raised.
  pub prepare-cases :
      ((prepare c t f table ≡ err value_error) × ((t ≡ "") ⊎ (length f.content_hash ≢ 32)))
      ⊎ ((prepare c t f table ≡ ok prepared_row) × (t ≢ "") × (length f.content_hash ≡ 32))
  unfolding prepare
  prepare-cases = ground (
    arith,
    eq_iff t "",
    fromhex-compute_record_hash (canonical_bytes f) (prev_text c (tip (visible t table))),
  )

  pub prepared_row-Extends :
      IsLinked c t (visible t table) → Extends c t (visible t table) prepared_row
  prepared_row-Extends h =
      let e = tip-IsLinked c t (visible t table) h in
      record {
        numbered = rw e (next_seq-IsLinked c t (visible t table) h);
        backward = rw e (prev_bytes-newest c (visible t table));
        hashed = rw (e, prev_text-newest c (visible t table)) refl;
      }

  -- A row that was prepared from a well-formed table comes next in its tenant's chain.
  pub prepare-Extends :
      (r : Row)
      → IsLinked c t (visible t table)
      → prepare c t f table ≡ ok r
      → (r.tenant_id ≡ t) × (row_fields r ≡ f) × Extends c t (visible t table) r
  prepare-Extends r h e = elim prepare-cases [
    | inl (bad, _) ↦ cc
    | inr (good, _, _) ↦
        let same : prepared_row ≡ r = cc in
        subst
          (λ (q : Row). (q.tenant_id ≡ t) × (row_fields q ≡ f) × Extends c t (visible t table) q)
          same (refl, refl, prepared_row-Extends h)
  ]
