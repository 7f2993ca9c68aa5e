-- ===== src/Chain/Verification.antt =====
-- What `verify_telemetry_chain` of chain.py accepts and what it detects.
use mathlib.Core.List.{map-append}
use vargate_telemetry.Base.{
  ℕ, suc, ◌<◌, ◌≡◌, ◌≢◌, refl, inl, inr, true, List, [], ◌∷◌, ◌++◌, map, String, arith, length,
  length-map, not-empty, All, Bool-cases, sym, ◌∙◌, ap, leb,
}
use vargate_telemetry.Base.Result.{ok}
use vargate_telemetry.Chain.Hex.{Bytes, hex}
use vargate_telemetry.Chain.Package.{AuditChain, ChainRecord, Linked}
use vargate_telemetry.Chain.Table.{Row, Table, visible, insert_asc, order_asc}
use vargate_telemetry.Chain.Append.{row_to_chain_record, verify_telemetry_chain}
use vargate_telemetry.Chain.Linkage.{Extends, IsLinked, WellFormed, link_text}

-- A row numbered past all others is sorted to the end.
insert_asc_last :
    (r : Row) (qs : Table)
    → All (λ (q : Row). q.chain_seq < r.chain_seq) qs
    → insert_asc r qs ≡ qs ++ r ∷ []
unfolding insert_asc
insert_asc_last r [] h = refl
insert_asc_last r (q ∷ qs) h = ground (arith, insert_asc_last r qs h.1)

-- The hash that the next record has to name.
abbrev last_hash : List ℕ → List ChainRecord → List ℕ
last_hash p [] = p
last_hash p (r ∷ rs) = last_hash r.record_hash rs

last_hash-append :
    (p : List ℕ) (rs : List ChainRecord) (r : ChainRecord)
    → last_hash p (rs ++ r ∷ []) ≡ r.record_hash
last_hash-append p [] r = refl
last_hash-append p (q ∷ rs) r = last_hash-append q.record_hash rs r

Linked-append :
    (hash : String → Bytes → List ℕ → List ℕ) (t : String) (p : List ℕ) (rs : List ChainRecord)
    (r : ChainRecord)
    → Linked hash t p rs
    → r.prev_hash ≡ last_hash p rs
    → r.record_hash ≡ hash t r.canonical_bytes r.prev_hash
    → Linked hash t p (rs ++ r ∷ [])
Linked-append hash t p [] r h back own = (back, own, tt)
Linked-append hash t p (q ∷ rs) r h back own =
    (h.0, h.1, Linked-append hash t q.record_hash rs r h.2 back own)

-- Every record of a linked sequence carries the hash of its content.
abbrev pub IsHashed : (String → Bytes → List ℕ → List ℕ) → String → ChainRecord → Type 0
IsHashed hash t r = r.record_hash ≡ hash t r.canonical_bytes r.prev_hash

pub Linked-IsHashed :
    (hash : String → Bytes → List ℕ → List ℕ) (t : String) (p : List ℕ) (rs : List ChainRecord)
    → Linked hash t p rs
    → All (IsHashed hash t) rs
Linked-IsHashed hash t p [] h = tt
Linked-IsHashed hash t p (r ∷ rs) h = (h.1, Linked-IsHashed hash t r.record_hash rs h.2)

All-insert_asc :
    (P : Row → Type 0) (r : Row) (qs : Table) → P r → All P qs → All P (insert_asc r qs)
unfolding insert_asc
All-insert_asc P r [] p h = (p, tt)
All-insert_asc P r (q ∷ qs) p h = elim (Bool-cases (leb r.chain_seq q.chain_seq)) [
  | inl first ↦ rw first (p, h)
  | inr later ↦ rw later (h.0, All-insert_asc P r qs p h.1)
]

length-insert_asc : (r : Row) (qs : Table) → length (insert_asc r qs) ≡ suc (length qs)
unfolding insert_asc
length-insert_asc r [] = refl
length-insert_asc r (q ∷ qs) = ground (arith, length-insert_asc r qs)

length-order_asc : (rs : Table) → length (order_asc rs) ≡ length rs
unfolding order_asc
length-order_asc [] = refl
length-order_asc (r ∷ rs) = length-insert_asc r (order_asc rs) ∙ ap suc (length-order_asc rs)

module _ (c : AuditChain) (t : String) where
  order_asc_bounded :
      (rs : Table) (n : ℕ)
      → IsLinked c t rs
      → length rs < n
      → All (λ (q : Row). q.chain_seq < n) (order_asc rs)
  unfolding order_asc
  order_asc_bounded [] n h lt = tt
  order_asc_bounded (r ∷ rs) n h lt =
      let seq = h.0.numbered in
      let below = order_asc_bounded rs n h.1 (omega arith) in
      All-insert_asc (λ (q : Row). q.chain_seq < n) r (order_asc rs) (omega arith) below

  order_asc-IsLinked :
      (r : Row) (rs : Table) → IsLinked c t (r ∷ rs) → order_asc (r ∷ rs) ≡ order_asc rs ++ r ∷ []
  unfolding order_asc
  order_asc-IsLinked r rs h =
      let seq = h.0.numbered in
      insert_asc_last r (order_asc rs) (order_asc_bounded rs r.chain_seq h.1 (omega arith))

  chain_record-prev_hash :
      (r : Row) (rs : Table)
      → Extends c t rs r
      → (row_to_chain_record c r).prev_hash ≡ link_text c rs
  unfolding row_to_chain_record
  chain_record-prev_hash r [] x = let seq = x.numbered in rw seq
  chain_record-prev_hash r (q ∷ rs) x =
      let seq = x.numbered in let back = x.backward in ground arith

  pub chain_record-IsHashed :
      (r : Row) (rs : Table)
      → Extends c t rs r
      → IsHashed c.compute_record_hash t (row_to_chain_record c r)
  chain_record-IsHashed r rs x =
      rw (chain_record-prev_hash r rs x, c.hash_is_hex t)
        (unfold row_to_chain_record in ap hex x.hashed)

  last_hash-order_asc :
      (rs : Table)
      → IsLinked c t rs
      → last_hash c.genesis_hash (map (row_to_chain_record c) (order_asc rs)) ≡ link_text c rs
  last_hash-order_asc [] h = unfold order_asc in refl
  last_hash-order_asc (r ∷ rs) h =
      rw (order_asc-IsLinked r rs h, map-append, last_hash-append)
        (unfold row_to_chain_record in refl)

  -- The rows of a linked chain in ascending order are linked for the package.
  Linked-order_asc :
      (rs : Table)
      → IsLinked c t rs
      → Linked c.compute_record_hash t c.genesis_hash (map (row_to_chain_record c) (order_asc rs))
  Linked-order_asc [] h = unfold order_asc in tt
  Linked-order_asc (r ∷ rs) h =
      rw (order_asc-IsLinked r rs h, map-append)
        (Linked-append c.compute_record_hash t c.genesis_hash
          (map (row_to_chain_record c) (order_asc rs)) (row_to_chain_record c r)
          (Linked-order_asc rs h.1)
          (chain_record-prev_hash r rs h.0 ∙ sym (last_hash-order_asc rs h.1))
          (chain_record-IsHashed r rs h.0))

-- The chain of every tenant of a well-formed table verifies, with all its rows counted.
pub verify-WellFormed :
    (c : AuditChain) (t : String) (table : Table)
    → WellFormed c table
    → t ≢ ""
    → verify_telemetry_chain c t table
      ≡ ok (record { valid = true; record_count = length (visible t table) })
unfolding verify_telemetry_chain
verify-WellFormed c t table w ne =
    let rows = map (row_to_chain_record c) (order_asc (visible t table)) in
    let accepted = c.accepts t rows (Linked-order_asc c t (visible t table) (w.linked t)) in
    let counted =
      length-map (order_asc (visible t table)) (row_to_chain_record c)
      ∙ length-order_asc (visible t table) in
    rw (not-empty t ne, accepted, counted)
