-- ===== src/Content/Events.antt =====
-- `_append_deletion_event` and the loop of vargate_telemetry/content_deletion.py on a well-formed table.
use vargate_telemetry.Base.{
  ◌≡◌, ◌≢◌, refl, sym, ap, ◌∙◌, subst, true, false, ◌⊎◌, inl, inr, Option, none, some, List, ◌∷◌,
  String, eq_iff, any, length, All, or-true,
}
use vargate_telemetry.Base.Result.{Result, ok, err, unique_violation}
use vargate_telemetry.Chain.Hex.{Bytes}
use vargate_telemetry.Chain.Json.{Json}
use vargate_telemetry.Chain.Package.{AuditChain}
use vargate_telemetry.Chain.Table.{Row, Table, visible}
use vargate_telemetry.Chain.Append.{Fields, append_telemetry_record}
use vargate_telemetry.Chain.Stored.{
  IsStorable, commit-cases, read_row-ReadsBack, IsStorable-ReadsBack, stored_row-IsStorable,
}
use vargate_telemetry.Chain.Linkage.{WellFormed, prepared_row, prepare-cases}
use vargate_telemetry.Chain.Appends.{
  visible-cons_eq, append-WellFormed, is_duplicate, violates_unique-prepared_row,
}
use vargate_telemetry.Content.Deletion.{
  record_type_deletion, source_api_content, Request, message_metadata, Message, deletion_id,
  deletion_content_hash, event, append_deletion_event, or_already,
}

-- A row of the tenant's content stream has the external id.
abbrev pub HasEvent : String → String → Table → Type 0
HasEvent t external_id table =
    any (is_duplicate source_api_content external_id) (visible t table) ≡ true

-- The table with deletion events of the tenant before it.
pub data Grown (t : String) (table : Table) : Table → Type 0 where
  same : Grown t table table
  one_more :
      (r : Row) (after : Table)
      → r.tenant_id ≡ t
      → r.record_type ≡ record_type_deletion
      → Grown t table after
      → Grown t table (r ∷ after)

HasEvent-cons :
    (t external_id : String) (r : Row) (table : Table)
    → r.tenant_id ≡ t
    → HasEvent t external_id table
    → HasEvent t external_id (r ∷ table)
HasEvent-cons t external_id r table own h =
    rw (visible-cons_eq t r table own, h) (or-true (is_duplicate source_api_content external_id r))

pub HasEvent-Grown :
    (t external_id : String) (table after : Table)
    → Grown t table after
    → HasEvent t external_id table
    → HasEvent t external_id after
HasEvent-Grown t external_id table after same h = h
HasEvent-Grown t external_id table after (one_more r before own kind g) h =
    HasEvent-cons t external_id r before own (HasEvent-Grown t external_id table before g h)

pub Grown-trans : {t : String} {a b d : Table} → Grown t a b → Grown t b d → Grown t a d
Grown-trans g same = g
Grown-trans g (one_more r after own kind k) = one_more r after own kind (Grown-trans g k)

-- Every message of a list has its deletion event.
abbrev pub AllDeleted : String → List Message → Table → Type 0
AllDeleted t rows table = All (λ (m : Message). HasEvent t (deletion_id m) table) rows

-- The columns take the deletion event of each message, and read it back as it was given.
abbrev pub AllStorable : AuditChain → String → Request → List Message → Type 0
AllStorable c t q rows =
    All
      (λ (m : Message). IsStorable c t (
        event c record_type_deletion (deletion_id m) q.now (message_metadata q m)
          m.subject_user_id))
      rows

appended :
    (c : AuditChain) (t : String) (f : Fields) (table : Table)
    → t ≢ ""
    → length f.content_hash ≡ 32
    → IsStorable c t f
    → WellFormed c table
    → let duplicate = any (is_duplicate f.source_api f.external_id) (visible t table) in
      ((duplicate ≡ true) × (append_telemetry_record c t f table ≡ (err unique_violation, table)))
      ⊎ ((duplicate ≡ false)
          × (append_telemetry_record c t f table
              ≡ (ok (prepared_row c t f table), prepared_row c t f table ∷ table)))
unfolding append_telemetry_record
appended c t f table full size h w = elim (prepare-cases c t f table) [
  | inl (_, inl empty) ↦ absurd (full empty)
  | inl (_, inr short) ↦ absurd (short size)
  | inr (good, _, _) ↦
      let p = prepared_row c t f table in
      let e = violates_unique-prepared_row c t f table (w.linked t) in
      elim (commit-cases c p table) [
        | inl (refused, _) ↦
            let never : none ≡ some p = sym refused ∙ stored_row-IsStorable c p h in cc
        | inr (m, _, _, inl (bad, d)) ↦ inl (sym e ∙ bad, rw (good, d) refl)
        | inr (m, taken, _, inr (free, d)) ↦
            let same = read_row-ReadsBack c p m (IsStorable-ReadsBack c t f h) taken in
            inr (sym e ∙ free, rw (good, d, same) refl)
      ]
]

module _ (c : AuditChain) (hash_size : (b : Bytes) → length (c.sha256 b) ≡ 32) where
  -- What an append of an event does: nothing where the event is there, one row where it is not.
  pub append_event-outcomes :
      (t external_id now : String) (metadata : Json) (subject : Option String) (table : Table)
      → t ≢ ""
      → IsStorable c t (event c record_type_deletion external_id now metadata subject)
      → WellFormed c table
      → (HasEvent t external_id table
          × (append_deletion_event c t external_id now metadata subject table ≡ (ok false, table)))
        ⊎ ((r : Row) × (append_deletion_event c t external_id now metadata subject table
              ≡ (ok true, r ∷ table))
            × (r.tenant_id ≡ t)
            × (r.record_type ≡ record_type_deletion)
            × HasEvent t external_id (r ∷ table)
            × WellFormed c (r ∷ table)
            × (any (is_duplicate source_api_content external_id) (visible t table) ≡ false))
  unfolding append_deletion_event deletion_content_hash
  append_event-outcomes t external_id now metadata subject table full h w =
      let f = event c record_type_deletion external_id now metadata subject in
      let r = prepared_row c t f table in
      elim (appended c t f table full (hash_size _) h w) [
        | inl (there, e) ↦ inl (there, ap or_already e)
        | inr (new, e) ↦ inr (
          r,
          ap or_already e,
          refl,
          refl,
          rw (visible-cons_eq t r table refl) (
              rw
                (
                  (eq_iff source_api_content source_api_content).1 refl,
                  (eq_iff external_id external_id).1 refl,
                )
                refl),
          subst (λ (x : Result Row × Table). WellFormed c x.1) e
              (append-WellFormed c t f table w (IsStorable-ReadsBack c t f h)),
          new,
        )
      ]
