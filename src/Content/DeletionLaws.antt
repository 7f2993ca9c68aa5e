-- ===== src/Content/DeletionLaws.antt =====
-- The deletions of vargate_telemetry/content_deletion.py: what they leave on the chain, and that a
-- second one changes nothing.
use vargate_telemetry.Base.{
  ℕ, suc, ◌+◌, ◌≡◌, ◌≢◌, refl, sym, ap, ◌∙◌, subst, Bool, true, false, inl, inr, List, [], ◌∷◌,
  String, length, arith, not-empty, true-false,
}
use vargate_telemetry.Base.Result.{Result, ok}
use vargate_telemetry.Chain.Hex.{Bytes}
use vargate_telemetry.Chain.Package.{AuditChain}
use vargate_telemetry.Chain.Table.{Row, Table}
use vargate_telemetry.Chain.Linkage.{WellFormed}
use vargate_telemetry.Chain.Appends.{visible-cons_eq}
use vargate_telemetry.Content.Deletion.{
  Request, Message, is_message, select_message_records, message_metadata, deletion_id, Counts,
  count_event, no_counts, delete_blob, on_event, delete_message_records, delete_selected,
  delete_chat, delete_user_content, chat_request, user_request, of_chat, of_user,
}
use vargate_telemetry.Content.Events.{
  AllStorable, HasEvent, Grown, same, one_more, append_event-outcomes, HasEvent-Grown, Grown-trans,
  AllDeleted,
}

module _ (c : AuditChain) (hash_size : (b : Bytes) → length (c.sha256 b) ≡ 32) {S : Type 0}
    (delete_content : String → String → S → S) where
  -- A deletion of messages: it returns, every message is counted once and has its event, and the
  -- chains stay well-formed.
  pub record Covered (t : String) (rows : List Message) (n : Counts) (table : Table)
      (x : Result Counts × Table × S) : Type 0 where
    pub counts : Counts
    pub result : x.0 ≡ ok counts
    pub total :
        counts.deleted + counts.already_deleted ≡ n.deleted + n.already_deleted + length rows
    pub grown : Grown t table x.1
    pub formed : WellFormed c x.1
    pub covered : AllDeleted t rows x.1

  count_event-total :
      (b : Bool) (n : Counts)
      → (count_event b n).deleted + (count_event b n).already_deleted
        ≡ suc (n.deleted + n.already_deleted)
  count_event-total true n = omega arith
  count_event-total false n = omega arith

  Covered-cons :
      (t : String) (m : Message) (rows : List Message) (b : Bool) (n : Counts)
      (table before : Table) (x : Result Counts × Table × S)
      → Grown t before table
      → HasEvent t (deletion_id m) table
      → Covered t rows (count_event b n) table x
      → Covered t (m ∷ rows) n before x
  Covered-cons t m rows b n table before x g h k =
      let counted = count_event-total b n in
      let total = k.total in
      record {
        counts = k.counts;
        result = k.result;
        total = omega (arith, counted, total);
        grown = Grown-trans g k.grown;
        formed = k.formed;
        covered = (HasEvent-Grown t (deletion_id m) table x.1 k.grown h, k.covered);
      }

  pub delete_message_records-Covered :
      (t : String) (q : Request) (rows : List Message) (n : Counts) (table : Table) (store : S)
      → t ≢ ""
      → AllStorable c t q rows
      → WellFormed c table
      → Covered t rows n table (delete_message_records c delete_content t q rows n table store)
  unfolding delete_message_records
  delete_message_records-Covered t q [] n table store full k w = record {
    counts = n;
    result = refl;
    total = omega arith;
    grown = same;
    formed = w;
    covered = tt;
  }
  delete_message_records-Covered t q (m ∷ rows) n table store full k w =
      let store' = delete_blob c delete_content t m.content_ref store in
      let rest : Counts → Table → Result Counts × Table × S =
        λ n' table'. delete_message_records c delete_content t q rows n' table' store' in
      elim (append_event-outcomes c hash_size t (deletion_id m) q.now (message_metadata q m)
        m.subject_user_id table full k.0 w) [
          | inl (there, e) ↦
              subst
                (λ (x : Result Bool × Table).
                  Covered t (m ∷ rows) n table (on_event c delete_content n x rest store'))
                (sym e)
                (Covered-cons t m rows false n table table _ same there (
                  delete_message_records-Covered t q rows (count_event false n) table store' full
                    k.1 w))
          | inr (r, e, own, kind, there, formed, new) ↦
              subst
                (λ (x : Result Bool × Table).
                  Covered t (m ∷ rows) n table (on_event c delete_content n x rest store'))
                (sym e)
                (Covered-cons t m rows true n (r ∷ table) table _ (one_more r table own kind same)
                  there
                  (delete_message_records-Covered t q rows (count_event true n) (r ∷ table) store'
                    full k.1 formed))
        ]

  -- Messages whose events are all there: nothing is added, and all count as already deleted.
  abbrev Unchanged : ℕ → Counts → Table → Result Counts × Table × S → Type 0
  Unchanged more n table x =
      (x.0 ≡ ok (record n { already_deleted = n.already_deleted + more })) × (x.1 ≡ table)

  pub delete_message_records-again :
      (t : String) (q : Request) (rows : List Message) (n : Counts) (table : Table) (store : S)
      → t ≢ ""
      → AllStorable c t q rows
      → WellFormed c table
      → AllDeleted t rows table
      → Unchanged
          (length rows)
          n
          table
          (delete_message_records c delete_content t q rows n table store)
  unfolding delete_message_records
  delete_message_records-again t q [] n table store full k w h =
      (ap (λ (k : ℕ). ok (record n { already_deleted = k })) (omega arith), refl)
  delete_message_records-again t q (m ∷ rows) n table store full k w h =
      let store' = delete_blob c delete_content t m.content_ref store in
      let rest : Counts → Table → Result Counts × Table × S =
        λ n' table'. delete_message_records c delete_content t q rows n' table' store' in
      elim (append_event-outcomes c hash_size t (deletion_id m) q.now (message_metadata q m)
        m.subject_user_id table full k.0 w) [
          | inl (there, e) ↦
              let (result, kept) =
                delete_message_records-again t q rows (count_event false n) table store' full k.1 w
                  h.1 in
              subst
                (λ (x : Result Bool × Table).
                  Unchanged (length (m ∷ rows)) n table (on_event c delete_content n x rest store'))
                (sym e)
                (result ∙ ap (λ (k : ℕ). ok (record n { already_deleted = k })) (omega arith), kept)
          | inr (r, e, own, kind, there, formed, new) ↦ true-false _ h.0 new
        ]

-- Deletion events are not messages: what is selected stays the same.
select-Grown :
    (t : String) (matches : Row → Bool) (table after : Table)
    → Grown t table after
    → select_message_records t matches after ≡ select_message_records t matches table
unfolding select_message_records
select-Grown t matches table after same = refl
select-Grown t matches table after (one_more r before own kind g) =
    rw (visible-cons_eq t r before own, no_message) (select-Grown t matches table before g)
  where
    no_message : is_message r ≡ false
    no_message = rw kind (ground arith)

-- A deletion of what a condition selects, for a tenant and a subject that are given.
module _ (c : AuditChain) (hash_size : (b : Bytes) → length (c.sha256 b) ≡ 32) {S : Type 0}
    (delete_content : String → String → S → S) where
  pub delete_selected-Covered :
      (t id : String) (matches : Row → Bool) (q : Request) (table : Table) (store : S)
      → t ≢ ""
      → id ≢ ""
      → AllStorable c t q (select_message_records t matches table)
      → WellFormed c table
      → Covered c hash_size delete_content t
          (select_message_records t matches table)
          (no_counts c delete_content)
          table
          (delete_selected c delete_content t id matches q table store)
  unfolding delete_selected
  delete_selected-Covered t id matches q table store full given k w =
      rw (not-empty t full, not-empty id given)
        (delete_message_records-Covered c hash_size delete_content t q
          (select_message_records t matches table) (no_counts c delete_content) table store full k
          w)

  -- A second deletion of the same selection, whatever its reason, time and requester.
  pub delete_selected-again :
      (t id : String) (matches : Row → Bool) (q q' : Request) (table : Table) (store store' : S)
      → t ≢ ""
      → id ≢ ""
      → AllStorable c t q (select_message_records t matches table)
      → AllStorable c t q' (select_message_records t matches table)
      → WellFormed c table
      → let after = (delete_selected c delete_content t id matches q table store).1 in
        let x = delete_selected c delete_content t id matches q' after store' in
        (x.0
          ≡ ok (record {
            deleted = 0;
            already_deleted = length (select_message_records t matches table);
          }))
        × (x.1 ≡ after)
  delete_selected-again t id matches q q' table store store' full given kept_first kept_second w =
      let k = delete_selected-Covered t id matches q table store full given kept_first w in
      again (delete_selected c delete_content t id matches q table store).1 k.grown k.formed
        k.covered
    where
      again :
          (after : Table)
          → Grown t table after
          → WellFormed c after
          → AllDeleted t (select_message_records t matches table) after
          → let x = delete_selected c delete_content t id matches q' after store' in
            (x.0
              ≡ ok (record {
                deleted = 0;
                already_deleted = length (select_message_records t matches table);
              }))
            × (x.1 ≡ after)
      again after g formed covered =
          unfold delete_selected in
          let (result, kept) =
            delete_message_records-again c hash_size delete_content t q'
              (select_message_records t matches table) (no_counts c delete_content) after store'
              full kept_second formed covered in
          rw (not-empty t full, not-empty id given, select-Grown t matches table after g)
            (
              result
                  ∙ ap (λ (k : ℕ). ok (record { deleted = 0; already_deleted = k })) (omega arith),
              kept,
            )

  -- The deletion of a chat, on well-formed chains, where the columns take the deletion events of its
  -- messages (an external id has at most 256 characters with the prefix) and read them back as they
  -- were given, returns; it counts every captured message of the
  -- chat once, each has a deletion event afterwards, only deletion events were added, and the chains
  -- stay well-formed. A second deletion counts them all as already deleted and adds nothing.
  pub delete_chat-twice :
      (t chat_id reason requested_by now reason' requested_by' now' : String) (table : Table)
      (store store' : S)
      → t ≢ ""
      → chat_id ≢ ""
      → let messages = select_message_records t (of_chat chat_id) table in
        AllStorable c t (chat_request reason requested_by now) messages
        → AllStorable c t (chat_request reason' requested_by' now') messages
        → WellFormed c table
        → let messages = select_message_records t (of_chat chat_id) table in
          let x = delete_chat c delete_content t chat_id reason requested_by now table store in
          let y = delete_chat c delete_content t chat_id reason' requested_by' now' x.1 store' in
          Covered c hash_size delete_content t messages (no_counts c delete_content) table x
          × (y.0 ≡ ok (record { deleted = 0; already_deleted = length messages }))
          × (y.1 ≡ x.1)
  unfolding delete_chat
  delete_chat-twice t chat_id reason requested_by now reason' requested_by' now' table store store'
        full given kept_first kept_second w =
      let twice =
        delete_selected-again t chat_id (of_chat chat_id) (chat_request reason requested_by now)
          (chat_request reason' requested_by' now') table store store' full given kept_first
          kept_second w in
      (
        delete_selected-Covered t chat_id (of_chat chat_id) (chat_request reason requested_by now)
            table store full given kept_first w,
        twice.0,
        twice.1,
      )

  -- The same of the deletion of a user's content.
  pub delete_user_content-twice :
      (t user_id reason requested_by now reason' requested_by' now' : String) (table : Table)
      (store store' : S)
      → t ≢ ""
      → user_id ≢ ""
      → let messages = select_message_records t (of_user user_id) table in
        AllStorable c t (user_request user_id reason requested_by now) messages
        → AllStorable c t (user_request user_id reason' requested_by' now') messages
        → WellFormed c table
        → let messages = select_message_records t (of_user user_id) table in
          let x =
            delete_user_content c delete_content t user_id reason requested_by now table store in
          let y =
            delete_user_content c delete_content t user_id reason' requested_by' now' x.1 store' in
          Covered c hash_size delete_content t messages (no_counts c delete_content) table x
          × (y.0 ≡ ok (record { deleted = 0; already_deleted = length messages }))
          × (y.1 ≡ x.1)
  unfolding delete_user_content
  delete_user_content-twice t user_id reason requested_by now reason' requested_by' now' table store
        store' full given kept_first kept_second w =
      let twice =
        delete_selected-again t user_id (of_user user_id)
          (user_request user_id reason requested_by now)
          (user_request user_id reason' requested_by' now') table store store' full given kept_first
          kept_second w in
      (
        delete_selected-Covered t user_id (of_user user_id)
            (user_request user_id reason requested_by now) table store full given kept_first w,
        twice.0,
        twice.1,
      )
