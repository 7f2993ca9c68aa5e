-- ===== src/Users/Reconciliation.antt =====
-- A reconciliation of vargate_telemetry/users/aliases.py: what it leaves, what it keeps, and that a
-- second one does nothing.
use vargate_telemetry.Base.{
  ℕ, ◌≡◌, refl, ap, ◌∙◌, true, false, ◌&&◌, Option, none, some, List, [], ◌∷◌, String, str_eq,
  is_empty, Bool-cases, ◌⊎◌, inl, inr, arith, All, if-elim,
}
use vargate_telemetry.Chain.Table.{Table}
use vargate_telemetry.Users.Actors.{Actor, distinct_actors}
use vargate_telemetry.Users.Aliases.{
  Alias, User, matched_user_id, is_none, can_link, Returned, upsert_alias, count_returned,
  reconcile_actor, reconcile_actors, start, reconcile_aliases_for_tenant, find_alias, Reconciled,
}
use vargate_telemetry.Users.Upserts.{upsert-settled, upsert-other, same_actor}

-- An actor is settled: its identifier is empty, or it has a row that no further run would link.
abbrev pub Settled : List User → String → List Alias → Actor → Type 0
Settled users t aliases p =
    (is_empty p.identifier ≡ true)
    ⊎ ((a : Alias) × (find_alias p aliases ≡ some a)
        × (can_link (matched_user_id users t p.identifier) a ≡ false))

-- A link that stays: one made by hand, or a row that has a user.
abbrev pub IsKept : Alias → Type 0
IsKept a = (a.auto_matched && is_none a.user_id) ≡ false

count_returned-aliases :
    (m : Option String) (x : List Alias × Returned) (r : Reconciled)
    → (count_returned m x r).aliases ≡ x.0
count_returned-aliases m (aliases, none) r = refl
count_returned-aliases m (aliases, some true) r = refl
count_returned-aliases m (aliases, some false) r = refl

module _ (users : List User) (t : String) where
  abbrev pub AllSettled : List Alias → List Actor → Type 0
  AllSettled aliases actors = All (Settled users t aliases) actors

  kept-can_link : (m : Option String) (a : Alias) → IsKept a → can_link m a ≡ false
  kept-can_link m a h = ground (arith, h)

  reconcile_actor-kept :
      (now : ℕ) (p q : Actor) (r : Reconciled) (a : Alias)
      → IsKept a
      → find_alias q r.aliases ≡ some a
      → find_alias q (reconcile_actor users t now p r).aliases ≡ some a
  unfolding reconcile_actor
  reconcile_actor-kept now p q r a h e =
      let m = matched_user_id users t p.identifier in
      let x = upsert_alias now m p r.aliases in
      if-elim (λ (z : Reconciled). find_alias q z.aliases ≡ some a) (is_empty p.identifier) r
        (count_returned m x r) (λ empty. e)
        (λ full. ap (find_alias q) (count_returned-aliases m x r) ∙ upserted m)
    where
      upserted : (m : Option String) → find_alias q (upsert_alias now m p r.aliases).0 ≡ some a
      upserted m =
          elim (Bool-cases (str_eq p.source_api q.source_api && str_eq p.identifier q.identifier)) [
            | inl same ↦
                let here : find_alias p r.aliases ≡ some a =
                  ap (λ (z : Actor). find_alias z r.aliases) (same_actor p q same) ∙ e in
                ap (λ (z : List Alias × Returned). find_alias q z.0)
                  (upsert-settled now m p r.aliases a here (kept-can_link m a h))
                ∙ e
            | inr other ↦ upsert-other now m p q r.aliases other ∙ e
          ]

  reconcile_actors-kept :
      (now : ℕ) (actors : List Actor) (q : Actor) (r : Reconciled) (a : Alias)
      → IsKept a
      → find_alias q r.aliases ≡ some a
      → find_alias q (reconcile_actors users t now actors r).aliases ≡ some a
  unfolding reconcile_actors
  reconcile_actors-kept now [] q r a h e = e
  reconcile_actors-kept now (p ∷ actors) q r a h e =
      reconcile_actors-kept now actors q (reconcile_actor users t now p r) a h
        (reconcile_actor-kept now p q r a h e)

  -- A reconciliation keeps a manual link, and any alias that has a user, as it is.
  pub reconcile-keeps :
      (now : ℕ) (table : Table) (aliases : List Alias) (q : Actor) (a : Alias)
      → IsKept a
      → find_alias q aliases ≡ some a
      → find_alias q (reconcile_aliases_for_tenant users t now table aliases).aliases ≡ some a
  unfolding reconcile_aliases_for_tenant
  reconcile-keeps now table aliases q a h e =
      reconcile_actors-kept now (distinct_actors t table) q (start aliases) a h e
