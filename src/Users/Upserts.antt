-- ===== src/Users/Upserts.antt =====
-- The UPSERT of vargate_telemetry/users/aliases.py: the row that it leaves, and those that it keeps.
use vargate_telemetry.Base.{
  ℕ, ◌≡◌, refl, Bool, true, false, ◌&&◌, Option, none, some, List, [], ◌∷◌, String, str_eq, eq_iff,
  Bool-cases, inl, inr, arith, and-eq-true,
}
use vargate_telemetry.Users.Actors.{Actor}
use vargate_telemetry.Users.Aliases.{
  Alias, is_none, is_some, is_for, can_link, upsert_alias, find_alias,
}

abbrev linked_alias : ℕ → Option String → Alias → Alias
linked_alias now matched a = record a { user_id = matched; updated_at = now }

no_second_link : (b : Bool) (m : Option String) → (b && is_none m && is_some m) ≡ false
no_second_link b none = ground arith
no_second_link b (some s) = ground arith

-- The row of an actor after its UPSERT: it is there, and another UPSERT of it would do nothing.
pub upsert-own :
    (now : ℕ) (m : Option String) (p : Actor) (aliases : List Alias)
    → (a : Alias) × (find_alias p (upsert_alias now m p aliases).0 ≡ some a)
      × (can_link m a ≡ false)
unfolding find_alias upsert_alias
upsert-own now m p [] = (
  record {
    user_id = m;
    source_api = p.source_api;
    source_identifier = p.identifier;
    auto_matched = true;
    updated_at = now;
  },
  rw ((eq_iff p.source_api p.source_api).1 refl, (eq_iff p.identifier p.identifier).1 refl) refl,
  no_second_link true m,
)
upsert-own now m p (a ∷ aliases) = elim (Bool-cases (is_for p a)) [
  | inl mine ↦ elim (Bool-cases (can_link m a)) [
    | inl links ↦
        (linked_alias now m a, rw (mine, links, mine) refl, no_second_link a.auto_matched m)
    | inr settled ↦ (a, rw (mine, settled, mine) refl, settled)
  ]
  | inr other ↦ let (b, e, s) = upsert-own now m p aliases in (b, rw (other, other) e, s)
]

-- An UPSERT of an actor whose row is there and cannot be linked does nothing.
pub upsert-settled :
    (now : ℕ) (m : Option String) (p : Actor) (aliases : List Alias) (a : Alias)
    → find_alias p aliases ≡ some a
    → can_link m a ≡ false
    → upsert_alias now m p aliases ≡ (aliases, none)
unfolding find_alias upsert_alias
upsert-settled now m p [] a e s = cc
upsert-settled now m p (b ∷ aliases) a e s = elim (Bool-cases (is_for p b)) [
  | inl mine ↦
      let found : some b ≡ some a = rw mine at e in
      let same : b ≡ a = cc in
      let settled : can_link m b ≡ false = rw same s in rw (mine, settled) refl
  | inr other ↦
      let rest = upsert-settled now m p aliases a (rw other at e) s in rw (other, rest) refl
]

-- An UPSERT leaves the rows of other actors.
pub upsert-other :
    (now : ℕ) (m : Option String) (p q : Actor) (aliases : List Alias)
    → (str_eq p.source_api q.source_api && str_eq p.identifier q.identifier) ≡ false
    → find_alias q (upsert_alias now m p aliases).0 ≡ find_alias q aliases
unfolding find_alias upsert_alias
upsert-other now m p q [] n = rw n refl
upsert-other now m p q (a ∷ aliases) n = elim (Bool-cases (is_for p a)) [
  | inl mine ↦
      let apart : is_for q a ≡ false = moved (and-eq-true _ _ mine) in
      elim (Bool-cases (can_link m a)) [
        | inl links ↦ rw (mine, links, apart) refl
        | inr settled ↦ rw (mine, settled) refl
      ]
  | inr other ↦ rw (other, upsert-other now m p q aliases n) refl
]
  where
    moved :
        (str_eq a.source_api p.source_api ≡ true) × (str_eq a.source_identifier p.identifier ≡ true)
        → is_for q a ≡ false
    moved (s, i) = rw ((eq_iff _ _).0 s, (eq_iff _ _).0 i) n

pub same_actor :
    (p q : Actor)
    → (str_eq p.source_api q.source_api && str_eq p.identifier q.identifier) ≡ true
    → p ≡ q
same_actor p q h =
    let both =
      and-eq-true (str_eq p.source_api q.source_api) (str_eq p.identifier q.identifier) h in
    λ i. record {
      source_api = (eq_iff p.source_api q.source_api).0 both.0 i;
      identifier = (eq_iff p.identifier q.identifier).0 both.1 i;
    }
