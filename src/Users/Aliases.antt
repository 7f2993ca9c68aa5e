-- ===== src/Users/Aliases.antt =====
-- `reconcile_aliases_for_tenant` of vargate_telemetry/users/aliases.py; the aliases are those that a
-- session of the tenant sees.
use Prim.Native.Char.{code}
use vargate_telemetry.Base.{
  ℕ, ◌+◌, Bool, true, false, ◌&&◌, ◌||◌, ◌==◌, Option, none, some, List, [], ◌∷◌, String, str_eq,
  is_empty, select, if◌then◌else◌,
}
use vargate_telemetry.Chain.Table.{Table}
use vargate_telemetry.Content.Deletion.{equals}
use vargate_telemetry.Users.Actors.{Actor, distinct_actors}

-- A row of `user_aliases`.
pub record Alias : Type 0 where
  pub user_id : Option String
  pub source_api : String
  pub source_identifier : String
  pub auto_matched : Bool
  pub updated_at : ℕ

-- A row of `users`, of any tenant.
pub record User : Type 0 where
  pub id : String
  pub email : String
  pub tenant_id : Option String
  pub role : String

abbrev pub has_at : String → Bool
has_at String.[] = false
has_at (String.◌∷◌ c s) = code c == b'@' || has_at s

abbrev pub only_id : List User → Option String
only_id [] = none
only_id (u ∷ []) = some u.id
only_id (u ∷ v ∷ us) = none

-- The auto-match by e-mail.
unfoldable pub matched_user_id : List User → String → String → Option String
matched_user_id users t identifier =
    if has_at identifier
    then only_id (select (λ (u : User). str_eq u.email identifier && equals u.tenant_id t) users)
    else none

abbrev pub is_none : Option String → Bool
is_none none = true
is_none (some s) = false

abbrev pub is_some : Option String → Bool
is_some none = false
is_some (some s) = true

abbrev pub is_for : Actor → Alias → Bool
is_for p a = str_eq a.source_api p.source_api && str_eq a.source_identifier p.identifier

-- The WHERE of the DO UPDATE, for the user that the INSERT would give.
abbrev pub can_link : Option String → Alias → Bool
can_link matched a = a.auto_matched && is_none a.user_id && is_some matched

-- What RETURNING answers: whether the row was inserted, or nothing.
abbrev pub Returned : Type 0
Returned = Option Bool

-- The UPSERT.
unfoldable pub upsert_alias : ℕ → Option String → Actor → List Alias → List Alias × Returned
upsert_alias now matched p [] = (
  record {
    user_id = matched;
    source_api = p.source_api;
    source_identifier = p.identifier;
    auto_matched = true;
    updated_at = now;
  }
      ∷ [],
  some true,
)
upsert_alias now matched p (a ∷ aliases) =
    let (rest, returned) = upsert_alias now matched p aliases in
    if is_for p a
    then (if can_link matched a
        then (record a { user_id = matched; updated_at = now } ∷ aliases, some false)
        else (a ∷ aliases, none))
    else (a ∷ rest, returned)

pub record Reconciled : Type 0 where
  pub aliases : List Alias
  pub inserted : ℕ
  pub linked : ℕ

abbrev pub count_returned : Option String → List Alias × Returned → Reconciled → Reconciled
count_returned matched (aliases, none) r = record r { aliases = aliases }
count_returned matched (aliases, some true) r = record {
  aliases = aliases;
  inserted = r.inserted + 1;
  linked = if is_some matched then r.linked + 1 else r.linked;
}
count_returned matched (aliases, some false) r = record r {
  aliases = aliases;
  linked = r.linked + 1;
}

-- One turn of the loop.
unfoldable pub reconcile_actor : List User → String → ℕ → Actor → Reconciled → Reconciled
unfolding matched_user_id upsert_alias
reconcile_actor users t now p r =
    let matched = matched_user_id users t p.identifier in
    if is_empty p.identifier
    then r
    else count_returned matched (upsert_alias now matched p r.aliases) r

unfoldable pub reconcile_actors : List User → String → ℕ → List Actor → Reconciled → Reconciled
unfolding reconcile_actor
reconcile_actors users t now [] r = r
reconcile_actors users t now (p ∷ actors) r =
    reconcile_actors users t now actors (reconcile_actor users t now p r)

abbrev pub start : List Alias → Reconciled
start aliases = record { aliases = aliases; inserted = 0; linked = 0 }

unfoldable pub reconcile_aliases_for_tenant :
    List User → String → ℕ → Table → List Alias → Reconciled
unfolding reconcile_actors distinct_actors
reconcile_aliases_for_tenant users t now table aliases =
    reconcile_actors users t now (distinct_actors t table) (start aliases)

unfoldable pub find_alias : Actor → List Alias → Option Alias
find_alias p [] = none
find_alias p (a ∷ aliases) = let rest = find_alias p aliases in if is_for p a then some a else rest
