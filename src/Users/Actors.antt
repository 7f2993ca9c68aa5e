-- ===== src/Users/Actors.antt =====
-- The actors of vargate_telemetry/users/aliases.py: `ACTOR_KEY_SQL` and the SELECT DISTINCT.
use vargate_telemetry.Base.{
  Bool, ◌&&◌, Option, none, some, List, [], ◌∷◌, String, str_eq, any, if◌then◌else◌,
}
use vargate_telemetry.Chain.Json
use vargate_telemetry.Chain.Json.{Json}
use vargate_telemetry.Chain.Table.{Row, Table, visible}
use vargate_telemetry.Content.Deletion.{field_text}

abbrev pub session_source_apis : List String
session_source_apis = "code_analytics" ∷ "compliance_activities" ∷ "mcp" ∷ "openai_admin_usage" ∷ []

-- `->`, null where the field is missing.
unfoldable pub find_field : String → Json.Fields → Json
find_field name Json.end = Json.null
find_field name (Json.field k v rest) =
    let others = find_field name rest in if str_eq k name then v else others

abbrev pub child : String → Json → Json
child name (Json.object fields) = find_field name fields
child name _ = Json.null

-- `->>`.
abbrev pub text_at : String → Json → Option String
text_at name (Json.object fields) = field_text name fields
text_at name _ = none

abbrev pub coalesce_text : List (Option String) → Option String
coalesce_text [] = none
coalesce_text (none ∷ rest) = coalesce_text rest
coalesce_text (some s ∷ rest) = some s

unfoldable pub actor_key : Json → Option String
unfolding find_field field_text
actor_key metadata =
    let actor = child "actor" metadata in
    coalesce_text (
      text_at "email_address" actor
      ∷ text_at "api_key_name" actor
      ∷ text_at "user_id" actor
      ∷ text_at "api_key_id" actor
      ∷ text_at "type" actor
      ∷ text_at "user_email" metadata
      ∷ text_at "subject_user_id" metadata
      ∷ [])

-- A row of the SELECT: the stream and the actor's identifier.
pub record Actor : Type 0 where
  pub source_api : String
  pub identifier : String

abbrev pub is_actor : Actor → Actor → Bool
is_actor p q = str_eq p.source_api q.source_api && str_eq p.identifier q.identifier

abbrev pub add_actor : String → Option String → List Actor → List Actor
add_actor source none actors = actors
add_actor source (some i) actors =
    let p : Actor = record { source_api = source; identifier = i } in
    if any (is_actor p) actors then actors else p ∷ actors

unfoldable pub distinct_actors_in : List Row → List Actor
unfolding actor_key
distinct_actors_in [] = []
distinct_actors_in (r ∷ rows) =
    let rest = distinct_actors_in rows in
    if any (λ s. str_eq s r.source_api) session_source_apis
    then add_actor r.source_api (actor_key r.record_metadata) rest
    else rest

unfoldable pub distinct_actors : String → Table → List Actor
unfolding distinct_actors_in visible
distinct_actors t table = distinct_actors_in (visible t table)
