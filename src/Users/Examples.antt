-- ===== src/Users/Examples.antt =====
-- A reconciliation of two actors: one with a manual link, one whose e-mail is a user's.
use vargate_telemetry.Base.{◌≡◌, refl, false, none, some, List, [], ◌∷◌, String}
use vargate_telemetry.Chain.Json
use vargate_telemetry.Chain.Json.{Json}
use vargate_telemetry.Chain.Table.{Row, Table}
use vargate_telemetry.Users.Actors.{Actor}
use vargate_telemetry.Users.Aliases.{Alias, User, reconcile_aliases_for_tenant, find_alias}
use vargate_telemetry.Users.Reconciliation.{reconcile-keeps}

abbrev row : String → Row
row email = record {
  tenant_id = "acme";
  record_type = "session";
  source_api = "code_analytics";
  external_id = email;
  subject_user_id = none;
  occurred_at = "2026-05-01T00:00:00+00:00";
  content_ref = none;
  content_hash = [];
  content_size_bytes = none;
  record_metadata = Json.object (
      Json.field "actor" (Json.object (Json.field "email_address" (Json.text email) Json.end))
        Json.end);
  chain_seq = 1;
  chain_prev_hash = [];
  chain_self_hash = [];
}

abbrev table : Table
table = row "ann@acme.example" ∷ row "bob@acme.example" ∷ []

abbrev users : List User
users =
    record { id = "u1"; email = "ann@acme.example"; tenant_id = some "acme"; role = "member" }
    ∷ record { id = "u2"; email = "bob@acme.example"; tenant_id = some "acme"; role = "member" }
    ∷ []

abbrev bob : Actor
bob = record { source_api = "code_analytics"; identifier = "bob@acme.example" }

-- An admin linked Bob's identifier to Ann.
abbrev by_hand : Alias
by_hand = record {
  user_id = some "u1";
  source_api = "code_analytics";
  source_identifier = "bob@acme.example";
  auto_matched = false;
  updated_at = 1;
}

found : find_alias bob (by_hand ∷ []) ≡ some by_hand
unfolding find_alias
found = refl

reconcile-keeps_example :
    find_alias bob (reconcile_aliases_for_tenant users "acme" 5 table (by_hand ∷ [])).aliases
    ≡ some by_hand
reconcile-keeps_example = reconcile-keeps users "acme" 5 table (by_hand ∷ []) bob by_hand refl found
