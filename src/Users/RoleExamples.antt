-- ===== src/Users/RoleExamples.antt =====
-- A tenant with one admin and one member, whose roles are swapped by three requests.
use vargate_telemetry.Base.{◌≡◌, ◌≢◌, ◌≤◌, refl, some, List, [], ◌∷◌, String, arith, eq_iff, map}
use vargate_telemetry.Mcp.Oauth.Responses.{refused}
use vargate_telemetry.Users.Aliases.{User}
use vargate_telemetry.Users.Roles.{AuthenticatedUser, count_admins, new_role, set_user_role}
use vargate_telemetry.Users.RoleLaws.{HasKey}
use vargate_telemetry.Users.LastAdmin.{RoleRequest, serve, serve-HasAdmin}

abbrev person : String → String → User
person id role = record {
  id = id;
  email = "someone@acme.example";
  tenant_id = some "acme";
  role = role;
}

abbrev two : List User
two = person "u1" "admin" ∷ person "u2" "member" ∷ []

abbrev caller : String → AuthenticatedUser
caller id = record {
  user_id = id;
  email = "someone@acme.example";
  sso_provider = "google";
  tenant_id = some "acme";
}

abbrev request : String → String → String → RoleRequest
request by id text = record { text = text; id = id; user = caller by }

-- The refused demotion of the only admin, the promotion of the member, and the demotion by the latter.
abbrev requests : List RoleRequest
requests =
    request "u1" "u1" "member" ∷ request "u1" "u2" " Admin " ∷ request "u2" "u1" "member" ∷ []

new_role_test : new_role " Admin " ≡ some "admin"
unfolding new_role
new_role_test = refl

last_admin_test : set_user_role two "member" "u1" (caller "u1") ≡ (refused 409 "last_admin", two)
unfolding set_user_role
last_admin_test = refl

serve_test : map (λ (u : User). u.role) (serve requests two) ≡ "member" ∷ "admin" ∷ []
unfolding serve set_user_role
serve_test = refl

u2_u1 : ◌≢◌ {A = String} "u2" "u1"
u2_u1 e = ground (arith, (eq_iff "u2" "u1").1 e)

two-HasKey : HasKey two
unfolding HasKey
two-HasKey = ((u2_u1, tt), (tt, tt))

two_admins : 1 ≤ count_admins two "acme"
unfolding count_admins
two_admins = ground arith

serve-HasAdmin_example : 1 ≤ count_admins (serve requests two) "acme"
serve-HasAdmin_example = serve-HasAdmin requests two "acme" two-HasKey two_admins
