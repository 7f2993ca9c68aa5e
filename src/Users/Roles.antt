-- ===== src/Users/Roles.antt =====
-- vargate_telemetry/auth/roles.py, and `set_user_role` of vargate_telemetry/api/users.py, which uses
-- it. What a handler answers stands beside the table of users that it leaves.
use vargate_telemetry.Base.{
  ℕ, Bool, not, ◌&&◌, ◌||◌, ◌==◌, leb, Option, none, some, List, [], ◌∷◌, map, String, str_eq,
  codes, codes_eq, lower_code, length, select, if◌then◌else◌,
}
use vargate_telemetry.Mcp.Oauth.Responses.{Response, returned, refused, raised}
use vargate_telemetry.Content.Deletion.{equals}
use vargate_telemetry.Users.Aliases.{User}

abbrev pub role_admin : String
role_admin = "admin"

abbrev pub role_member : String
role_member = "member"

abbrev pub is_user : String → String → User → Bool
is_user id t u = str_eq u.id id && equals u.tenant_id t

-- The first row of a SELECT by id and tenant.
unfoldable pub find_user : String → String → List User → Option User
find_user id t [] = none
find_user id t (u ∷ users) =
    let rest = find_user id t users in if is_user id t u then some u else rest

abbrev pub role_of : Option User → Option String
role_of none = none
role_of (some u) = some u.role

abbrev pub get_role : List User → String → String → Option String
get_role users id t = role_of (find_user id t users)

abbrev pub is_admin_of : String → User → Bool
is_admin_of t u = equals u.tenant_id t && str_eq u.role role_admin

unfoldable pub count_admins : List User → String → ℕ
count_admins users t = length (select (is_admin_of t) users)

pub record AuthenticatedUser : Type 0 where
  pub user_id : String
  pub email : String
  pub sso_provider : String
  pub tenant_id : Option String

abbrev pub on_role : Option String → String → Response String
on_role none t = refused 403 "admin_required"
on_role (some r) t = if str_eq r role_admin then returned t else refused 403 "admin_required"

-- The tenant of the caller, which is what `set_user_role` reads of the user that this returns.
abbrev pub require_tenant_admin : List User → String → Option String → Response String
require_tenant_admin users id none = refused 400 "no_tenant_bound"
require_tenant_admin users id (some t) = on_role (get_role users id t) t

abbrev pub require_admin : List User → AuthenticatedUser → Response String
require_admin users user = require_tenant_admin users user.user_id user.tenant_id

-- `c.isspace()` on the code of a character.
abbrev pub is_space : ℕ → Bool
is_space c =
    (leb 9 c && leb c 13)
    || (leb 28 c && leb c 32)
    || (c == 133)
    || (c == 160)
    || (c == 5760)
    || (leb 8192 c && leb c 8202)
    || (c == 8232)
    || (c == 8233)
    || (c == 8239)
    || (c == 8287)
    || (c == 12288)

abbrev pub lstrip : List ℕ → List ℕ
lstrip [] = []
lstrip (c ∷ s) = if is_space c then lstrip s else c ∷ s

abbrev pub or_end : ℕ → List ℕ → List ℕ
or_end c [] = if is_space c then [] else c ∷ []
or_end c (d ∷ s) = c ∷ d ∷ s

abbrev pub rstrip : List ℕ → List ℕ
rstrip [] = []
rstrip (c ∷ s) = or_end c (rstrip s)

-- `body.role.strip().lower()` where it is one of `VALID_ROLES`. No character outside ASCII becomes a
-- letter of these in lower case.
unfoldable pub new_role : String → Option String
new_role text =
    let lower : List ℕ = map lower_code (rstrip (lstrip (codes text))) in
    if codes_eq lower (codes role_admin)
    then some role_admin
    else if codes_eq lower (codes role_member)
    then some role_member
    else none

pub record RoleUpdateResponse : Type 0 where
  pub user_id : String
  pub role : String

abbrev pub with_role : String → String → String → User → User
with_role r id t u = if is_user id t u then record u { role = r } else u

unfoldable pub update_role : String → String → String → List User → List User
update_role r id t users = map (with_role r id t) users

-- The guard on the last admin.
abbrev pub is_last_admin : List User → String → User → String → Bool
is_last_admin users t target r =
    (str_eq target.role role_admin && not (str_eq r role_admin)) && leb (count_admins users t) 1

abbrev pub on_target :
    List User → String → String → String → Option User → Response RoleUpdateResponse × List User
on_target users r id t none = (refused 404 "user_not_found", users)
on_target users r id t (some target) =
    if is_last_admin users t target r
    then (refused 409 "last_admin", users)
    else (returned (record { user_id = id; role = r }), update_role r id t users)

abbrev pub on_new_role :
    List User → String → String → Option String → Response RoleUpdateResponse × List User
on_new_role users id t none = (refused 422 "invalid_role", users)
on_new_role users id t (some r) = on_target users r id t (find_user id t users)

abbrev pub on_admin :
    List User → String → String → Response String → Response RoleUpdateResponse × List User
on_admin users text id (returned t) = on_new_role users id t (new_role text)
on_admin users text id (refused code error) = (refused code error, users)
on_admin users text id (raised e) = (raised e, users)

unfoldable pub set_user_role :
    List User → String → String → AuthenticatedUser → Response RoleUpdateResponse × List User
unfolding find_user new_role update_role count_admins
set_user_role users text id user = on_admin users text id (require_admin users user)
