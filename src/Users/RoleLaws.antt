-- ===== src/Users/RoleLaws.antt =====
-- The guard of vargate_telemetry/api/users.py on a tenant's last admin.
use vargate_telemetry.Base.{
  ℕ, ◌+◌, ◌≡◌, ◌≢◌, refl, sym, ap, Bool, true, false, Option, none, some, List, [], ◌∷◌, String,
  eq_iff, length, select, if◌then◌else◌, arith, All, Bool-cases, and-eq-true, ◌⊎◌, inl, inr,
  if-elim, subst,
}
use vargate_telemetry.Mcp.Oauth.Responses.{Response, returned, refused, raised}
use vargate_telemetry.Users.Aliases.{User}
use vargate_telemetry.Users.Roles.{
  is_user, find_user, is_admin_of, count_admins, AuthenticatedUser, require_admin, new_role,
  RoleUpdateResponse, update_role, is_last_admin, on_target, on_new_role, on_admin, set_user_role,
}

-- The primary key of `users`.
unfoldable pub HasKey : List User → Type 0
HasKey [] = Unit
HasKey (u ∷ users) = All (λ (v : User). v.id ≢ u.id) users × HasKey users

abbrev pub bit : Bool → ℕ
bit true = 1
bit false = 0

length_if :
    (b : Bool) (u : User) (users : List User)
    → length (if b then u ∷ users else users) ≡ bit b + length users
length_if true u users = omega arith
length_if false u users = omega arith

count_admins-cons :
    (s : String) (u : User) (users : List User)
    → count_admins (u ∷ users) s ≡ bit (is_admin_of s u) + count_admins users s
unfolding count_admins
count_admins-cons s u users = length_if (is_admin_of s u) u (select (is_admin_of s) users)

-- An update of an id that no row has changes nothing.
update_role-other :
    (r id t : String) (users : List User)
    → All (λ (v : User). v.id ≢ id) users
    → update_role r id t users ≡ users
unfolding update_role
update_role-other r id t [] a = refl
update_role-other r id t (u ∷ users) a = elim (Bool-cases (is_user id t u)) [
  | inl mine ↦ absurd (a.0 ((eq_iff u.id id).0 (and-eq-true _ _ mine).0))
  | inr other ↦ rw (other, update_role-other r id t users a.1) refl
]

head_changes : (x y n m a b c d : ℕ) → x ≡ d + n → y ≡ c + m → n ≡ m → c ≡ a → d ≡ b → x + a ≡ y + b
head_changes x y n m a b c d p q e f g = omega arith

head_stays : (x y n m a b c : ℕ) → x ≡ c + n → y ≡ c + m → n + a ≡ m + b → x + a ≡ y + b
head_stays x y n m a b c p q e = omega arith

module _ (r id t s : String) where
  -- The admins of a tenant after the update of a row: that row counts with its new role.
  pub count-update_role :
      (users : List User) (target : User)
      → HasKey users
      → find_user id t users ≡ some target
      → count_admins (update_role r id t users) s + bit (is_admin_of s target)
        ≡ count_admins users s + bit (is_admin_of s (record target { role = r }))
  unfolding find_user update_role HasKey
  count-update_role [] target k e = cc
  count-update_role (u ∷ users) target k e = elim (Bool-cases (is_user id t u)) [
    | inl mine ↦
        let found : some u ≡ some target = rw mine at e in
        let same : u ≡ target = cc in
        let ids : u.id ≡ id = (eq_iff u.id id).0 (and-eq-true _ _ mine).0 in
        let rest = update_role-other r id t users (rw ids at k.0) in
        rw mine (
          head_changes _ _ _ _ _ _ _ _
            (count_admins-cons s (record u { role = r }) (update_role r id t users))
            (count_admins-cons s u users) (ap (λ z. count_admins z s) rest)
            (ap (λ (v : User). bit (is_admin_of s v)) same)
            (ap (λ (v : User). bit (is_admin_of s (record v { role = r }))) same))
    | inr other ↦
        let rest = count-update_role users target k.1 (rw other at e) in
        rw other (
          head_stays _ _ _ _ _ _ _ (count_admins-cons s u (update_role r id t users))
            (count_admins-cons s u users) rest)
  ]

-- What a request leaves: the table as it was, or, where the caller is an admin of its tenant, the new
-- role of a user of that tenant who is not its last admin.
pub set_user_role-cases :
    (users : List User) (text id : String) (user : AuthenticatedUser)
    → ((set_user_role users text id user).1 ≡ users)
      ⊎ ((t : String) × (r : String) × (target : User) × (require_admin users user ≡ returned t)
          × (find_user id t users ≡ some target)
          × (is_last_admin users t target r ≡ false)
          × ((set_user_role users text id user).1 ≡ update_role r id t users))
unfolding set_user_role
set_user_role-cases users text id user = admitted (require_admin users user) refl
  where
    Left : Response String → List User → Type 0
    Left a left =
        (left ≡ users)
        ⊎ ((t : String) × (r : String) × (target : User) × (a ≡ returned t)
            × (find_user id t users ≡ some target)
            × (is_last_admin users t target r ≡ false)
            × (left ≡ update_role r id t users))

    found :
        (t r : String) (o : Option User)
        → find_user id t users ≡ o
        → Left (returned t) (on_target users r id t o).1
    found t r none e = inl refl
    found t r (some target) e =
        if-elim (λ (z : Response RoleUpdateResponse × List User). Left (returned t) z.1)
          (is_last_admin users t target r) (refused 409 "last_admin", users)
          (returned (record { user_id = id; role = r }), update_role r id t users) (λ h. inl refl)
          (λ h. inr (t, r, target, refl, e, h, refl))

    with_new : (t : String) (o : Option String) → Left (returned t) (on_new_role users id t o).1
    with_new t none = inl refl
    with_new t (some r) = found t r (find_user id t users) refl

    admitted :
        (a : Response String)
        → require_admin users user ≡ a
        → Left (require_admin users user) (on_admin users text id a).1
    admitted (returned t) e =
        subst (λ z. Left z (on_admin users text id (returned t)).1) (sym e)
          (with_new t (new_role text))
    admitted (refused code error) e = inl refl
    admitted (raised x) e = inl refl
