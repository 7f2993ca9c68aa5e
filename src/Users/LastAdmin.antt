-- ===== src/Users/LastAdmin.antt =====
-- Requests to set_user_role of vargate_telemetry/api/users.py, one after the other: a tenant that has
-- an admin keeps one.
use vargate_telemetry.Base.{
  ℕ, ◌+◌, ◌≤◌, ◌≡◌, ◌≢◌, refl, sym, ap, ◌∙◌, subst, Bool, true, false, not, ◌&&◌, leb, Option, none,
  some, List, [], ◌∷◌, String, str_eq, eq_iff, arith, All, Bool-cases, and-eq-true, inl, inr,
}
use vargate_telemetry.Content.Deletion.{equals}
use vargate_telemetry.Users.Aliases.{User}
use vargate_telemetry.Users.Roles.{
  role_admin, is_user, find_user, count_admins, AuthenticatedUser, with_role, update_role,
  is_last_admin, set_user_role,
}
use vargate_telemetry.Users.RoleLaws.{HasKey, bit, count-update_role, set_user_role-cases}

with_role-id : (r id t : String) (u : User) → (with_role r id t u).id ≡ u.id
with_role-id r id t u = elim (Bool-cases (is_user id t u)) [
  | inl mine ↦ rw mine refl
  | inr other ↦ rw other refl
]

module _ (r id t : String) where
  apart-update_role :
      (i : String) (users : List User)
      → All (λ (v : User). v.id ≢ i) users
      → All (λ (v : User). v.id ≢ i) (update_role r id t users)
  unfolding update_role
  apart-update_role i [] a = tt
  apart-update_role i (u ∷ users) a =
      (λ e. a.0 (sym (with_role-id r id t u) ∙ e), apart-update_role i users a.1)

  HasKey-update_role : (users : List User) → HasKey users → HasKey (update_role r id t users)
  unfolding HasKey update_role
  HasKey-update_role [] k = tt
  HasKey-update_role (u ∷ users) k =
      (rw (with_role-id r id t u) (apart-update_role u.id users k.0), HasKey-update_role users k.1)

equals-eq : (o : Option String) (s : String) → equals o s ≡ true → o ≡ some s
equals-eq none s h = absurd (ground arith)
equals-eq (some r) s h = ap some ((eq_iff r s).0 h)

same_text : (o : Option String) (s t : String) → o ≡ some s → o ≡ some t → s ≡ t
same_text o s t p q = cc

-- A row that a SELECT by id and tenant answers with is of that tenant.
found-tenant :
    (id t : String) (users : List User) (u : User)
    → find_user id t users ≡ some u
    → equals u.tenant_id t ≡ true
unfolding find_user
found-tenant id t [] u e = cc
found-tenant id t (v ∷ users) u e = elim (Bool-cases (is_user id t v)) [
  | inl mine ↦
      let found : some v ≡ some u = rw mine at e in
      let same : v ≡ u = cc in
      subst (λ (z : User). equals z.tenant_id t ≡ true) same (and-eq-true _ _ mine).1
  | inr other ↦ found-tenant id t users u (rw other at e)
]

-- The counts before and after, and the guard, for a target in or outside of the tenant counted.
guarded :
    (after before guard : ℕ) (here was is : Bool)
    → after + bit (here && was) ≡ before + bit (here && is)
    → ((was && not is) && leb guard 1) ≡ false
    → (here ≡ true → guard ≡ before)
    → 1 ≤ before
    → 1 ≤ after
guarded after before guard false was is c g h n = omega arith
guarded after before guard true false true c g h n = omega arith
guarded after before guard true false false c g h n = omega arith
guarded after before guard true true true c g h n = omega arith
guarded after before guard true true false c g h n = let e : guard ≡ before = h refl in ground arith

abbrev HasAdmin : List User → String → Type 0
HasAdmin users s = 1 ≤ count_admins users s

update_role-HasAdmin :
    (r id t s : String) (users : List User) (target : User)
    → HasKey users
    → find_user id t users ≡ some target
    → is_last_admin users t target r ≡ false
    → HasAdmin users s
    → HasAdmin (update_role r id t users) s
update_role-HasAdmin r id t s users target k e g n =
    guarded (count_admins (update_role r id t users) s) (count_admins users s)
      (count_admins users t) (equals target.tenant_id s) (str_eq target.role role_admin)
      (str_eq r role_admin) (count-update_role r id t s users target k e) g
      (λ h. ap (count_admins users) (
        same_text target.tenant_id t s (equals-eq _ t (found-tenant id t users target e))
          (equals-eq _ s h)))
      n

-- A request: the body's text, the id of its path, and the caller.
pub record RoleRequest : Type 0 where
  pub text : String
  pub id : String
  pub user : AuthenticatedUser

unfoldable pub serve : List RoleRequest → List User → List User
serve [] users = users
serve (q ∷ requests) users = serve requests (set_user_role users q.text q.id q.user).1

abbrev IsFine : String → List User → Type 0
IsFine s users = HasKey users × HasAdmin users s

set_user_role-IsFine :
    (s : String) (q : RoleRequest) (users : List User)
    → IsFine s users
    → IsFine s (set_user_role users q.text q.id q.user).1
set_user_role-IsFine s q users f = elim (set_user_role-cases users q.text q.id q.user) [
  | inl same ↦ subst (IsFine s) (sym same) f
  | inr (t, r, target, admin, found, guard, left) ↦ subst (IsFine s) (sym left) (
    HasKey-update_role r q.id t users f.0,
    update_role-HasAdmin r q.id t s users target f.0 found guard f.1,
  )
]

-- Requests that are served one after the other, each ended before the next begins, whoever asks for
-- whatever roles, in whatever order: where ids are unique, a tenant that has an
-- admin has one after all the requests.
pub serve-HasAdmin :
    (requests : List RoleRequest) (users : List User) (s : String)
    → HasKey users
    → 1 ≤ count_admins users s
    → 1 ≤ count_admins (serve requests users) s
unfolding serve
serve-HasAdmin [] users s k n = n
serve-HasAdmin (q ∷ requests) users s k n =
    let f = set_user_role-IsFine s q users (k, n) in
    serve-HasAdmin requests (set_user_role users q.text q.id q.user).1 s f.0 f.1
