-- ===== src/Controlplane/Store/Batches.antt =====
-- store/batch.go: the deletions of many rows in one statement, with how many rows went.
use sydom.Base.{
  ℕ, Bool, ◌&&◌, ◌||◌, not, String, List, [], ◌∷◌, map, ◌==◌, string_eq, any, contains, length,
}
use sydom.Base.Int.{ℤ, ℤ_eq}
use sydom.Controlplane.Store.{
  Database, RoleRow, RolePermission, RoleInheritance, UserRoleBinding, DataPolicyRow, select,
}

pub record UserRolePair : Type 0 where
  pub user_id : String
  pub role_id : ℤ

pub record GrantPair : Type 0 where
  pub role_id : ℤ
  pub permission_id : ℤ

pub record InheritancePair : Type 0 where
  pub child_role_id : ℤ
  pub parent_role_id : ℤ

-- The rows that a condition hits, and the others.
module _ {A : Type 0} where
  hit : (A → Bool) → List A → ℕ
  hit p xs = length (select p xs)

  spare : (A → Bool) → List A → List A
  spare p xs = select (λ x. not (p x)) xs

unfoldable pub delete_roles_batch : ℤ → List ℤ → Database → ℕ × Database
unfolding hit spare
delete_roles_batch app [] db = (0, db)
delete_roles_batch app (id ∷ ids) db =
    let named : ℤ → Bool = contains (id ∷ ids) in
    (
      hit (λ (r : RoleRow). r.app_id == app && named r.id) db.roles,
      record db {
        role_permissions =
            spare (λ (g : RolePermission). g.app_id == app && named g.role_id) db.role_permissions;
        role_inheritances =
            spare
              (λ (h : RoleInheritance).
                h.app_id == app && (named h.parent_role_id || named h.child_role_id))
              db.role_inheritances;
        user_role_bindings =
            spare (λ (b : UserRoleBinding). b.app_id == app && named b.role_id)
              db.user_role_bindings;
        roles = spare (λ (r : RoleRow). r.app_id == app && named r.id) db.roles;
      },
    )

unfoldable pub delete_role_permissions_batch : ℤ → List GrantPair → Database → ℕ × Database
unfolding hit spare
delete_role_permissions_batch app [] db = (0, db)
delete_role_permissions_batch app (p ∷ ps) db =
    let named : RolePermission → Bool = λ g.
      g.app_id == app
      && any (λ (q : GrantPair). g.role_id == q.role_id && g.permission_id == q.permission_id)
          (p ∷ ps) in
    (
      hit named db.role_permissions,
      record db { role_permissions = spare named db.role_permissions },
    )

unfoldable pub delete_role_inheritances_batch : ℤ → List InheritancePair → Database → ℕ × Database
unfolding hit spare
delete_role_inheritances_batch app [] db = (0, db)
delete_role_inheritances_batch app (p ∷ ps) db =
    let named : RoleInheritance → Bool = λ h.
      h.app_id == app
      && any
          (λ (q : InheritancePair).
            h.child_role_id == q.child_role_id && h.parent_role_id == q.parent_role_id)
          (p ∷ ps) in
    (
      hit named db.role_inheritances,
      record db { role_inheritances = spare named db.role_inheritances },
    )

unfoldable pub delete_user_role_bindings_batch : ℤ → List UserRolePair → Database → ℕ × Database
unfolding hit spare
delete_user_role_bindings_batch app [] db = (0, db)
delete_user_role_bindings_batch app (p ∷ ps) db =
    let named : UserRoleBinding → Bool = λ b.
      b.app_id == app
      && any (λ (q : UserRolePair). b.user_id == q.user_id && b.role_id == q.role_id) (p ∷ ps) in
    (
      hit named db.user_role_bindings,
      record db { user_role_bindings = spare named db.user_role_bindings },
    )

-- With the identifiers of the rows that went.
unfoldable pub delete_data_policies_batch : ℤ → List ℤ → Database → List ℤ × Database
unfolding spare
delete_data_policies_batch app [] db = ([], db)
delete_data_policies_batch app (id ∷ ids) db =
    let named : DataPolicyRow → Bool = λ d. d.app_id == app && contains (id ∷ ids) d.id in
    (
      map (λ (d : DataPolicyRow). d.id) (select named db.data_policies),
      record db { data_policies = spare named db.data_policies },
    )
