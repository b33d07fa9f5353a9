-- ===== src/Controlplane/Store/Sources.antt =====
-- store/source.go: the writes that carry a source, and the reads that an import starts from.
use sydom.Base.{
  String, Bool, ◌&&◌, not, List, map, ◌==◌, string_eq, any, sort_texts, Result, ok, require, ◌>>◌,
}
use sydom.Base.Int.{ℤ, ℤ_eq}
use sydom.Controlplane.Store.{
  Database, RoleRow, PermissionRow, RolePermission, UserRoleBinding, DataPolicyRow, Failure, driver,
  select, update_where, join,
}
use sydom.Controlplane.Store.Upserts.{upsert_permission_row}

unfoldable pub upsert_permission_with_source :
    ℤ
    → String
    → String
    → String
    → String
    → String
    → String
    → String
    → Database
    → Result Failure (ℤ × Database)
unfolding upsert_permission_row
upsert_permission_with_source app code resource action type name description source db =
    upsert_permission_row app code
      (λ p. record p {
        resource = resource;
        action = action;
        type = type;
        name = name;
        description = description;
        source = source;
      })
      (λ id. record {
        id = id;
        app_id = app;
        code = code;
        resource = resource;
        action = action;
        type = type;
        name = name;
        description = description;
        source = source;
      })
      db

unfoldable pub update_role_meta : ℤ → ℤ → String → String → Database → Database
update_role_meta app role name description db = record db {
  roles =
      update_where (λ (r : RoleRow). r.app_id == app && r.id == role)
        (λ (r : RoleRow). record r { name = name; description = description }) db.roles;
}

unfoldable pub adopt_role_source : ℤ → ℤ → Database → Database
adopt_role_source app role db = record db {
  roles =
      update_where (λ (r : RoleRow). r.app_id == app && r.id == role && r.source == "manual")
        (λ (r : RoleRow). record r { source = "iac" }) db.roles;
}

unfoldable pub adopt_data_policy_source : ℤ → ℤ → Database → Database
adopt_data_policy_source app id db = record db {
  data_policies =
      update_where (λ (d : DataPolicyRow). d.app_id == app && d.id == id && d.source == "manual")
        (λ (d : DataPolicyRow). record d { source = "iac" }) db.data_policies;
}

unfoldable pub role_has_user_bindings : ℤ → ℤ → Database → Bool
role_has_user_bindings app role db =
    any (λ (b : UserRoleBinding). b.app_id == app && b.role_id == role) db.user_role_bindings

-- `ORDER BY p.code`
unfoldable pub role_permission_codes : ℤ → ℤ → Database → List String
role_permission_codes app role db = sort_texts (
    join
      (λ (g : RolePermission).
        map (λ (p : PermissionRow). p.code)
          (select (λ (p : PermissionRow). p.id == g.permission_id) db.permissions))
      (select (λ (g : RolePermission). g.app_id == app && g.role_id == role) db.role_permissions))

-- Only a permission that no role refers to goes; where none goes, the call fails.
unfoldable pub delete_permission : ℤ → String → Database → Result Failure Database
delete_permission app code db =
    let gone : PermissionRow → Bool = λ p.
      p.app_id == app
      && p.code == code
      && not (
          any (λ (g : RolePermission). g.app_id == app && g.permission_id == p.id)
            db.role_permissions) in
    require (any gone db.permissions) driver
    >> ok (record db { permissions = select (λ p. not (gone p)) db.permissions })
