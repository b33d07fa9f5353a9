-- ===== src/Controlplane/Store/Statements.antt =====
-- store/store.go, one statement of the store to a definition.
use sydom.Base.{
  ℕ, zero, suc, nat_eq, ◌+◌, String, Bool, true, ◌&&◌, ◌||◌, not, Option, none, some, List, [], ◌∷◌,
  ◌++◌, map, ◌==◌, string_eq, if◌then◌else◌, any, Result, ok, err, require, ◌>>=◌, ◌>>◌,
}
use Prim.Native.Char.{code}
use sydom.Base.Int.{ℤ, pos, ℤ_eq}
use sydom.Kernel.Types.{Rule}
use sydom.Controlplane.Store.{
  Database, Application, RoleRow, PermissionRow, RolePermission, RoleInheritance, UserRoleBinding,
  CasbinRule, Audit, AuditDiff, Failure, no_rows, unique_violation, foreign_key_violation, driver,
  select, first_row, update_where,
}

unfoldable pub read_app_rules : ℤ → Database → List Rule
read_app_rules app db =
    map (λ (c : CasbinRule). c.rule) (select (λ (c : CasbinRule). c.app_id == app) db.casbin_rules)

abbrev pub same_rule : Rule → Rule → Bool
same_rule r s =
    r.ptype == s.ptype
    && r.v0 == s.v0
    && r.v1 == s.v1
    && r.v2 == s.v2
    && r.v3 == s.v3
    && r.v4 == s.v4
    && r.v5 == s.v5

unfoldable pub delete_rules : ℤ → List Rule → List CasbinRule → List CasbinRule
delete_rules app [] rows = rows
delete_rules app (r ∷ rs) rows =
    delete_rules app rs
      (select (λ (c : CasbinRule). not (c.app_id == app && same_rule c.rule r)) rows)

-- `uq_casbin_rule`
unfoldable pub insert_rules : ℤ → ℤ → List Rule → List CasbinRule → Result Failure (List CasbinRule)
insert_rules app version [] rows = ok rows
insert_rules app version (r ∷ rs) rows =
    require (not (any (λ (c : CasbinRule). c.app_id == app && same_rule c.rule r) rows))
      unique_violation
    >> insert_rules app version rs
        (rows ++ record { app_id = app; rule = r; version = version } ∷ [])

unfoldable pub apply_diff : ℤ → List Rule → List Rule → ℤ → Database → Result Failure Database
unfolding delete_rules insert_rules
apply_diff app adds removes version db =
    insert_rules app version adds (delete_rules app removes db.casbin_rules) >>= λ rows.
    ok (record db { casbin_rules = rows })

abbrev pub version_of : Option Application → Result Failure ℤ
version_of none = err no_rows
version_of (some a) = ok a.current_version

unfoldable pub lock_app_version : ℤ → Database → Result Failure ℤ
lock_app_version app db =
    version_of (first_row (select (λ (a : Application). a.id == app) db.applications))

unfoldable pub bump_app_version : ℤ → ℤ → Database → Database
bump_app_version app version db = record db {
  applications =
      update_where (λ (a : Application). a.id == app)
        (λ (a : Application). record a { current_version = version }) db.applications;
}

-- A text in a column of VARCHAR(n): spaces beyond the n-th character are cut, and any other text
-- that is longer is refused.
only_spaces : String → Bool
only_spaces String.[] = true
only_spaces (String.◌∷◌ c s) = code c == 32 && only_spaces s

unfoldable pub varchar : ℕ → String → Result Failure String
unfolding only_spaces
varchar zero s = require (only_spaces s) driver >> ok String.[]
varchar (suc n) String.[] = ok String.[]
varchar (suc n) (String.◌∷◌ c s) = varchar n s >>= λ rest. ok (String.◌∷◌ c rest)

-- The row of `policy_audit_log`, in its columns' types.
unfoldable pub audit_row :
    ℤ → String → String → String → String → Option AuditDiff → ℤ → Result Failure Audit
unfolding varchar
audit_row app operator action entity_type entity_id diff version = varchar 128 operator >>= λ o.
    varchar 32 action >>= λ a. varchar 32 entity_type >>= λ t. varchar 128 entity_id >>= λ i.
    ok (record {
      app_id = app;
      operator = o;
      action = a;
      entity_type = t;
      entity_id = i;
      diff = diff;
      version = version;
    })

unfoldable pub insert_audit :
    ℤ
    → String
    → String
    → String
    → String
    → Option AuditDiff
    → ℤ
    → Database
    → Result Failure Database
unfolding audit_row
insert_audit app operator action entity_type entity_id diff version db =
    audit_row app operator action entity_type entity_id diff version >>= λ row.
    ok (record db { audits = db.audits ++ row ∷ [] })

-- The foreign keys of a row: (app_id, role_id) and (app_id, permission_id).
abbrev pub has_app : Database → ℤ → Bool
has_app db app = any (λ (a : Application). a.id == app) db.applications

abbrev pub has_role : Database → ℤ → ℤ → Bool
has_role db app role = any (λ (r : RoleRow). r.app_id == app && r.id == role) db.roles

abbrev pub has_permission : Database → ℤ → ℤ → Bool
has_permission db app permission =
    any (λ (p : PermissionRow). p.app_id == app && p.id == permission) db.permissions

-- A role with the default or a given source.
unfoldable pub insert_role_with_source :
    ℤ → String → String → String → Database → Result Failure (ℤ × Database)
insert_role_with_source app code name source db =
    require (not (any (λ (r : RoleRow). r.app_id == app && r.code == code) db.roles))
      unique_violation
    >> (require (has_app db app) foreign_key_violation
        >> ok (
          pos db.next_role,
          record db {
            roles =
                db.roles
                ++ record {
                  id = pos db.next_role;
                  app_id = app;
                  code = code;
                  name = name;
                  description = "";
                  source = source;
                }
                  ∷ [];
            next_role = db.next_role + 1;
          },
        ))

unfoldable pub insert_role : ℤ → String → String → Database → Result Failure (ℤ × Database)
unfolding insert_role_with_source
insert_role app code name db = insert_role_with_source app code name "manual" db

-- The references go first.
unfoldable pub delete_role : ℤ → ℤ → Database → Database
delete_role app role db = record db {
  role_permissions =
      select (λ (g : RolePermission). not (g.app_id == app && g.role_id == role))
        db.role_permissions;
  role_inheritances =
      select
        (λ (h : RoleInheritance).
          not (h.app_id == app && (h.parent_role_id == role || h.child_role_id == role)))
        db.role_inheritances;
  user_role_bindings =
      select (λ (b : UserRoleBinding). not (b.app_id == app && b.role_id == role))
        db.user_role_bindings;
  roles = select (λ (r : RoleRow). not (r.app_id == app && r.id == role)) db.roles;
}

-- `ON CONFLICT … DO NOTHING`; the foreign keys count for a row that is inserted.
unfoldable pub insert_role_permission : ℤ → ℤ → ℤ → String → Database → Result Failure Database
insert_role_permission app role permission eft db =
    if any
      (λ (g : RolePermission).
        g.app_id == app && g.role_id == role && g.permission_id == permission)
      db.role_permissions
    then ok db
    else require (has_role db app role && has_permission db app permission) foreign_key_violation
      >> ok (record db {
        role_permissions =
            db.role_permissions
            ++ record { app_id = app; role_id = role; permission_id = permission; eft = eft } ∷ [];
      })

unfoldable pub delete_role_permission : ℤ → ℤ → ℤ → Database → Database
delete_role_permission app role permission db = record db {
  role_permissions =
      select
        (λ (g : RolePermission).
          not (g.app_id == app && g.role_id == role && g.permission_id == permission))
        db.role_permissions;
}

unfoldable pub insert_role_inheritance : ℤ → ℤ → ℤ → Database → Result Failure Database
insert_role_inheritance app child parent db =
    if any
      (λ (h : RoleInheritance).
        h.app_id == app && h.parent_role_id == parent && h.child_role_id == child)
      db.role_inheritances
    then ok db
    else require (has_role db app parent && has_role db app child) foreign_key_violation
      >> ok (record db {
        role_inheritances =
            db.role_inheritances
            ++ record { app_id = app; parent_role_id = parent; child_role_id = child } ∷ [];
      })

unfoldable pub delete_role_inheritance : ℤ → ℤ → ℤ → Database → Database
delete_role_inheritance app child parent db = record db {
  role_inheritances =
      select
        (λ (h : RoleInheritance).
          not (h.app_id == app && h.parent_role_id == parent && h.child_role_id == child))
        db.role_inheritances;
}

unfoldable pub insert_user_role_binding : ℤ → String → ℤ → Database → Result Failure Database
insert_user_role_binding app user role db =
    if any (λ (b : UserRoleBinding). b.app_id == app && b.user_id == user && b.role_id == role)
      db.user_role_bindings
    then ok db
    else require (has_role db app role) foreign_key_violation
      >> ok (record db {
        user_role_bindings =
            db.user_role_bindings ++ record { app_id = app; user_id = user; role_id = role } ∷ [];
      })

unfoldable pub delete_user_role_binding : ℤ → String → ℤ → Database → Database
delete_user_role_binding app user role db = record db {
  user_role_bindings =
      select
        (λ (b : UserRoleBinding). not (b.app_id == app && b.user_id == user && b.role_id == role))
        db.user_role_bindings;
}
