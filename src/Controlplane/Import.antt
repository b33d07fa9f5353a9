-- ===== src/Controlplane/Import.antt =====
-- policy/policy_as_code.go: how a policy file is taken into an application. The text of the file is
-- parsed by encoding/json or yaml.v3, which are not modelled: `parse` gives the document, or none
-- where the text is no document.
pub mod Rows
pub mod Apply
pub mod Transaction
pub mod Refused
mod Tests
use sydom.Base.{
  ℕ, ◌<◌, String, ◌<>◌, Bool, true, false, ◌&&◌, not, Option, none, some, List, [], ◌∷◌, ◌++◌, map,
  ◌==◌, string_eq, nat_eq, if◌then◌else◌, contains, ltb, sort_by, Result, ok, err, require, ◌>>=◌,
  ◌>>◌,
}
use Prim.Native.Char.{Char, code}
use sydom.Base.Int.{ℤ, ℤ_eq}
use sydom.Base.Text.{contains_rune}
use sydom.Controlplane.Types.{DataPolicyChange, Delta}
use sydom.Controlplane.Store.{
  Database, RoleRow, PermissionRow, DataPolicyRow, Failure, driver, import_conflict, bad_input,
  select,
}
use sydom.Controlplane.Store.Statements.{lock_app_version}
use sydom.Controlplane.Store.Sources.{role_permission_codes, role_has_user_bindings}
use sydom.Controlplane.Iac.{
  Document, DataScope, Current, CurrentPermission, CurrentRole, CurrentDataPolicy, Kind, PlanItem,
  condition_from_json, count,
}

-- strings.TrimPrefix(code, "iac:"), one character of the prefix at a time.
strip : String → String → Option String
strip String.[] s = some s
strip (String.◌∷◌ p ps) String.[] = none
strip (String.◌∷◌ p ps) (String.◌∷◌ c s) =
    let rest = strip ps s in if code p == code c then rest else none

unfoldable pub iac_role_key : String → String
unfolding strip
iac_role_key role = elim (strip "iac:" role) [ none ↦ role | some key ↦ key ]

unfoldable pub is_expressible_role_key : String → Bool
is_expressible_role_key key = not (key == "") && not (contains_rune key b':')

-- The policies of a role's code, and those whose subject is no role.
unfoldable pub role_policies : String → List DataPolicyRow → List DataPolicyRow
role_policies role rows =
    select (λ (d : DataPolicyRow). d.subject_type == "role" && d.subject_id == role) rows

unfoldable pub top_policies : List DataPolicyRow → List DataPolicyRow
top_policies rows = select (λ (d : DataPolicyRow). not (d.subject_type == "role")) rows

-- What `ListApp…WithSource` read. The rows of a table stand in the order of their identifiers.
unfoldable pub app_permissions : ℤ → Database → List PermissionRow
app_permissions app db =
    sort_by (λ (p : PermissionRow). p.code)
      (select (λ (p : PermissionRow). p.app_id == app) db.permissions)

unfoldable pub app_roles : ℤ → Database → List RoleRow
app_roles app db = select (λ (r : RoleRow). r.app_id == app) db.roles

unfoldable pub app_data_policies : ℤ → Database → List DataPolicyRow
app_data_policies app db = select (λ (d : DataPolicyRow). d.app_id == app) db.data_policies

module _ (normalise : String → Option String) where
  unfoldable pub data_scopes_from_rows : List DataPolicyRow → List DataScope
  unfolding condition_from_json
  data_scopes_from_rows [] = []
  data_scopes_from_rows (d ∷ rows) =
      record {
        resource = d.resource;
        effect = d.effect;
        condition = condition_from_json normalise d.condition;
      }
      ∷ data_scopes_from_rows rows

  -- The loop over the roles, with the keys so far. A key of two roles is refused.
  unfoldable pub snapshot_roles :
      ℤ
      → Database
      → List DataPolicyRow
      → List RoleRow
      → List String
      → Result Failure (List CurrentRole)
  unfolding data_scopes_from_rows iac_role_key is_expressible_role_key role_policies
  snapshot_roles app db dps [] seen = ok []
  snapshot_roles app db dps (r ∷ rs) seen =
      let key = iac_role_key r.code in
      let skipped = snapshot_roles app db dps rs seen in
      let taken : Result Failure (List CurrentRole) =
        require (not (contains seen key)) driver
        >> (snapshot_roles app db dps rs (key ∷ seen) >>= λ rest. ok (
            record {
              key = key;
              name = r.name;
              description = r.description;
              source = r.source;
              permission_codes = role_permission_codes app r.id db;
              data_scopes = data_scopes_from_rows (role_policies r.code dps);
              has_user_bindings = role_has_user_bindings app r.id db;
            }
            ∷ rest)) in
      if is_expressible_role_key key then taken else skipped

  unfoldable pub snapshot_current : ℤ → Database → Result Failure Current
  unfolding snapshot_roles top_policies app_permissions app_roles app_data_policies
  snapshot_current app db =
      let dps = app_data_policies app db in
      snapshot_roles app db dps (app_roles app db) [] >>= λ roles. ok (record {
        permissions =
            map
              (λ (p : PermissionRow). record {
                code = p.code;
                resource = p.resource;
                action = p.action;
                type = p.type;
                name = p.name;
                description = p.description;
                source = p.source;
              })
              (app_permissions app db);
        roles = roles;
        data_policies =
            map
              (λ (d : DataPolicyRow). record {
                subject_type = d.subject_type;
                subject_id = d.subject_id;
                resource = d.resource;
                effect = d.effect;
                source = d.source;
                condition = d.condition;
              })
              (top_policies dps);
      })
