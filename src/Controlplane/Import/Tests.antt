-- ===== src/Controlplane/Import/Tests.antt =====
-- An import into the tables of the example, where a role of an earlier import is still bound.
use sydom.Base.{
  String, ◌≡◌, refl, true, false, Option, none, some, [], ◌∷◌, ok, err, string_eq, nat_eq, sort_by,
  sort_texts,
}
use sydom.Base.Int.{pos, ℤ_eq}
use sydom.Base.Text.{trim, contains_rune}
use sydom.Base.Keyed.{last_by}
use sydom.Controlplane.Store.{Database, import_conflict}
use sydom.Controlplane.Store.Sources.{role_permission_codes, role_has_user_bindings}
use sydom.Controlplane.Iac.{Document, Current, CurrentRole, CurrentPermission}
use sydom.Controlplane.Iac.Plan.Roles.{declared_as, stored_as}
use sydom.Controlplane.Iac.Validate.{validate}
use sydom.Controlplane.Iac.Example.{document, canonical, any_json}
use sydom.Controlplane.Writes.{unclassed}
use sydom.Controlplane.Import.{snapshot_current}
use sydom.Controlplane.Import.Transaction.{import_app_policy}
use sydom.Controlplane.Import.Refused.{import_app_policy-still_bound}
use sydom.Controlplane.Example.{tables, role_row, steady}

abbrev reads : String → Option Document
reads content = some document

-- The bound role, as an import made it.
abbrev imported : Database
imported = record tables { roles = record (role_row (pos 1) "iac:old") { source = "iac" } ∷ [] }

abbrev bound_role : CurrentRole
bound_role = record {
  key = "old";
  name = "iac:old";
  description = "";
  source = "iac";
  permission_codes = "read" ∷ [];
  data_scopes = [];
  has_user_bindings = true;
}

abbrev stored : String → CurrentPermission
stored action = record {
  code = action;
  resource = "doc";
  action = action;
  type = "api";
  name = action;
  description = "";
  source = "manual";
}

abbrev snapshot : Current
snapshot = record {
  permissions = stored "read" ∷ stored "write" ∷ [];
  roles = bound_role ∷ [];
  data_policies = [];
}

valid : validate any_json document ≡ ok tt
unfolding validate string_eq trim contains_rune
valid = refl

snaps : snapshot_current canonical (pos 1) imported ≡ ok snapshot
unfolding snapshot_current ℤ_eq native.Mathlib.Decide.ℕ_discrete string_eq nat_eq contains_rune
    sort_by role_permission_codes role_has_user_bindings sort_texts
snaps = refl

there : last_by stored_as bound_role.key snapshot.roles ≡ some bound_role
unfolding last_by string_eq
there = refl

gone : last_by declared_as bound_role.key document.roles ≡ none
unfolding last_by string_eq
gone = refl

import_app_policy-still_bound_example :
    import_app_policy any_json (pos 1) reads any_json canonical steady "file" false imported
    ≡ (err (unclassed import_conflict), imported)
import_app_policy-still_bound_example =
    import_app_policy-still_bound any_json (pos 1) reads any_json canonical steady "file" imported
      document snapshot bound_role refl valid snaps there gone refl refl
