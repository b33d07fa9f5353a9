-- ===== src/Controlplane/Writes/Runs.antt =====
-- Runs of a batch and of a report on the tables of the example.
use sydom.Base.{String, ◌≡◌, refl, err, none, some, [], ◌∷◌, ok, string_eq, nat_eq}
use sydom.Base.Int.{pos, ℤ_eq, to_int64, to_uint64}
use sydom.Base.Decimal.{decimal}
use sydom.Base.Dict.{lookup, insert}
use sydom.Kernel.Engine.Example.{reader, member}
use sydom.Controlplane.Diff.{diff}
use sydom.Controlplane.Types.{Delta}
use sydom.Controlplane.Store.Statements.{
  read_app_rules, lock_app_version, apply_diff, insert_audit, insert_user_role_binding,
  insert_role_permission,
}
use sydom.Controlplane.Store.Batches.{delete_roles_batch}
use sydom.Controlplane.Store.Upserts.{upsert_auto_permission}
use sydom.Controlplane.Projection.{project_app}
use sydom.Controlplane.Writes.{unclassed, classified, run_versioned_write}
use sydom.Controlplane.Store.{driver}
use sydom.Controlplane.Writes.Operations.{bind_user_role, grant_permission}
use sydom.Controlplane.Writes.Bulk.{batch_delete_role}
use sydom.Controlplane.Writes.Templates.{PermissionPoint, report_permissions}
use sydom.Controlplane.Example.{tables, steady}

-- The role that reads goes, and with it the rules that it stands in; a role that is not there
-- does not count.
abbrev emptied : Delta
emptied = record {
  app_id = pos 1;
  version = pos 5;
  rule_adds = [];
  rule_removes = reader ∷ member ∷ [];
  data_changes = [];
}

deletes :
    (batch_delete_role (pos 1) steady "ann" (pos 1 ∷ (pos 7 ∷ [])) tables).0 ≡ ok (some emptied, 1)
unfolding batch_delete_role run_versioned_write lock_app_version ℤ_eq
    native.Mathlib.Decide.ℕ_discrete classified diff project_app delete_roles_batch read_app_rules
    insert string_eq lookup apply_diff to_int64 to_uint64 insert_audit decimal
deletes = refl

abbrev point : String → PermissionPoint
point action = record {
  code = action;
  resource = "doc";
  action = action;
  type = "api";
  name = action;
  description = "";
}

-- The permission that is kept by hand is left alone.
reports :
    (report_permissions (pos 1) steady (point "read" ∷ (point "print" ∷ [])) tables).0
    ≡ ok (record { upserted = 1; skipped = 1 })
unfolding report_permissions run_versioned_write lock_app_version ℤ_eq
    native.Mathlib.Decide.ℕ_discrete upsert_auto_permission string_eq diff project_app insert lookup
    read_app_rules
reports = refl

-- A user of 127 characters fits its binding, but not the audit of the binding: the write is rolled
-- back.
abbrev long_user : String
long_user =
    "uuuuuuuuuuuuuuuuuuuuuuuuuuuuuuuuuuuuuuuuuuuuuuuuuuuuuuuuuuuuuuuuuuuuuuuuuuuuuuuuuuuuuuuuuuuuuuuuuuuuuuuuuuuuuuuuuuuuuuuuuuuuuuu"

overlong :
    run_versioned_write steady "ann" (pos 1) (bind_user_role (pos 1) long_user (pos 1)) tables
    ≡ (err (unclassed driver), tables)
unfolding run_versioned_write bind_user_role lock_app_version ℤ_eq native.Mathlib.Decide.ℕ_discrete
    classified insert_user_role_binding string_eq diff project_app insert lookup read_app_rules
    apply_diff insert_audit decimal nat_eq
overlong = refl

-- What the role may do already is granted again: nothing is recorded.
repeated :
    run_versioned_write steady "ann"
      (pos 1)
      (grant_permission (pos 1) (pos 1) (pos 1) "allow")
      tables
    ≡ (ok none, tables)
unfolding run_versioned_write grant_permission lock_app_version ℤ_eq
    native.Mathlib.Decide.ℕ_discrete classified insert_role_permission diff project_app insert
    string_eq lookup read_app_rules
repeated = refl
