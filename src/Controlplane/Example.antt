-- ===== src/Controlplane/Example.antt =====
-- The tables of an application with two permissions and a role that reads.
use sydom.Base.{String, true, [], ◌∷◌}
use sydom.Base.Int.{ℤ, pos}
use sydom.Kernel.Engine.Example.{reader, member}
use sydom.Controlplane.Store.{Database, RoleRow, PermissionRow}
use sydom.Controlplane.Writes.{Driver}

abbrev pub role_row : ℤ → String → RoleRow
role_row id code = record {
  id = id;
  app_id = pos 1;
  code = code;
  name = code;
  description = "";
  source = "manual";
}

abbrev pub permission_row : ℤ → String → PermissionRow
permission_row id action = record {
  id = id;
  app_id = pos 1;
  code = action;
  resource = "doc";
  action = action;
  type = "api";
  name = action;
  description = "";
  source = "manual";
}

abbrev pub tables : Database
tables = record {
  applications = record { id = pos 1; domain = "app"; current_version = pos 4 } ∷ [];
  roles = role_row (pos 1) "staff" ∷ role_row (pos 2) "lead" ∷ [];
  permissions = permission_row (pos 1) "read" ∷ permission_row (pos 2) "write" ∷ [];
  role_permissions =
      record { app_id = pos 1; role_id = pos 1; permission_id = pos 1; eft = "allow" } ∷ [];
  role_inheritances = [];
  user_role_bindings = record { app_id = pos 1; user_id = "bob"; role_id = pos 1 } ∷ [];
  data_policies = [];
  casbin_rules =
      record { app_id = pos 1; rule = reader; version = pos 3 }
      ∷ record { app_id = pos 1; rule = member; version = pos 4 }
      ∷ [];
  audits = [];
  outbox = [];
  next_role = 3;
  next_permission = 3;
  next_data_policy = 1;
}

-- A driver that never fails.
abbrev pub steady : Driver
steady = record {
  answers = λ call. true;
  begins = true;
  commits = true;
  has_sink = true;
  marshals = λ m. true;
}
