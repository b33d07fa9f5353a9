-- ===== src/Controlplane/Iac/Example.antt =====
-- A document with a permission and a role, and a state with a role that it does not declare.
use sydom.Base.{String, Bool, true, Option, none, some, [], ◌∷◌}
use sydom.Controlplane.Iac.{Document, Current, CurrentRole, api_version}

abbrev pub document : Document
document = record {
  api_version = api_version;
  app = none;
  permissions =
      record {
        code = "doc.read";
        resource = "doc";
        action = "read";
        type = "api";
        name = "Read";
        description = "";
        source = "";
      }
      ∷ [];
  roles =
      record {
        key = "reader";
        name = "Reader";
        description = "";
        permission_codes = "doc.read" ∷ [];
        data_scopes = [];
        source = "";
      }
      ∷ [];
  data_policies = [];
}

abbrev pub old_role : Bool → CurrentRole
old_role bound = record {
  key = "old";
  name = "Old";
  description = "";
  source = "iac";
  permission_codes = [];
  data_scopes = [];
  has_user_bindings = bound;
}

abbrev pub state : Bool → Current
state bound = record { permissions = []; roles = old_role bound ∷ []; data_policies = [] }

abbrev pub canonical : String → Option String
canonical s = some s

abbrev pub any_json : String → Bool
any_json s = true
