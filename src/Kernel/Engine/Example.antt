-- ===== src/Kernel/Engine/Example.antt =====
-- An engine of the domain "app", a snapshot for it and a change.
use sydom.Base.{String, true, false, List, [], ◌∷◌, string_eq, list_eq}
use sydom.Kernel.Types.{Rule, change_update, Delta, Snapshot}
use sydom.Kernel.Casbin.{Applier}
use sydom.Kernel.Casbin.Rows.{rows_casbin}
use sydom.Kernel.Engine.{Engine}

abbrev pub reader : Rule
reader = record {
  ptype = "p";
  v0 = "staff";
  v1 = "app";
  v2 = "doc";
  v3 = "read";
  v4 = "allow";
  v5 = "";
}

abbrev pub writer : Rule
writer = record reader { v3 = "write" }

abbrev pub member : Rule
member = record { ptype = "g"; v0 = "bob"; v1 = "staff"; v2 = "app"; v3 = ""; v4 = ""; v5 = "" }

abbrev pub reader_row : List String
reader_row = "staff" ∷ "app" ∷ "doc" ∷ "read" ∷ "allow" ∷ []

abbrev pub writer_row : List String
writer_row = "staff" ∷ "app" ∷ "doc" ∷ "write" ∷ "allow" ∷ []

abbrev pub member_row : List String
member_row = "bob" ∷ "staff" ∷ "app" ∷ []

abbrev pub new_engine : (A : Applier) → A.State → Engine rows_casbin A
new_engine A a = record { domain = "app"; ce = []; applier = a; version = 0; ready = false }

abbrev pub first_snapshot : Snapshot
first_snapshot = record { version = 1; rules = reader ∷ member ∷ []; data_policies = [] }

abbrev pub first_engine : (A : Applier) → A.State → Engine rows_casbin A
first_engine A a = record {
  domain = "app";
  ce = ("g", member_row) ∷ ("p", reader_row) ∷ [];
  applier = a;
  version = 1;
  ready = true;
}

abbrev pub second_delta : Delta
second_delta = record {
  version = 2;
  policy_changes = record { op = change_update; rule = writer; old_rule = reader } ∷ [];
  data_changes = [];
}

abbrev pub second_engine : (A : Applier) → A.State → Engine rows_casbin A
second_engine A a = record {
  domain = "app";
  ce = ("p", writer_row) ∷ ("g", member_row) ∷ [];
  applier = a;
  version = 2;
  ready = true;
}
