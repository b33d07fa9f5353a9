-- ===== src/Dataperm/Example.antt =====
-- Two policies on the resource "doc", and what the table makes of them.
use sydom.Base.{
  String, ◌≡◌, refl, true, Option, none, some, List, [], ◌∷◌, Result, ok, ◌==◌, string_eq, nat_eq,
  if◌then◌else◌,
}
use sydom.Base.Dict.{Dict, lookup, insert}
use sydom.Errors.{Error}
use sydom.Kernel.Types.{DataPolicy}
use sydom.Dataperm.Condition.{op_eq, Value, str, bool, Condition, node, end, parse_condition}
use sydom.Dataperm.Table.{Stored, Table, apply_snapshot}
use sydom.Dataperm.Table.Invariant.{IsWellFormed, apply_snapshot-IsWellFormed}

abbrev pub own : Condition
own = node op_eq "owner" (str "$user.id") end

abbrev pub secret : Condition
secret = node op_eq "secret" (bool true) end

abbrev pub read_json : String → Option Condition
unfolding string_eq
read_json s = if s == "own" then some own else if s == "secret" then some secret else none

abbrev pub owners : DataPolicy
owners = record {
  id = 1;
  subject_type = "user";
  subject_id = "alice";
  resource = "doc";
  condition = "own";
  effect = "";
}

abbrev pub interns : DataPolicy
interns = record {
  id = 2;
  subject_type = "role";
  subject_id = "intern";
  resource = "doc";
  condition = "secret";
  effect = "deny";
}

abbrev pub own_stored : Stored
own_stored = record {
  id = 1;
  subject_type = "user";
  subject_id = "alice";
  effect = "allow";
  cond = own;
  parse_err = none;
}

abbrev pub secret_stored : Stored
secret_stored = record {
  id = 2;
  subject_type = "role";
  subject_id = "intern";
  effect = "deny";
  cond = secret;
  parse_err = none;
}

abbrev pub policies : List DataPolicy
policies = owners ∷ interns ∷ []

abbrev pub docs : Table
docs = ("doc", own_stored ∷ secret_stored ∷ []) ∷ []

pub docs_loaded : apply_snapshot read_json policies [] ≡ ok docs
unfolding apply_snapshot string_eq lookup insert parse_condition
docs_loaded = refl

pub docs-IsWellFormed : IsWellFormed docs
docs-IsWellFormed = apply_snapshot-IsWellFormed read_json policies [] docs_loaded

-- Whoever asks is an intern.
abbrev pub intern_roles : String → String → Result Error (List String)
intern_roles user dom = ok ("intern" ∷ [])

abbrev pub alice : Dict String Value
alice = ("id", str "7") ∷ []
