-- ===== src/Kernel/Types.antt =====
-- types.go: rules, data policies, changes and snapshots. A uint64 is a number here; what wraps
-- says so where it does.
pub mod Values
use sydom.Base.{
  ℕ, zero, suc, String, Bool, List, [], ◌∷◌, take, get_or, ◌==◌, string_eq, if◌then◌else◌,
}

-- The six cells `V` of a casbin_rule.
pub record Rule : Type 0 where
  pub ptype : String
  pub v0 : String
  pub v1 : String
  pub v2 : String
  pub v3 : String
  pub v4 : String
  pub v5 : String

abbrev pub cells : Rule → List String
cells r = r.v0 ∷ r.v1 ∷ r.v2 ∷ r.v3 ∷ r.v4 ∷ r.v5 ∷ []

-- `for n > 0 && r.V[n-1] == "" { n-- }`
unfoldable pub last_filled : List String → ℕ → ℕ
last_filled v zero = zero
last_filled v (suc n) = let below = last_filled v n in if get_or v n "" == "" then below else suc n

unfoldable pub values : Rule → List String
unfolding last_filled
values r = take (last_filled (cells r) 6) (cells r)

unfoldable pub domain_value : Rule → String
domain_value r = if r.ptype == "p" then r.v1 else if r.ptype == "g" then r.v2 else ""

-- An `int`, of which three values have names.
pub data ChangeOp : Type 0 where
  change_add change_update change_remove : ChangeOp
  change_other : ℕ → ChangeOp

pub record PolicyChange : Type 0 where
  pub op : ChangeOp
  pub rule : Rule
  pub old_rule : Rule

pub record DataPolicy : Type 0 where
  pub id : ℕ
  pub subject_type : String
  pub subject_id : String
  pub resource : String
  pub condition : String
  pub effect : String

pub record DataPolicyChange : Type 0 where
  pub op : ChangeOp
  pub policy : DataPolicy

pub record Delta : Type 0 where
  pub version : ℕ
  pub policy_changes : List PolicyChange
  pub data_changes : List DataPolicyChange

pub record Snapshot : Type 0 where
  pub version : ℕ
  pub rules : List Rule
  pub data_policies : List DataPolicy
