-- ===== src/Controlplane/Store.antt =====
-- controlplane/store and the tables of db/migrations: the rows that policy writes read and change,
-- and the statements on them. A table is the list of its rows; a query yields the rows that meet
-- it, in the order of the table where the statement names none. PostgreSQL draws a new identifier
-- from a counter of the table, and refuses a row that a unique or a foreign key forbids.
pub mod Statements
pub mod Upserts
pub mod Batches
pub mod Sources
use sydom.Base.{ℕ, String, Bool, Option, none, some, List, [], ◌∷◌, ◌++◌, if◌then◌else◌}
use sydom.Base.Int.{ℤ}
use sydom.Kernel.Types.{Rule}
use sydom.Wire
use sydom.Controlplane.Types.{DataPolicyChange}

pub record Application : Type 0 where
  pub id : ℤ
  pub domain : String
  pub current_version : ℤ

pub record RoleRow : Type 0 where
  pub id : ℤ
  pub app_id : ℤ
  pub code : String
  pub name : String
  pub description : String
  pub source : String

pub record PermissionRow : Type 0 where
  pub id : ℤ
  pub app_id : ℤ
  pub code : String
  pub resource : String
  pub action : String
  pub type : String
  pub name : String
  pub description : String
  pub source : String

pub record RolePermission : Type 0 where
  pub app_id : ℤ
  pub role_id : ℤ
  pub permission_id : ℤ
  pub eft : String

pub record RoleInheritance : Type 0 where
  pub app_id : ℤ
  pub parent_role_id : ℤ
  pub child_role_id : ℤ

pub record UserRoleBinding : Type 0 where
  pub app_id : ℤ
  pub user_id : String
  pub role_id : ℤ

pub record DataPolicyRow : Type 0 where
  pub id : ℤ
  pub app_id : ℤ
  pub subject_type : String
  pub subject_id : String
  pub resource : String
  pub condition : String
  pub effect : String
  pub description : String
  pub source : String
  pub version : ℤ

pub record CasbinRule : Type 0 where
  pub app_id : ℤ
  pub rule : Rule
  pub version : ℤ

-- What a write changed, for the audit.
pub record AuditDiff : Type 0 where
  pub adds : List Rule
  pub removes : List Rule
  pub data_changes : List DataPolicyChange

pub record Audit : Type 0 where
  pub app_id : ℤ
  pub operator : String
  pub action : String
  pub entity_type : String
  pub entity_id : String
  pub diff : Option AuditDiff
  pub version : ℤ

-- The message before it is marshalled.
pub record OutboxRow : Type 0 where
  pub app_id : ℤ
  pub version : ℤ
  pub delta : Wire.Delta

pub record Database : Type 0 where
  pub applications : List Application
  pub roles : List RoleRow
  pub permissions : List PermissionRow
  pub role_permissions : List RolePermission
  pub role_inheritances : List RoleInheritance
  pub user_role_bindings : List UserRoleBinding
  pub data_policies : List DataPolicyRow
  pub casbin_rules : List CasbinRule
  pub audits : List Audit
  pub outbox : List OutboxRow
  pub next_role : ℕ
  pub next_permission : ℕ
  pub next_data_policy : ℕ

-- Why a call fails. `driver` is any other error of the database or of a codec.
pub data Failure : Type 0 where
  no_rows : Failure
  missing_row : Failure
  unique_violation : Failure
  foreign_key_violation : Failure
  inheritance_cycle : Failure
  bad_input : Failure
  import_conflict : Failure
  driver : Failure

module _ {A : Type 0} where
  -- The rows that a `WHERE` clause keeps.
  abbrev pub select : (A → Bool) → List A → List A
  select p [] = []
  select p (x ∷ xs) = let rest = select p xs in if p x then x ∷ rest else rest

  -- `QueryRow`
  abbrev pub first_row : List A → Option A
  first_row [] = none
  first_row (x ∷ xs) = some x

  -- `UPDATE … SET … WHERE`
  abbrev pub update_where : (A → Bool) → (A → A) → List A → List A
  update_where p f [] = []
  update_where p f (x ∷ xs) = (if p x then f x else x) ∷ update_where p f xs

-- `JOIN`: the rows that each row of the left gives.
module _ {A B : Type 0} where
  abbrev pub join : (A → List B) → List A → List B
  join f [] = []
  join f (x ∷ xs) = f x ++ join f xs
