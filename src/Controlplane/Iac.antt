-- ===== src/Controlplane/Iac.antt =====
-- controlplane/iac: policy as code. The document of a file, the state of an application that it is
-- compared with, and the plan that takes the one to the other. A condition is held as its canonical
-- JSON text, and the empty text stands for no condition.
pub mod Compare
pub mod Plan
pub mod Validate
pub mod Example
mod Tests
use sydom.Base.{
  ℕ, ◌+◌, String, ◌<>◌, Bool, true, false, ◌&&◌, ◌||◌, Option, none, some, List, [], ◌∷◌, ◌==◌,
  string_eq, if◌then◌else◌,
}
use sydom.Base.Text.{trim}

pub record Permission : Type 0 where
  pub code : String
  pub resource : String
  pub action : String
  pub type : String
  pub name : String
  pub description : String
  pub source : String

pub record DataScope : Type 0 where
  pub resource : String
  pub effect : String
  pub condition : String

pub record Role : Type 0 where
  pub key : String
  pub name : String
  pub description : String
  pub permission_codes : List String
  pub data_scopes : List DataScope
  pub source : String

pub record DataPolicy : Type 0 where
  pub subject_type : String
  pub subject_id : String
  pub resource : String
  pub effect : String
  pub condition : String
  pub source : String

pub record Document : Type 0 where
  pub api_version : String
  pub app : Option String
  pub permissions : List Permission
  pub roles : List Role
  pub data_policies : List DataPolicy

pub record CurrentPermission : Type 0 where
  pub code : String
  pub resource : String
  pub action : String
  pub type : String
  pub name : String
  pub description : String
  pub source : String

pub record CurrentRole : Type 0 where
  pub key : String
  pub name : String
  pub description : String
  pub source : String
  pub permission_codes : List String
  pub data_scopes : List DataScope
  pub has_user_bindings : Bool

pub record CurrentDataPolicy : Type 0 where
  pub subject_type : String
  pub subject_id : String
  pub resource : String
  pub effect : String
  pub source : String
  pub condition : String

pub record Current : Type 0 where
  pub permissions : List CurrentPermission
  pub roles : List CurrentRole
  pub data_policies : List CurrentDataPolicy

-- The texts `create|adopt|update|delete|conflict`.
pub data Kind : Type 0 where
  create adopt update delete conflict : Kind

-- The texts `permission`, `role` and `data_policy`.
pub data EntityType : Type 0 where
  permission role data_policy : EntityType

pub record PlanItem : Type 0 where
  pub kind : Kind
  pub entity_type : EntityType
  pub identity : String
  pub detail : String

abbrev pub api_version : String
api_version = "sydom.policy/v1"

abbrev same_kind : Kind → Kind → Bool
same_kind create create = true
same_kind adopt adopt = true
same_kind update update = true
same_kind delete delete = true
same_kind conflict conflict = true
same_kind _ _ = false

unfoldable pub count : Kind → List PlanItem → ℕ
count k [] = 0
count k (x ∷ xs) = (if same_kind x.kind k then 1 else 0) + count k xs

-- `normalise` is `json.Unmarshal` and then `json.Marshal`: none where the text is no JSON.
unfoldable pub condition_from_json : (String → Option String) → String → String
condition_from_json normalise b =
    if trim b == "" then "" else elim (normalise b) [ none ↦ b | some c ↦ c ]

-- `subject_type:subject_id:resource`
abbrev pub policy_id : String → String → String → String
policy_id subject_type subject_id resource =
    subject_type <> (":" <> (subject_id <> (":" <> resource)))
