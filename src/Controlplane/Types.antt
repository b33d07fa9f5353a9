-- ===== src/Controlplane/Types.antt =====
-- types.go: what a write produces. A cp.Rule has the fields of a kernel.Rule, and one record
-- stands for both.
use sydom.Base.{String, List}
use sydom.Base.Int.{ℤ}
use sydom.Kernel.Types.{Rule, ChangeOp}

-- The description is metadata that is never sent.
pub record DataPolicy : Type 0 where
  pub id : ℤ
  pub subject_type : String
  pub subject_id : String
  pub resource : String
  pub condition : String
  pub effect : String
  pub description : String

pub record DataPolicyChange : Type 0 where
  pub op : ChangeOp
  pub policy : DataPolicy

pub record Delta : Type 0 where
  pub app_id : ℤ
  pub version : ℤ
  pub rule_adds : List Rule
  pub rule_removes : List Rule
  pub data_changes : List DataPolicyChange
