-- ===== src/Wire.antt =====
-- The messages of api/proto/sydom/sync/v1 as far as policies go. A message field that is absent
-- is `none`, and its getters answer with empty values.
use sydom.Base.{ℕ, String, Option, none, some, List, []}

pub record PolicyRule : Type 0 where
  pub ptype : String
  pub values : List String

-- An enum of protobuf, which may carry a number that has no name.
pub data ChangeOp : Type 0 where
  op_unspecified op_add op_update op_remove : ChangeOp
  op_unknown : ℕ → ChangeOp

pub record PolicyChange : Type 0 where
  pub op : ChangeOp
  pub rule : Option PolicyRule
  pub old_rule : Option PolicyRule

pub record DataPolicy : Type 0 where
  pub id : ℕ
  pub subject_type : String
  pub subject_id : String
  pub resource : String
  pub condition : String
  pub effect : String

pub record DataPolicyChange : Type 0 where
  pub op : ChangeOp
  pub policy : Option DataPolicy

pub record Delta : Type 0 where
  pub version : ℕ
  pub policy_changes : List PolicyChange
  pub data_changes : List DataPolicyChange

pub record Snapshot : Type 0 where
  pub version : ℕ
  pub rules : List PolicyRule
  pub data_policies : List DataPolicy

abbrev pub get_rule : Option PolicyRule → PolicyRule
get_rule (some r) = r
get_rule none = record { ptype = ""; values = [] }

abbrev pub get_policy : Option DataPolicy → DataPolicy
get_policy (some p) = p
get_policy none = record {
  id = 0;
  subject_type = "";
  subject_id = "";
  resource = "";
  condition = "";
  effect = "";
}

-- The oneof of a SyncEvent; `event_other` is none of the cases that the code knows.
pub data SyncEvent : Type 0 where
  event_delta : Delta → SyncEvent
  event_heartbeat : ℕ → SyncEvent
  event_snapshot_required event_other : SyncEvent
