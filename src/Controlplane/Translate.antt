-- ===== src/Controlplane/Translate.antt =====
-- translate.go: from the control plane's types to the messages.
use sydom.Base.{none, some, List, ◌++◌, map}
use sydom.Base.Int.{to_uint64}
use sydom.Kernel.Types.{
  Rule, values, ChangeOp, change_add, change_update, change_remove, change_other,
}
use sydom.Controlplane.Types.{DataPolicy, DataPolicyChange, Delta}
use sydom.Wire
use sydom.Wire.{op_unspecified, op_add, op_update, op_remove}

-- The loop that cuts the empty cells off is that of kernel.Rule's `values`.
unfoldable pub rule_to_proto : Rule → Wire.PolicyRule
rule_to_proto r = record { ptype = r.ptype; values = values r }

unfoldable pub data_policy_to_proto : DataPolicy → Wire.DataPolicy
data_policy_to_proto p = record {
  id = to_uint64 p.id;
  subject_type = p.subject_type;
  subject_id = p.subject_id;
  resource = p.resource;
  condition = p.condition;
  effect = p.effect;
}

unfoldable pub op_to_proto : ChangeOp → Wire.ChangeOp
op_to_proto change_add = op_add
op_to_proto change_update = op_update
op_to_proto change_remove = op_remove
op_to_proto (change_other n) = op_unspecified

abbrev pub add_message : Rule → Wire.PolicyChange
add_message r = record { op = op_add; rule = some (rule_to_proto r); old_rule = none }

abbrev pub remove_message : Rule → Wire.PolicyChange
remove_message r = record { op = op_remove; rule = none; old_rule = some (rule_to_proto r) }

abbrev pub data_message : DataPolicyChange → Wire.DataPolicyChange
data_message c = record { op = op_to_proto c.op; policy = some (data_policy_to_proto c.policy) }

unfoldable pub delta_to_proto : Delta → Wire.Delta
unfolding rule_to_proto data_policy_to_proto op_to_proto
delta_to_proto d = record {
  version = to_uint64 d.version;
  policy_changes = map add_message d.rule_adds ++ map remove_message d.rule_removes;
  data_changes = map data_message d.data_changes;
}

unfoldable pub rules_to_proto : List Rule → List Wire.PolicyRule
unfolding rule_to_proto
rules_to_proto rules = map rule_to_proto rules

unfoldable pub data_policies_to_proto : List DataPolicy → List Wire.DataPolicy
unfolding data_policy_to_proto
data_policies_to_proto dps = map data_policy_to_proto dps
