-- ===== src/Sync/Translate.antt =====
-- translate.go: from the messages to the kernel's types.
pub mod RoundTrip
mod Tests
use sydom.Base.{
  ℕ, ◌≤◌, Bool, List, [], ◌∷◌, Result, ok, err, ◌>>=◌, get_or, length, leb, if◌then◌else◌,
}
use sydom.Errors.{Error, external}
use sydom.Kernel.Types.{
  Rule, ChangeOp, change_add, change_update, change_remove, change_other, PolicyChange, DataPolicy,
  DataPolicyChange, Delta, Snapshot,
}
use sydom.Wire
use sydom.Wire.{op_add, op_update, op_remove, get_rule, get_policy}

-- The values are copied into the six cells, the rest is "".
unfoldable pub rule_from_proto : Wire.PolicyRule → Result Error Rule
rule_from_proto pr =
    let v = pr.values in
    if leb (length v) 6
    then ok (record {
      ptype = pr.ptype;
      v0 = get_or v 0 "";
      v1 = get_or v 1 "";
      v2 = get_or v 2 "";
      v3 = get_or v 3 "";
      v4 = get_or v 4 "";
      v5 = get_or v 5 "";
    })
    else err (external "syncclient: policy rule has too many values")

unfoldable pub op_from_proto : Wire.ChangeOp → Result Error ChangeOp
op_from_proto op_add = ok change_add
op_from_proto op_remove = ok change_remove
op_from_proto op_update = ok change_update
op_from_proto _ = err (external "syncclient: unknown change op")

-- The zero value of a Rule.
abbrev pub no_rule : Rule
no_rule = record { ptype = ""; v0 = ""; v1 = ""; v2 = ""; v3 = ""; v4 = ""; v5 = "" }

-- The `switch op` that carries the rules over.
unfoldable pub carry_rules : Wire.PolicyChange → ChangeOp → Result Error PolicyChange
unfolding rule_from_proto
carry_rules pc change_add = do
  r ← rule_from_proto (get_rule pc.rule)
  ok (record { op = change_add; rule = r; old_rule = no_rule })
carry_rules pc change_remove = do
  r ← rule_from_proto (get_rule pc.old_rule)
  ok (record { op = change_remove; rule = r; old_rule = no_rule })
carry_rules pc change_update = do
  r ← rule_from_proto (get_rule pc.rule)
  old ← rule_from_proto (get_rule pc.old_rule)
  ok (record { op = change_update; rule = r; old_rule = old })
carry_rules pc (change_other n) =
    ok (record { op = change_other n; rule = no_rule; old_rule = no_rule })

unfoldable pub policy_change_from_proto : Wire.PolicyChange → Result Error PolicyChange
unfolding carry_rules op_from_proto
policy_change_from_proto pc = op_from_proto pc.op >>= carry_rules pc

unfoldable pub data_policy_from_proto : Wire.DataPolicy → DataPolicy
data_policy_from_proto dp = record {
  id = dp.id;
  subject_type = dp.subject_type;
  subject_id = dp.subject_id;
  resource = dp.resource;
  condition = dp.condition;
  effect = dp.effect;
}

unfoldable pub data_policy_change_from_proto : Wire.DataPolicyChange → Result Error DataPolicyChange
unfolding op_from_proto data_policy_from_proto
data_policy_change_from_proto dc = do
  op ← op_from_proto dc.op
  ok (record { op = op; policy = data_policy_from_proto (get_policy dc.policy) })

-- The loops of the translations: in order, up to the first error.
abbrev pub each {ℓ κ} :
    {X : Type ℓ} {Y : Type κ} → (X → Result Error Y) → List X → Result Error (List Y)
each f [] = ok []
each f (x ∷ xs) = do y ← f x; ys ← each f xs; ok (y ∷ ys)

unfoldable pub snapshot_from_proto : Wire.Snapshot → Result Error Snapshot
unfolding rule_from_proto data_policy_from_proto
snapshot_from_proto s = do
  rules ← each rule_from_proto s.rules
  policies ← each (λ dp. ok (data_policy_from_proto dp)) s.data_policies
  ok (record { version = s.version; rules = rules; data_policies = policies })

unfoldable pub delta_from_proto : Wire.Delta → Result Error Delta
unfolding policy_change_from_proto data_policy_change_from_proto
delta_from_proto d = do
  changes ← each policy_change_from_proto d.policy_changes
  data_changes ← each data_policy_change_from_proto d.data_changes
  ok (record { version = d.version; policy_changes = changes; data_changes = data_changes })
