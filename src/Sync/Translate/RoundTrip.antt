-- ===== src/Sync/Translate/RoundTrip.antt =====
-- What the control plane writes into a message is what the sidecar reads out of it.
use mathlib.Core.List.{append-nil}
use sydom.Base.{
  ℕ, ◌≡◌, refl, sym, ap, ap₂, ◌∙◌, ◌≢◌, List, [], ◌∷◌, ◌++◌, map, Result, ok, ◌>>=◌, arith,
}
use sydom.Base.Int.{to_uint64}
use sydom.Errors.{Error}
use sydom.Kernel.Types.{
  Rule, ChangeOp, change_add, change_update, change_remove, change_other, PolicyChange, DataPolicy,
  DataPolicyChange,
}
use sydom.Kernel.Types.Values.{get_or-values, length-values}
use sydom.Controlplane.Types
use sydom.Controlplane.Translate.{
  rule_to_proto, data_policy_to_proto, op_to_proto, add_message, remove_message, data_message,
  delta_to_proto,
}
use sydom.Sync.Translate.{
  no_rule, rule_from_proto, op_from_proto, policy_change_from_proto, data_policy_change_from_proto,
  each, delta_from_proto,
}

-- A rule comes through the message as it was.
pub rule_from_proto-rule_to_proto : (r : Rule) → rule_from_proto (rule_to_proto r) ≡ ok r
unfolding rule_from_proto rule_to_proto
rule_from_proto-rule_to_proto r = ground (
  arith,
  length-values r,
  get_or-values r 0 (omega arith),
  get_or-values r 1 (omega arith),
  get_or-values r 2 (omega arith),
  get_or-values r 3 (omega arith),
  get_or-values r 4 (omega arith),
  get_or-values r 5 (omega arith),
)

-- The kernel's form of a data policy of the control plane.
abbrev pub sent_policy : Types.DataPolicy → DataPolicy
sent_policy p = record {
  id = to_uint64 p.id;
  subject_type = p.subject_type;
  subject_id = p.subject_id;
  resource = p.resource;
  condition = p.condition;
  effect = p.effect;
}

abbrev pub sent_data : Types.DataPolicyChange → DataPolicyChange
sent_data c = record { op = c.op; policy = sent_policy c.policy }

abbrev pub added : Rule → PolicyChange
added r = record { op = change_add; rule = r; old_rule = no_rule }

abbrev pub removed : Rule → PolicyChange
removed r = record { op = change_remove; rule = r; old_rule = no_rule }

-- Each operation of the changes has a name.
abbrev pub Named : List Types.DataPolicyChange → Type 0
Named [] = Unit
Named (c ∷ cs) = ((n : ℕ) → c.op ≢ change_other n) × Named cs

each-map {ℓ κ μ} :
    {W : Type ℓ} {X : Type κ} {Y : Type μ} (f : X → Result Error Y) (g : W → X) (h : W → Y)
    (ws : List W) (ys : List X) (vs : List Y)
    → ((w : W) → f (g w) ≡ ok (h w))
    → each f ys ≡ ok vs
    → each f (map g ws ++ ys) ≡ ok (map h ws ++ vs)
each-map f g h [] ys vs one rest = rest
each-map f g h (w ∷ ws) ys vs one rest = rw (one w, each-map f g h ws ys vs one rest)

policy_change-add : (r : Rule) → policy_change_from_proto (add_message r) ≡ ok (added r)
unfolding policy_change_from_proto
policy_change-add r = ap (λ m. m >>= λ x. ok (added x)) (rule_from_proto-rule_to_proto r)

policy_change-remove : (r : Rule) → policy_change_from_proto (remove_message r) ≡ ok (removed r)
unfolding policy_change_from_proto
policy_change-remove r = ap (λ m. m >>= λ x. ok (removed x)) (rule_from_proto-rule_to_proto r)

op_from_proto-op_to_proto :
    (op : ChangeOp) → ((n : ℕ) → op ≢ change_other n) → op_from_proto (op_to_proto op) ≡ ok op
unfolding op_from_proto op_to_proto
op_from_proto-op_to_proto change_add h = refl
op_from_proto-op_to_proto change_update h = refl
op_from_proto-op_to_proto change_remove h = refl
op_from_proto-op_to_proto (change_other n) h = absurd (h n refl)

each-data :
    (cs : List Types.DataPolicyChange)
    → Named cs
    → each data_policy_change_from_proto (map data_message cs) ≡ ok (map sent_data cs)
unfolding data_policy_change_from_proto data_policy_to_proto
each-data [] h = refl
each-data (c ∷ cs) (named, h) = rw (op_from_proto-op_to_proto c.op named, each-data cs h)

-- A change of the control plane arrives at the sidecar as it was sent: the rules to add and those
-- to remove, cell by cell and in this order, and the data policies without their descriptions.
pub delta_from_proto-delta_to_proto :
    (d : Types.Delta)
    → Named d.data_changes
    → delta_from_proto (delta_to_proto d)
      ≡ ok (record {
        version = to_uint64 d.version;
        policy_changes = map added d.rule_adds ++ (map removed d.rule_removes ++ []);
        data_changes = map sent_data d.data_changes;
      })
unfolding delta_from_proto delta_to_proto
delta_from_proto-delta_to_proto d h =
    ap₂
      (λ m k. m >>= λ changes. k >>= λ data_changes. ok (record {
        version = to_uint64 d.version;
        policy_changes = changes;
        data_changes = data_changes;
      }))
      (each-map policy_change_from_proto add_message added d.rule_adds
        (map remove_message d.rule_removes) (map removed d.rule_removes ++ []) policy_change-add
        (ap (each policy_change_from_proto) (sym (append-nil (map remove_message d.rule_removes)))
          ∙ each-map policy_change_from_proto remove_message removed d.rule_removes [] []
              policy_change-remove refl))
      (each-data d.data_changes h)
