-- ===== src/Controlplane/Iac/Plan.antt =====
-- iac/diff.go, `Diff`: what has to be done to a current state so that a document describes it.
-- A Go map that serves as a set or is ranged over in sorted order is the sorted list of its keys.
mod Gathered
pub mod Permissions
pub mod Roles
pub mod DataPolicies
pub mod Justified
pub mod Governed
use sydom.Base.{
  String, ◌<>◌, Bool, true, false, ◌||◌, Option, none, some, List, [], ◌∷◌, ◌++◌, map, ◌==◌,
  string_eq, if◌then◌else◌, ltb, length, any, sort_texts,
}
use sydom.Base.Keyed.{index, rows_by}
use sydom.Base.Dict.{Dict, lookup, insert}
use sydom.Controlplane.Iac.{
  Permission, Role, DataPolicy, Document, CurrentPermission, CurrentRole, CurrentDataPolicy,
  Current, Kind, EntityType, PlanItem, policy_id,
}
use sydom.Controlplane.Iac.Compare.{
  perm_fields_equal, perm_update_detail, role_fields_equal, role_update_detail, dp_fields_equal,
  dp_update_detail,
}

abbrev pub item : Kind → EntityType → String → String → PlanItem
item k t id text = record { kind = k; entity_type = t; identity = id; detail = text }

abbrev pub adopted : String
adopted = "纳入 IaC 托管(manual→iac)"

-- `for _, code := range codes { … append(plan.Items, …) }`
unfoldable pub gather : (String → List PlanItem) → List String → List PlanItem
gather f [] = []
gather f (k ∷ ks) = f k ++ gather f ks

-- One code that the current state has. A code without an entry cannot occur: Go would read an
-- entry whose source is empty, which adds nothing.
iac_permission : CurrentPermission → Option Permission → List PlanItem
iac_permission cp none = item Kind.delete EntityType.permission cp.code "删除" ∷ []
iac_permission cp (some dp) =
    if perm_fields_equal cp dp
    then []
    else item Kind.update EntityType.permission cp.code (perm_update_detail cp dp) ∷ []

manual_permission : CurrentPermission → Option Permission → List PlanItem
manual_permission cp none = []
manual_permission cp (some dp) = item Kind.adopt EntityType.permission cp.code adopted ∷ []

found_permission : Dict String Permission → Option CurrentPermission → List PlanItem
unfolding iac_permission manual_permission
found_permission desired none = []
found_permission desired (some cp) =
    if cp.source == "iac"
    then iac_permission cp (lookup cp.code desired)
    else if cp.source == "manual"
    then manual_permission cp (lookup cp.code desired)
    else []

absent_permission : String → Option CurrentPermission → List PlanItem
absent_permission code none = item Kind.create EntityType.permission code "新建" ∷ []
absent_permission code (some cp) = []

module _ (current : Dict String CurrentPermission) (desired : Dict String Permission) where
  unfoldable pub current_permission : String → List PlanItem
  unfolding found_permission
  current_permission code = found_permission desired (lookup code current)

  -- One code that the document has.
  unfoldable pub new_permission : String → List PlanItem
  unfolding absent_permission
  new_permission code = absent_permission code (lookup code current)

unfoldable pub diff_permissions : List Permission → List CurrentPermission → List PlanItem
diff_permissions declared cur =
    let desired = index (λ (p : Permission). p.code) declared [] in
    let current = index (λ (p : CurrentPermission). p.code) cur [] in
    gather (current_permission current desired)
      (sort_texts (map (λ (p : CurrentPermission). p.code) cur))
    ++ gather (new_permission current desired)
        (sort_texts (map (λ (p : Permission). p.code) declared))

iac_role : CurrentRole → Option Role → List PlanItem
iac_role cr none =
    if cr.has_user_bindings
    then item Kind.conflict EntityType.role cr.key "仍有用户绑定，需先解绑" ∷ []
    else item Kind.delete EntityType.role cr.key "删除" ∷ []
iac_role cr (some dr) =
    if role_fields_equal cr dr
    then []
    else item Kind.update EntityType.role cr.key (role_update_detail cr dr) ∷ []

manual_role : CurrentRole → Option Role → List PlanItem
manual_role cr none = []
manual_role cr (some dr) = item Kind.adopt EntityType.role cr.key adopted ∷ []

found_role : Dict String Role → Option CurrentRole → List PlanItem
unfolding iac_role manual_role
found_role desired none = []
found_role desired (some cr) =
    if cr.source == "iac"
    then iac_role cr (lookup cr.key desired)
    else if cr.source == "manual"
    then manual_role cr (lookup cr.key desired)
    else []

-- The name in the document's map; a missing role, which cannot occur, has the empty name.
role_name : Option Role → String
role_name none = ""
role_name (some dr) = dr.name

absent_role : Dict String Role → String → Option CurrentRole → List PlanItem
unfolding role_name
absent_role desired key none =
    item Kind.create EntityType.role key ("新建: " <> role_name (lookup key desired)) ∷ []
absent_role desired key (some cr) = []

module _ (current : Dict String CurrentRole) (desired : Dict String Role) where
  unfoldable pub current_role : String → List PlanItem
  unfolding found_role
  current_role key = found_role desired (lookup key current)

  unfoldable pub new_role : String → List PlanItem
  unfolding absent_role
  new_role key = absent_role desired key (lookup key current)

unfoldable pub diff_roles : List Role → List CurrentRole → List PlanItem
diff_roles declared cur =
    let desired = index (λ (r : Role). r.key) declared [] in
    let current = index (λ (r : CurrentRole). r.key) cur [] in
    gather (current_role current desired) (sort_texts (map (λ (r : CurrentRole). r.key) cur))
    ++ gather (new_role current desired) (sort_texts (map (λ (r : Role). r.key) declared))

abbrev pub declared_id : DataPolicy → String
declared_id dp = policy_id dp.subject_type dp.subject_id dp.resource

abbrev pub current_id : CurrentDataPolicy → String
current_id dp = policy_id dp.subject_type dp.subject_id dp.resource

module _ (normalise : String → Option String) (id : String) where
  -- At most one row on each side.
  single_policy : Option CurrentDataPolicy → Option DataPolicy → List PlanItem
  single_policy none none = []
  single_policy none (some dp) = item Kind.create EntityType.data_policy id "新建" ∷ []
  single_policy (some cdp) declared =
      if cdp.source == "iac"
      then (elim declared [
        | none ↦ item Kind.delete EntityType.data_policy id "删除" ∷ []
        | some dp ↦
            if dp_fields_equal normalise cdp dp
            then []
            else item Kind.update EntityType.data_policy id (dp_update_detail normalise cdp dp) ∷ []
      ])
      else if cdp.source == "manual"
      then (elim declared [
        | none ↦ []
        | some dp ↦ item Kind.adopt EntityType.data_policy id adopted ∷ []
      ])
      else []

  unfoldable pub policy_items : List DataPolicy → List CurrentDataPolicy → List PlanItem
  unfolding single_policy
  policy_items (d ∷ (d' ∷ ds)) cs =
      item Kind.conflict EntityType.data_policy id "文件中数据策略身份不唯一，无法安全收敛" ∷ []
  policy_items ds (c ∷ (c' ∷ cs)) =
      if ltb 0 (length ds) || any (λ (c : CurrentDataPolicy). c.source == "iac") (c ∷ (c' ∷ cs))
      then item Kind.conflict EntityType.data_policy id "库中数据策略身份不唯一，无法安全收敛，请人工厘清" ∷ []
      else []
  policy_items [] [] = single_policy none none
  policy_items [] (c ∷ []) = single_policy (some c) none
  policy_items (d ∷ []) [] = single_policy none (some d)
  policy_items (d ∷ []) (c ∷ []) = single_policy (some c) (some d)

-- `set[key] = true` for the keys.
unfoldable pub key_set : List String → Dict String Bool → Dict String Bool
key_set [] s = s
key_set (k ∷ ks) s = key_set ks (insert k true s)

unfoldable pub keys : Dict String Bool → List String
keys [] = []
keys ((k, b) ∷ s) = k ∷ keys s

unfoldable pub diff_data_policies :
    (String → Option String) → List DataPolicy → List CurrentDataPolicy → List PlanItem
diff_data_policies normalise declared cur =
    let ids = keys (key_set (map current_id cur) (key_set (map declared_id declared) [])) in
    gather
      (λ id.
        policy_items normalise id (rows_by declared_id id declared) (rows_by current_id id cur))
      (sort_texts ids)

unfoldable pub diff : (String → Option String) → Document → Current → List PlanItem
diff normalise desired cur =
    diff_permissions desired.permissions cur.permissions
    ++ (diff_roles desired.roles cur.roles
        ++ diff_data_policies normalise desired.data_policies cur.data_policies)
