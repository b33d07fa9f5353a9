-- ===== src/Controlplane/Iac/Compare.antt =====
-- iac/diff.go, the comparisons: which fields of an entity differ, and the texts that say so.
use sydom.Base.{
  String, ◌<>◌, Bool, false, ◌&&◌, not, Option, List, [], ◌∷◌, ◌++◌, map, ◌==◌, string_eq, list_eq,
  if◌then◌else◌, sort_texts,
}
use sydom.Controlplane.Iac.{
  Permission, Role, DataPolicy, DataScope, CurrentPermission, CurrentRole, CurrentDataPolicy,
  condition_from_json,
}

-- fmt.Sprintf("<field>: %s → %s", …)
abbrev changed : String → String → String → String
changed field before after = field <> (": " <> (before <> (" → " <> after)))

-- A part of a detail where the values differ.
part_if : Bool → String → List String
part_if differ text = if differ then text ∷ [] else []

abbrev part : String → String → String → List String
unfolding part_if
part field before after = part_if (not (before == after)) (changed field before after)

-- strings.Join(parts, "; ")
unfoldable pub join : List String → String
join [] = ""
join (s ∷ []) = s
join (s ∷ (t ∷ ts)) = s <> ("; " <> join (t ∷ ts))

unfoldable pub perm_fields_equal : CurrentPermission → Permission → Bool
perm_fields_equal cp dp =
    cp.resource == dp.resource
    && cp.action == dp.action
    && cp.type == dp.type
    && cp.name == dp.name
    && cp.description == dp.description

unfoldable pub perm_update_detail : CurrentPermission → Permission → String
unfolding part_if join
perm_update_detail cp dp = join (
    part "name" cp.name dp.name
    ++ (part "resource" cp.resource dp.resource
        ++ (part "action" cp.action dp.action
            ++ (part "type" cp.type dp.type ++ part "description" cp.description dp.description))))

-- `strSlicesEqual` of two sorted copies.
unfoldable pub same_texts : List String → List String → Bool
same_texts a b = sort_texts a == sort_texts b

data_scope_key : DataScope → String
data_scope_key ds = ds.resource <> ("|" <> (ds.effect <> ("|" <> ds.condition)))

unfoldable pub data_scope_keys : List DataScope → List String
unfolding data_scope_key
data_scope_keys scopes = map data_scope_key scopes

unfoldable pub role_fields_equal : CurrentRole → Role → Bool
unfolding same_texts data_scope_keys
role_fields_equal cr dr =
    if not (cr.name == dr.name && cr.description == dr.description)
    then false
    else if not (same_texts cr.permission_codes dr.permission_codes)
    then false
    else same_texts (data_scope_keys cr.data_scopes) (data_scope_keys dr.data_scopes)

-- What a detail says where it has no part.
or_fields : List String → String
unfolding join
or_fields [] = "字段变更"
or_fields (s ∷ ss) = join (s ∷ ss)

unfoldable pub role_update_detail : CurrentRole → Role → String
unfolding same_texts data_scope_keys or_fields part_if
role_update_detail cr dr = or_fields (
    part "name" cr.name dr.name
    ++ (part_if (not (cr.description == dr.description)) "description 变更"
        ++ (part_if (not (same_texts cr.permission_codes dr.permission_codes)) "授权码集变更"
            ++ part_if
                (not (same_texts (data_scope_keys cr.data_scopes) (data_scope_keys dr.data_scopes)))
                "data_scopes 变更")))

module _ (normalise : String → Option String) where
  unfoldable pub dp_fields_equal : CurrentDataPolicy → DataPolicy → Bool
  unfolding condition_from_json
  dp_fields_equal cdp dp =
      if not (cdp.effect == dp.effect)
      then false
      else condition_from_json normalise cdp.condition == dp.condition

  unfoldable pub dp_update_detail : CurrentDataPolicy → DataPolicy → String
  unfolding or_fields part_if condition_from_json
  dp_update_detail cdp dp = or_fields (
      part "effect" cdp.effect dp.effect
      ++ part_if (not (condition_from_json normalise cdp.condition == dp.condition)) "condition 变更")
