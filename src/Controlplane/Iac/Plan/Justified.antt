-- ===== src/Controlplane/Iac/Plan/Justified.antt =====
-- What a plan may do, whatever the document and the state are.
use sydom.Base.{String, ◌↔◌, ◌⊎◌, inl, inr, Option, ◌++◌, In, In-append}
use sydom.Base.Keyed.{rows_by}
use sydom.Controlplane.Iac.{Document, Current, PlanItem}
use sydom.Controlplane.Iac.Plan.{
  diff, diff_permissions, diff_roles, diff_data_policies, declared_id, current_id,
}
use sydom.Controlplane.Iac.Plan.Permissions.{PermissionChange, In-diff_permissions}
use sydom.Controlplane.Iac.Plan.Roles.{RoleChange, In-diff_roles}
use sydom.Controlplane.Iac.Plan.DataPolicies.{PolicyChange, In-diff_data_policies}

-- What a document asks of a state.
abbrev pub Change : (String → Option String) → Document → Current → PlanItem → Type 0
Change normalise d c x =
    PermissionChange d.permissions c.permissions x
    ⊎ (RoleChange d.roles c.roles x
        ⊎ ((id : String) × PolicyChange normalise id (rows_by declared_id id d.data_policies)
              (rows_by current_id id c.data_policies) x))

-- An item is in the plan exactly if one of the changes of permissions, of roles or of data
-- policies, as the rules of governance define them, is justified by the document and the state
-- and makes that item.
pub In-diff :
    (normalise : String → Option String) (d : Document) (c : Current) (x : PlanItem)
    → In x (diff normalise d c) ↔ Change normalise d c x
unfolding diff
In-diff normalise d c x = (
  λ i. elim (first.0 i) [
    | inl i ↦ inl ((In-diff_permissions d.permissions c.permissions x).0 i)
    | inr i ↦ elim (second.0 i) [
      | inl i ↦ inr (inl ((In-diff_roles d.roles c.roles x).0 i))
      | inr i ↦ inr (inr ((In-diff_data_policies normalise d.data_policies c.data_policies x).0 i))
    ]
  ],
  λ change. first.1 (elim change [
    | inl p ↦ inl ((In-diff_permissions d.permissions c.permissions x).1 p)
    | inr r ↦ inr (
        second.1 (elim r [
          | inl p ↦ inl ((In-diff_roles d.roles c.roles x).1 p)
          | inr p ↦ inr ((In-diff_data_policies normalise d.data_policies c.data_policies x).1 p)
        ]))
  ]),
)
  where
    first : In x (diff normalise d c) ↔ (
        In x (diff_permissions d.permissions c.permissions)
        ⊎ In x (
            diff_roles d.roles c.roles
            ++ diff_data_policies normalise d.data_policies c.data_policies))
    first = In-append x (diff_permissions d.permissions c.permissions) _

    second :
        In x (
          diff_roles d.roles c.roles
          ++ diff_data_policies normalise d.data_policies c.data_policies)
        ↔ (In x (diff_roles d.roles c.roles)
            ⊎ In x (diff_data_policies normalise d.data_policies c.data_policies))
    second = In-append x (diff_roles d.roles c.roles) _
