-- ===== src/Controlplane/Iac/Plan/Governed.antt =====
-- Which entities a plan may touch: the file manages what came from a file, takes over what was
-- made by hand and is declared, and leaves all else alone.
use sydom.Base.{
  ◌<◌, String, ◌≡◌, refl, subst, sym, ◌⊎◌, inl, inr, true, false, Option, List, [], ◌∷◌, map, In,
  length, arith, string_eq,
}
use sydom.Base.Keyed.{
  rows_by, In-rows_by, In-last_by, last_by-In, rows_by-In, absent-of_last, absent-of_rows,
}
use sydom.Controlplane.Iac.{
  Document, Current, Permission, Role, DataPolicy, CurrentPermission, CurrentRole,
  CurrentDataPolicy, PlanItem, Kind, EntityType,
}
use sydom.Controlplane.Iac.Plan.{diff, declared_id, current_id}
use sydom.Controlplane.Iac.Plan.Permissions
use sydom.Controlplane.Iac.Plan.Permissions.{PermissionChange}
use sydom.Controlplane.Iac.Plan.Roles
use sydom.Controlplane.Iac.Plan.Roles.{RoleChange}
use sydom.Controlplane.Iac.Plan.DataPolicies.{PolicyChange}
use sydom.Controlplane.Iac.Plan.Justified.{In-diff}

-- The identities that a state has.
abbrev pub stored_ids : Current → EntityType → List String
stored_ids c EntityType.permission = map (λ (p : CurrentPermission). p.code) c.permissions
stored_ids c EntityType.role = map (λ (r : CurrentRole). r.key) c.roles
stored_ids c EntityType.data_policy = map current_id c.data_policies

-- The identities that a document declares.
abbrev pub declared_ids : Document → EntityType → List String
declared_ids d EntityType.permission = map (λ (p : Permission). p.code) d.permissions
declared_ids d EntityType.role = map (λ (r : Role). r.key) d.roles
declared_ids d EntityType.data_policy = map declared_id d.data_policies

-- The state has an entity of that identity and source.
abbrev pub Stored : Current → EntityType → String → String → Type 0
Stored c EntityType.permission id source =
    (p : CurrentPermission) × In p c.permissions × (p.code ≡ id) × (p.source ≡ source)
Stored c EntityType.role id source =
    (r : CurrentRole) × In r c.roles × (r.key ≡ id) × (r.source ≡ source)
Stored c EntityType.data_policy id source =
    (p : CurrentDataPolicy) × In p c.data_policies × (current_id p ≡ id) × (p.source ≡ source)

-- Whether the entity may go.
abbrev pub Free : Current → EntityType → String → Type 0
Free c EntityType.permission id = Unit
Free c EntityType.role id =
    (r : CurrentRole) × In r c.roles × (r.key ≡ id) × (r.has_user_bindings ≡ false)
Free c EntityType.data_policy id = Unit

-- Why nothing is planned for an entity but a conflict.
abbrev pub Blocked : Document → Current → EntityType → String → Type 0
Blocked d c EntityType.permission id = ⊥
Blocked d c EntityType.role id =
    (r : CurrentRole) × In r c.roles × (r.key ≡ id) × (r.has_user_bindings ≡ true)
Blocked d c EntityType.data_policy id =
    (1 < length (rows_by declared_id id d.data_policies))
    ⊎ (1 < length (rows_by current_id id c.data_policies))

abbrev pub Governed : Document → Current → Kind → EntityType → String → Type 0
Governed d c Kind.create t id = In id (declared_ids d t) × (¬ In id (stored_ids c t))
Governed d c Kind.adopt t id = In id (declared_ids d t) × Stored c t id "manual"
Governed d c Kind.update t id = In id (declared_ids d t) × Stored c t id "iac"
Governed d c Kind.delete t id = (¬ In id (declared_ids d t)) × Stored c t id "iac" × Free c t id
Governed d c Kind.conflict t id = Blocked d c t id

abbrev IsGoverned : Document → Current → PlanItem → Type 0
IsGoverned d c x = Governed d c x.kind x.entity_type x.identity

permission-Governed :
    (d : Document) (c : Current) (x : PlanItem)
    → PermissionChange d.permissions c.permissions x
    → IsGoverned d c x
permission-Governed d c x (PermissionChange.created dp known gone e) =
    subst (IsGoverned d c) (sym e) (
      In-last_by Permissions.declared_as dp.code d.permissions known,
      absent-of_last Permissions.stored_as dp.code c.permissions gone,
    )
permission-Governed d c x (PermissionChange.adopted_manual cp dp there known source e) =
    subst (IsGoverned d c) (sym e) (
      In-last_by Permissions.declared_as cp.code d.permissions known,
      (cp, (last_by-In Permissions.stored_as cp.code c.permissions there).0, refl, source),
    )
permission-Governed d c x (PermissionChange.updated cp dp there known source differ e) =
    subst (IsGoverned d c) (sym e) (
      In-last_by Permissions.declared_as cp.code d.permissions known,
      (cp, (last_by-In Permissions.stored_as cp.code c.permissions there).0, refl, source),
    )
permission-Governed d c x (PermissionChange.deleted cp there gone source e) =
    subst (IsGoverned d c) (sym e) (
      absent-of_last Permissions.declared_as cp.code d.permissions gone,
      (cp, (last_by-In Permissions.stored_as cp.code c.permissions there).0, refl, source),
      tt,
    )

role-Governed :
    (d : Document) (c : Current) (x : PlanItem) → RoleChange d.roles c.roles x → IsGoverned d c x
role-Governed d c x (RoleChange.created dr known gone e) = subst (IsGoverned d c) (sym e) (
  In-last_by Roles.declared_as dr.key d.roles known,
  absent-of_last Roles.stored_as dr.key c.roles gone,
)
role-Governed d c x (RoleChange.adopted_manual cr dr there known source e) =
    subst (IsGoverned d c) (sym e) (
      In-last_by Roles.declared_as cr.key d.roles known,
      (cr, (last_by-In Roles.stored_as cr.key c.roles there).0, refl, source),
    )
role-Governed d c x (RoleChange.updated cr dr there known source differ e) =
    subst (IsGoverned d c) (sym e) (
      In-last_by Roles.declared_as cr.key d.roles known,
      (cr, (last_by-In Roles.stored_as cr.key c.roles there).0, refl, source),
    )
role-Governed d c x (RoleChange.deleted cr there gone source free e) =
    subst (IsGoverned d c) (sym e) (
      absent-of_last Roles.declared_as cr.key d.roles gone,
      (cr, (last_by-In Roles.stored_as cr.key c.roles there).0, refl, source),
      (cr, (last_by-In Roles.stored_as cr.key c.roles there).0, refl, free),
    )
role-Governed d c x (RoleChange.still_bound cr there gone source bound e) =
    subst (IsGoverned d c) (sym e)
      (cr, (last_by-In Roles.stored_as cr.key c.roles there).0, refl, bound)

-- The only row of an identity stands in the list.
only_row :
    {V : Type 0} (key : V → String) (id : String) (xs : List V) {y : V}
    → rows_by key id xs ≡ y ∷ []
    → In y xs × (key y ≡ id)
only_row key id xs {y} e = rows_by-In key id xs (subst (λ rows. In y rows) (sym e) (inl refl))

policy-Governed :
    (normalise : String → Option String) (d : Document) (c : Current) (x : PlanItem) (id : String)
    → PolicyChange normalise id
        (rows_by declared_id id d.data_policies)
        (rows_by current_id id c.data_policies)
        x
    → IsGoverned d c x
policy-Governed n d c x id change = by_change change
  where
    declared :
        {dp : DataPolicy}
        → rows_by declared_id id d.data_policies ≡ dp ∷ []
        → In id (map declared_id d.data_policies)
    declared e = In-rows_by declared_id id d.data_policies (rw e (omega arith))

    stored :
        (cdp : CurrentDataPolicy) (source : String)
        → rows_by current_id id c.data_policies ≡ cdp ∷ []
        → cdp.source ≡ source
        → Stored c EntityType.data_policy id source
    stored cdp source e from =
        let (there, named) = only_row current_id id c.data_policies e in (cdp, there, named, from)

    by_change :
        PolicyChange n id
          (rows_by declared_id id d.data_policies)
          (rows_by current_id id c.data_policies)
          x
        → IsGoverned d c x
    by_change (PolicyChange.created dp known gone e) =
        subst (IsGoverned d c) (sym e)
          (declared known, absent-of_rows current_id id c.data_policies gone)
    by_change (PolicyChange.adopted_manual cdp dp there known source e) =
        subst (IsGoverned d c) (sym e) (declared known, stored cdp "manual" there source)
    by_change (PolicyChange.updated cdp dp there known source differ e) =
        subst (IsGoverned d c) (sym e) (declared known, stored cdp "iac" there source)
    by_change (PolicyChange.deleted cdp there gone source e) =
        subst (IsGoverned d c) (sym e)
          (absent-of_rows declared_id id d.data_policies gone, stored cdp "iac" there source, tt)
    by_change (PolicyChange.ambiguous_document many e) = subst (IsGoverned d c) (sym e) (inl many)
    by_change (PolicyChange.ambiguous_state few many why e) =
        subst (IsGoverned d c) (sym e) (inr many)

-- A plan creates only what is declared and not stored; it takes over and changes only what is
-- declared, the one where the stored source is "manual" and the other where it is "iac"; it
-- deletes only what is stored with the source "iac", not declared and, a role, without bindings;
-- and it reports a conflict only for a role that is bound or for an identity of data policies that
-- has several rows in the document or in the state.
pub diff-Governed :
    (normalise : String → Option String) (d : Document) (c : Current) (x : PlanItem)
    → In x (diff normalise d c)
    → Governed d c x.kind x.entity_type x.identity
diff-Governed n d c x i = elim ((In-diff n d c x).0 i) [
  | inl p ↦ permission-Governed d c x p
  | inr r ↦ elim r [ inl p ↦ role-Governed d c x p | inr (id, p) ↦ policy-Governed n d c x id p ]
]
