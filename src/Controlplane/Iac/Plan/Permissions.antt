-- ===== src/Controlplane/Iac/Plan/Permissions.antt =====
-- The part of a plan about permissions.
use sydom.Base.{
  String, ◌≡◌, refl, subst, sym, ap, ◌∙◌, ◌↔◌, ◌⊎◌, inl, inr, false, Option, none, some, List, [],
  map, ◌==◌, ==_eq, string_eq, In, Bool-cases,
}
use sydom.Base.Keyed.{index, last_by, lookup-index, last_by-In, last_by-of_In, In-last_by}
use sydom.Base.Dict.{lookup}
use sydom.Controlplane.Iac.{Permission, CurrentPermission, PlanItem, Kind, EntityType}
use sydom.Controlplane.Iac.Compare.{perm_fields_equal, perm_update_detail}
use sydom.Controlplane.Iac.Plan.{
  item, adopted, iac_permission, manual_permission, found_permission, current_permission,
  absent_permission, new_permission, diff_permissions,
}
use sydom.Controlplane.Iac.Plan.Gathered.{Makes, In-two_loops, In-one}

abbrev pub declared_as : Permission → String
declared_as p = p.code

abbrev pub stored_as : CurrentPermission → String
stored_as p = p.code

-- The items that a plan may have for the permissions, and when: of several entries with one code
-- the last counts.
pub data PermissionChange (ds : List Permission) (cs : List CurrentPermission) (x : PlanItem)
    : Type 0 where
  created :
      (dp : Permission)
      → last_by declared_as dp.code ds ≡ some dp
      → last_by stored_as dp.code cs ≡ none
      → x ≡ item Kind.create EntityType.permission dp.code "新建"
      → PermissionChange ds cs x
  adopted_manual :
      (cp : CurrentPermission) (dp : Permission)
      → last_by stored_as cp.code cs ≡ some cp
      → last_by declared_as cp.code ds ≡ some dp
      → cp.source ≡ "manual"
      → x ≡ item Kind.adopt EntityType.permission cp.code adopted
      → PermissionChange ds cs x
  updated :
      (cp : CurrentPermission) (dp : Permission)
      → last_by stored_as cp.code cs ≡ some cp
      → last_by declared_as cp.code ds ≡ some dp
      → cp.source ≡ "iac"
      → perm_fields_equal cp dp ≡ false
      → x ≡ item Kind.update EntityType.permission cp.code (perm_update_detail cp dp)
      → PermissionChange ds cs x
  deleted :
      (cp : CurrentPermission)
      → last_by stored_as cp.code cs ≡ some cp
      → last_by declared_as cp.code ds ≡ none
      → cp.source ≡ "iac"
      → x ≡ item Kind.delete EntityType.permission cp.code "删除"
      → PermissionChange ds cs x

module _ (ds : List Permission) (cs : List CurrentPermission) (x : PlanItem) where
  from_iac :
      (cp : CurrentPermission) (o : Option Permission)
      → last_by stored_as cp.code cs ≡ some cp
      → last_by declared_as cp.code ds ≡ o
      → cp.source ≡ "iac"
      → In x (iac_permission cp o)
      → PermissionChange ds cs x
  unfolding iac_permission
  from_iac cp none there gone source i = deleted cp there gone source (In-one i)
  from_iac cp (some dp) there known source i = elim (Bool-cases (perm_fields_equal cp dp)) [
    | inl same ↦ absurd (rw same at i)
    | inr differ ↦ updated cp dp there known source differ (In-one (rw differ at i))
  ]

  from_manual :
      (cp : CurrentPermission) (o : Option Permission)
      → last_by stored_as cp.code cs ≡ some cp
      → last_by declared_as cp.code ds ≡ o
      → cp.source ≡ "manual"
      → In x (manual_permission cp o)
      → PermissionChange ds cs x
  unfolding manual_permission
  from_manual cp none there gone source i = absurd i
  from_manual cp (some dp) there known source i = adopted_manual cp dp there known source (In-one i)

  from_found :
      (cp : CurrentPermission)
      → last_by stored_as cp.code cs ≡ some cp
      → In x (found_permission (index declared_as ds []) (some cp))
      → PermissionChange ds cs x
  unfolding found_permission
  from_found cp there i = elim (Bool-cases (cp.source == "iac")) [
    | inl iac ↦
        from_iac cp (lookup cp.code (index declared_as ds [])) there
          (sym (lookup-index declared_as cp.code ds)) (==_eq iac) (rw iac at i)
    | inr other ↦ elim (Bool-cases (cp.source == "manual")) [
      | inl manual ↦
          from_manual cp (lookup cp.code (index declared_as ds [])) there
            (sym (lookup-index declared_as cp.code ds)) (==_eq manual) (rw (other, manual) at i)
      | inr neither ↦ absurd (rw (other, neither) at i)
    ]
  ]

  from_current :
      (code : String)
      → In x (current_permission (index stored_as cs []) (index declared_as ds []) code)
      → PermissionChange ds cs x
  unfolding current_permission
  from_current code i = go (last_by stored_as code cs) refl (rw lookup-index at i)
    where
      go :
          (o : Option CurrentPermission)
          → last_by stored_as code cs ≡ o
          → In x (found_permission (index declared_as ds []) o)
          → PermissionChange ds cs x
      go none e i = absurd i
      go (some cp) e i =
          let (there, named) = last_by-In stored_as code cs e in
          from_found cp (subst (λ k. last_by stored_as k cs ≡ some cp) (sym named) e) i

  from_new :
      (code : String)
      → In code (map declared_as ds)
      → In x (new_permission (index stored_as cs []) (index declared_as ds []) code)
      → PermissionChange ds cs x
  unfolding new_permission absent_permission
  from_new code declared i =
      let (dp, e) = last_by-of_In declared_as code ds declared in
      let (there, named) = last_by-In declared_as code ds e in
      go dp e named (last_by stored_as code cs) refl (rw lookup-index at i)
    where
      go :
          (dp : Permission)
          → last_by declared_as code ds ≡ some dp
          → declared_as dp ≡ code
          → (o : Option CurrentPermission) → last_by stored_as code cs ≡ o
          → In x (absent_permission code o)
          → PermissionChange ds cs x
      go dp e named (some cp) gone i = absurd i
      go dp e named none gone i =
          created dp (subst (λ k. last_by declared_as k ds ≡ some dp) (sym named) e)
            (subst (λ k. last_by stored_as k cs ≡ none) (sym named) gone)
            (In-one i ∙ ap (λ k. item Kind.create EntityType.permission k "新建") (sym named))

  make :
      PermissionChange ds cs x
      → Makes
          (current_permission (index stored_as cs []) (index declared_as ds []))
          (map stored_as cs)
          x
        ⊎ Makes
            (new_permission (index stored_as cs []) (index declared_as ds []))
            (map declared_as ds)
            x
  unfolding current_permission new_permission absent_permission found_permission iac_permission
      manual_permission string_eq
  make (created dp known gone e) = inr (
    dp.code,
    In-last_by declared_as dp.code ds known,
    rw (lookup-index stored_as dp.code cs) (rw gone (inl e)),
  )
  make (adopted_manual cp dp there known source e) = inl (
    cp.code,
    In-last_by stored_as cp.code cs there,
    rw (lookup-index stored_as cp.code cs) (rw there (simp (lookup-index, known, source) (inl e))),
  )
  make (updated cp dp there known source differ e) = inl (
    cp.code,
    In-last_by stored_as cp.code cs there,
    rw (lookup-index stored_as cp.code cs)
        (rw there (simp (lookup-index, known, source, differ) (inl e))),
  )
  make (deleted cp there gone source e) = inl (
    cp.code,
    In-last_by stored_as cp.code cs there,
    rw (lookup-index stored_as cp.code cs) (rw there (simp (lookup-index, gone, source) (inl e))),
  )

pub In-diff_permissions :
    (ds : List Permission) (cs : List CurrentPermission) (x : PlanItem)
    → In x (diff_permissions ds cs) ↔ PermissionChange ds cs x
unfolding diff_permissions
In-diff_permissions ds cs x = (
  λ i. elim (loops.0 i) [
    | inl (k, there, made) ↦ from_current ds cs x k made
    | inr (k, there, made) ↦ from_new ds cs x k there made
  ],
  λ change. loops.1 (make ds cs x change),
)
  where
    loops : In x (diff_permissions ds cs) ↔ (
        Makes
          (current_permission (index stored_as cs []) (index declared_as ds []))
          (map stored_as cs)
          x
        ⊎ Makes
            (new_permission (index stored_as cs []) (index declared_as ds []))
            (map declared_as ds)
            x)
    loops =
        In-two_loops (current_permission (index stored_as cs []) (index declared_as ds []))
          (new_permission (index stored_as cs []) (index declared_as ds [])) (map stored_as cs)
          (map declared_as ds) x
