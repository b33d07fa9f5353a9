-- ===== src/Controlplane/Iac/Plan/Roles.antt =====
-- The part of a plan about roles.
use sydom.Base.{
  String, ◌<>◌, ◌≡◌, refl, subst, sym, ap, ◌∙◌, ◌↔◌, ◌⊎◌, inl, inr, true, false, Option, none, some,
  List, [], map, ◌==◌, ==_eq, string_eq, In, Bool-cases,
}
use sydom.Base.Keyed.{index, last_by, lookup-index, last_by-In, last_by-of_In, In-last_by}
use sydom.Base.Dict.{lookup}
use sydom.Controlplane.Iac.{Role, CurrentRole, PlanItem, Kind, EntityType}
use sydom.Controlplane.Iac.Compare.{role_fields_equal, role_update_detail}
use sydom.Controlplane.Iac.Plan.{
  item, adopted, iac_role, manual_role, found_role, current_role, absent_role, role_name, new_role,
  diff_roles,
}
use sydom.Controlplane.Iac.Plan.Gathered.{Makes, In-two_loops, In-one}

abbrev pub declared_as : Role → String
declared_as p = p.key

abbrev pub stored_as : CurrentRole → String
stored_as p = p.key

-- The items that a plan may have for the roles, and when: of several entries with one key
-- the last counts.
pub data RoleChange (ds : List Role) (cs : List CurrentRole) (x : PlanItem) : Type 0 where
  created :
      (dr : Role)
      → last_by declared_as dr.key ds ≡ some dr
      → last_by stored_as dr.key cs ≡ none
      → x ≡ item Kind.create EntityType.role dr.key ("新建: " <> dr.name)
      → RoleChange ds cs x
  adopted_manual :
      (cr : CurrentRole) (dr : Role)
      → last_by stored_as cr.key cs ≡ some cr
      → last_by declared_as cr.key ds ≡ some dr
      → cr.source ≡ "manual"
      → x ≡ item Kind.adopt EntityType.role cr.key adopted
      → RoleChange ds cs x
  updated :
      (cr : CurrentRole) (dr : Role)
      → last_by stored_as cr.key cs ≡ some cr
      → last_by declared_as cr.key ds ≡ some dr
      → cr.source ≡ "iac"
      → role_fields_equal cr dr ≡ false
      → x ≡ item Kind.update EntityType.role cr.key (role_update_detail cr dr)
      → RoleChange ds cs x
  deleted :
      (cr : CurrentRole)
      → last_by stored_as cr.key cs ≡ some cr
      → last_by declared_as cr.key ds ≡ none
      → cr.source ≡ "iac"
      → cr.has_user_bindings ≡ false
      → x ≡ item Kind.delete EntityType.role cr.key "删除"
      → RoleChange ds cs x
  still_bound :
      (cr : CurrentRole)
      → last_by stored_as cr.key cs ≡ some cr
      → last_by declared_as cr.key ds ≡ none
      → cr.source ≡ "iac"
      → cr.has_user_bindings ≡ true
      → x ≡ item Kind.conflict EntityType.role cr.key "仍有用户绑定，需先解绑"
      → RoleChange ds cs x

module _ (ds : List Role) (cs : List CurrentRole) (x : PlanItem) where
  from_iac :
      (cr : CurrentRole) (o : Option Role)
      → last_by stored_as cr.key cs ≡ some cr
      → last_by declared_as cr.key ds ≡ o
      → cr.source ≡ "iac"
      → In x (iac_role cr o)
      → RoleChange ds cs x
  unfolding iac_role
  from_iac cr none there gone source i = elim (Bool-cases cr.has_user_bindings) [
    | inl bound ↦ still_bound cr there gone source bound (In-one (rw bound at i))
    | inr free ↦ deleted cr there gone source free (In-one (rw free at i))
  ]
  from_iac cr (some dr) there known source i = elim (Bool-cases (role_fields_equal cr dr)) [
    | inl same ↦ absurd (rw same at i)
    | inr differ ↦ updated cr dr there known source differ (In-one (rw differ at i))
  ]

  from_manual :
      (cr : CurrentRole) (o : Option Role)
      → last_by stored_as cr.key cs ≡ some cr
      → last_by declared_as cr.key ds ≡ o
      → cr.source ≡ "manual"
      → In x (manual_role cr o)
      → RoleChange ds cs x
  unfolding manual_role
  from_manual cr none there gone source i = absurd i
  from_manual cr (some dr) there known source i = adopted_manual cr dr there known source (In-one i)

  from_found :
      (cr : CurrentRole)
      → last_by stored_as cr.key cs ≡ some cr
      → In x (found_role (index declared_as ds []) (some cr))
      → RoleChange ds cs x
  unfolding found_role
  from_found cr there i = elim (Bool-cases (cr.source == "iac")) [
    | inl iac ↦
        from_iac cr (lookup cr.key (index declared_as ds [])) there
          (sym (lookup-index declared_as cr.key ds)) (==_eq iac) (rw iac at i)
    | inr other ↦ elim (Bool-cases (cr.source == "manual")) [
      | inl manual ↦
          from_manual cr (lookup cr.key (index declared_as ds [])) there
            (sym (lookup-index declared_as cr.key ds)) (==_eq manual) (rw (other, manual) at i)
      | inr neither ↦ absurd (rw (other, neither) at i)
    ]
  ]

  from_current :
      (key : String)
      → In x (current_role (index stored_as cs []) (index declared_as ds []) key)
      → RoleChange ds cs x
  unfolding current_role
  from_current key i = go (last_by stored_as key cs) refl (rw lookup-index at i)
    where
      go :
          (o : Option CurrentRole)
          → last_by stored_as key cs ≡ o
          → In x (found_role (index declared_as ds []) o)
          → RoleChange ds cs x
      go none e i = absurd i
      go (some cr) e i =
          let (there, named) = last_by-In stored_as key cs e in
          from_found cr (subst (λ k. last_by stored_as k cs ≡ some cr) (sym named) e) i

  from_new :
      (key : String)
      → In key (map declared_as ds)
      → In x (new_role (index stored_as cs []) (index declared_as ds []) key)
      → RoleChange ds cs x
  unfolding new_role absent_role role_name
  from_new key declared i =
      let (dr, e) = last_by-of_In declared_as key ds declared in
      let (there, named) = last_by-In declared_as key ds e in
      go dr e named (last_by stored_as key cs) refl (rw lookup-index at i)
    where
      go :
          (dr : Role)
          → last_by declared_as key ds ≡ some dr
          → declared_as dr ≡ key
          → (o : Option CurrentRole) → last_by stored_as key cs ≡ o
          → In x (absent_role (index declared_as ds []) key o)
          → RoleChange ds cs x
      go dr e named (some cr) gone i = absurd i
      go dr e named none gone i =
          created dr (subst (λ k. last_by declared_as k ds ≡ some dr) (sym named) e)
            (subst (λ k. last_by stored_as k cs ≡ none) (sym named) gone)
            (In-one i
              ∙ (ap (λ o. item Kind.create EntityType.role key ("新建: " <> role_name o))
                    (lookup-index declared_as key ds ∙ e)
                  ∙ ap (λ k. item Kind.create EntityType.role k ("新建: " <> dr.name)) (sym named)))

  make :
      RoleChange ds cs x
      → Makes (current_role (index stored_as cs []) (index declared_as ds [])) (map stored_as cs) x
        ⊎ Makes (new_role (index stored_as cs []) (index declared_as ds [])) (map declared_as ds) x
  unfolding current_role new_role absent_role role_name found_role iac_role manual_role string_eq
  make (created dr known gone e) = inr (
    dr.key,
    In-last_by declared_as dr.key ds known,
    rw (lookup-index stored_as dr.key cs)
        (rw gone (rw (lookup-index declared_as dr.key ds) (rw known (inl e)))),
  )
  make (adopted_manual cr dr there known source e) = inl (
    cr.key,
    In-last_by stored_as cr.key cs there,
    rw (lookup-index stored_as cr.key cs) (rw there (simp (lookup-index, known, source) (inl e))),
  )
  make (updated cr dr there known source differ e) = inl (
    cr.key,
    In-last_by stored_as cr.key cs there,
    rw (lookup-index stored_as cr.key cs)
        (rw there (simp (lookup-index, known, source, differ) (inl e))),
  )
  make (deleted cr there gone source free e) = inl (
    cr.key,
    In-last_by stored_as cr.key cs there,
    rw (lookup-index stored_as cr.key cs)
        (rw there (simp (lookup-index, gone, source, free) (inl e))),
  )
  make (still_bound cr there gone source bound e) = inl (
    cr.key,
    In-last_by stored_as cr.key cs there,
    rw (lookup-index stored_as cr.key cs)
        (rw there (simp (lookup-index, gone, source, bound) (inl e))),
  )

pub In-diff_roles :
    (ds : List Role) (cs : List CurrentRole) (x : PlanItem)
    → In x (diff_roles ds cs) ↔ RoleChange ds cs x
unfolding diff_roles
In-diff_roles ds cs x = (
  λ i. elim (loops.0 i) [
    | inl (k, there, made) ↦ from_current ds cs x k made
    | inr (k, there, made) ↦ from_new ds cs x k there made
  ],
  λ change. loops.1 (make ds cs x change),
)
  where
    loops : In x (diff_roles ds cs) ↔ (
        Makes (current_role (index stored_as cs []) (index declared_as ds [])) (map stored_as cs) x
        ⊎ Makes (new_role (index stored_as cs []) (index declared_as ds [])) (map declared_as ds) x)
    loops =
        In-two_loops (current_role (index stored_as cs []) (index declared_as ds []))
          (new_role (index stored_as cs []) (index declared_as ds [])) (map stored_as cs)
          (map declared_as ds) x
