-- ===== src/Controlplane/Iac/Tests.antt =====
-- The plan of the example, and its check.
use sydom.Base.{◌≡◌, refl, sym, subst, string_eq, sort_texts, ◌↔◌, inl, inr, false, [], ◌∷◌, In, ok}
use sydom.Controlplane.Iac.{PlanItem, Kind, EntityType}
use sydom.Controlplane.Iac.Example.{document, state, canonical, any_json}
use sydom.Controlplane.Iac.Plan.{
  item, diff, diff_permissions, gather, new_permission, diff_roles, current_role, new_role,
  diff_data_policies, keys, key_set,
}
use sydom.Base.Text.{trim, contains_rune}
use sydom.Base.Dict.{lookup, insert}
use sydom.Base.Keyed.{index}
use sydom.Controlplane.Iac.Plan.Justified.{Change, In-diff}
use sydom.Controlplane.Iac.Plan.Governed.{Governed, diff-Governed}
use sydom.Controlplane.Iac.Validate.{validate}
use sydom.Controlplane.Iac.Validate.Parts.{IsWellFormed}
use sydom.Controlplane.Iac.Validate.WellFormed.{validate-IsWellFormed}

abbrev dropping : PlanItem
dropping = item Kind.delete EntityType.role "old" "删除"

plans :
    diff canonical document (state false)
    ≡ item Kind.create EntityType.permission "doc.read" "新建"
      ∷ dropping
      ∷ item Kind.create EntityType.role "reader" "新建: Reader"
      ∷ []
unfolding diff diff_permissions gather sort_texts new_permission lookup index diff_roles
    current_role insert string_eq new_role diff_data_policies keys key_set
plans = refl

In-diff_example :
    In dropping (diff canonical document (state false))
    ↔ Change canonical document (state false) dropping
In-diff_example = In-diff canonical document (state false) dropping

dropped : In dropping (diff canonical document (state false))
dropped = subst (In dropping) (sym plans) (inr (inl refl))

diff-Governed_example : Governed document (state false) Kind.delete EntityType.role "old"
diff-Governed_example = diff-Governed canonical document (state false) dropping dropped

passes : validate any_json document ≡ ok tt
unfolding validate string_eq trim contains_rune
passes = refl

validate-IsWellFormed_example :
    (validate any_json document ≡ ok tt) ↔ IsWellFormed any_json document
validate-IsWellFormed_example = validate-IsWellFormed any_json document
