-- ===== src/Dataperm/Filter/Tests.antt =====
-- What an intern sees of the documents.
use sydom.Base.{◌≡◌, refl, [], ◌∷◌, ok, string_eq}
use sydom.Base.Dict.{lookup}
use sydom.Dataperm.Condition.{op_and, op_not, nil, Condition, node, end, child}
use sydom.Dataperm.Table.{find}
use sydom.Dataperm.Filter.{tree, merge, subject_matches, select_and_merge, resolve_plan}
use sydom.Dataperm.Filter.Merge.{Decides, select_and_merge-Decides}
use sydom.Dataperm.Filter.ValidTree.{ValidPlan, select_and_merge-ValidPlan}
use sydom.Dataperm.Filter.Resolve.{resolve_first, resolve_plan-merge}
use sydom.Dataperm.Example.{own, secret, docs, docs-IsWellFormed, intern_roles, alice}

abbrev own_not_secret : Condition
own_not_secret = node op_and "" nil (child own (child (node op_not "" nil (child secret end)) end))

merged : select_and_merge intern_roles docs "alice" "app" "doc" ≡ ok (tree own_not_secret)
unfolding select_and_merge string_eq lookup subject_matches
merged = refl

select_and_merge-Decides_example :
    Decides intern_roles "alice" "app" (find "doc" docs) (tree own_not_secret)
select_and_merge-Decides_example =
    select_and_merge-Decides intern_roles docs "alice" "app" "doc" (tree own_not_secret) merged

select_and_merge-ValidPlan_example : ValidPlan (tree own_not_secret)
select_and_merge-ValidPlan_example =
    select_and_merge-ValidPlan intern_roles docs "alice" "app" "doc" (tree own_not_secret)
      docs-IsWellFormed merged

resolve_plan-merge_example :
    resolve_plan alice (merge (own ∷ []) (secret ∷ []))
    ≡ resolve_first alice (own ∷ []) (secret ∷ [])
resolve_plan-merge_example = resolve_plan-merge alice own [] (secret ∷ [])
