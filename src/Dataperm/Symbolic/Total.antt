-- ===== src/Dataperm/Symbolic/Total.antt =====
-- The preview is total on what the table gives.
use sydom.Base.{String, ◌≡◌, refl, ap, ◌∙◌, true, List, Result, ok, ◌>>=◌, ◌<>◌}
use sydom.Errors.{Error}
use sydom.Dataperm.Condition.{
  Op, op_and, op_or, op_not, Value, Condition, node, Children, is_leaf_op,
}
use sydom.Dataperm.Condition.Valid.{
  Valid, both, either, neither, leaf, AllValid, nothing, also, Fits-leaf,
}
use sydom.Dataperm.Table.{Table}
use sydom.Dataperm.Table.Invariant.{IsWellFormed}
use sydom.Dataperm.Filter.{Plan, no_filter, deny_all, tree, select_and_merge}
use sydom.Dataperm.Filter.ValidTree.{ValidPlan, select_and_merge-ValidPlan}
use sydom.Dataperm.Symbolic.{
  SymbolicResult, match_all, match_none, match_conditional, render_symbolic_leaf, render_symbolic,
  render_each, symbolic_plan, filter_symbolic,
}

module _ (format : Value → String) where
  render_symbolic-leaf :
      (op : Op) (f : String) (v : Value) (cs : Children)
      → is_leaf_op op ≡ true
      → render_symbolic format (node op f v cs) ≡ ok (render_symbolic_leaf format op f v)
  unfolding render_symbolic is_leaf_op
  render_symbolic-leaf op_and f v cs h = cc
  render_symbolic-leaf op_or f v cs h = cc
  render_symbolic-leaf op_not f v cs h = cc
  render_symbolic-leaf _ f v cs h = refl

  mutual
    unfolding render_symbolic

    render_symbolic-Valid :
        {c : Condition} → Valid c → (s : String) × (render_symbolic format c ≡ ok s)
    render_symbolic-Valid (both e n h) =
        let (s, r) = render_each-AllValid " AND " "" h in
        (_, ap (λ m. m >>= λ r. ok ("(" <> (r <> ")"))) r)
    render_symbolic-Valid (either e n h) =
        let (s, r) = render_each-AllValid " OR " "" h in
        (_, ap (λ m. m >>= λ r. ok ("(" <> (r <> ")"))) r)
    render_symbolic-Valid (neither e n h) =
        let (s, r) = render_symbolic-Valid h in
        (_, ap (λ m. m >>= λ r. ok ("NOT (" <> (r <> ")"))) r)
    render_symbolic-Valid (leaf {op} {f} {v} {cs} n fits) =
        (_, render_symbolic-leaf op f v cs (Fits-leaf fits).0)

    render_each-AllValid :
        (sep before : String) {cs : Children}
        → AllValid cs
        → (s : String) × (render_each format sep before cs ≡ ok s)
    render_each-AllValid sep before nothing = ("", refl)
    render_each-AllValid sep before (also h hs) =
        let (s, r) = render_symbolic-Valid h in
        let (rest, k) = render_each-AllValid sep sep hs in (before <> (s <> rest), rw (r, k) refl)

  -- The kind of the preview is that of the plan.
  abbrev pub Shows : Plan → SymbolicResult → Type 0
  Shows no_filter r = r ≡ match_all
  Shows deny_all r = r ≡ match_none
  Shows (tree c) r = (s : String) × (render_symbolic format c ≡ ok s) × (r ≡ match_conditional s)

  symbolic_plan-Shows :
      (p : Plan) → ValidPlan p → (r : SymbolicResult) × (symbolic_plan format p ≡ ok r) × Shows p r
  symbolic_plan-Shows no_filter v = (match_all, refl, refl)
  symbolic_plan-Shows deny_all v = (match_none, refl, refl)
  symbolic_plan-Shows (tree c) v =
      let (s, r) = render_symbolic-Valid v in
      (match_conditional s, ap (λ m. m >>= λ s. ok (match_conditional s)) r, (s, r, refl))

  -- On a well-formed table the preview of every plan that the SQL is rendered from is given, of
  -- the plan's kind: it neither fails nor panics, whatever the attributes of the user are.
  pub filter_symbolic-Shows :
      (roles_of : String → String → Result Error (List String)) (t : Table)
      (user dom resource : String) (p : Plan)
      → IsWellFormed t
      → select_and_merge roles_of t user dom resource ≡ ok p
      → (r : SymbolicResult) × (filter_symbolic format roles_of t user dom resource ≡ ok r)
        × Shows p r
  unfolding filter_symbolic
  filter_symbolic-Shows roles_of t user dom resource p w h =
      let (r, shown, kind) =
        symbolic_plan-Shows p (select_and_merge-ValidPlan roles_of t user dom resource p w h) in
      (r, ap (λ m. m >>= symbolic_plan format) h ∙ shown, kind)
