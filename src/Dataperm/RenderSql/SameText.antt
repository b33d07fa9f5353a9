-- ===== src/Dataperm/RenderSql/SameText.antt =====
-- The text of a fragment does not depend on the attributes of the user.
use sydom.Base.{
  String, ◌<>◌, ◌≡◌, refl, subst, sym, ap, ap₂, ◌∙◌, List, Result, ok, err, ◌>>=◌, ◌++◌, >>=-eq-ok,
  ok-injective,
}
use sydom.Base.Dict.{Dict}
use sydom.Errors.{Error}
use sydom.Dataperm.Condition.{
  Op, op_and, op_or, op_not, op_in, op_not_in, op_between, Value, nil, arr, Values, done, item,
  Condition, node, Children, end, child,
}
use sydom.Dataperm.Table.{Table}
use sydom.Dataperm.Table.Invariant.{IsWellFormed}
use sydom.Dataperm.Filter.{
  Plan, no_filter, deny_all, tree, select_and_merge, resolve_value, resolve_values, resolve_leaf,
  resolve_vars, resolve_children, resolve_plan, build_plan,
}
use sydom.Dataperm.Filter.ValidTree.{ValidPlan, select_and_merge-ValidPlan}
use sydom.Dataperm.RenderSql.{
  SqlResult, placeholders, render_leaf, render_sql, render_children, render_plan, wrap, filter_sql,
}
use sydom.Dataperm.RenderSql.Renderable.{
  Renderable, both, either, neither, leaf, AllRenderable, nothing, also, Shaped,
  Shaped-resolve_value, Valid-Renderable,
}
use sydom.Dataperm.RenderSql.Placeholders.{render_sql-leaf}
use sydom.Dataperm.RenderSql.Safety.{resolve_vars-leaf}

-- Two renderings fail both, or give one text.
abbrev Same : Result Error SqlResult → Result Error SqlResult → Type 0
Same (ok r) (ok s) = r.sql ≡ s.sql
Same (ok r) (err e) = ⊥
Same (err e) (ok r) = ⊥
Same (err e) (err e') = Unit

Same-wrap :
    (before : String) (m k : Result Error SqlResult)
    → Same m k
    → Same (m >>= λ r. ok (wrap before r)) (k >>= λ r. ok (wrap before r))
Same-wrap before (ok r) (ok s) h = ap (λ t. before <> (t <> ")")) h
Same-wrap before (ok r) (err e) h = h
Same-wrap before (err e) (ok r) h = h
Same-wrap before (err e) (err e') h = h

abbrev join : String → SqlResult → SqlResult → SqlResult
join before r rest = record { sql = before <> (r.sql <> rest.sql); args = r.args ++ rest.args }

Same-join :
    (before : String) (m k m' k' : Result Error SqlResult)
    → Same m m'
    → Same k k'
    → Same
        (m >>= λ r. k >>= λ rest. ok (join before r rest))
        (m' >>= λ r. k' >>= λ rest. ok (join before r rest))
Same-join before (ok r) (ok s) (ok r') (ok s') h h' = ap₂ (λ t u. before <> (t <> u)) h h'
Same-join before (ok r) (err e) (ok r') (err e') h h' = h'
Same-join before (ok r) (ok s) (ok r') (err e) h h' = h'
Same-join before (ok r) (err e) (ok r') (ok s) h h' = h'
Same-join before (err e) k (err e') k' h h' = h
Same-join before (ok r) k (err e) k' h h' = absurd h
Same-join before (err e) k (ok r) k' h h' = absurd h

module _ (attrs : Dict String Value) where
  resolve_values-done : (ws : Values) → resolve_values attrs done ≡ ok ws → ws ≡ done
  unfolding resolve_value
  resolve_values-done ws h = sym (ok-injective h)

  resolve_values-item :
      (v : Value) (vs ws : Values)
      → resolve_values attrs (item v vs) ≡ ok ws
      → (a : Value) × (bs : Values) × (resolve_values attrs vs ≡ ok bs) × (ws ≡ item a bs)
  unfolding resolve_value
  resolve_values-item v vs ws h =
      let (a, first, more) = >>=-eq-ok (resolve_value attrs v) _ h in
      let (bs, second, e) = >>=-eq-ok (resolve_values attrs vs) _ more in
      (a, bs, second, sym (ok-injective e))

  placeholders-resolve_values :
      (vs ws : Values) → resolve_values attrs vs ≡ ok ws → placeholders ws ≡ placeholders vs
  unfolding placeholders
  placeholders-resolve_values done ws h = ap placeholders (resolve_values-done ws h)
  placeholders-resolve_values (item v done) ws h =
      let (a, bs, second, e) = resolve_values-item v done ws h in
      ap placeholders (e ∙ ap (item a) (resolve_values-done bs second))
  placeholders-resolve_values (item v (item w vs)) ws h =
      let (a, bs, second, e) = resolve_values-item v (item w vs) ws h in
      let (b, cs, third, e') = resolve_values-item w vs bs second in
      ap placeholders (e ∙ ap (item a) e')
      ∙ ap (λ t. "?" <> (", " <> t))
          (ap placeholders (sym e') ∙ placeholders-resolve_values (item w vs) bs second)

  render_leaf-resolved :
      (op : Op) (f : String) (v : Value) {x : Value}
      → Shaped op v
      → resolve_value attrs v ≡ ok x
      → Same (render_leaf op f x) (render_leaf op f v)
  unfolding render_leaf resolve_value
  render_leaf-resolved op_and f v s h = absurd s
  render_leaf-resolved op_or f v s h = absurd s
  render_leaf-resolved op_not f v s h = absurd s
  render_leaf-resolved op_in f (arr vs) s h =
      let (ws, each, e) = >>=-eq-ok (resolve_values attrs vs) _ h in
      subst (λ x. Same (render_leaf op_in f x) (render_leaf op_in f (arr vs))) (ok-injective e)
        (ap (λ t. f <> (" IN (" <> (t <> ")"))) (placeholders-resolve_values vs ws each))
  render_leaf-resolved op_not_in f (arr vs) s h =
      let (ws, each, e) = >>=-eq-ok (resolve_values attrs vs) _ h in
      subst (λ x. Same (render_leaf op_not_in f x) (render_leaf op_not_in f (arr vs)))
        (ok-injective e)
        (ap (λ t. f <> (" NOT IN (" <> (t <> ")"))) (placeholders-resolve_values vs ws each))
  render_leaf-resolved op_between f (arr (item lo (item hi done))) {x} s h =
      between-text x (Shaped-resolve_value attrs op_between (arr (item lo (item hi done))) s h)
    where
      between-text :
          (x : Value)
          → Shaped op_between x
          → Same
              (render_leaf op_between f x)
              (render_leaf op_between f (arr (item lo (item hi done))))
      between-text (arr (item a (item b done))) s = refl
      between-text _ s = absurd s
  render_leaf-resolved op_in f _ s h = absurd s
  render_leaf-resolved op_not_in f _ s h = absurd s
  render_leaf-resolved op_between f _ s h = absurd s
  render_leaf-resolved _ f v s h = refl

  resolved_leaf-Same :
      (op : Op) (f : String) (v : Value) (cs : Children) {d : Condition}
      → Shaped op v
      → resolve_leaf attrs op f v ≡ ok d
      → Same (render_sql d) (render_sql (node op f v cs))
  unfolding resolve_leaf
  resolved_leaf-Same op f v cs s e =
      let (x, resolved, same) = >>=-eq-ok (resolve_value attrs v) (λ x. ok (node op f x end)) e in
      subst (λ d. Same (render_sql d) (render_sql (node op f v cs))) (ok-injective same)
        (subst (λ m. Same m (render_sql (node op f v cs)))
          (sym (render_sql-leaf op f x end (Shaped-resolve_value attrs op v s resolved)))
          (subst (Same (render_leaf op f x)) (sym (render_sql-leaf op f v cs s))
            (render_leaf-resolved op f v s resolved)))

  mutual
    unfolding resolve_vars render_sql

    resolved-Same :
        {c d : Condition}
        → Renderable c
        → resolve_vars attrs c ≡ ok d
        → Same (render_sql d) (render_sql c)
    resolved-Same (both {f} {v} {cs} h) e =
        let (ds, each, same) =
          >>=-eq-ok (resolve_children attrs cs) (λ ds. ok (node op_and "" nil ds)) e in
        subst (λ d. Same (render_sql d) (render_sql (node op_and f v cs))) (ok-injective same)
          (Same-wrap "(" (render_children " AND " "" ds) (render_children " AND " "" cs)
            (resolved_children-Same " AND " "" h each))
    resolved-Same (either {f} {v} {cs} h) e =
        let (ds, each, same) =
          >>=-eq-ok (resolve_children attrs cs) (λ ds. ok (node op_or "" nil ds)) e in
        subst (λ d. Same (render_sql d) (render_sql (node op_or f v cs))) (ok-injective same)
          (Same-wrap "(" (render_children " OR " "" ds) (render_children " OR " "" cs)
            (resolved_children-Same " OR " "" h each))
    resolved-Same (neither {f} {v} {c} h) e =
        let (ds, each, same) =
          >>=-eq-ok (resolve_children attrs (child c end)) (λ ds. ok (node op_not "" nil ds)) e in
        let (d, below, more) = >>=-eq-ok (resolve_vars attrs c) (λ d. ok (child d end)) each in
        subst (λ d. Same (render_sql d) (render_sql (node op_not f v (child c end))))
          (ok-injective same)
          (subst
            (λ ds.
              Same (render_sql (node op_not "" nil ds))
                (render_sql (node op_not f v (child c end))))
            (ok-injective more)
            (Same-wrap "NOT (" (render_sql d) (render_sql c) (resolved-Same h below)))
    resolved-Same (leaf {op} {f} {v} {cs} w s) e =
        resolved_leaf-Same op f v cs s (sym (resolve_vars-leaf attrs op f v cs s) ∙ e)

    resolved_children-Same :
        (sep before : String) {cs ds : Children}
        → AllRenderable cs
        → resolve_children attrs cs ≡ ok ds
        → Same (render_children sep before ds) (render_children sep before cs)
    resolved_children-Same sep before nothing e =
        subst (λ ds. Same (render_children sep before ds) (render_children sep before end))
          (ok-injective e) refl
    resolved_children-Same sep before (also {c} {cs} h hs) e =
        let (d, now, more) = >>=-eq-ok (resolve_vars attrs c) _ e in
        let (ds, after, same) =
          >>=-eq-ok (resolve_children attrs cs) (λ ds. ok (child d ds)) more in
        subst (λ ds. Same (render_children sep before ds) (render_children sep before (child c cs)))
          (ok-injective same)
          (Same-join before (render_sql d) (render_children sep sep ds) (render_sql c)
            (render_children sep sep cs) (resolved-Same h now)
            (resolved_children-Same sep sep hs after))

  -- Resolving the variables of a plan changes nothing of its text.
  plan-Same :
      (p q : Plan)
      → ValidPlan p
      → resolve_plan attrs p ≡ ok q
      → Same (render_plan q) (render_plan p)
  plan-Same no_filter q v h =
      subst (λ q. Same (render_plan q) (render_plan no_filter)) (ok-injective h) refl
  plan-Same deny_all q v h =
      subst (λ q. Same (render_plan q) (render_plan deny_all)) (ok-injective h) refl
  plan-Same (tree c) q v h =
      let (d, resolved, same) = >>=-eq-ok (resolve_vars attrs c) (λ d. ok (tree d)) h in
      subst (λ q. Same (render_plan q) (render_sql c)) (ok-injective same)
        (resolved-Same (Valid-Renderable v) resolved)

Same-sql :
    (m k : Result Error SqlResult) {r : SqlResult}
    → Same m k
    → m ≡ ok r
    → (s : SqlResult) × (k ≡ ok s) × (r.sql ≡ s.sql)
Same-sql (ok r) (ok s) h e = (s, refl, ap (λ r. r.sql) (sym (ok-injective e)) ∙ h)
Same-sql (ok r) (err x) h e = absurd h
Same-sql (err x) k h e = cc

module _ (roles_of : String → String → Result Error (List String)) (t : Table) where
  filter_sql-plan :
      (user dom resource : String) (attrs : Dict String Value) (r : SqlResult)
      → IsWellFormed t
      → filter_sql roles_of t user dom resource attrs ≡ ok r
      → (p : Plan) × (s : SqlResult) × (select_and_merge roles_of t user dom resource ≡ ok p)
        × (render_plan p ≡ ok s)
        × (r.sql ≡ s.sql)
  unfolding filter_sql
  filter_sql-plan user dom resource attrs r w h =
      let (q, built, rendered) =
        >>=-eq-ok (build_plan roles_of t user dom resource attrs) render_plan h in
      let (p, merged, resolved) =
        >>=-eq-ok (select_and_merge roles_of t user dom resource) (resolve_plan attrs) built in
      let valid = select_and_merge-ValidPlan roles_of t user dom resource p w merged in
      let (s, plain, text) =
        Same-sql (render_plan q) (render_plan p) (plan-Same attrs p q valid resolved) rendered in
      (p, s, merged, plain, text)

  -- Whatever the attributes of the user are, the SQL text for the user and the resource is the
  -- same wherever a fragment is given: their values are passed as arguments alone.
  pub filter_sql-same_text :
      (user dom resource : String) (attrs attrs' : Dict String Value) (r r' : SqlResult)
      → IsWellFormed t
      → filter_sql roles_of t user dom resource attrs ≡ ok r
      → filter_sql roles_of t user dom resource attrs' ≡ ok r'
      → r.sql ≡ r'.sql
  filter_sql-same_text user dom resource attrs attrs' r r' w h h' =
      let (p, s, merged, plain, text) = filter_sql-plan user dom resource attrs r w h in
      let (p', s', merged', plain', text') = filter_sql-plan user dom resource attrs' r' w h' in
      let same_plan : p ≡ p' = ok-injective (sym merged ∙ merged') in
      let same : s ≡ s' = ok-injective (sym plain ∙ ap render_plan same_plan ∙ plain') in
      text ∙ ap (λ r. r.sql) same ∙ sym text'
