-- ===== src/Dataperm/RenderSql/Safety.antt =====
-- `FilterSQL` on a table whose policies were parsed: no panic, an argument for each placeholder,
-- and a text that no attribute of the user changes.
use sydom.Base.{
  String, ◌≡◌, refl, subst, sym, ap, ◌∙◌, inl, inr, Option, none, some, List, [], ◌∷◌, ◌++◌, Result,
  ok, err, ◌==◌, string_eq, All, length, Bool-cases, Option-cases, >>=-eq-ok, ok-injective,
}
use sydom.Base.Dict.{Dict, lookup}
use sydom.Errors.{Error, NoPanic, >>=-NoPanic, Ensures, >>=-Ensures}
use sydom.Dataperm.Condition.{
  Op, Value, str, arr, Values, done, item, Condition, node, Children, end, child,
}
use sydom.Dataperm.Table.{Stored, Table}
use sydom.Dataperm.Table.Invariant.{IsSound, IsWellFormed}
use sydom.Dataperm.Filter.{
  Plan, no_filter, deny_all, tree, subject_matches, collect, select_and_merge, attribute,
  resolve_named, user_var_name, resolve_value, resolve_values, resolve_leaf, resolve_vars,
  resolve_children, resolve_plan, build_plan,
}
use sydom.Dataperm.Filter.ValidTree.{ValidPlan, select_and_merge-ValidPlan}
use sydom.Dataperm.RenderSql.{SqlResult, render_sql, render_plan, filter_sql}
use sydom.Dataperm.RenderSql.Renderable.{
  Renderable, both, either, neither, leaf, AllRenderable, nothing, also, Shaped, Shaped-not_logical,
  Valid-Renderable, resolve_vars-Renderable,
}
use sydom.Dataperm.RenderSql.Placeholders.{marks, Filled, render_sql-Filled}

collect-NoPanic :
    (user : String) (roles : List String) (ss : List Stored) (allow deny : List Condition)
    → All IsSound ss
    → NoPanic (collect user roles ss allow deny)
unfolding collect
collect-NoPanic user roles [] allow deny h = tt
collect-NoPanic user roles (s ∷ ss) allow deny (sound, h) =
    elim (Bool-cases (subject_matches s user roles)) [
      | inl applies ↦ elim (Option-cases s.parse_err) [
        | inl fine ↦ elim (Bool-cases (s.effect == "deny")) [
          | inl denies ↦
              rw (applies, fine, denies)
                (collect-NoPanic user roles ss allow (deny ++ s.cond ∷ []) h)
          | inr allows ↦
              rw (applies, fine, allows)
                (collect-NoPanic user roles ss (allow ++ s.cond ∷ []) deny h)
        ]
        | inr (e, poisoned) ↦ rw (applies, poisoned) (λ p. sound.no_panic (poisoned ∙ ap some p))
      ]
      | inr other ↦ rw other (collect-NoPanic user roles ss allow deny h)
    ]

select_and_merge-NoPanic :
    (roles_of : String → String → Result Error (List String)) (t : Table)
    (user dom resource : String)
    → IsWellFormed t
    → NoPanic (roles_of user dom)
    → NoPanic (select_and_merge roles_of t user dom resource)
unfolding select_and_merge
select_and_merge-NoPanic roles_of t user dom resource w h =
    elim (Option-cases (lookup resource t)) [
      | inl missing ↦ rw (missing, select_and_merge) tt
      | inr (b, found) ↦
          rw (found, select_and_merge)
            (>>=-NoPanic (roles_of user dom) _ h λ roles _.
              >>=-NoPanic (collect user roles b [] []) _
                (collect-NoPanic user roles b [] [] (w.sound resource b found)) λ pair _. tt)
    ]

module _ (attrs : Dict String Value) where
  resolve_named-NoPanic : (s : String) (o : Option String) → NoPanic (resolve_named attrs s o)
  resolve_named-NoPanic s none = tt
  resolve_named-NoPanic s (some name) = attribute-NoPanic (lookup name attrs)
    where
      attribute-NoPanic : (o : Option Value) → NoPanic (attribute name o)
      attribute-NoPanic none = λ e. cc
      attribute-NoPanic (some v) = tt

  mutual
    unfolding resolve_value

    resolve_value-NoPanic : (v : Value) → NoPanic (resolve_value attrs v)
    resolve_value-NoPanic (str s) = resolve_named-NoPanic s (user_var_name s)
    resolve_value-NoPanic (arr vs) =
        >>=-NoPanic (resolve_values attrs vs) _ (resolve_values-NoPanic vs) (λ ws _. tt)
    resolve_value-NoPanic _ = tt

    resolve_values-NoPanic : (vs : Values) → NoPanic (resolve_values attrs vs)
    resolve_values-NoPanic done = tt
    resolve_values-NoPanic (item v vs) =
        >>=-NoPanic (resolve_value attrs v) _ (resolve_value-NoPanic v)
          λ w _. >>=-NoPanic (resolve_values attrs vs) _ (resolve_values-NoPanic vs) (λ ws _. tt)

  pub resolve_vars-leaf :
      (op : Op) (f : String) (v : Value) (cs : Children)
      → Shaped op v
      → resolve_vars attrs (node op f v cs) ≡ resolve_leaf attrs op f v
  unfolding resolve_vars
  resolve_vars-leaf op f v cs s = rw (Shaped-not_logical op v s, resolve_vars)

  resolve_leaf-NoPanic : (op : Op) (f : String) (v : Value) → NoPanic (resolve_leaf attrs op f v)
  unfolding resolve_leaf
  resolve_leaf-NoPanic op f v =
      >>=-NoPanic (resolve_value attrs v) _ (resolve_value-NoPanic v) (λ w _. tt)

  mutual
    unfolding resolve_vars

    resolve_vars-NoPanic : {c : Condition} → Renderable c → NoPanic (resolve_vars attrs c)
    resolve_vars-NoPanic (both {cs} h) =
        >>=-NoPanic (resolve_children attrs cs) _ (resolve_children-NoPanic h) (λ ds _. tt)
    resolve_vars-NoPanic (either {cs} h) =
        >>=-NoPanic (resolve_children attrs cs) _ (resolve_children-NoPanic h) (λ ds _. tt)
    resolve_vars-NoPanic (neither {c} h) =
        >>=-NoPanic (resolve_children attrs (child c end)) _
          (>>=-NoPanic (resolve_vars attrs c) _ (resolve_vars-NoPanic h) (λ d _. tt)) (λ ds _. tt)
    resolve_vars-NoPanic (leaf {op} {f} {v} {cs} w s) =
        subst NoPanic (sym (resolve_vars-leaf op f v cs s)) (resolve_leaf-NoPanic op f v)

    resolve_children-NoPanic :
        {cs : Children} → AllRenderable cs → NoPanic (resolve_children attrs cs)
    resolve_children-NoPanic nothing = tt
    resolve_children-NoPanic (also {c} {cs} h hs) =
        >>=-NoPanic (resolve_vars attrs c) _ (resolve_vars-NoPanic h) λ d _.
          >>=-NoPanic (resolve_children attrs cs) _ (resolve_children-NoPanic hs) (λ ds _. tt)

-- An argument for each placeholder.
abbrev pub IsFilled : SqlResult → Type 0
IsFilled r = marks r.sql ≡ length r.args

Filled-Ensures : (m : Result Error SqlResult) → Filled m → Ensures IsFilled m
Filled-Ensures (ok r) h = h
Filled-Ensures (err e) h = absurd h

module _ (attrs : Dict String Value) where
  resolve_plan-NoPanic : (p : Plan) → ValidPlan p → NoPanic (resolve_plan attrs p)
  resolve_plan-NoPanic no_filter v = tt
  resolve_plan-NoPanic deny_all v = tt
  resolve_plan-NoPanic (tree c) v =
      >>=-NoPanic (resolve_vars attrs c) _ (resolve_vars-NoPanic attrs (Valid-Renderable v))
        (λ d _. tt)

  render_plan-IsFilled :
      (p q : Plan) → ValidPlan p → resolve_plan attrs p ≡ ok q → Ensures IsFilled (render_plan q)
  render_plan-IsFilled no_filter q v h =
      subst (λ p. Ensures IsFilled (render_plan p)) (ok-injective h) refl
  render_plan-IsFilled deny_all q v h =
      subst (λ p. Ensures IsFilled (render_plan p)) (ok-injective h) refl
  render_plan-IsFilled (tree c) q v h =
      let (d, resolved, same) = >>=-eq-ok (resolve_vars attrs c) (λ d. ok (tree d)) h in
      subst (λ p. Ensures IsFilled (render_plan p)) (ok-injective same)
        (Filled-Ensures (render_sql d)
          (render_sql-Filled (resolve_vars-Renderable attrs (Valid-Renderable v) resolved)))

-- On a well-formed table the SQL rendering does not panic, and a fragment that it gives has
-- exactly one argument for each placeholder in its text.
pub filter_sql-IsFilled :
    (roles_of : String → String → Result Error (List String)) (t : Table)
    (user dom resource : String) (attrs : Dict String Value)
    → IsWellFormed t
    → NoPanic (roles_of user dom)
    → Ensures IsFilled (filter_sql roles_of t user dom resource attrs)
unfolding filter_sql
filter_sql-IsFilled roles_of t user dom resource attrs w h =
    >>=-Ensures IsFilled (build_plan roles_of t user dom resource attrs) render_plan
      (>>=-NoPanic (select_and_merge roles_of t user dom resource) (resolve_plan attrs)
        (select_and_merge-NoPanic roles_of t user dom resource w h)
        (λ p e. resolve_plan-NoPanic attrs p (valid p e)))
      (λ q e.
        let (p, merged, resolved) =
          >>=-eq-ok (select_and_merge roles_of t user dom resource) (resolve_plan attrs) e in
        render_plan-IsFilled attrs p q (valid p merged) resolved)
  where
    valid : (p : Plan) → select_and_merge roles_of t user dom resource ≡ ok p → ValidPlan p
    valid p e = select_and_merge-ValidPlan roles_of t user dom resource p w e
