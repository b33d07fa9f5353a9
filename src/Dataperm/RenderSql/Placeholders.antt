-- ===== src/Dataperm/RenderSql/Placeholders.antt =====
-- Every placeholder has its argument, and no value comes into the text.
use sydom.Base.{
  ℕ, String, ◌<>◌, ◌≡◌, refl, subst, sym, true, ◌++◌, Result, ok, err, ◌>>=◌, nat_eq, arith, length,
  length-append,
}
use sydom.Base.Text.{count, count-append, all_words}
use sydom.Errors.{Error}
use sydom.Dataperm.Condition.{
  Op, op_and, op_or, op_not, op_in, op_not_in, op_between, op_is_null, op_is_not_null, Value, arr,
  Values, done, item, Condition, node, Children, is_field_name,
}
use sydom.Dataperm.RenderSql.{
  SqlResult, elems, placeholders, sql_comparator, render_leaf, render_sql, render_children, wrap,
}
use sydom.Dataperm.RenderSql.Renderable.{
  Renderable, both, either, neither, leaf, AllRenderable, nothing, also, Shaped,
}

-- How many placeholders the text has.
abbrev pub marks : String → ℕ
marks = count b'?'

marks-all_words : (s : String) → all_words s ≡ true → marks s ≡ 0
marks-all_words String.[] h = refl
marks-all_words (String.◌∷◌ c s) h = ground (arith, marks-all_words s)

marks-is_field_name : (s : String) → is_field_name s ≡ true → marks s ≡ 0
unfolding is_field_name
marks-is_field_name String.[] h = cc
marks-is_field_name (String.◌∷◌ c s) h = ground (arith, marks-all_words s)

marks-placeholders : (vs : Values) → marks (placeholders vs) ≡ length (elems vs)
unfolding placeholders
marks-placeholders done = refl
marks-placeholders (item v done) = refl
marks-placeholders (item v (item w vs)) = ground (
  arith,
  count-append b'?' "?" (", " <> placeholders (item w vs)),
  count-append b'?' ", " (placeholders (item w vs)),
  marks-placeholders (item w vs),
)

marks-sql_comparator : (op : Op) → marks (sql_comparator op) ≡ 0
unfolding sql_comparator
marks-sql_comparator op_and = refl
marks-sql_comparator _ = refl

-- A rendering with an argument for each placeholder.
abbrev pub Filled : Result Error SqlResult → Type 0
Filled (ok r) = marks r.sql ≡ length r.args
Filled (err e) = ⊥

render_leaf-Filled :
    (op : Op) (f : String) (v : Value)
    → is_field_name f ≡ true
    → Shaped op v
    → Filled (render_leaf op f v)
unfolding render_leaf
render_leaf-Filled op_and f v w s = absurd s
render_leaf-Filled op_or f v w s = absurd s
render_leaf-Filled op_not f v w s = absurd s
render_leaf-Filled op_is_null f v w s =
    omega (arith, count-append b'?' f " IS NULL", marks-is_field_name f w)
render_leaf-Filled op_is_not_null f v w s =
    omega (arith, count-append b'?' f " IS NOT NULL", marks-is_field_name f w)
render_leaf-Filled op_in f (arr vs) w s = omega (
  arith,
  count-append b'?' f (" IN (" <> (placeholders vs <> ")")),
  count-append b'?' " IN (" (placeholders vs <> ")"),
  count-append b'?' (placeholders vs) ")",
  marks-placeholders vs,
  marks-is_field_name f w,
)
render_leaf-Filled op_not_in f (arr vs) w s = omega (
  arith,
  count-append b'?' f (" NOT IN (" <> (placeholders vs <> ")")),
  count-append b'?' " NOT IN (" (placeholders vs <> ")"),
  count-append b'?' (placeholders vs) ")",
  marks-placeholders vs,
  marks-is_field_name f w,
)
render_leaf-Filled op_between f (arr (item lo (item hi done))) w s =
    omega (arith, count-append b'?' f " BETWEEN ? AND ?", marks-is_field_name f w)
render_leaf-Filled op_in f _ w s = absurd s
render_leaf-Filled op_not_in f _ w s = absurd s
render_leaf-Filled op_between f _ w s = absurd s
render_leaf-Filled op f v w s =
    omega (arith, count-append b'?' f (" " <> (sql_comparator op <> " ?")), marks-is_field_name f w)

-- A leaf is rendered as one.
pub render_sql-leaf :
    (op : Op) (f : String) (v : Value) (cs : Children)
    → Shaped op v
    → render_sql (node op f v cs) ≡ render_leaf op f v
unfolding render_sql
render_sql-leaf op_and f v cs s = absurd s
render_sql-leaf op_or f v cs s = absurd s
render_sql-leaf op_not f v cs s = absurd s
render_sql-leaf _ f v cs s = refl

Filled-wrap :
    (before : String) (m : Result Error SqlResult)
    → marks before ≡ 0
    → Filled m
    → Filled (m >>= λ r. ok (wrap before r))
Filled-wrap before (ok r) b h =
    omega (arith, count-append b'?' before (r.sql <> ")"), count-append b'?' r.sql ")")
Filled-wrap before (err e) b h = h

abbrev join : String → SqlResult → SqlResult → SqlResult
join before r rest = record { sql = before <> (r.sql <> rest.sql); args = r.args ++ rest.args }

Filled-join :
    (before : String) (m k : Result Error SqlResult)
    → marks before ≡ 0
    → Filled m
    → Filled k
    → Filled (m >>= λ r. k >>= λ rest. ok (join before r rest))
Filled-join before (ok r) (ok rest) b h h' = omega (
  arith,
  count-append b'?' before (r.sql <> rest.sql),
  count-append b'?' r.sql rest.sql,
  length-append r.args rest.args,
)
Filled-join before (ok r) (err e) b h h' = h'
Filled-join before (err e) k b h h' = h

mutual
  unfolding render_sql

  pub render_sql-Filled : {c : Condition} → Renderable c → Filled (render_sql c)
  render_sql-Filled (both {cs} h) =
      Filled-wrap "(" (render_children " AND " "" cs) refl
        (render_children-Filled " AND " "" refl refl h)
  render_sql-Filled (either {cs} h) =
      Filled-wrap "(" (render_children " OR " "" cs) refl
        (render_children-Filled " OR " "" refl refl h)
  render_sql-Filled (neither {c} h) = Filled-wrap "NOT (" (render_sql c) refl (render_sql-Filled h)
  render_sql-Filled (leaf {op} {f} {v} {cs} w s) =
      subst Filled (sym (render_sql-leaf op f v cs s)) (render_leaf-Filled op f v w s)

  render_children-Filled :
      (sep before : String) {cs : Children}
      → marks sep ≡ 0
      → marks before ≡ 0
      → AllRenderable cs
      → Filled (render_children sep before cs)
  render_children-Filled sep before ms mb nothing = refl
  render_children-Filled sep before ms mb (also {c} {cs} h hs) =
      Filled-join before (render_sql c) (render_children sep sep cs) mb (render_sql-Filled h)
        (render_children-Filled sep sep ms ms hs)
