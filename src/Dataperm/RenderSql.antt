-- ===== src/Dataperm/RenderSql.antt =====
-- render_sql.go: the merged tree as a SQL fragment with placeholders. The builder and the list
-- of arguments are only appended to, so each function returns what it appends.
pub mod Renderable
pub mod Placeholders
pub mod Safety
pub mod SameText
mod Tests
use sydom.Base.{
  String, ◌<>◌, Bool, true, false, List, [], ◌∷◌, ◌++◌, Result, ok, err, ◌>>=◌, ◌==◌, string_eq,
  if◌then◌else◌,
}
use sydom.Base.Dict.{Dict}
use sydom.Errors.{Error, invalid_policy, panic}
use sydom.Dataperm.Condition.{
  Op, op_and, op_or, op_not, op_eq, op_ne, op_gt, op_ge, op_lt, op_le, op_in, op_not_in, op_like,
  op_not_like, op_is_null, op_is_not_null, op_between, Value, arr, Values, done, item, Condition,
  null, node, Children, end, child,
}
use sydom.Dataperm.Table.{Table}
use sydom.Dataperm.Filter.{Plan, no_filter, deny_all, tree, build_plan}

pub record SqlResult : Type 0 where
  pub sql : String
  pub args : List Value

abbrev pub elems : Values → List Value
elems done = []
elems (item v vs) = v ∷ elems vs

unfoldable pub sql_comparator : Op → String
sql_comparator op_eq = "="
sql_comparator op_ne = "<>"
sql_comparator op_gt = ">"
sql_comparator op_ge = ">="
sql_comparator op_lt = "<"
sql_comparator op_le = "<="
sql_comparator op_like = "LIKE"
sql_comparator op_not_like = "NOT LIKE"
sql_comparator _ = "="

-- `strings.Join` of as many "?" as there are values.
unfoldable pub placeholders : Values → String
placeholders done = ""
placeholders (item v done) = "?"
placeholders (item v (item w vs)) = "?" <> (", " <> placeholders (item w vs))

abbrev pub fragment : String → List Value → Result Error SqlResult
fragment text args = ok (record { sql = text; args = args })

abbrev in_list : String → String → Value → Result Error SqlResult
in_list field kw (arr vs) = fragment (field <> (kw <> (placeholders vs <> ")"))) (elems vs)
in_list field kw _ = err invalid_policy

abbrev between : String → Value → Result Error SqlResult
between field (arr (item lo (item hi done))) = fragment (field <> " BETWEEN ? AND ?") (lo ∷ hi ∷ [])
between field _ = err invalid_policy

unfoldable pub render_leaf : Op → String → Value → Result Error SqlResult
unfolding sql_comparator placeholders
render_leaf op_is_null field value = fragment (field <> " IS NULL") []
render_leaf op_is_not_null field value = fragment (field <> " IS NOT NULL") []
render_leaf op_in field value = in_list field " IN (" value
render_leaf op_not_in field value = in_list field " NOT IN (" value
render_leaf op_between field value = between field value
render_leaf op field value = fragment (field <> (" " <> (sql_comparator op <> " ?"))) (value ∷ [])

abbrev pub wrap : String → SqlResult → SqlResult
wrap before r = record { sql = before <> (r.sql <> ")"); args = r.args }

unfoldable mutual
  unfolding render_leaf

  pub render_sql : Condition → Result Error SqlResult
  render_sql null = err panic
  render_sql (node op_and field value cs) = do r ← render_children " AND " "" cs; ok (wrap "(" r)
  render_sql (node op_or field value cs) = do r ← render_children " OR " "" cs; ok (wrap "(" r)
  render_sql (node op_not field value end) = err panic
  render_sql (node op_not field value (child c cs)) = do r ← render_sql c; ok (wrap "NOT (" r)
  render_sql (node op field value cs) = render_leaf op field value

  -- The loop over the children; `before` is what is written before the next one.
  pub render_children : String → String → Children → Result Error SqlResult
  render_children sep before end = fragment "" []
  render_children sep before (child c cs) = do
    r ← render_sql c
    rest ← render_children sep sep cs
    fragment (before <> (r.sql <> rest.sql)) (r.args ++ rest.args)

abbrev pub render_plan : Plan → Result Error SqlResult
render_plan no_filter = fragment "" []
render_plan deny_all = fragment "1=0" []
render_plan (tree c) = render_sql c

module _ (roles_of : String → String → Result Error (List String)) (t : Table) where
  unfoldable pub filter_sql : String → String → String → Dict String Value → Result Error SqlResult
  unfolding build_plan render_sql
  filter_sql user dom resource attrs = build_plan roles_of t user dom resource attrs >>= render_plan
