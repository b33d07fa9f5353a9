-- ===== src/Dataperm/Symbolic.antt =====
-- symbolic.go: the merged tree as a text for people, with its variables as they are written. The
-- builder is only appended to, so each function returns what it appends.
pub mod Total
mod Tests
use sydom.Base.{
  String, ◌<>◌, Bool, true, false, List, [], ◌∷◌, Result, ok, err, ◌>>=◌, if◌then◌else◌,
}
use sydom.Errors.{Error, panic}
use sydom.Dataperm.Condition.{
  Op, op_and, op_or, op_not, op_in, op_not_in, op_is_null, op_is_not_null, op_between, Value, str,
  arr, Values, done, item, Condition, null, node, Children, end, child,
}
use sydom.Dataperm.Table.{Table}
use sydom.Dataperm.Filter.{Plan, no_filter, deny_all, tree, has_prefix, select_and_merge}
use sydom.Dataperm.RenderSql.{sql_comparator}

pub data SymbolicResult : Type 0 where
  match_all match_none : SymbolicResult
  match_conditional : String → SymbolicResult

-- `format` is `fmt.Sprintf("%v", v)`.
module _ (format : Value → String) where
  unfoldable pub symbolic_value : Value → String
  unfolding has_prefix
  symbolic_value (str s) = if has_prefix s then s else "'" <> (s <> "'")
  symbolic_value v = format v

  abbrev join : Values → String
  join done = ""
  join (item v done) = symbolic_value v
  join (item v (item w vs)) = symbolic_value v <> (", " <> join (item w vs))

  unfoldable pub symbolic_list : Value → String
  unfolding symbolic_value
  symbolic_list (arr vs) = join vs
  symbolic_list _ = ""

  abbrev between : String → Value → String
  between field (arr (item lo (item hi done))) =
      field <> (" BETWEEN " <> (symbolic_value lo <> (" AND " <> symbolic_value hi)))
  between field _ = field <> " BETWEEN <invalid>"

  unfoldable pub render_symbolic_leaf : Op → String → Value → String
  unfolding symbolic_value symbolic_list sql_comparator
  render_symbolic_leaf op_is_null field value = field <> " IS NULL"
  render_symbolic_leaf op_is_not_null field value = field <> " IS NOT NULL"
  render_symbolic_leaf op_in field value = field <> (" IN (" <> (symbolic_list value <> ")"))
  render_symbolic_leaf op_not_in field value =
      field <> (" NOT IN (" <> (symbolic_list value <> ")"))
  render_symbolic_leaf op_between field value = between field value
  render_symbolic_leaf op field value =
      field <> (" " <> (sql_comparator op <> (" " <> symbolic_value value)))

  unfoldable mutual
    unfolding render_symbolic_leaf

    pub render_symbolic : Condition → Result Error String
    render_symbolic null = err panic
    render_symbolic (node op_and field value cs) = do
      r ← render_each " AND " "" cs
      ok ("(" <> (r <> ")"))
    render_symbolic (node op_or field value cs) = do
      r ← render_each " OR " "" cs
      ok ("(" <> (r <> ")"))
    render_symbolic (node op_not field value end) = err panic
    render_symbolic (node op_not field value (child c cs)) = do
      r ← render_symbolic c
      ok ("NOT (" <> (r <> ")"))
    render_symbolic (node op field value cs) = ok (render_symbolic_leaf op field value)

    -- The loop over the children; `before` is what is written before the next one.
    pub render_each : String → String → Children → Result Error String
    render_each sep before end = ok ""
    render_each sep before (child c cs) = do
      r ← render_symbolic c
      rest ← render_each sep sep cs
      ok (before <> (r <> rest))

  abbrev pub symbolic_plan : Plan → Result Error SymbolicResult
  symbolic_plan no_filter = ok match_all
  symbolic_plan deny_all = ok match_none
  symbolic_plan (tree c) = do text ← render_symbolic c; ok (match_conditional text)

  module _ (roles_of : String → String → Result Error (List String)) (t : Table) where
    unfoldable pub filter_symbolic : String → String → String → Result Error SymbolicResult
    unfolding select_and_merge render_symbolic
    filter_symbolic user dom resource =
        select_and_merge roles_of t user dom resource >>= symbolic_plan
