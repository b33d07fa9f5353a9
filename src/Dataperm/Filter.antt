-- ===== src/Dataperm/Filter.antt =====
-- filter.go: the policies of a user on a resource are merged into one tree, in which the
-- variables are resolved afterwards.
pub mod Merge
pub mod ValidTree
pub mod Resolve
mod Tests
use Prim.Native.String.{String}
use sydom.Base.{
  ℕ, zero, suc, Bool, true, false, not, Option, none, some, List, [], ◌∷◌, ◌++◌, Result, ok, err,
  ◌>>=◌, ◌==◌, contains, string_eq, if◌then◌else◌,
}
use sydom.Base.Dict.{Dict, lookup}
use sydom.Errors.{Error, missing_var, panic}
use sydom.Dataperm.Condition.{
  Op, op_and, op_or, op_not, Value, nil, str, arr, bool, num, obj, Values, done, item, Condition,
  null, node, Children, end, child, is_logical_op,
}
use sydom.Dataperm.Table.{Stored, Table, find}
use text.Mathlib.Text.{starts_with}

pub data Plan : Type 0 where
  no_filter deny_all : Plan
  tree : Condition → Plan

-- The map `roleSet` is the list of roles, read by `contains`.
unfoldable pub subject_matches : Stored → String → List String → Bool
subject_matches s user roles =
    if s.subject_type == "user"
    then s.subject_id == user
    else if s.subject_type == "role"
    then contains roles s.subject_id
    else false

-- The loop over the bucket: the conditions that allow and those that deny, so far.
unfoldable pub collect :
    String
    → List String
    → List Stored
    → List Condition
    → List Condition
    → Result Error (List Condition × List Condition)
collect user roles [] allow deny = ok (allow, deny)
collect user roles (s ∷ ss) allow deny =
    let skip = collect user roles ss allow deny in
    let denying = collect user roles ss allow (deny ++ s.cond ∷ []) in
    let allowing = collect user roles ss (allow ++ s.cond ∷ []) deny in
    if not (subject_matches s user roles) then skip else elim s.parse_err [
      | some e ↦ err e
      | none ↦ if s.effect == "deny" then denying else allowing
    ]

abbrev pub children : List Condition → Children
children [] = end
children (c ∷ cs) = child c (children cs)

unfoldable pub or_all : List Condition → Condition
or_all (c ∷ []) = c
or_all cs = node op_or "" nil (children cs)

-- The end of `selectAndMerge`.
unfoldable pub merge : List Condition → List Condition → Plan
unfolding or_all
merge [] deny = deny_all
merge (a ∷ allow) [] = tree (or_all (a ∷ allow))
merge (a ∷ allow) (d ∷ deny) = tree (
    node op_and "" nil
      (child (or_all (a ∷ allow)) (child (node op_not "" nil (child (or_all (d ∷ deny)) end)) end)))

unfoldable pub has_prefix : String → Bool
has_prefix s = starts_with s "$user."

-- `s[len(prefix):]`; the prefix is ASCII, so its bytes are its characters.
unfoldable pub drop_chars : ℕ → String → String
drop_chars zero s = s
drop_chars (suc n) String.[] = String.[]
drop_chars (suc n) (String.◌∷◌ c s) = drop_chars n s

unfoldable pub user_var_name : String → Option String
unfolding has_prefix drop_chars
user_var_name s = if has_prefix s then some (drop_chars 6 s) else none

-- `val, present := attrs[name]`
abbrev pub attribute : String → Option Value → Result Error Value
attribute name (some v) = ok v
attribute name none = err (missing_var name)

abbrev pub resolve_named : Dict String Value → String → Option String → Result Error Value
resolve_named attrs s (some name) = attribute name (lookup name attrs)
resolve_named attrs s none = ok (str s)

abbrev pub resolve_text : Dict String Value → String → Result Error Value
resolve_text attrs s = resolve_named attrs s (user_var_name s)

module _ (attrs : Dict String Value) where
  unfoldable mutual
    pub resolve_value : Value → Result Error Value
    resolve_value (str s) = resolve_text attrs s
    resolve_value (arr vs) = do ws ← resolve_values vs; ok (arr ws)
    resolve_value nil = ok nil
    resolve_value (bool b) = ok (bool b)
    resolve_value (num n) = ok (num n)
    resolve_value (obj ms) = ok (obj ms)

    pub resolve_values : Values → Result Error Values
    resolve_values done = ok done
    resolve_values (item v vs) = do w ← resolve_value v; ws ← resolve_values vs; ok (item w ws)

  -- The leaf's part of `resolveVars`.
  unfoldable pub resolve_leaf : Op → String → Value → Result Error Condition
  unfolding resolve_value
  resolve_leaf op field value = do v ← resolve_value value; ok (node op field v end)

  unfoldable mutual
    unfolding is_logical_op resolve_leaf

    pub resolve_vars : Condition → Result Error Condition
    resolve_vars null = err panic
    resolve_vars (node op field value cs) =
        let below = (do ds ← resolve_children cs; ok (node op "" nil ds)) in
        if is_logical_op op then below else resolve_leaf op field value

    pub resolve_children : Children → Result Error Children
    resolve_children end = ok end
    resolve_children (child c cs) = do d ← resolve_vars c; ds ← resolve_children cs; ok (child d ds)

  abbrev pub resolve_plan : Plan → Result Error Plan
  resolve_plan no_filter = ok no_filter
  resolve_plan deny_all = ok deny_all
  resolve_plan (tree c) = do d ← resolve_vars c; ok (tree d)

-- `roles_of` is the RoleResolver, `*kernel.Engine` in the program.
module _ (roles_of : String → String → Result Error (List String)) (t : Table) where
  unfoldable pub select_and_merge : String → String → String → Result Error Plan
  unfolding collect merge find
  select_and_merge user dom resource = elim (find resource t) [
    | none ↦ ok no_filter
    | some bucket ↦ do
      roles ← roles_of user dom
      (allow, deny) ← collect user roles bucket [] []
      ok (merge allow deny)
  ]

  unfoldable pub build_plan : String → String → String → Dict String Value → Result Error Plan
  unfolding select_and_merge resolve_vars
  build_plan user dom resource attrs = select_and_merge user dom resource >>= resolve_plan attrs

pub data RawResult : Type 0 where
  match_all match_none : RawResult
  match_conditional : Condition → RawResult

abbrev pub raw_result : Plan → RawResult
raw_result no_filter = match_all
raw_result deny_all = match_none
raw_result (tree c) = match_conditional c

module _ (roles_of : String → String → Result Error (List String)) (t : Table) where
  unfoldable pub filter_raw : String → String → String → Dict String Value → Result Error RawResult
  unfolding build_plan
  filter_raw user dom resource attrs = do
    p ← build_plan roles_of t user dom resource attrs
    ok (raw_result p)
