-- ===== src/Dataperm/Table.antt =====
-- table.go: the policy table, one bucket of parsed policies for each resource. A poisoned policy
-- keeps the error of its parse. The lock makes each operation one step.
pub mod Invariant
pub mod Buckets
mod Tests
use mathlib.Core.Option.{get_or}
use sydom.Base.{
  ℕ, String, Bool, Option, none, some, List, [], ◌∷◌, ◌++◌, Result, ok, err, ◌>>=◌, ◌==◌, string_eq,
  nat_eq, if◌then◌else◌,
}
use sydom.Base.Dict.{Dict, lookup, insert, erase}
use sydom.Errors.{Error, invalid_policy, panic}
use sydom.Kernel.Types.{
  DataPolicy, ChangeOp, change_add, change_update, change_remove, change_other,
}
use sydom.Dataperm.Condition.{Condition, null, parse_condition}

-- `cond` is nil and `effect` empty where the parse stopped before them.
pub record Stored : Type 0 where
  pub id : ℕ
  pub subject_type : String
  pub subject_id : String
  pub effect : String
  pub cond : Condition
  pub parse_err : Option Error

-- The map `byRes`.
abbrev pub Table : Type 0
Table = Dict String (List Stored)

unfoldable pub normalize_effect : String → Option String
normalize_effect e =
    if e == ""
    then some "allow"
    else if e == "allow"
    then some "allow"
    else if e == "deny"
    then some "deny"
    else none

abbrev pub entry : DataPolicy → String → Condition → Option Error → Stored
entry p effect cond parse_err = record {
  id = p.id;
  subject_type = p.subject_type;
  subject_id = p.subject_id;
  effect = effect;
  cond = cond;
  parse_err = parse_err;
}

-- A parse that fails poisons the entry; a panic of the parse goes through.
abbrev poison : DataPolicy → String → Error → Result Error Stored
poison p effect e = elim e [ panic ↦ err panic | other ↦ ok (entry p effect null (some other)) ]

abbrev store_parsed : DataPolicy → String → Result Error Condition → Result Error Stored
store_parsed p effect (ok c) = ok (entry p effect c none)
store_parsed p effect (err e) = poison p effect e

module _ (unmarshal : String → Option Condition) where
  unfoldable pub to_stored : DataPolicy → Result Error Stored
  unfolding normalize_effect
  to_stored p = elim (normalize_effect p.effect) [
    | none ↦ ok (entry p "" null (some invalid_policy))
    | some effect ↦ store_parsed p effect (parse_condition unmarshal p.condition)
  ]

-- `byRes[r]`, nil on a missing key.
abbrev pub bucket : String → Table → List Stored
bucket r t = get_or (lookup r t) []

-- `byRes[r] = append(byRes[r], s)`
unfoldable pub append_to : String → Stored → Table → Table
append_to r s t = insert r (bucket r t ++ s ∷ []) t

unfoldable pub remove_first : ℕ → List Stored → List Stored
remove_first id [] = []
remove_first id (s ∷ ss) = if s.id == id then ss else s ∷ remove_first id ss

abbrev put_bucket : String → List Stored → Table → Table
put_bucket r [] t = erase r t
put_bucket r (s ∷ ss) t = insert r (s ∷ ss) t

unfoldable pub remove_locked : String → ℕ → Table → Table
unfolding remove_first
remove_locked r id t = put_bucket r (remove_first id (bucket r t)) t

module _ (unmarshal : String → Option Condition) where
  -- The loop of `ApplySnapshot`, from the map built so far.
  unfoldable pub load : List DataPolicy → Table → Result Error Table
  unfolding append_to to_stored
  load [] next = ok next
  load (p ∷ ps) next = do s ← to_stored unmarshal p; load ps (append_to p.resource s next)

  unfoldable pub apply_snapshot : List DataPolicy → Table → Result Error Table
  unfolding load
  apply_snapshot ps t = load ps []

  unfoldable pub apply_change : ChangeOp → DataPolicy → Table → Result Error Table
  unfolding append_to to_stored remove_locked
  apply_change change_add p t = do s ← to_stored unmarshal p; ok (append_to p.resource s t)
  apply_change change_remove p t = ok (remove_locked p.resource p.id t)
  apply_change change_update p t = do
    s ← to_stored unmarshal p
    ok (append_to p.resource s (remove_locked p.resource p.id t))
  apply_change (change_other n) p t = ok t

-- `Lookup`: the bucket, and whether there is one.
unfoldable pub find : String → Table → Option (List Stored)
find r t = lookup r t
