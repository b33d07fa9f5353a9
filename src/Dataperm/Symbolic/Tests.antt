-- ===== src/Dataperm/Symbolic/Tests.antt =====
-- The preview for an intern.
use sydom.Base.{String, ◌≡◌, refl, ok, string_eq}
use sydom.Base.Dict.{lookup}
use sydom.Dataperm.Condition.{op_and, op_not, nil, Value, Condition, node, end, child}
use sydom.Dataperm.Filter.{tree, subject_matches, has_prefix, select_and_merge}
use sydom.Dataperm.Symbolic.{SymbolicResult, match_conditional, filter_symbolic}
use sydom.Dataperm.Symbolic.Total.{Shows, filter_symbolic-Shows}
use sydom.Dataperm.Example.{own, secret, docs, docs-IsWellFormed, intern_roles}

abbrev print : Value → String
print v = "true"

abbrev own_not_secret : Condition
own_not_secret = node op_and "" nil (child own (child (node op_not "" nil (child secret end)) end))

planned : select_and_merge intern_roles docs "alice" "app" "doc" ≡ ok (tree own_not_secret)
unfolding select_and_merge string_eq lookup subject_matches
planned = refl

previewed :
    filter_symbolic print intern_roles docs "alice" "app" "doc"
    ≡ ok (match_conditional "(owner = $user.id AND NOT (secret = true))")
unfolding filter_symbolic string_eq lookup subject_matches has_prefix
previewed = refl

filter_symbolic-Shows_example :
    (r : SymbolicResult) × (filter_symbolic print intern_roles docs "alice" "app" "doc" ≡ ok r)
    × Shows print (tree own_not_secret) r
filter_symbolic-Shows_example =
    filter_symbolic-Shows print intern_roles docs "alice" "app" "doc" (tree own_not_secret)
      docs-IsWellFormed planned
