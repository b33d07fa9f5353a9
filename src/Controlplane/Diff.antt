-- ===== src/Controlplane/Diff.antt =====
-- diff.go: the rules to add and to remove. Go ranges over a map in any order; here the order is
-- that of the first insertions, and what is proved of it is about membership.
pub mod Keys
pub mod Membership
pub mod Distinct
pub mod Example
mod Tests
use sydom.Base.{String, ◌<>◌, Bool, Option, none, some, List, [], ◌∷◌, string_eq}
use sydom.Base.Dict.{Dict, lookup, insert}
use sydom.Kernel.Types.{Rule}

-- The byte 0x1f, which the code takes for one that no value holds.
abbrev pub separator : String
separator = "\u{1f}"

unfoldable pub rule_key : Rule → String
rule_key r =
    r.ptype
    <> (separator
        <> (r.v0
            <> (separator
                <> (r.v1
                    <> (separator
                        <> (r.v2
                            <> (separator
                                <> (r.v3 <> (separator <> (r.v4 <> (separator <> r.v5)))))))))))

-- `m[ruleKey(r)] = r` for each rule, into the map so far.
unfoldable pub index_rules : List Rule → Dict String Rule → Dict String Rule
unfolding rule_key
index_rules [] m = m
index_rules (r ∷ rs) m = index_rules rs (insert (rule_key r) r m)

-- The rules of the one map whose keys the other does not have.
unfoldable pub missing_from : Dict String Rule → Dict String Rule → List Rule
missing_from other [] = []
missing_from other ((k, r) ∷ m) =
    let rest = missing_from other m in elim (lookup k other) [ none ↦ r ∷ rest | some found ↦ rest ]

-- The additions and the removals.
unfoldable pub diff : List Rule → List Rule → List Rule × List Rule
unfolding index_rules missing_from
diff current desired =
    let cur = index_rules current [] in
    let des = index_rules desired [] in (missing_from cur des, missing_from des cur)
