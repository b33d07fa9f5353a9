-- ===== src/Dataperm/Filter/ValidTree.antt =====
-- The merged tree of a well-formed table is itself a valid condition.
use sydom.Base.{
  String, ◌≡◌, refl, subst, inl, inr, List, [], ◌∷◌, ◌++◌, Result, ok, ◌>>=◌, ◌==◌, string_eq,
  arith, All, All-append, Bool-cases, Option-cases, >>=-eq-ok, ok-injective,
}
use sydom.Base.Dict.{lookup}
use sydom.Errors.{Error}
use sydom.Dataperm.Condition.{Condition}
use sydom.Dataperm.Condition.Valid.{Valid, both, either, neither, AllValid, nothing, also}
use sydom.Dataperm.Table.{Stored, Table}
use sydom.Dataperm.Table.Invariant.{IsSound, IsWellFormed}
use sydom.Dataperm.Filter.{
  Plan, no_filter, deny_all, tree, subject_matches, collect, children, or_all, merge,
  select_and_merge,
}

-- The tree of a plan, if it has one, is valid.
abbrev pub ValidPlan : Plan → Type 0
ValidPlan no_filter = Unit
ValidPlan deny_all = Unit
ValidPlan (tree c) = Valid c

children-AllValid : (cs : List Condition) → All Valid cs → AllValid (children cs)
children-AllValid [] h = nothing
children-AllValid (c ∷ cs) (v, h) = also v (children-AllValid cs h)

or_all-Valid : (c : Condition) (cs : List Condition) → All Valid (c ∷ cs) → Valid (or_all (c ∷ cs))
unfolding or_all
or_all-Valid c [] (v, h) = v
or_all-Valid c (d ∷ cs) h = either refl refl (children-AllValid (c ∷ d ∷ cs) h)

merge-ValidPlan :
    (allow deny : List Condition) → All Valid allow → All Valid deny → ValidPlan (merge allow deny)
unfolding merge
merge-ValidPlan [] deny ha hd = tt
merge-ValidPlan (a ∷ allow) [] ha hd = or_all-Valid a allow ha
merge-ValidPlan (a ∷ allow) (d ∷ deny) ha hd =
    both refl refl
      (also (or_all-Valid a allow ha) (also (neither refl refl (or_all-Valid d deny hd)) nothing))

collect-Valid :
    (user : String) (roles : List String) (ss : List Stored) (allow deny a d : List Condition)
    → All IsSound ss
    → All Valid allow
    → All Valid deny
    → collect user roles ss allow deny ≡ ok (a, d)
    → All Valid a × All Valid d
unfolding collect
collect-Valid user roles [] allow deny a d w ha hd h =
    (subst (All Valid) (ground arith) ha, subst (All Valid) (ground arith) hd)
collect-Valid user roles (s ∷ ss) allow deny a d (sound, w) ha hd h =
    elim (Bool-cases (subject_matches s user roles)) [
      | inl applies ↦ elim (Option-cases s.parse_err) [
        | inl fine ↦ elim (Bool-cases (s.effect == "deny")) [
          | inl denies ↦
              collect-Valid user roles ss allow (deny ++ s.cond ∷ []) a d w ha
                (All-append Valid deny (s.cond ∷ []) hd (sound.cond_valid fine, tt)) (ground arith)
          | inr allows ↦
              collect-Valid user roles ss (allow ++ s.cond ∷ []) deny a d w
                (All-append Valid allow (s.cond ∷ []) ha (sound.cond_valid fine, tt)) hd
                (ground arith)
        ]
        | inr (e, poisoned) ↦ absurd (ground arith)
      ]
      | inr other ↦ collect-Valid user roles ss allow deny a d w ha hd (ground arith)
    ]

-- A plan that the table gives carries a tree of the grammar: what `parseCondition` accepted
-- stays valid through the merge.
pub select_and_merge-ValidPlan :
    (roles_of : String → String → Result Error (List String)) (t : Table)
    (user dom resource : String) (p : Plan)
    → IsWellFormed t
    → select_and_merge roles_of t user dom resource ≡ ok p
    → ValidPlan p
unfolding select_and_merge
select_and_merge-ValidPlan roles_of t user dom resource p w h =
    elim (Option-cases (lookup resource t)) [
      | inl missing ↦ subst ValidPlan (ok-injective (rw (missing, select_and_merge) at h)) tt
      | inr (b, found) ↦ merged b (w.sound resource b found) (rw (found, select_and_merge) at h)
    ]
  where
    merged :
        (b : List Stored)
        → All IsSound b
        → (roles_of user dom >>= λ roles. collect user roles b [] [] >>= λ (a, d). ok (merge a d))
          ≡ ok p
        → ValidPlan p
    merged b sound k =
        let (roles, known, rest) = >>=-eq-ok (roles_of user dom) _ k in
        let (pair, collected, last) = >>=-eq-ok (collect user roles b [] []) _ rest in
        let (va, vd) = collect-Valid user roles b [] [] pair.0 pair.1 sound tt tt collected in
        subst ValidPlan (ok-injective last) (merge-ValidPlan pair.0 pair.1 va vd)
