-- ===== src/Dataperm/Filter/Merge.antt =====
-- What the merged plan means: which rows a user sees.
use sydom.Base.{
  String, ◌≡◌, refl, sym, ap, ap₂, ◌∙◌, inl, inr, Bool, true, false, ◌&&◌, ◌||◌, not, Option, none,
  some, List, [], ◌∷◌, ◌++◌, Result, ok, ◌>>=◌, ◌==◌, string_eq, arith, any, any-append, All,
  Option-cases, >>=-eq-ok, ok-injective,
}
use sydom.Errors.{Error}
use sydom.Dataperm.Condition.{
  Op, op_and, op_or, op_not, Value, Condition, null, node, Children, end, child,
}
use sydom.Dataperm.Table.{Stored, Table, find}
use sydom.Dataperm.Filter.{
  Plan, no_filter, deny_all, tree, subject_matches, collect, children, or_all, merge,
  select_and_merge,
}

and_not-false : (x : Bool) → x ≡ (x && not false)
and_not-false x = ground arith

and_not-true : (x y : Bool) → (x && (not y && true)) ≡ (x && not y)
and_not-true x y = ground arith

-- Whether a condition holds of a row, where `holds` says which leaves do.
module _ (holds : Op → String → Value → Bool) where
  unfoldable mutual
    pub eval : Condition → Bool
    eval null = false
    eval (node op_and f v cs) = all_hold cs
    eval (node op_or f v cs) = some_hold cs
    eval (node op_not f v end) = false
    eval (node op_not f v (child c cs)) = not (eval c)
    eval (node op f v cs) = holds op f v

    pub all_hold : Children → Bool
    all_hold end = true
    all_hold (child c cs) = eval c && all_hold cs

    pub some_hold : Children → Bool
    some_hold end = false
    some_hold (child c cs) = eval c || some_hold cs

  -- Whether the plan lets the row through.
  abbrev pub visible : Plan → Bool
  visible no_filter = true
  visible deny_all = false
  visible (tree c) = eval c

  some_hold-children : (cs : List Condition) → some_hold (children cs) ≡ any eval cs
  unfolding eval
  some_hold-children [] = refl
  some_hold-children (c ∷ cs) = ap (λ b. eval c || b) (some_hold-children cs)

  pub eval-or_all : (cs : List Condition) → eval (or_all cs) ≡ any eval cs
  unfolding or_all eval
  eval-or_all [] = refl
  eval-or_all (c ∷ []) = ground arith
  eval-or_all (c ∷ d ∷ cs) = some_hold-children (c ∷ d ∷ cs)

  visible-merge :
      (allow deny : List Condition)
      → visible (merge allow deny) ≡ (any eval allow && not (any eval deny))
  unfolding merge eval
  visible-merge [] deny = refl
  visible-merge (a ∷ allow) [] = eval-or_all (a ∷ allow) ∙ and_not-false (any eval (a ∷ allow))
  visible-merge (a ∷ allow) (d ∷ deny) =
      ap₂ (λ x y. x && (not y && true)) (eval-or_all (a ∷ allow)) (eval-or_all (d ∷ deny))
      ∙ and_not-true (any eval (a ∷ allow)) (any eval (d ∷ deny))

  module _ (user : String) (roles : List String) where
    -- The entry applies to the user, allows, and its condition holds of the row.
    abbrev pub permits : Stored → Bool
    permits s = subject_matches s user roles && (not (s.effect == "deny") && eval s.cond)

    abbrev pub forbids : Stored → Bool
    forbids s = subject_matches s user roles && (s.effect == "deny" && eval s.cond)

    collect_meaning :
        (ss : List Stored) (allow deny a d : List Condition)
        → collect user roles ss allow deny ≡ ok (a, d)
        → (any eval a ≡ (any eval allow || any permits ss))
          × (any eval d ≡ (any eval deny || any forbids ss))
    unfolding collect
    collect_meaning [] allow deny a d h = ground arith
    collect_meaning (s ∷ ss) allow deny a d h = ground (
      arith,
      collect_meaning ss allow deny a d,
      collect_meaning ss (allow ++ s.cond ∷ []) deny a d,
      collect_meaning ss allow (deny ++ s.cond ∷ []) a d,
      any-append eval allow (s.cond ∷ []),
      any-append eval deny (s.cond ∷ []),
    )

-- No entry that applies to the user is poisoned.
abbrev pub Unpoisoned : String → List String → List Stored → Type 0
Unpoisoned user roles = All (λ s. subject_matches s user roles ≡ true → s.parse_err ≡ none)

collect-Unpoisoned :
    (user : String) (roles : List String) (ss : List Stored) (allow deny a d : List Condition)
    → collect user roles ss allow deny ≡ ok (a, d)
    → Unpoisoned user roles ss
unfolding collect
collect-Unpoisoned user roles [] allow deny a d h = tt
collect-Unpoisoned user roles (s ∷ ss) allow deny a d h = (
  λ applies. ground arith,
  ground (
    arith,
    collect-Unpoisoned user roles ss allow deny a d,
    collect-Unpoisoned user roles ss (allow ++ s.cond ∷ []) deny a d,
    collect-Unpoisoned user roles ss allow (deny ++ s.cond ∷ []) a d,
  ),
)

-- What a plan must do for a bucket, or for a resource that has none.
abbrev pub Decides :
    (String → String → Result Error (List String))
    → String
    → String
    → Option (List Stored)
    → Plan
    → Type 0
Decides roles_of user dom none p = p ≡ no_filter
Decides roles_of user dom (some b) p =
    (roles : List String) × (roles_of user dom ≡ ok roles)
    × Unpoisoned user roles b
    × ((holds : Op → String → Value → Bool)
        → visible holds p
          ≡ (any (permits holds user roles) b && not (any (forbids holds user roles) b)))

-- A plan means what the policies say. Without policies on the resource it filters nothing. With
-- them the user's roles were found, no policy that applies to the user is poisoned, and a row is
-- visible exactly when a policy that applies allows it and none that applies denies it.
pub select_and_merge-Decides :
    (roles_of : String → String → Result Error (List String)) (t : Table)
    (user dom resource : String) (p : Plan)
    → select_and_merge roles_of t user dom resource ≡ ok p
    → Decides roles_of user dom (find resource t) p
unfolding select_and_merge
select_and_merge-Decides roles_of t user dom resource p h = elim (Option-cases (find resource t)) [
  | inl missing ↦ rw missing (sym (ok-injective (rw (missing, select_and_merge) at h)))
  | inr (b, found) ↦ rw found (decided b (rw (found, select_and_merge) at h))
]
  where
    decided :
        (b : List Stored)
        → (roles_of user dom >>= λ roles. collect user roles b [] [] >>= λ (a, d). ok (merge a d))
          ≡ ok p
        → Decides roles_of user dom (some b) p
    decided b k =
        let (roles, known, rest) = >>=-eq-ok (roles_of user dom) _ k in
        let (pair, collected, last) = >>=-eq-ok (collect user roles b [] []) _ rest in
        (
          roles,
          known,
          collect-Unpoisoned user roles b [] [] pair.0 pair.1 collected,
          λ holds.
              let (allowed, denied) =
                collect_meaning holds user roles b [] [] pair.0 pair.1 collected in
              ap (visible holds) (sym (ok-injective last))
              ∙ visible-merge holds pair.0 pair.1
              ∙ ap₂ (λ x y. x && not y) allowed denied,
        )
