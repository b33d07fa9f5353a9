-- ===== src/Dataperm/Filter/Resolve.antt =====
-- `buildPlan` merges first and resolves the variables afterwards.
use sydom.Base.{String, ◌≡◌, refl, ap, ap₂, ◌∙◌, List, [], ◌∷◌, Result, ok, err, ◌>>=◌}
use sydom.Base.Dict.{Dict}
use sydom.Errors.{Error}
use sydom.Dataperm.Condition.{op_and, op_or, op_not, Value, nil, Condition, node, end, child}
use sydom.Dataperm.Filter.{
  Plan, tree, children, or_all, merge, resolve_vars, resolve_children, resolve_plan,
}

module _ (attrs : Dict String Value) where
  -- Each condition is resolved by itself.
  abbrev pub resolve_all : List Condition → Result Error (List Condition)
  resolve_all [] = ok []
  resolve_all (c ∷ cs) = do d ← resolve_vars attrs c; ds ← resolve_all cs; ok (d ∷ ds)

  resolve_children-children :
      (cs : List Condition)
      → resolve_children attrs (children cs) ≡ (resolve_all cs >>= λ ds. ok (children ds))
  unfolding resolve_vars
  resolve_children-children [] = refl
  resolve_children-children (c ∷ cs) =
      ap (λ m. resolve_vars attrs c >>= λ d. m >>= λ ds. ok (child d ds))
        (resolve_children-children cs)
      ∙ regroup (resolve_vars attrs c) (resolve_all cs)
    where
      regroup :
          (m : Result Error Condition) (k : Result Error (List Condition))
          → (m >>= λ d. (k >>= λ ds. ok (children ds)) >>= λ ds. ok (child d ds))
            ≡ ((m >>= λ d. k >>= λ ds. ok (d ∷ ds)) >>= λ ds. ok (children ds))
      regroup (ok d) (ok ds) = refl
      regroup (ok d) (err e) = refl
      regroup (err e) k = refl

  resolve_vars-or_all :
      (c : Condition) (cs : List Condition)
      → resolve_vars attrs (or_all (c ∷ cs)) ≡ (resolve_all (c ∷ cs) >>= λ ds. ok (or_all ds))
  unfolding resolve_vars or_all
  resolve_vars-or_all c [] = single (resolve_vars attrs c)
    where
      single :
          (m : Result Error Condition) → m ≡ ((m >>= λ d. ok (d ∷ [])) >>= λ ds. ok (or_all ds))
      single (ok d) = refl
      single (err e) = refl
  resolve_vars-or_all c (d ∷ cs) =
      ap (λ m. m >>= λ ds. ok (node op_or "" nil ds)) (resolve_children-children (c ∷ d ∷ cs))
      ∙ several (resolve_vars attrs c) (resolve_vars attrs d) (resolve_all cs)
    where
      several :
          (m k : Result Error Condition) (l : Result Error (List Condition))
          → (((m >>= λ a. (k >>= λ b. l >>= λ bs. ok (b ∷ bs)) >>= λ bs. ok (a ∷ bs)) >>= λ ds.
                ok (children ds))
              >>= λ ds. ok (node op_or "" nil ds))
            ≡ ((m >>= λ a. (k >>= λ b. l >>= λ bs. ok (b ∷ bs)) >>= λ bs. ok (a ∷ bs)) >>= λ ds.
                ok (or_all ds))
      several (ok a) (ok b) (ok bs) = refl
      several (ok a) (ok b) (err e) = refl
      several (ok a) (err e) l = refl
      several (err e) k l = refl

  -- Merging first, or resolving first.
  abbrev pub resolve_first : List Condition → List Condition → Result Error Plan
  resolve_first allow deny = do
    permitted ← resolve_all allow
    forbidden ← resolve_all deny
    ok (merge permitted forbidden)

  tree_of_one :
      (m : Result Error Condition) (k : Result Error (List Condition))
      → (((m >>= λ a. k >>= λ bs. ok (a ∷ bs)) >>= λ ds. ok (or_all ds)) >>= λ d. ok (tree d))
        ≡ ((m >>= λ a. k >>= λ bs. ok (a ∷ bs)) >>= λ p. ok (merge p []))
  unfolding merge
  tree_of_one (ok a) (ok bs) = refl
  tree_of_one (ok a) (err e) = refl
  tree_of_one (err e) k = refl

  abbrev both_of : Result Error Condition → Result Error Condition → Result Error Condition
  both_of m k =
      (m >>= λ a.
      (((k >>= λ d. ok (child d end)) >>= λ ds. ok (node op_not "" nil ds)) >>= λ d.
      ok (child d end))
      >>= λ ds. ok (child a ds))
      >>= λ ds. ok (node op_and "" nil ds)

  tree_of_both :
      (m n : Result Error Condition) (k l : Result Error (List Condition))
      → (both_of
            ((m >>= λ a. k >>= λ bs. ok (a ∷ bs)) >>= λ ds. ok (or_all ds))
            ((n >>= λ a. l >>= λ bs. ok (a ∷ bs)) >>= λ ds. ok (or_all ds))
          >>= λ d. ok (tree d))
        ≡ ((m >>= λ a. k >>= λ bs. ok (a ∷ bs)) >>= λ p.
            (n >>= λ a. l >>= λ bs. ok (a ∷ bs)) >>= λ q. ok (merge p q))
  unfolding merge
  tree_of_both (ok a) (ok d) (ok bs) (ok ds) = refl
  tree_of_both (ok a) (ok d) (ok bs) (err e) = refl
  tree_of_both (ok a) (err e) (ok bs) l = refl
  tree_of_both (ok a) n (err e) l = refl
  tree_of_both (err e) n k l = refl

  -- With a policy that allows, resolving the merged tree gives what merging the resolved
  -- conditions gives, and fails where that fails.
  pub resolve_plan-merge :
      (a : Condition) (allow deny : List Condition)
      → resolve_plan attrs (merge (a ∷ allow) deny) ≡ resolve_first (a ∷ allow) deny
  unfolding resolve_vars merge
  resolve_plan-merge a allow [] =
      ap (λ m. m >>= λ d. ok (tree d)) (resolve_vars-or_all a allow)
      ∙ tree_of_one (resolve_vars attrs a) (resolve_all allow)
  resolve_plan-merge a allow (d ∷ deny) =
      ap₂ (λ m k. both_of m k >>= λ d. ok (tree d)) (resolve_vars-or_all a allow)
        (resolve_vars-or_all d deny)
      ∙ tree_of_both (resolve_vars attrs a) (resolve_vars attrs d) (resolve_all allow)
          (resolve_all deny)
