-- ===== src/Base/Contains.antt =====
-- `contains` is membership.
use mathlib.Core.Path.{◌≡◌, sym, ◌∙◌}
use mathlib.Core.Logic.{inl, inr}
use mathlib.Core.Bool.{Bool, true, false}
use mathlib.Core.List.{List, [], ◌∷◌}
use sydom.Base.Equality.{Eq, ◌==◌, ==_refl, ==_eq, contains, Bool-cases}
use sydom.Base.Lists.{In}

contradiction : {P : Type 0} → ◌≡◌ {A = Bool} false true → P
contradiction p = cc

module _ {A : Type 0} ⦃e : Eq A⦄ where
  pub In-of_contains : (xs : List A) (x : A) → contains xs x ≡ true → In x xs
  In-of_contains [] x h = cc
  In-of_contains (y ∷ ys) x h = elim (Bool-cases (x == y)) [
    | inl same ↦ inl (==_eq same)
    | inr differ ↦ inr (In-of_contains ys x (rw differ at h))
  ]

  pub contains-of_In : (xs : List A) (x : A) → In x xs → contains xs x ≡ true
  contains-of_In [] x i = absurd i
  contains-of_In (y ∷ ys) x (inl e) = rw e (rw (==_refl y))
  contains-of_In (y ∷ ys) x (inr i) = elim (Bool-cases (x == y)) [
    | inl same ↦ rw same
    | inr differ ↦ rw differ (contains-of_In ys x i)
  ]

  pub not_In-of_contains : (xs : List A) (x : A) → contains xs x ≡ false → ¬ In x xs
  not_In-of_contains xs x h i = contradiction (sym h ∙ contains-of_In xs x i)
