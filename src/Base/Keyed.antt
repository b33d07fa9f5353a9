-- ===== src/Base/Keyed.antt =====
-- The maps that the code builds from a slice by a key: the last element of a key in
-- `m[key(x)] = x`, all of them in order in `m[key(x)] = append(m[key(x)], x)`.
use mathlib.Core.Path.{◌≡◌, refl, sym, ap, subst, ◌∙◌}
use mathlib.Core.Logic.{inl, inr}
use mathlib.Core.Option.{Option, none, some}
use mathlib.Core.List.{List, [], ◌∷◌, map}
use native.Mathlib.Omega.{arith}
use Prim.Native.Nat.{◌<◌}
use Prim.Native.String.{String}
use sydom.Base.Equality.{
  ◌==◌, ==_refl, ==_eq, ==_ne, if◌then◌else◌, Bool-cases, Option-cases, string_eq,
}
use sydom.Base.Lists.{length, In, In-map}
use sydom.Base.Dict.{Dict, lookup, insert, lookup-insert}

module _ {V : Type 0} (key : V → String) where
  unfoldable pub index : List V → Dict String V → Dict String V
  index [] m = m
  index (x ∷ xs) m = index xs (insert (key x) x m)

  -- The last element of the key.
  unfoldable pub last_by : String → List V → Option V
  last_by k [] = none
  last_by k (x ∷ xs) = elim (last_by k xs) [
    | some y ↦ some y
    | none ↦ if k == key x then some x else none
  ]

  unfoldable pub rows_by : String → List V → List V
  rows_by k [] = []
  rows_by k (x ∷ xs) = let rest = rows_by k xs in if k == key x then x ∷ rest else rest

  or_else : Option V → Option V → Option V
  or_else none d = d
  or_else (some y) d = some y

  lookup-index_onto :
      (k : String) (xs : List V) (m : Dict String V)
      → lookup k (index xs m) ≡ or_else (last_by k xs) (lookup k m)
  unfolding index last_by or_else
  lookup-index_onto k [] m = refl
  lookup-index_onto k (x ∷ xs) m =
      ground (arith, lookup-index_onto k xs (insert (key x) x m), lookup-insert k (key x) x m)

  pub lookup-index : (k : String) (xs : List V) → lookup k (index xs []) ≡ last_by k xs
  unfolding or_else lookup
  lookup-index k xs = lookup-index_onto k xs [] ∙ or_none (last_by k xs)
    where
      or_none : (o : Option V) → or_else o none ≡ o
      or_none none = refl
      or_none (some y) = refl

  -- What is found stands in the list under its key.
  pub last_by-In :
      (k : String) (xs : List V) {y : V} → last_by k xs ≡ some y → In y xs × (key y ≡ k)
  unfolding last_by
  last_by-In k [] h = cc
  last_by-In k (x ∷ xs) h = elim (Option-cases (last_by k xs)) [
    | inl missing ↦ ground arith
    | inr (z, found) ↦ ground (arith, last_by-In k xs found)
  ]

  -- A key of the list has a last element, and the other keys have none.
  pub last_by-of_In :
      (k : String) (xs : List V) → In k (map key xs) → (y : V) × (last_by k xs ≡ some y)
  unfolding last_by
  last_by-of_In k [] i = absurd i
  last_by-of_In k (x ∷ xs) i = elim (Option-cases (last_by k xs)) [
    | inl missing ↦ elim i [
      | inl e ↦ (x, rw missing (rw e (rw (==_refl (key x)))))
      | inr later ↦
          let (y, found) = last_by-of_In k xs later in absurd (none-ne-some (sym missing ∙ found))
    ]
    | inr (y, found) ↦ (y, rw found)
  ]
    where
      none-ne-some : {y : V} → ¬ (◌≡◌ {A = Option V} none (some y))
      none-ne-some e = cc

  pub In-last_by : (k : String) (xs : List V) {y : V} → last_by k xs ≡ some y → In k (map key xs)
  In-last_by k xs {y} found =
      let (there, named) = last_by-In k xs found in
      subst (λ j. In j (map key xs)) named (In-map key y xs there)

  pub In-rows_by : (k : String) (xs : List V) → 0 < length (rows_by k xs) → In k (map key xs)
  unfolding rows_by
  In-rows_by k [] some_rows = absurd (omega arith)
  In-rows_by k (x ∷ xs) some_rows = elim (Bool-cases (k == key x)) [
    | inl same ↦ inl (==_eq same)
    | inr differ ↦ inr (In-rows_by k xs (rw differ at some_rows))
  ]

  pub rows_by-In : (k : String) (xs : List V) {y : V} → In y (rows_by k xs) → In y xs × (key y ≡ k)
  unfolding rows_by
  rows_by-In k [] i = absurd i
  rows_by-In k (x ∷ xs) i = elim (Bool-cases (k == key x)) [
    | inl same ↦ elim (rw same at i) [
      | inl e ↦ (inl e, ap key e ∙ sym (==_eq same))
      | inr later ↦ let (there, named) = rows_by-In k xs later in (inr there, named)
    ]
    | inr differ ↦ let (there, named) = rows_by-In k xs (rw differ at i) in (inr there, named)
  ]

  -- A key that has no last element or no rows stands nowhere in the list.
  pub absent-of_last : (k : String) (xs : List V) → last_by k xs ≡ none → ¬ In k (map key xs)
  absent-of_last k xs missing i =
      let (y, found) = last_by-of_In k xs i in none-ne-some (sym missing ∙ found)
    where
      none-ne-some : {y : V} → ¬ (◌≡◌ {A = Option V} none (some y))
      none-ne-some e = cc

  pub absent-of_rows : (k : String) (xs : List V) → rows_by k xs ≡ [] → ¬ In k (map key xs)
  unfolding rows_by
  absent-of_rows k [] e i = i
  absent-of_rows k (x ∷ xs) e i = elim (Bool-cases (k == key x)) [
    | inl same ↦ no_row (rw same at e)
    | inr differ ↦ elim i [
      | inl e' ↦ ==_ne differ e'
      | inr later ↦ absent-of_rows k xs (rw differ at e) later
    ]
  ]
    where
      no_row : {ys : List V} → ¬ (◌≡◌ {A = List V} (x ∷ ys) [])
      no_row e = cc
