-- ===== src/Base/Sorting.antt =====
-- sort.Strings: the order of texts by their characters, which is that of their UTF-8 bytes, and a
-- sort by insertion. What is used of it is that it keeps the elements.
use Prim.Native.Nat.{compare, Ordering}
use Prim.Native.Char.{code}
use Prim.Native.String.{String}
use mathlib.Core.Logic.{◌⊎◌, inl, inr, ◌↔◌}
use mathlib.Core.Bool.{Bool, true, false}
use mathlib.Core.List.{List, [], ◌∷◌}
use native.Mathlib.Omega.{arith}
use sydom.Base.Equality.{if◌then◌else◌, Bool-cases}
use sydom.Base.Lists.{In}

-- `a <= b`
abbrev pub le_text : String → String → Bool
le_text String.[] t = true
le_text (String.◌∷◌ c s) String.[] = false
le_text (String.◌∷◌ c s) (String.◌∷◌ d t) = elim (compare (code c) (code d)) [
  | Ordering.lt ↦ true
  | Ordering.eq ↦ le_text s t
  | Ordering.gt ↦ false
]

unfoldable pub place : String → List String → List String
place x [] = x ∷ []
place x (y ∷ ys) = if le_text x y then x ∷ y ∷ ys else y ∷ place x ys

unfoldable pub sort_texts : List String → List String
unfolding place
sort_texts [] = []
sort_texts (x ∷ xs) = place x (sort_texts xs)

pub swap_places : {A B C D : Type 0} → (B ↔ (C ⊎ D)) → (A ⊎ B) ↔ (C ⊎ (A ⊎ D))
swap_places {A} {B} {C} {D} (to, from) = (forth, back)
  where
    forth : A ⊎ B → C ⊎ (A ⊎ D)
    forth (inl a) = inr (inl a)
    forth (inr b) = elim (to b) [ inl c ↦ inl c | inr d ↦ inr (inr d) ]

    back : C ⊎ (A ⊎ D) → A ⊎ B
    back (inl c) = inr (from (inl c))
    back (inr (inl a)) = inl a
    back (inr (inr d)) = inr (from (inr d))

In-place : (x y : String) (xs : List String) → In x (place y xs) ↔ In x (y ∷ xs)
unfolding place
In-place x y [] = (λ i. i, λ i. i)
In-place x y (z ∷ zs) = elim (Bool-cases (le_text y z)) [
  | inl here ↦ rw here (λ i. i, λ i. i)
  | inr later ↦ rw later (swap_places (In-place x y zs))
]

pub In-sort_texts : (x : String) (xs : List String) → In x (sort_texts xs) ↔ In x xs
unfolding sort_texts
In-sort_texts x [] = (λ i. i, λ i. i)
In-sort_texts x (y ∷ ys) = ground (arith, In-place x y (sort_texts ys), In-sort_texts x ys)

-- `ORDER BY` a column of text.
module _ {A : Type 0} (key : A → String) where
  place_by : A → List A → List A
  place_by x [] = x ∷ []
  place_by x (y ∷ ys) = if le_text (key x) (key y) then x ∷ y ∷ ys else y ∷ place_by x ys

  unfoldable pub sort_by : List A → List A
  unfolding place_by
  sort_by [] = []
  sort_by (x ∷ xs) = place_by x (sort_by xs)
