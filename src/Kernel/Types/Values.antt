-- ===== src/Kernel/Types/Values.antt =====
-- Cutting the empty cells off the end of a rule loses nothing.
use sydom.Base.{
  ℕ, zero, suc, ◌≤◌, ◌<◌, String, ◌≡◌, inl, inr, List, [], ◌∷◌, ◌==◌, string_eq, take, get_or,
  length, ltb, arith, Bool-cases, if◌then◌else◌,
}
use sydom.Kernel.Types.{Rule, cells, last_filled, values}

get_or-take {ℓ} :
    {A : Type ℓ} (k i : ℕ) (v : List A) (d : A)
    → get_or (take k v) i d ≡ (if ltb i k then get_or v i d else d)
get_or-take zero i v d = ground arith
get_or-take (suc k) i [] d = ground arith
get_or-take (suc k) zero (x ∷ v) d = ground arith
get_or-take (suc k) (suc i) (x ∷ v) d = ground (arith, get_or-take k i v d)

last_filled-blank : (v : List String) (n i : ℕ) → last_filled v n ≤ i → i < n → get_or v i "" ≡ ""
unfolding last_filled
last_filled-blank v zero i h k = absurd (omega arith)
last_filled-blank v (suc n) i h k = elim (Bool-cases (get_or v n "" == "")) [
  | inl blank ↦ elim (Bool-cases (ltb i n)) [
    | inl below ↦ last_filled-blank v n i (rw (blank, last_filled) at h) (ground arith)
    | inr at_end ↦ let e : i ≡ n = ground arith in rw e (ground arith)
  ]
  | inr filled ↦ absurd (filled_last (rw (filled, last_filled) at h))
]
  where
    filled_last : suc n ≤ i → ⊥
    filled_last h = omega arith

last_filled-le : (v : List String) (n : ℕ) → last_filled v n ≤ n
unfolding last_filled
last_filled-le v zero = omega arith
last_filled-le v (suc n) = ground (arith, last_filled-le v n)

-- Every cell can be read off the values, with "" where they are over.
pub get_or-values : (r : Rule) (i : ℕ) → i < 6 → get_or (values r) i "" ≡ get_or (cells r) i ""
unfolding values
get_or-values r i h =
    ground
      (arith, get_or-take (last_filled (cells r) 6) i (cells r) "", last_filled-blank (cells r) 6 i)

length-take : {A : Type 0} (k : ℕ) (v : List A) → length (take k v) ≤ k
length-take zero v = omega arith
length-take (suc k) [] = omega arith
length-take (suc k) (x ∷ v) = omega (arith, length-take k v)

pub length-values : (r : Rule) → length (values r) ≤ 6
unfolding values
length-values r =
    omega (arith, length-take (last_filled (cells r) 6) (cells r), last_filled-le (cells r) 6)
