-- ===== src/Base/Results.antt =====
-- A Go call that returns a value or an error. A run-time panic is an error of the type `E`
-- too, since none of the code recovers from one.
use mathlib.Core.Path.{◌≡◌, refl}
use mathlib.Core.Bool.{Bool, true, false}
use mathlib.Core.Logic.{◌⊎◌, inl, inr}
use native.Mathlib.Omega.{arith}

pub data Result {ℓ} (E : Type 0) (A : Type ℓ) : Type ℓ where
  ok : A → Result E A
  err : E → Result E A

module _ {ℓ} {E : Type 0} {A : Type ℓ} where
  pub ok-injective : {x y : A} → ◌≡◌ {A = Result E A} (ok x) (ok y) → x ≡ y
  ok-injective same = cc

module _ {E : Type 0} where
  -- `if !b { return e }`
  abbrev pub require : Bool → E → Result E (Unit {0})
  require false failure = err failure
  require true failure = ok tt

  -- `if err != nil { return err }`
  infixl 5 ◌>>=◌
  abbrev pub ◌>>=◌ {ℓ κ} : {A : Type ℓ} {B : Type κ} → Result E A → (A → Result E B) → Result E B
  err failure >>= _ = err failure
  ok value >>= after = after value

  infixl 5 ◌>>◌
  abbrev pub ◌>>◌ {κ} : {B : Type κ} → Result E (Unit {0}) → Result E B → Result E B
  first >> second = first >>= λ _. second

  -- A sequence fails in its first part or in its second.
  pub >>-eq-err {κ} :
      {B : Type κ} (first : Result E (Unit {0})) (second : Result E B) {e : E}
      → (first >> second) ≡ err e
      → (first ≡ err e) ⊎ ((first ≡ ok tt) × (second ≡ err e))
  >>-eq-err (err _) second h = inl (ground arith)
  >>-eq-err (ok _) second h = inr (refl, h)

  -- A sequence comes to a value through a value of its first part.
  pub >>=-eq-ok {ℓ κ} :
      {A : Type ℓ} {B : Type κ} (first : Result E A) (after : A → Result E B) {y : B}
      → (first >>= after) ≡ ok y
      → (x : A) × (first ≡ ok x) × (after x ≡ ok y)
  >>=-eq-ok (err _) after h = cc
  >>=-eq-ok (ok x) after h = (x, refl, h)
