-- ===== src/Base/Int.antt =====
-- Signed integers, and Go's int64 and uint64: their bits, and what int64 arithmetic makes of them.
use Prim.Native.Nat.{ℕ, zero, suc, ◌-◌, ◌%◌, ◌^◌, ◌*◌, ◌/◌}
use mathlib.Core.Bool.{Bool, true, false}
use mathlib.Core.Path.{ap}
use native.Mathlib.Decide.{ℕ_discrete}
use sydom.Base.Equality.{Eq, ltb, leb, if◌then◌else◌}

-- `negsuc n` is -(n + 1).
pub data ℤ : Type 0 where
  pos : ℕ → ℤ
  negsuc : ℕ → ℤ

abbrev pub uint64_mod : ℕ
uint64_mod = 2 ^ 64

-- `uint64(x)` keeps the bits of the two's complement.
unfoldable pub to_uint64 : ℤ → ℕ
to_uint64 (pos n) = n % uint64_mod
to_uint64 (negsuc n) = uint64_mod - 1 - n % uint64_mod

-- The int64 that has these bits.
unfoldable pub to_int64 : ℕ → ℤ
to_int64 n = if ltb n (2 ^ 63) then pos n else negsuc (uint64_mod - 1 - n)

-- `x * 2`, which wraps.
unfoldable pub double : ℤ → ℤ
unfolding to_uint64 to_int64
double x = to_int64 (to_uint64 x * 2 % uint64_mod)

-- `x / 2`, towards zero.
unfoldable pub half : ℤ → ℤ
half (pos n) = pos (n / 2)
half (negsuc zero) = pos 0
half (negsuc (suc n)) = negsuc (n / 2)

-- `x <= y`
unfoldable pub lebℤ : ℤ → ℤ → Bool
lebℤ (pos n) (pos m) = leb n m
lebℤ (pos n) (negsuc m) = false
lebℤ (negsuc n) (pos m) = true
lebℤ (negsuc n) (negsuc m) = leb m n

ℤ_discrete : Discrete ℤ
ℤ_discrete (pos a) (pos b) = elim (ℕ_discrete a b) [
  | yes p ↦ yes (ap pos p)
  | no p ↦ no (λ e. p (cc e))
]
ℤ_discrete (pos a) (negsuc b) = no (λ e. cc)
ℤ_discrete (negsuc a) (pos b) = no (λ e. cc)
ℤ_discrete (negsuc a) (negsuc b) = elim (ℕ_discrete a b) [
  | yes p ↦ yes (ap negsuc p)
  | no p ↦ no (λ e. p (cc e))
]

instance unfoldable pub ℤ_eq : Eq ℤ
unfolding ℤ_discrete
ℤ_eq = record { dec = ℤ_discrete }
