-- ===== src/Base/Decimal.antt =====
-- The `%d` of fmt, for numbers of at most twenty digits: those of 64 bits.
use Prim.Native.Nat.{ℕ, zero, suc, ◌+◌, ◌/◌, ◌%◌}
use Prim.Native.String.{String, ◌++◌}
use mathlib.Core.List.{[], ◌∷◌}
use sydom.Base.Equality.{ltb, if◌then◌else◌}
use sydom.Base.Lists.{get_or}
use sydom.Base.Int.{ℤ, pos, negsuc}

digit : ℕ → String
digit n = get_or ("0" ∷ "1" ∷ "2" ∷ "3" ∷ "4" ∷ "5" ∷ "6" ∷ "7" ∷ "8" ∷ "9" ∷ []) n ""

digits : ℕ → ℕ → String
unfolding digit
digits zero n = ""
digits (suc fuel) n =
    let rest = digits fuel (n / 10) in if ltb n 10 then digit n else rest ++ digit (n % 10)

unfoldable pub decimal : ℤ → String
unfolding digits
decimal (pos n) = digits 20 n
decimal (negsuc n) = "-" ++ digits 20 (n + 1)
