-- ===== src/Sync/Backoff/Tests.antt =====
-- A backoff from 3 ns to 10 ns: 3, 6, 10, 10, …
use sydom.Base.{ℕ, suc, ◌≡◌, ◌<◌, refl, arith}
use sydom.Base.Int.{ℤ, pos, half, lebℤ}
use sydom.Sync.Backoff.{Backoff, cap_for, next}
use sydom.Sync.Backoff.Bounds.{IsReady, Doubled, cap_for-Doubled, IsInt63n, next-below_max}

abbrev short : Backoff
short = record { initial = pos 3; max = pos 10; attempt = 1 }

-- An odd maximum is reached one nanosecond early: 2 ns times 2 is below 5 ns.
early : cap_for (record { initial = pos 2; max = pos 5; attempt = 0 }) 1 ≡ pos 5
unfolding cap_for half lebℤ
early = refl

short-IsReady : IsReady short
short-IsReady = (3, 10, refl, refl, omega arith, omega arith, omega arith)

abbrev first_of : ℤ → ℤ
first_of n = pos 0

first_of-IsInt63n : IsInt63n first_of
first_of-IsInt63n n h = (0, refl, h)

cap_for-Doubled_example :
    (i : ℕ) × (m : ℕ) × (short.initial ≡ pos i)
    × (short.max ≡ pos m)
    × Doubled m i 2 (cap_for short 2)
cap_for-Doubled_example = cap_for-Doubled short 2 short-IsReady

next-below_max_example :
    (k : ℕ) × (m : ℕ) × (short.max ≡ pos m)
    × ((next first_of short).0 ≡ pos k)
    × (k < m)
    × IsReady (next first_of short).1
    × ((next first_of short).1.attempt ≡ suc short.attempt)
next-below_max_example = next-below_max first_of short first_of-IsInt63n short-IsReady
