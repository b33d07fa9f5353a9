-- ===== src/Sync/Backoff.antt =====
-- backoff.go: the bounded exponential backoff. A Duration is an int64; the count of the attempts,
-- an int that would wrap after 2^63 of them, is a number here.
pub mod Bounds
mod Tests
use sydom.Base.{ℕ, zero, suc, Bool, not, if◌then◌else◌}
use sydom.Base.Int.{ℤ, pos, negsuc, double, half, lebℤ}

pub record Backoff : Type 0 where
  pub initial : ℤ
  pub max : ℤ
  pub attempt : ℕ

-- In nanoseconds: 500 ms and 30 s.
abbrev pub default_backoff_initial : ℤ
default_backoff_initial = pos 500000000

abbrev pub default_backoff_max : ℤ
default_backoff_max = pos 30000000000

unfoldable pub new_backoff : ℤ → ℤ → Backoff
unfolding lebℤ
new_backoff initial max =
    let i = if lebℤ initial (pos 0) then default_backoff_initial else initial in
    let m = if lebℤ max (pos 0) then default_backoff_max else max in
    record { initial = if not (lebℤ i m) then m else i; max = m; attempt = 0 }

-- `capFor` from its loop on, with the turns that are left and the value so far.
unfoldable pub grow : ℤ → ℕ → ℤ → ℤ
unfolding double half lebℤ
grow max zero capped = if not (lebℤ capped max) then max else capped
grow max (suc turns) capped =
    let further = grow max turns (double capped) in if lebℤ (half max) capped then max else further

unfoldable pub cap_for : Backoff → ℕ → ℤ
unfolding grow
cap_for b attempt = grow b.max attempt b.initial

-- The next duration, out of [0, cap), and the attempt counted; `rng` stands for rand.Int63n.
unfoldable pub next : (ℤ → ℤ) → Backoff → ℤ × Backoff
unfolding cap_for lebℤ
next rng b =
    let c = cap_for b b.attempt in
    let b' : Backoff = record b { attempt = suc b.attempt } in
    (if lebℤ c (pos 0) then pos 0 else rng c, b')

unfoldable pub reset : Backoff → Backoff
reset b = record b { attempt = 0 }
