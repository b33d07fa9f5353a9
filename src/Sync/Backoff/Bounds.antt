-- ===== src/Sync/Backoff/Bounds.antt =====
-- The cap of a backoff: it doubles up to the maximum and never wraps.
use native.Mathlib.Omega.{pow_step}
use sydom.Base.{
  ℕ, zero, suc, ◌+◌, ◌*◌, ◌^◌, ◌/◌, ◌≤◌, ◌<◌, min, ◌≡◌, refl, ap, ◌∙◌, inl, inr, Bool, true, false,
  leb, Bool-cases, arith, if◌then◌else◌,
}
use sydom.Base.Int.{ℤ, pos, negsuc, double, half, lebℤ, to_uint64, to_int64}
use sydom.Sync.Backoff.{Backoff, new_backoff, grow, cap_for, next}

double-pos : (n : ℕ) → n * 2 < 2 ^ 63 → double (pos n) ≡ pos (n * 2)
unfolding double to_uint64 to_int64
double-pos n h = ground arith

pow-suc : (c t : ℕ) → c * 2 ^ suc t ≡ c * 2 * 2 ^ t
pow-suc c t = ap (λ p. c * p) (pow_step 2 t) ∙ ground arith

grow-last : (m c : ℕ) → c ≤ m → grow (pos m) 0 (pos c) ≡ pos c
unfolding grow lebℤ
grow-last m c h = ground arith

grow-full : (m t c : ℕ) → m / 2 ≤ c → grow (pos m) (suc t) (pos c) ≡ pos m
unfolding grow lebℤ half
grow-full m t c h = ground arith

grow-double :
    (m t c : ℕ)
    → c < m / 2
    → m < 2 ^ 63
    → grow (pos m) (suc t) (pos c) ≡ grow (pos m) t (pos (c * 2))
unfolding grow lebℤ half
grow-double m t c h k = elim (Bool-cases (leb (m / 2) c)) [
  | inl full ↦ absurd (omega (arith, leb_le (m / 2) c full))
  | inr more ↦ rw (more, double-pos c (omega arith), grow) refl
]
  where
    leb_le : (x y : ℕ) → leb x y ≡ true → x ≤ y
    leb_le x y e = ground arith

one_le_pow : (t : ℕ) → 1 ≤ 2 ^ t
one_le_pow zero = omega arith
one_le_pow (suc t) = omega (arith, pow_step 2 t, one_le_pow t)

factor_le : (c p : ℕ) → 1 ≤ p → c ≤ c * p
factor_le c zero h = absurd (omega arith)
factor_le c (suc p) h = ground arith

-- What the cap is to be: the maximum, or the doubled value where that is less; and one nanosecond
-- more at the most.
abbrev pub Doubled : ℕ → ℕ → ℕ → ℤ → Type 0
Doubled m c t z =
    (v : ℕ) × (z ≡ pos v) × (min m (c * 2 ^ t) ≤ v) × (v ≤ min m (c * 2 ^ t + 1)) × (c ≤ v)

grow-Doubled : (m t c : ℕ) → c ≤ m → m < 2 ^ 63 → Doubled m c t (grow (pos m) t (pos c))
grow-Doubled m zero c h k = (c, grow-last m c h, ground arith, ground arith, ground arith)
grow-Doubled m (suc t) c h k = elim (Bool-cases (leb (m / 2) c)) [
  | inl full ↦ (
    m,
    grow-full m t c (ground arith),
    ground arith,
    at_max (factor_le (c * 2) (2 ^ t) (one_le_pow t)) full,
    h,
  )
  | inr more ↦
      let (v, e, lo, hi, above) = grow-Doubled m t (c * 2) (ground arith) k in
      (
        v,
        grow-double m t c (ground arith) k ∙ e,
        ground (arith, pow-suc c t),
        ground (arith, pow-suc c t),
        ground arith,
      )
]
  where
    at_max : c * 2 ≤ c * 2 * 2 ^ t → leb (m / 2) c ≡ true → m ≤ min m (c * 2 ^ suc t + 1)
    at_max f full = let e = pow-suc c t in let g = halved full in omega (arith, e, f, g)
      where
        halved : leb (m / 2) c ≡ true → m ≤ c * 2 + 1
        halved full = ground arith

-- The durations kept are positive, and the first is not above the maximum.
abbrev pub IsReady : Backoff → Type 0
IsReady b =
    (i : ℕ) × (m : ℕ) × (b.initial ≡ pos i) × (b.max ≡ pos m) × (1 ≤ i) × (i ≤ m) × (m < 2 ^ 63)

abbrev pub IsInt64 : ℤ → Type 0
IsInt64 (pos n) = n < 2 ^ 63
IsInt64 (negsuc n) = n < 2 ^ 63

-- `x`, or the default where `x` is not positive.
chosen :
    (x : ℤ) (d : ℕ)
    → IsInt64 x
    → 1 ≤ d
    → d < 2 ^ 63
    → (n : ℕ) × ((if lebℤ x (pos 0) then pos d else x) ≡ pos n) × (1 ≤ n) × (n < 2 ^ 63)
unfolding lebℤ
chosen (pos zero) d h k l = (d, refl, k, l)
chosen (pos (suc n)) d h k l = (suc n, ground arith, omega arith, h)
chosen (negsuc n) d h k l = (d, refl, k, l)

leb-lebℤ : (i m : ℕ) {b : Bool} → leb i m ≡ b → lebℤ (pos i) (pos m) ≡ b
unfolding lebℤ
leb-lebℤ i m h = h

-- Whatever durations are configured, the backoff starts from a positive one that is not above a
-- maximum that is positive too.
pub new_backoff-IsReady :
    (initial max : ℤ) → IsInt64 initial → IsInt64 max → IsReady (new_backoff initial max)
unfolding new_backoff
new_backoff-IsReady initial max hi hm =
    let (i, ei, li, ui) = chosen initial 500000000 hi (omega arith) (omega arith) in
    let (m, em, lm, um) = chosen max 30000000000 hm (omega arith) (omega arith) in
    elim (Bool-cases (leb i m)) [
      | inl below ↦ (i, m, rw (ei, em, leb-lebℤ i m below) refl, em, li, le_of i m below, um)
      | inr above ↦ (m, m, rw (ei, em, leb-lebℤ i m above) refl, em, lm, omega arith, um)
    ]
  where
    le_of : (i m : ℕ) → leb i m ≡ true → i ≤ m
    le_of i m h = ground arith

-- The cap of each attempt, however many there were, is the minimum of the maximum and of the
-- initial duration times 2 to the attempt, in numbers that do not wrap, or one nanosecond more; it
-- is never below the initial duration.
pub cap_for-Doubled :
    (b : Backoff) (t : ℕ)
    → IsReady b
    → (i : ℕ) × (m : ℕ) × (b.initial ≡ pos i) × (b.max ≡ pos m) × Doubled m i t (cap_for b t)
unfolding cap_for
cap_for-Doubled b t (i, m, ei, em, li, le, um) =
    (i, m, ei, em, rw (ei, em) (grow-Doubled m t i le um))

above_zero : (v : ℕ) → 1 ≤ v → lebℤ (pos v) (pos 0) ≡ false
unfolding lebℤ
above_zero v h = ground arith

-- What rand.Int63n is known for: it panics for no positive bound, and stays in [0, n).
abbrev pub IsInt63n : (ℤ → ℤ) → Type 0
IsInt63n rng = (n : ℕ) → 1 ≤ n → (k : ℕ) × (rng (pos n) ≡ pos k) × (k < n)

-- The next duration to wait is at least 0 and below the maximum; afterwards the backoff is as
-- good as before, with one attempt more.
pub next-below_max :
    (rng : ℤ → ℤ) (b : Backoff)
    → IsInt63n rng
    → IsReady b
    → (k : ℕ) × (m : ℕ) × (b.max ≡ pos m)
      × ((next rng b).0 ≡ pos k)
      × (k < m)
      × IsReady (next rng b).1
      × ((next rng b).1.attempt ≡ suc b.attempt)
unfolding next
next-below_max rng b law (i, m, ei, em, li, le, um) =
    let (v, e, lo, hi, above) = grow-Doubled m b.attempt i le um in
    let (k, drawn, below) = law v (omega arith) in
    (
      k,
      m,
      em,
      drawn_as v k (initial_as (i, m, ei, em, li, le, um) ∙ e) drawn (omega arith),
      omega arith,
      (i, m, ei, em, li, le, um),
      refl,
    )
  where
    initial_as : (r : IsReady b) → cap_for b b.attempt ≡ grow (pos r.1) b.attempt (pos r.0)
    initial_as (i, m, ei, em, li, le, um) = rw (ei, em, cap_for) refl

    drawn_as :
        (v k : ℕ)
        → cap_for b b.attempt ≡ pos v
        → rng (pos v) ≡ pos k
        → 1 ≤ v
        → (if lebℤ (cap_for b b.attempt) (pos 0) then pos 0 else rng (cap_for b b.attempt)) ≡ pos k
    drawn_as v k capped drawn h = rw (capped, above_zero v h) drawn
