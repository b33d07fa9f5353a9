-- ===== src/Controlplane/Projection/Reachable.antt =====
-- The roles that a role inherits from, directly or not.
use sydom.Base.{◌≡◌, sym, ap, inl, inr, List, [], ◌∷◌, ◌==◌, ==_eq, ==_ne, Bool-cases, In}
use sydom.Base.Int.{ℤ, ℤ_eq}
use sydom.Controlplane.Projection.{parents}

-- From a role to itself, and on along an edge from a child to its parent.
pub data Reach (es : List (ℤ × ℤ)) : ℤ → ℤ → Type 0 where
  stay : {a : ℤ} → Reach es a a
  step : {a b c : ℤ} → In (a, b) es → Reach es b c → Reach es a c

then_step : {es : List (ℤ × ℤ)} {a b c : ℤ} → Reach es a b → In (b, c) es → Reach es a c
then_step stay e = step e stay
then_step (step e' r) e = step e' (then_step r e)

pub Reach-trans : {es : List (ℤ × ℤ)} {a b c : ℤ} → Reach es a b → Reach es b c → Reach es a c
Reach-trans stay r = r
Reach-trans (step e p) r = step e (Reach-trans p r)

-- `adj[n]` holds the parents of `n`.
pub parents-In : (es : List (ℤ × ℤ)) (n p : ℤ) → In p (parents es n) → In (n, p) es
unfolding parents
parents-In [] n p i = absurd i
parents-In ((c, q) ∷ es) n p i = elim (Bool-cases (c == n)) [
  | inl same ↦ elim (rw same at i) [
    | inl e ↦ inl (pair_eq (sym (==_eq same)) e)
    | inr i ↦ inr (parents-In es n p i)
  ]
  | inr differ ↦ inr (parents-In es n p (rw differ at i))
]
  where
    pair_eq : n ≡ c → p ≡ q → ◌≡◌ {A = ℤ × ℤ} (n, p) (c, q)
    pair_eq a b = λ i. (a i, b i)

pub In-parents : (es : List (ℤ × ℤ)) (n p : ℤ) → In (n, p) es → In p (parents es n)
unfolding parents
In-parents [] n p i = absurd i
In-parents ((c, q) ∷ es) n p i = elim (Bool-cases (c == n)) [
  | inl same ↦
      rw same (elim i [ inl e ↦ inl (ap (λ x. x.1) e) | inr i ↦ inr (In-parents es n p i) ])
  | inr differ ↦ rw differ (elim i [
    | inl e ↦ absurd (==_ne differ (sym (ap (λ x. x.0) e)))
    | inr i ↦ In-parents es n p i
  ])
]
