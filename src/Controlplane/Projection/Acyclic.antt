-- ===== src/Controlplane/Projection/Acyclic.antt =====
-- The inheritance of an application's roles, and what the check makes sure of.
use sydom.Base.{
  ◌≡◌, refl, sym, subst, ap, ◌⊎◌, inl, inr, ◌↔◌, Bool, true, false, some, List, [], ◌∷◌, ◌++◌, ◌==◌,
  ==_eq, In, In-append, Bool-cases, ok, err,
}
use sydom.Base.Int.{ℤ, ℤ_eq}
use sydom.Controlplane.Store.{Database, inheritance_cycle}
use sydom.Controlplane.Projection.{edges, cycle_found, check_no_cycle}
use sydom.Controlplane.Projection.Reachable.{Reach, stay, step, Reach-trans}
use sydom.Controlplane.Projection.Search.{dfs-Reach}

-- No role inherits from itself.
abbrev pub IsAcyclic : List (ℤ × ℤ) → Type 0
IsAcyclic es = (a b : ℤ) → In (a, b) es → ¬ Reach es b a

-- The check either passes, and the new parent does not reach the child, or it fails with the
-- cycle, and the parent does reach the child.
pub check_no_cycle-Reach :
    (app child parent : ℤ) (db : Database)
    → ((check_no_cycle app child parent db ≡ ok tt) × (¬ Reach (edges app db) parent child))
      ⊎ ((check_no_cycle app child parent db ≡ err inheritance_cycle)
          × Reach (edges app db) parent child)
unfolding check_no_cycle
check_no_cycle-Reach app child parent db = elim (Bool-cases (child == parent)) [
  | inl same ↦ inr (rw same, subst (Reach (edges app db) parent) (sym (==_eq same)) stay)
  | inr differ ↦
      let (r, done, verdict) = dfs-Reach (edges app db) child parent in
      rw (differ, done) (go r verdict)
]
  where
    go :
        (r : Bool × List ℤ)
        → (r.0 ≡ true) ↔ Reach (edges app db) parent child
        → ((cycle_found (some r) ≡ ok tt) × (¬ Reach (edges app db) parent child))
          ⊎ ((cycle_found (some r) ≡ err inheritance_cycle) × Reach (edges app db) parent child)
    go (true, w) v = inr (refl, v.0 refl)
    go (false, w) v = inl (refl, λ reach. contradiction (v.1 reach))
      where
        contradiction : ◌≡◌ {A = Bool} false true → ⊥
        contradiction e = cc

-- A path over one more edge avoids the edge, or comes to it and goes on from it.
one_more :
    (es : List (ℤ × ℤ)) (child parent x y : ℤ)
    → Reach (es ++ (child, parent) ∷ []) x y
    → Reach es x y ⊎ (Reach es x child × Reach es parent y)
one_more es child parent x y stay = inl stay
one_more es child parent x y (step {b = m} i r) =
    elim ((In-append (x, m) es ((child, parent) ∷ [])).0 i) [
      | inl old ↦ elim (one_more es child parent m y r) [
        | inl path ↦ inl (step old path)
        | inr (there, on) ↦ inr (step old there, on)
      ]
      | inr new ↦ elim new [
        | inl e ↦ elim (one_more es child parent m y r) [
          | inl path ↦ inr (
            subst (λ z. Reach es x z) (ap (λ p. p.0) e) stay,
            subst (λ z. Reach es z y) (ap (λ p. p.1) e) path,
          )
          | inr (there, on) ↦ inr (subst (λ z. Reach es x z) (ap (λ p. p.0) e) stay, on)
        ]
        | inr none_left ↦ absurd none_left
      ]
    ]

-- An edge whose parent does not reach the child closes no cycle.
pub edge-IsAcyclic :
    (es : List (ℤ × ℤ)) (child parent : ℤ)
    → IsAcyclic es
    → ¬ Reach es parent child
    → IsAcyclic (es ++ (child, parent) ∷ [])
edge-IsAcyclic es child parent acyclic apart a b i r =
    elim ((In-append (a, b) es ((child, parent) ∷ [])).0 i) [
      | inl old ↦ elim (one_more es child parent b a r) [
        | inl path ↦ acyclic a b old path
        | inr (there, on) ↦ apart (Reach-trans on (step old there))
      ]
      | inr new ↦ elim new [
        | inl e ↦
            closing (subst (λ z. Reach (es ++ (child, parent) ∷ []) z a) (ap (λ p. p.1) e) r)
              (ap (λ p. p.0) e)
        | inr none_left ↦ absurd none_left
      ]
    ]
  where
    closing : Reach (es ++ (child, parent) ∷ []) parent a → a ≡ child → ⊥
    closing r e =
        elim (one_more es child parent parent child
          (subst (Reach (es ++ (child, parent) ∷ []) parent) e r)) [
            | inl path ↦ apart path
            | inr (there, on) ↦ apart there
          ]
