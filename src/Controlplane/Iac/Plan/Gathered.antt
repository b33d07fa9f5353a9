-- ===== src/Controlplane/Iac/Plan/Gathered.antt =====
-- What a plan's loop over sorted keys collects.
use sydom.Base.{
  String, ◌≡◌, refl, subst, ◌↔◌, ◌⊎◌, inl, inr, List, [], ◌∷◌, ◌++◌, In, In-append, sort_texts,
  In-sort_texts,
}
use sydom.Controlplane.Iac.{PlanItem}
use sydom.Controlplane.Iac.Plan.{gather}

pub In-gather :
    (f : String → List PlanItem) (x : PlanItem) (ks : List String)
    → In x (gather f ks)
    → (k : String) × In k ks × In x (f k)
unfolding gather
In-gather f x [] i = absurd i
In-gather f x (k ∷ ks) i = elim ((In-append x (f k) (gather f ks)).0 i) [
  | inl now ↦ (k, inl refl, now)
  | inr later ↦ let (j, there, made) = In-gather f x ks later in (j, inr there, made)
]

pub gather-In :
    (f : String → List PlanItem) (x : PlanItem) (k : String) (ks : List String)
    → In k ks
    → In x (f k)
    → In x (gather f ks)
unfolding gather
gather-In f x k [] i made = absurd i
gather-In f x k (j ∷ ks) (inl e) made =
    (In-append x (f j) (gather f ks)).1 (inl (subst (λ k. In x (f k)) e made))
gather-In f x k (j ∷ ks) (inr i) made =
    (In-append x (f j) (gather f ks)).1 (inr (gather-In f x k ks i made))

-- The loop over the sorted keys makes what the keys make.
pub In-gather_sorted :
    (f : String → List PlanItem) (x : PlanItem) (ks : List String)
    → In x (gather f (sort_texts ks)) ↔ ((k : String) × In k ks × In x (f k))
In-gather_sorted f x ks = (
  λ i.
      let (k, there, made) = In-gather f x (sort_texts ks) i in
      (k, (In-sort_texts k ks).0 there, made),
  λ s. gather-In f x s.0 (sort_texts ks) ((In-sort_texts s.0 ks).1 s.1) s.2,
)

-- The items that some key of the list makes.
abbrev pub Makes : (String → List PlanItem) → List String → PlanItem → Type 0
Makes f ks x = (k : String) × In k ks × In x (f k)

-- The loop over the stored keys, then the loop over the declared ones.
pub In-two_loops :
    (old new : String → List PlanItem) (stored declared : List String) (x : PlanItem)
    → In x (gather old (sort_texts stored) ++ gather new (sort_texts declared))
      ↔ (Makes old stored x ⊎ Makes new declared x)
In-two_loops old new stored declared x = (
  λ i.
      elim ((In-append x (gather old (sort_texts stored)) (gather new (sort_texts declared))).0 i) [
        | inl i ↦ inl ((In-gather_sorted old x stored).0 i)
        | inr i ↦ inr ((In-gather_sorted new x declared).0 i)
      ],
  λ made.
      (In-append x (gather old (sort_texts stored)) (gather new (sort_texts declared))).1
        (elim made [
          | inl m ↦ inl ((In-gather_sorted old x stored).1 m)
          | inr m ↦ inr ((In-gather_sorted new x declared).1 m)
        ]),
)

pub In-one : {x y : PlanItem} → In x (y ∷ []) → x ≡ y
In-one (inl e) = e
In-one (inr i) = absurd i
