-- ===== src/Controlplane/Projection/Search.antt =====
-- The depth-first search ends within its depth, and tells whether the role is reached.
use sydom.Base.{
  ℕ, zero, suc, ◌+◌, ◌<◌, ◌≤◌, ◌≡◌, ◌≢◌, refl, sym, subst, ◌∙◌, ◌⊎◌, inl, inr, Bool, true, false,
  Option, none, some, List, [], ◌∷◌, ◌==◌, ==_eq, ==_ne, if◌then◌else◌, contains, In,
  In-of_contains, contains-of_In, Bool-cases, length, In-map, map, ◌↔◌, arith,
}
use sydom.Base.Int.{ℤ, ℤ_eq}
use sydom.Controlplane.Projection.{parents, after_visit, scan, dfs, depth}
use sydom.Controlplane.Projection.Reachable.{Reach, stay, step, parents-In, In-parents}

abbrev Sub : List ℤ → List ℤ → Type 0
Sub v w = (x : ℤ) → In x v → In x w

-- What a search that found nothing leaves: it visited the roles of `ns`, none of what it visited
-- is the child, and the parents of each role are visited too.
record Clean (es : List (ℤ × ℤ)) (child : ℤ) (ns v w : List ℤ) : Type 0 where
  visits : (x : ℤ) → In x ns → In x w
  closed : (x : ℤ) → In x w → In x v ⊎ ((y : ℤ) → In (x, y) es → In y w)
  avoids : (x : ℤ) → In x w → In x v ⊎ (x ≢ child)

data Outcome (es : List (ℤ × ℤ)) (child : ℤ) (ns v : List ℤ) : Bool × List ℤ → Type 0 where
  found :
      (n : ℤ) (w : List ℤ) → In n ns → Reach es n child → Sub v w → Outcome es child ns v (true, w)
  clean : (w : List ℤ) → Clean es child ns v w → Sub v w → Outcome es child ns v (false, w)

-- A call that ends, and well.
abbrev Ends : List (ℤ × ℤ) → ℤ → List ℤ → List ℤ → Option (Bool × List ℤ) → Type 0
Ends es child ns v o = (r : Bool × List ℤ) × (o ≡ some r) × Outcome es child ns v r

none-ne-some : {r : Bool × List ℤ} → ¬ (◌≡◌ {A = Option (Bool × List ℤ)} none (some r))
none-ne-some e = cc

outcome_of :
    {es : List (ℤ × ℤ)} {child : ℤ} {ns v : List ℤ} {r : Bool × List ℤ}
    → Ends es child ns v (some r)
    → Outcome es child ns v r
outcome_of {es} {child} {ns} {v} (r', same, out) =
    subst (Outcome es child ns v) (sym (some-injective same)) out
  where
    some-injective :
        {a b : Bool × List ℤ} → ◌≡◌ {A = Option (Bool × List ℤ)} (some a) (some b) → a ≡ b
    some-injective e = cc

-- How many of the roles are not visited.
fresh : List ℤ → List ℤ → ℕ
fresh [] v = 0
fresh (u ∷ us) v = (if contains v u then 0 else 1) + fresh us v

fresh-le : (us v w : List ℤ) → Sub v w → fresh us w ≤ fresh us v
unfolding fresh
fresh-le [] v w s = omega arith
fresh-le (u ∷ us) v w s = elim (Bool-cases (contains v u)) [
  | inl old ↦
      rw (old, contains-of_In w u (s u (In-of_contains v u old))) (omega (arith, fresh-le us v w s))
  | inr new ↦ ground (arith, fresh-le us v w s)
]

fresh-lt : (us v : List ℤ) (n : ℤ) → In n us → contains v n ≡ false → fresh us (n ∷ v) < fresh us v
unfolding fresh
fresh-lt (u ∷ us) v n (inl e) new =
    let h = fresh-le us v (n ∷ v) (λ x i. inr i) in
    let there : contains (n ∷ v) u ≡ true = contains-of_In (n ∷ v) u (inl (sym e)) in
    rw (there, subst (λ z. contains v z ≡ false) e new) (omega (arith, h))
fresh-lt (u ∷ us) v n (inr i) new =
    let rest = fresh-lt us v n i new in
    elim (Bool-cases (contains v u)) [
      | inl old ↦
          rw (contains-of_In (n ∷ v) u (inr (In-of_contains v u old)), old) (omega (arith, rest))
      | inr free ↦ elim (Bool-cases (contains (n ∷ v) u)) [
        | inl now ↦ rw (now, free) (omega (arith, rest))
        | inr still ↦ rw (still, free) (omega (arith, rest))
      ]
    ]
fresh-lt [] v n i new = absurd i

fresh-le_length : (us : List ℤ) → fresh us [] ≤ length us
unfolding fresh
fresh-le_length [] = omega arith
fresh-le_length (u ∷ us) = omega (arith, fresh-le_length us)

module _ (es : List (ℤ × ℤ)) (child : ℤ) where
  -- The rest of a scan, after the first role was visited to no avail.
  after_first :
      (n : ℤ) (ns v w : List ℤ) (r : Bool × List ℤ)
      → Clean es child (n ∷ []) v w
      → Sub v w
      → Outcome es child ns w r
      → Outcome es child (n ∷ ns) v r
  after_first n ns v w r c s (found m w' i reach s') =
      found m w' (inr i) reach (λ x i. s' x (s x i))
  after_first n ns v w r c s (clean w' c' s') =
      clean w'
        (record {
          visits = λ x i. elim i [ inl e ↦ s' x (c.visits x (inl e)) | inr i ↦ c'.visits x i ];
          closed = λ x i. elim (c'.closed x i) [
            | inr up ↦ inr up
            | inl i ↦ elim (c.closed x i) [ inl i ↦ inl i | inr up ↦ inr (λ y e. s' y (up y e)) ]
          ];
          avoids = λ x i. elim (c'.avoids x i) [ inr other ↦ inr other | inl i ↦ c.avoids x i ];
        })
        (λ x i. s' x (s x i))

  on_first :
      (n : ℤ) (ns v : List ℤ) (o : Option (Bool × List ℤ)) (rest : List ℤ → Option (Bool × List ℤ))
      → Ends es child (n ∷ []) v o
      → ((w : List ℤ) → Sub v w → Ends es child ns w (rest w))
      → Ends es child (n ∷ ns) v (after_visit o rest)
  unfolding after_visit
  on_first n ns v none rest (r, same, out) ends = absurd (none-ne-some same)
  on_first n ns v (some (true, w)) rest e ends = elim (outcome_of e) [
    | found m w' (inl here) reach s ↦ ((true, w), refl, found m w (inl here) reach s)
    | found m w' (inr i) reach s ↦ absurd i
  ]
  on_first n ns v (some (false, w)) rest e ends = continue (outcome_of e)
    where
      continue : Outcome es child (n ∷ []) v (false, w) → Ends es child (n ∷ ns) v (rest w)
      continue (clean w' c s) =
          let (r, same, out) = ends w s in (r, same, after_first n ns v w r c s out)

  scan-Ends :
      (visit : ℤ → List ℤ → Option (Bool × List ℤ)) (ns v : List ℤ)
      → ((m : ℤ) (w : List ℤ) → In m ns → Sub v w → Ends es child (m ∷ []) w (visit m w))
      → Ends es child ns v (scan visit ns v)
  unfolding scan
  scan-Ends visit [] v h = (
    (false, v),
    refl,
    clean v (record { visits = λ x i. absurd i; closed = λ x i. inl i; avoids = λ x i. inl i })
        (λ x i. i),
  )
  scan-Ends visit (n ∷ ns) v h =
      on_first n ns v (visit n v) (λ w. scan visit ns w) (h n v (inl refl) (λ x i. i))
        (λ w s. scan-Ends visit ns w (λ m u i t. h m u (inr i) (λ x j. t x (s x j))))

  -- A scan of the parents of a role, as a visit of the role.
  visited :
      (n : ℤ) (v : List ℤ) (r : Bool × List ℤ)
      → n ≢ child
      → Outcome es child (parents es n) (n ∷ v) r
      → Outcome es child (n ∷ []) v r
  visited n v r other (found m w i reach s) =
      found n w (inl refl) (step (parents-In es n m i) reach) (λ x i. s x (inr i))
  visited n v r other (clean w c s) =
      clean w
        (record {
          visits = λ x i. elim i [ inl e ↦ s x (inl e) | inr i ↦ absurd i ];
          closed = λ x i. elim (c.closed x i) [
            | inr up ↦ inr up
            | inl i ↦ elim i [
              | inl e ↦
                  inr (λ y edge. c.visits y (In-parents es n y (subst (λ z. In (z, y) es) e edge)))
              | inr i ↦ inl i
            ]
          ];
          avoids = λ x i. elim (c.avoids x i) [
            | inr far ↦ inr far
            | inl i ↦ elim i [ inl e ↦ inr (λ same. other (sym e ∙ same)) | inr i ↦ inl i ]
          ];
        })
        (λ x i. s x (inr i))

  dfs-Ends :
      (all : List ℤ)
      → ((x y : ℤ) → In (x, y) es → In y all)
      → (fuel : ℕ) (n : ℤ) (v : List ℤ) → In n all
      → fresh all v < fuel
      → Ends es child (n ∷ []) v (dfs es child fuel n v)
  unfolding dfs
  dfs-Ends all in_all zero n v i few = absurd (omega arith)
  dfs-Ends all in_all (suc fuel) n v i few = elim (Bool-cases (n == child)) [
    | inl same ↦
        rw same
          ((true, v), refl, found n v (inl refl) (subst (Reach es n) (==_eq same) stay) (λ x i. i))
    | inr differ ↦ elim (Bool-cases (contains v n)) [
      | inl old ↦
          rw (differ, old)
            (
              (false, v),
              refl,
              clean v
                  (record {
                    visits = λ x i. elim i [
                      | inl e ↦ subst (λ z. In z v) (sym e) (In-of_contains v n old)
                      | inr i ↦ absurd i
                    ];
                    closed = λ x i. inl i;
                    avoids = λ x i. inl i;
                  })
                  (λ x i. i),
            )
      | inr new ↦
          let less = fresh-lt all v n i new in
          let (r, same, out) = scan-Ends (dfs es child fuel) (parents es n) (n ∷ v) (λ m w at s.
            dfs-Ends all in_all fuel m w (in_all n m (parents-In es n m at))
              (omega (arith, less, fresh-le all (n ∷ v) w s))) in
          rw (differ, new) (r, same, visited n v r (==_ne differ) out)
    ]
  ]

-- Where a set of visited roles is closed, what is reached from one of them is one of them.
stays-In :
    (es : List (ℤ × ℤ)) (w : List ℤ) (a b : ℤ)
    → ((x : ℤ) → In x w → (y : ℤ) → In (x, y) es → In y w)
    → Reach es a b
    → In a w
    → In b w
stays-In es w a b closed stay i = i
stays-In es w a b closed (step {b = m} e r) i = stays-In es w m b closed r (closed a i m e)

heads : List (ℤ × ℤ) → List ℤ
heads es = map (λ (e : ℤ × ℤ). e.1) es

-- From no visited role the search comes to its end within its depth, and finds the child exactly
-- if the child is reached along the edges.
pub dfs-Reach :
    (es : List (ℤ × ℤ)) (child n : ℤ)
    → (r : Bool × List ℤ) × (dfs es child (depth es) n [] ≡ some r)
      × ((r.0 ≡ true) ↔ Reach es n child)
unfolding heads
dfs-Reach es child n =
    let (r, same, out) =
      dfs-Ends es child (n ∷ heads es) (λ x y i. inr (In-map (λ (e : ℤ × ℤ). e.1) (x, y) es i))
        (depth es) n [] (inl refl) (omega (arith, fresh-le_length (n ∷ heads es), length-map es)) in
    (r, same, verdict out)
  where
    length-map : (es : List (ℤ × ℤ)) → length (map (λ (e : ℤ × ℤ). e.1) es) ≡ length es
    length-map [] = refl
    length-map (e ∷ es) = omega (arith, length-map es)

    verdict : {r : Bool × List ℤ} → Outcome es child (n ∷ []) [] r → (r.0 ≡ true) ↔ Reach es n child
    verdict (found m w (inl e) reach s) = (λ h. subst (λ z. Reach es z child) e reach, λ h. refl)
    verdict (found m w (inr i) reach s) = absurd i
    verdict (clean w c s) = (
      λ h. cc,
      λ reach.
          let there =
            stays-In es w n child (λ x i. now x (c.closed x i)) reach (c.visits n (inl refl)) in
          elim (c.avoids child there) [ inl i ↦ absurd i | inr other ↦ absurd (other refl) ],
    )
      where
        now :
            (x : ℤ) → In x [] ⊎ ((y : ℤ) → In (x, y) es → In y w) → (y : ℤ) → In (x, y) es → In y w
        now x (inl i) = absurd i
        now x (inr up) = up
