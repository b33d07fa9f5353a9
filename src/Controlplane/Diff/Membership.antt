-- ===== src/Controlplane/Diff/Membership.antt =====
-- `Diff` is the difference of two sets, both ways.
use sydom.Base.{
  String, ◌≡◌, sym, subst, ap, ◌∙◌, ◌⊎◌, ◌↔◌, inl, inr, true, false, Bool-cases, none, some, List,
  [], ◌∷◌, ◌==◌, string_eq, All, In, All-In, Option-cases, arith,
}
use sydom.Base.Dict.{Dict, lookup, insert, lookup-insert}
use sydom.Kernel.Types.{Rule}
use sydom.Controlplane.Diff.{rule_key, index_rules, missing_from, diff}
use sydom.Controlplane.Diff.Keys.{IsPlain, rule_key-injective}

abbrev Entry : String → Rule → Dict String Rule → Type 0
Entry k r m = In (k, r) m

abbrev Found : String → Dict String Rule → Type 0
Found k m = (r : Rule) × (lookup k m ≡ some r)

Entry-lookup : (k : String) (m : Dict String Rule) {r : Rule} → lookup k m ≡ some r → Entry k r m
unfolding lookup
Entry-lookup k [] h = cc
Entry-lookup k ((j, s) ∷ m) {r} h = elim (Bool-cases (k == j)) [
  | inl same ↦ inl (entry_eq (ground arith) (ground arith))
  | inr differ ↦ inr (Entry-lookup k m (ground arith))
]
  where
    entry_eq : k ≡ j → r ≡ s → ◌≡◌ {A = String × Rule} (k, r) (j, s)
    entry_eq p q = λ i. (p i, q i)

Entry-insert :
    (k j : String) (r s : Rule) (m : Dict String Rule)
    → Entry k r (insert j s m)
    → ((k ≡ j) × (r ≡ s)) ⊎ Entry k r m
unfolding insert
Entry-insert k j r s [] (inl e) = inl (ap (λ p. p.0) e, ap (λ p. p.1) e)
Entry-insert k j r s [] (inr x) = absurd x
Entry-insert k j r s ((i, t) ∷ m) h = elim (Bool-cases (j == i)) [
  | inl same ↦ replaced (subst (Entry k r) (insert-same same) h)
  | inr differ ↦ kept (Entry-insert k j r s m) (subst (Entry k r) (insert-differ differ) h)
]
  where
    insert-same : (j == i) ≡ true → insert j s ((i, t) ∷ m) ≡ (j, s) ∷ m
    insert-same e = ground arith

    insert-differ : (j == i) ≡ false → insert j s ((i, t) ∷ m) ≡ (i, t) ∷ insert j s m
    insert-differ e = ground arith

    replaced : Entry k r ((j, s) ∷ m) → ((k ≡ j) × (r ≡ s)) ⊎ Entry k r ((i, t) ∷ m)
    replaced (inl e) = inl (ap (λ p. p.0) e, ap (λ p. p.1) e)
    replaced (inr old) = inr (inr old)

    kept :
        (Entry k r (insert j s m) → ((k ≡ j) × (r ≡ s)) ⊎ Entry k r m)
        → Entry k r ((i, t) ∷ insert j s m)
        → ((k ≡ j) × (r ≡ s)) ⊎ Entry k r ((i, t) ∷ m)
    kept ih (inl e) = inr (inl e)
    kept ih (inr later) = elim (ih later) [ inl new ↦ inl new | inr old ↦ inr (inr old) ]

Entry-index_rules :
    (rs : List Rule) (m : Dict String Rule) (k : String) (r : Rule)
    → Entry k r (index_rules rs m)
    → ((k ≡ rule_key r) × In r rs) ⊎ Entry k r m
unfolding index_rules
Entry-index_rules [] m k r h = inr h
Entry-index_rules (s ∷ rs) m k r h = elim (Entry-index_rules rs (insert (rule_key s) s m) k r h) [
  | inl (e, i) ↦ inl (e, inr i)
  | inr old ↦ elim (Entry-insert k (rule_key s) r s m old) [
    | inl (e, e') ↦ inl (e ∙ ap rule_key (sym e'), inl e')
    | inr older ↦ inr older
  ]
]

Found-insert : (k j : String) (s : Rule) (m : Dict String Rule) → Found k m → Found k (insert j s m)
Found-insert k j s m (r, h) = elim (Bool-cases (k == j)) [
  | inl same ↦ (s, lookup-insert k j s m ∙ rw same)
  | inr differ ↦ (r, lookup-insert k j s m ∙ rw differ h)
]

Found-index_rules_old :
    (rs : List Rule) (m : Dict String Rule) (k : String) → Found k m → Found k (index_rules rs m)
unfolding index_rules
Found-index_rules_old [] m k h = h
Found-index_rules_old (s ∷ rs) m k h =
    Found-index_rules_old rs (insert (rule_key s) s m) k (Found-insert k (rule_key s) s m h)

Found-index_rules :
    (rs : List Rule) (m : Dict String Rule) (r : Rule)
    → In r rs
    → Found (rule_key r) (index_rules rs m)
unfolding index_rules
Found-index_rules (s ∷ rs) m r (inl e) =
    Found-index_rules_old rs (insert (rule_key s) s m) (rule_key r)
      (s, lookup-insert (rule_key r) (rule_key s) s m ∙ ground (arith, ap rule_key e))
Found-index_rules (s ∷ rs) m r (inr i) = Found-index_rules rs (insert (rule_key s) s m) r i
Found-index_rules [] m r i = absurd i

missing_from-absent :
    (other m : Dict String Rule) (k : String) (s : Rule)
    → lookup k other ≡ none
    → missing_from other ((k, s) ∷ m) ≡ s ∷ missing_from other m
unfolding missing_from
missing_from-absent other m k s h = rw (h, missing_from)

missing_from-present :
    (other m : Dict String Rule) (k : String) (s : Rule) {t : Rule}
    → lookup k other ≡ some t
    → missing_from other ((k, s) ∷ m) ≡ missing_from other m
unfolding missing_from
missing_from-present other m k s h = rw (h, missing_from)

In-missing_from :
    (other m : Dict String Rule) (r : Rule)
    → In r (missing_from other m)
    → (k : String) × Entry k r m × (lookup k other ≡ none)
unfolding missing_from
In-missing_from other ((k, s) ∷ m) r h = elim (Option-cases (lookup k other)) [
  | inl absent ↦
      first (In-missing_from other m r) absent
        (subst (In r) (missing_from-absent other m k s absent) h)
  | inr (t, present) ↦
      let (j, e, l) =
        In-missing_from other m r (subst (In r) (missing_from-present other m k s present) h) in
      (j, inr e, l)
]
  where
    first :
        (In r (missing_from other m) → (k : String) × Entry k r m × (lookup k other ≡ none))
        → lookup k other ≡ none
        → In r (s ∷ missing_from other m)
        → (j : String) × Entry j r ((k, s) ∷ m) × (lookup j other ≡ none)
    first ih absent (inl e) = (k, inl (λ i. (k, e i)), absent)
    first ih absent (inr i) = let (j, e, l) = ih i in (j, inr e, l)
In-missing_from other [] r h = absurd h

missing_from-In :
    (other m : Dict String Rule) (k : String) (r : Rule)
    → Entry k r m
    → lookup k other ≡ none
    → In r (missing_from other m)
missing_from-In other ((j, s) ∷ m) k r (inl e) absent =
    subst (In r)
      (sym (
        missing_from-absent other m j s
          (subst (λ x. lookup x other ≡ none) (ap (λ p. p.0) e) absent)))
      (inl (ap (λ p. p.1) e))
missing_from-In other ((j, s) ∷ m) k r (inr i) absent = elim (Option-cases (lookup j other)) [
  | inl free ↦
      subst (In r) (sym (missing_from-absent other m j s free))
        (inr (missing_from-In other m k r i absent))
  | inr (t, present) ↦
      subst (In r) (sym (missing_from-present other m j s present))
        (missing_from-In other m k r i absent)
]
missing_from-In other [] k r i absent = absurd i

-- The rules of the first list whose keys the second lacks are those that the second lacks.
module _ (rs others : List Rule) (plain : All IsPlain rs) (plain' : All IsPlain others) where
  index-In : (k : String) (r : Rule) → Entry k r (index_rules rs []) → (k ≡ rule_key r) × In r rs
  index-In k r e = elim (Entry-index_rules rs [] k r e) [ inl known ↦ known | inr x ↦ absurd x ]

  difference_sound :
      (r : Rule)
      → In r (missing_from (index_rules others []) (index_rules rs []))
      → In r rs × ¬ In r others
  difference_sound r h =
      let (k, e, absent) = In-missing_from (index_rules others []) (index_rules rs []) r h in
      let (same, i) = index-In k r e in
      (
        i,
        λ there.
            let (t, found) = Found-index_rules others [] r there in
            let both : none ≡ some t =
              sym (subst (λ k. lookup k (index_rules others []) ≡ none) same absent) ∙ found in
            cc both,
      )

  difference_complete :
      (r : Rule)
      → In r rs
      → ¬ In r others
      → In r (missing_from (index_rules others []) (index_rules rs []))
  difference_complete r i absent =
      let (r', found) = Found-index_rules rs [] r i in
      let (keys, i') = index-In (rule_key r) r' (Entry-lookup _ _ found) in
      let same =
        rule_key-injective r r' (All-In IsPlain rs plain i) (All-In IsPlain rs plain i') keys in
      elim (Option-cases (lookup (rule_key r) (index_rules others []))) [
        | inl free ↦
            missing_from-In (index_rules others []) (index_rules rs []) (rule_key r) r
              (subst (λ x. Entry (rule_key r) x (index_rules rs [])) (sym same)
                (Entry-lookup _ _ found))
              free
        | inr (v, present) ↦ absurd (absent (clash v (Entry-lookup _ _ present)))
      ]
    where
      clash : (v : Rule) → Entry (rule_key r) v (index_rules others []) → In r others
      clash v e = elim (Entry-index_rules others [] (rule_key r) v e) [
        | inl (keys, j) ↦
            subst (λ x. In x others)
              (sym (
                rule_key-injective r v (All-In IsPlain rs plain i) (All-In IsPlain others plain' j)
                  keys))
              j
        | inr x ↦ absurd x
      ]

-- Under the separator's assumption `Diff` adds exactly the rules that are desired and not
-- current, and removes exactly those that are current and not desired.
pub diff_iff :
    (current desired : List Rule)
    → All IsPlain current
    → All IsPlain desired
    → (r : Rule)
    → (In r (diff current desired).0 ↔ (In r desired × ¬ In r current))
      × (In r (diff current desired).1 ↔ (In r current × ¬ In r desired))
unfolding diff
diff_iff current desired pc pd r = (
  (
    difference_sound desired current pd pc r,
    λ h. difference_complete desired current pd pc r h.0 h.1,
  ),
  (
    difference_sound current desired pc pd r,
    λ h. difference_complete current desired pc pd r h.0 h.1,
  ),
)
