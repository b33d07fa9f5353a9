-- ===== src/Controlplane/Writes/Rules.antt =====
-- What `ApplyDiff` makes of the table of rules.
use sydom.Base.{
  ◌≡◌, refl, sym, subst, ap, ◌∙◌, ◌⊎◌, inl, inr, ◌↔◌, Bool, true, false, ◌&&◌, not, List, [], ◌∷◌,
  ◌++◌, map, ◌==◌, ==_eq, ==_refl, string_eq, In, In-append, In-map, map-In, Bool-cases, Result, ok,
  err, ok-injective, require, ◌>>=◌, ◌>>◌, arith,
}
use sydom.Base.Int.{ℤ, ℤ_eq}
use sydom.Kernel.Types.{Rule}
use sydom.Controlplane.Store.{Database, CasbinRule, Failure, select}
use sydom.Controlplane.Store.Statements.{
  read_app_rules, same_rule, delete_rules, insert_rules, apply_diff,
}

same_rule-eq : (r s : Rule) → same_rule r s ≡ true → r ≡ s
same_rule-eq r s h = ground arith

same_rule_refl : (r : Rule) → same_rule r r ≡ true
same_rule_refl r = rw (
  ==_refl r.ptype,
  ==_refl r.v0,
  ==_refl r.v1,
  ==_refl r.v2,
  ==_refl r.v3,
  ==_refl r.v4,
  ==_refl r.v5,
)

pub In-select :
    {A : Type 0} (p : A → Bool) (xs : List A) (x : A)
    → In x (select p xs) ↔ (In x xs × (p x ≡ true))
In-select p [] x = (λ i. absurd i, λ h. h.0)
In-select p (y ∷ ys) x = elim (Bool-cases (p y)) [
  | inl kept ↦ rw kept (
    λ i. elim i [
      | inl e ↦ (inl e, subst (λ z. p z ≡ true) (sym e) kept)
      | inr i ↦ let (there, holds) = (In-select p ys x).0 i in (inr there, holds)
    ],
    λ h. elim h.0 [ inl e ↦ inl e | inr i ↦ inr ((In-select p ys x).1 (i, h.1)) ],
  )
  | inr gone ↦ rw gone (
    λ i. let (there, holds) = (In-select p ys x).0 i in (inr there, holds),
    λ h. elim h.0 [
      | inl e ↦ absurd (differ (sym gone ∙ subst (λ z. p z ≡ true) e h.1))
      | inr i ↦ (In-select p ys x).1 (i, h.1)
    ],
  )
]
  where
    differ : ¬ (◌≡◌ {A = Bool} false true)
    differ e = cc

-- The table has the rule, for the application.
abbrev pub Holds : ℤ → Rule → List CasbinRule → Type 0
Holds app r rows = (c : CasbinRule) × In c rows × (c.app_id ≡ app) × (c.rule ≡ r)

pub In-read_app_rules :
    (app : ℤ) (db : Database) (r : Rule)
    → In r (read_app_rules app db) ↔ Holds app r db.casbin_rules
unfolding read_app_rules
In-read_app_rules app db r = (
  λ i.
      let (c, there, e) = map-In (λ (c : CasbinRule). c.rule) r (select of_app db.casbin_rules) i in
      let (row, same) = (In-select of_app db.casbin_rules c).0 there in (c, row, ==_eq same, sym e),
  λ h.
      let (c, row, same, e) = h in
      subst (λ z. In z (map (λ (c : CasbinRule). c.rule) (select of_app db.casbin_rules))) e
        (In-map (λ (c : CasbinRule). c.rule) c (select of_app db.casbin_rules)
          ((In-select of_app db.casbin_rules c).1 (row, rw same (==_refl app)))),
)
  where
    of_app : CasbinRule → Bool
    of_app c = c.app_id == app

-- The row that a statement names.
unfoldable pub names : ℤ → Rule → CasbinRule → Bool
names app s c = c.app_id == app && same_rule c.rule s

and_true : (a b : Bool) → (a && b) ≡ true → (a ≡ true) × (b ≡ true)
and_true true b h = (refl, h)
and_true false b h = cc

pub names-true :
    (app : ℤ) (s : Rule) (c : CasbinRule)
    → (names app s c ≡ true) ↔ ((c.app_id ≡ app) × (c.rule ≡ s))
unfolding names
names-true app s c = (
  λ h.
      let (x, y) = and_true (c.app_id == app) (same_rule c.rule s) h in
      (==_eq x, same_rule-eq c.rule s y),
  λ h. simp (h.0, h.1, ==_refl app, same_rule_refl s),
)

not-true : (b : Bool) → (not b ≡ true) ↔ (¬ (b ≡ true))
not-true true = (λ h. cc, λ h. absurd (h refl))
not-true false = (λ h e. cc, λ h. refl)

Holds-spared :
    (app a : ℤ) (r s : Rule) (rows : List CasbinRule)
    → Holds a r (select (λ c. not (names app s c)) rows)
      ↔ (Holds a r rows × (¬ ((a ≡ app) × (r ≡ s))))
Holds-spared app a r s rows = (
  λ h.
      let (c, i, of_app, e) = h in
      let (row, spare) = (In-select (λ c. not (names app s c)) rows c).0 i in
      (
        (c, row, of_app, e),
        λ k. (not-true (names app s c)).0 spare ((names-true app s c).1 (of_app ∙ k.0, e ∙ k.1)),
      ),
  λ h.
      let (c, row, of_app, e) = h.0 in
      (
        c,
        (In-select (λ c. not (names app s c)) rows c).1 (
          row,
          (not-true (names app s c)).1 (λ named.
              let (x, y) = (names-true app s c).0 named in h.1 (sym of_app ∙ x, sym e ∙ y)),
        ),
        of_app,
        e,
      ),
)

-- Of the rules of an application those that are named go, and no others.
pub Holds-delete_rules :
    (app a : ℤ) (r : Rule) (rs : List Rule) (rows : List CasbinRule)
    → Holds a r (delete_rules app rs rows) ↔ (Holds a r rows × (¬ ((a ≡ app) × In r rs)))
unfolding delete_rules names
Holds-delete_rules app a r [] rows = (λ h. (h, λ k. k.1), λ h. h.0)
Holds-delete_rules app a r (s ∷ rs) rows =
    join_deletions (Holds-delete_rules app a r rs (select (λ c. not (names app s c)) rows))
      (Holds-spared app a r s rows)
  where
    join_deletions :
        {P Q R S T U : Type 0}
        → P ↔ (Q × (¬ (R × S)))
        → Q ↔ (T × (¬ (R × U)))
        → P ↔ (T × (¬ (R × (U ⊎ S))))
    join_deletions (f, g) (f', g') = (
      λ p.
          let (q, spare) = f p in
          let (t, spare') = f' q in
          (t, λ k. elim k.1 [ inl u ↦ spare' (k.0, u) | inr s ↦ spare (k.0, s) ]),
      λ h. g (g' (h.0, λ k. h.1 (k.0, inl k.1)), λ k. h.1 (k.0, inr k.1)),
    )

-- The inserted rules come to those of the application.
pub Holds-append_rule :
    (app version a : ℤ) (r s : Rule) (rows : List CasbinRule)
    → Holds a r (rows ++ record { app_id = app; rule = s; version = version } ∷ [])
      ↔ (Holds a r rows ⊎ ((a ≡ app) × (r ≡ s)))
Holds-append_rule app version a r s rows = (
  λ h.
      let (c, i, of_app, e) = h in
      elim ((In-append c rows (record { app_id = app; rule = s; version = version } ∷ [])).0 i) [
        | inl old ↦ inl (c, old, of_app, e)
        | inr new ↦ elim new [
          | inl same ↦ inr (
            sym of_app ∙ ap (λ (c : CasbinRule). c.app_id) same,
            sym e ∙ ap (λ (c : CasbinRule). c.rule) same,
          )
          | inr none_left ↦ absurd none_left
        ]
      ],
  λ h. elim h [
    | inl (c, i, of_app, e) ↦ (
      c,
      (In-append c rows (record { app_id = app; rule = s; version = version } ∷ [])).1 (inl i),
      of_app,
      e,
    )
    | inr (of_app, e) ↦ (
      record { app_id = app; rule = s; version = version },
      (In-append _ rows (record { app_id = app; rule = s; version = version } ∷ [])).1
          (inr (inl refl)),
      sym of_app,
      sym e,
    )
  ],
)

Holds-insert_rules :
    (app version a : ℤ) (r : Rule) (rs : List Rule) (rows : List CasbinRule) {out : List CasbinRule}
    → insert_rules app version rs rows ≡ ok out
    → Holds a r out ↔ (Holds a r rows ⊎ ((a ≡ app) × In r rs))
unfolding insert_rules
Holds-insert_rules app version a r [] rows h =
    subst (λ z. Holds a r z ↔ (Holds a r rows ⊎ ((a ≡ app) × ⊥))) (ok-injective h)
      (λ k. inl k, λ k. elim k [ inl k ↦ k | inr k ↦ absurd k.1 ])
Holds-insert_rules app version a r (s ∷ rs) rows h =
    join_insertions
      (Holds-insert_rules app version a r rs
        (rows ++ record { app_id = app; rule = s; version = version } ∷ []) (passed _ _ _ h))
      (Holds-append_rule app version a r s rows)
  where
    passed :
        (b : Bool) (e : Failure) (rest : Result Failure (List CasbinRule)) {out : List CasbinRule}
        → (require b e >> rest) ≡ ok out
        → rest ≡ ok out
    passed true e rest h = h
    passed false e rest h = cc

    join_insertions :
        {P Q R S T U : Type 0} → P ↔ (Q ⊎ (R × S)) → Q ↔ (T ⊎ (R × U)) → P ↔ (T ⊎ (R × (U ⊎ S)))
    join_insertions (f, g) (f', g') = (
      λ p. elim (f p) [
        | inl q ↦ elim (f' q) [ inl t ↦ inl t | inr (k, u) ↦ inr (k, inl u) ]
        | inr (k, s) ↦ inr (k, inr s)
      ],
      λ h. elim h [
        | inl t ↦ g (inl (g' (inl t)))
        | inr (k, us) ↦ elim us [ inl u ↦ g (inl (g' (inr (k, u)))) | inr s ↦ g (inr (k, s)) ]
      ],
    )

-- The table after a difference: the removed rules of the application are gone, the added ones are
-- there, and the rules of other applications are as they were.
pub Holds-apply_diff :
    (app a version : ℤ) (r : Rule) (adds removes : List Rule) (db : Database) {db' : Database}
    → apply_diff app adds removes version db ≡ ok db'
    → Holds a r db'.casbin_rules
      ↔ ((Holds a r db.casbin_rules × (¬ ((a ≡ app) × In r removes))) ⊎ ((a ≡ app) × In r adds))
unfolding apply_diff
Holds-apply_diff app a version r adds removes db {db'} h =
    go (insert_rules app version adds (delete_rules app removes db.casbin_rules)) refl h
  where
    go :
        (m : Result Failure (List CasbinRule))
        → insert_rules app version adds (delete_rules app removes db.casbin_rules) ≡ m
        → (m >>= λ rows. ok (record db { casbin_rules = rows })) ≡ ok db'
        → Holds a r db'.casbin_rules
          ↔ ((Holds a r db.casbin_rules × (¬ ((a ≡ app) × In r removes))) ⊎ ((a ≡ app) × In r adds))
    go (err e) made h = cc
    go (ok rows) made h =
        let (f, g) =
          Holds-insert_rules app version a r adds (delete_rules app removes db.casbin_rules) made in
        let (f', g') = Holds-delete_rules app a r removes db.casbin_rules in
        subst
          (λ (z : Database). Holds a r z.casbin_rules ↔ (
            (Holds a r db.casbin_rules × (¬ ((a ≡ app) × In r removes))) ⊎ ((a ≡ app) × In r adds)))
          (ok-injective h)
          (
            λ k. elim (f k) [ inl k ↦ inl (f' k) | inr k ↦ inr k ],
            λ k. elim k [ inl k ↦ g (inl (g' k)) | inr k ↦ g (inr k) ],
          )
