-- ===== src/Sync/Convergence.antt =====
-- One round from the control plane to the sidecar: the difference, the message and the apply.
mod Tests
use sydom.Base.{
  ℕ, ◌<◌, String, ◌≡◌, refl, sym, subst, ap, ◌∙◌, ◌⊎◌, inl, inr, Bool, true, false, ◌&&◌, ◌||◌, not,
  none, some, List, [], ◌∷◌, ◌++◌, map, Result, ok, ◌==◌, string_eq, list_eq, contains, any, All,
  In, Bool-cases, get_or, arith, if◌then◌else◌,
}
use sydom.Errors.{Error}
use sydom.Kernel.Types.{Rule, cells, values, PolicyChange, Delta}
use sydom.Kernel.Types.Values.{get_or-values}
use sydom.Kernel.Casbin.{Casbin, IsLawful, Applier}
use sydom.Kernel.Engine.{Engine, Outcome, returned, section_rows, apply_delta}
use sydom.Kernel.Engine.Snapshots.{row_of}
use sydom.Kernel.Engine.Deltas.{is_row, row_after_all, apply_delta-Advanced}
use sydom.Controlplane.Types
use sydom.Controlplane.Translate.{delta_to_proto}
use sydom.Controlplane.Diff.{diff}
use sydom.Controlplane.Diff.Keys.{IsPlain}
use sydom.Controlplane.Diff.Membership.{diff_iff}
use sydom.Sync.Translate.{delta_from_proto}
use sydom.Sync.Translate.RoundTrip.{Named, added, removed, delta_from_proto-delta_to_proto}

any-eq-true :
    {A : Type 0} (p : A → Bool) (xs : List A) → any p xs ≡ true → (x : A) × In x xs × (p x ≡ true)
any-eq-true p [] h = cc
any-eq-true p (x ∷ xs) h = elim (Bool-cases (p x)) [
  | inl here ↦ (x, inl refl, here)
  | inr there ↦ let (y, i, k) = any-eq-true p xs (rw there at h) in (y, inr i, k)
]

In-any : {A : Type 0} (p : A → Bool) (xs : List A) {x : A} → In x xs → p x ≡ true → any p xs ≡ true
In-any p [] i h = absurd i
In-any p (y ∷ xs) (inl e) h = let k : p y ≡ true = subst (λ z. p z ≡ true) e h in rw k refl
In-any p (y ∷ xs) (inr i) h = let k = In-any p xs i h in ground arith

-- Whether some rule of the list stands behind a row.
abbrev any_row : List Rule → String → List String → Bool
any_row rules q row = any (λ r. is_row r q row) rules

row_of-any_row :
    (rules : List Rule) (q : String) (row : List String) → row_of rules q row ≡ any_row rules q row
unfolding section_rows
row_of-any_row [] q row = ground arith
row_of-any_row (r ∷ rules) q row = ground (arith, row_of-any_row rules q row)

row_after_all-removed :
    (rs : List Rule) (q : String) (row : List String) (before : Bool)
    → row_after_all (map removed rs ++ []) q row before ≡ (before && not (any_row rs q row))
row_after_all-removed [] q row before = ground arith
row_after_all-removed (r ∷ rs) q row before =
    row_after_all-removed rs q row (before && not (is_row r q row)) ∙ ground arith

row_after_all-added :
    (rs : List Rule) (rest : List PolicyChange) (q : String) (row : List String) (before : Bool)
    → row_after_all (map added rs ++ rest) q row before
      ≡ row_after_all rest q row (before || any_row rs q row)
row_after_all-added [] rest q row before = ap (row_after_all rest q row) (ground arith)
row_after_all-added (r ∷ rs) rest q row before =
    row_after_all-added rs rest q row (before || is_row r q row)
    ∙ ap (row_after_all rest q row) (ground arith)

-- A row comes from one rule only.
values-injective : (r s : Rule) → r.ptype ≡ s.ptype → values r ≡ values s → r ≡ s
values-injective r s p e = λ i. record {
  ptype = p i;
  v0 = cell 0 (omega arith) i;
  v1 = cell 1 (omega arith) i;
  v2 = cell 2 (omega arith) i;
  v3 = cell 3 (omega arith) i;
  v4 = cell 4 (omega arith) i;
  v5 = cell 5 (omega arith) i;
}
  where
    cell : (i : ℕ) → i < 6 → get_or (cells r) i "" ≡ get_or (cells s) i ""
    cell i h = sym (get_or-values r i h) ∙ ap (λ v. get_or v i "") e ∙ get_or-values s i h

is_row-injective :
    (r s : Rule) (q : String) (row : List String)
    → is_row r q row ≡ true
    → is_row s q row ≡ true
    → r ≡ s
is_row-injective r s q row h k = values-injective r s (ground arith) (ground arith)

module _ (current desired : List Rule) (pc : All IsPlain current) (pd : All IsPlain desired)
    (q : String) (row : List String) where
  abbrev additions : List Rule
  additions = (diff current desired).0

  abbrev removals : List Rule
  removals = (diff current desired).1

  abbrev after : Bool
  after = (any_row current q row || any_row additions q row) && not (any_row removals q row)

  no_removal : (r : Rule) → In r desired → is_row r q row ≡ true → any_row removals q row ≡ false
  no_removal r i h = elim (Bool-cases (any_row removals q row)) [
    | inl gone ↦
        let (s, j, k) = any-eq-true (λ s. is_row s q row) removals gone in
        let (_, undesired) = (diff_iff current desired pc pd s).1.0 j in
        absurd (undesired (subst (λ x. In x desired) (is_row-injective r s q row h k) i))
    | inr kept ↦ kept
  ]

  present_or_added :
      (r : Rule)
      → In r desired
      → is_row r q row ≡ true
      → (any_row current q row || any_row additions q row) ≡ true
  present_or_added r i h = elim (Bool-cases (any_row current q row)) [
    | inl held ↦ rw held refl
    | inr absent ↦
        let new : any_row additions q row ≡ true =
          In-any (λ s. is_row s q row) additions
            ((diff_iff current desired pc pd r).0.1
              (i, λ j. let k = In-any (λ s. is_row s q row) current j h in cc (sym k ∙ absent)))
            h in
        rw (absent, new) refl
  ]

  after-desired : any_row desired q row ≡ true → after ≡ true
  after-desired h =
      let (r, i, k) = any-eq-true (λ s. is_row s q row) desired h in
      let p = present_or_added r i k in let n = no_removal r i k in ground arith

  after-undesired : any_row desired q row ≡ false → after ≡ false
  after-undesired h = elim (Bool-cases (any_row current q row)) [
    | inl held ↦
        let (r, i, k) = any-eq-true (λ s. is_row s q row) current held in
        let gone =
          In-any (λ s. is_row s q row) removals
            ((diff_iff current desired pc pd r).1.1 (i, λ j. undesired r j k)) k in
        ground arith
    | inr absent ↦ elim (Bool-cases (any_row additions q row)) [
      | inl new ↦
          let (r, i, k) = any-eq-true (λ s. is_row s q row) additions new in
          absurd (undesired r ((diff_iff current desired pc pd r).0.0 i).0 k)
      | inr none_new ↦ ground arith
    ]
  ]
    where
      undesired : (r : Rule) → In r desired → is_row r q row ≡ true → ⊥
      undesired r i k = let found = In-any (λ s. is_row s q row) desired i k in cc (sym found ∙ h)

  after-eq : after ≡ any_row desired q row
  after-eq = elim (Bool-cases (any_row desired q row)) [
    | inl wanted ↦ after-desired wanted ∙ sym wanted
    | inr unwanted ↦ after-undesired unwanted ∙ sym unwanted
  ]

-- An engine that holds exactly the rows of the current rules, and accepts the change that is sent
-- for the difference to the desired ones, holds exactly the rows of the desired rules, if no cell
-- of a rule has the separator in it.
pub apply_delta-converges :
    (C : Casbin) (A : Applier) (L : IsLawful C) (current desired : List Rule) (sent : Types.Delta)
    (received : Delta) (e e' : Engine C A)
    → All IsPlain current
    → All IsPlain desired
    → (sent.rule_adds, sent.rule_removes) ≡ diff current desired
    → Named sent.data_changes
    → delta_from_proto (delta_to_proto sent) ≡ ok received
    → ((q : String) (row : List String) → C.has q row e.ce ≡ row_of current q row)
    → apply_delta C A e received ≡ returned none e'
    → (q : String) (row : List String) → C.has q row e'.ce ≡ row_of desired q row
apply_delta-converges C A L current desired sent received e e' pc pd diffed named arrived holds
      accepted q row =
    let (newer, version, ready, domain, loaded, mine, rows) =
      apply_delta-Advanced C A L e received e' accepted in
    let changes : received.policy_changes
        ≡ map added sent.rule_adds ++ (map removed sent.rule_removes ++ []) =
      sym (ok-changes (sym (delta_from_proto-delta_to_proto sent named) ∙ arrived)) in
    rows q row
    ∙ ap (λ pcs. row_after_all pcs q row (C.has q row e.ce)) changes
    ∙ row_after_all-added sent.rule_adds (map removed sent.rule_removes ++ []) q row
        (C.has q row e.ce)
    ∙ row_after_all-removed sent.rule_removes q row _
    ∙ ap (λ p. (C.has q row e.ce || any_row p.0 q row) && not (any_row p.1 q row)) diffed
    ∙ ap
        (λ b.
          (b || any_row (diff current desired).0 q row)
          && not (any_row (diff current desired).1 q row))
        (holds q row ∙ row_of-any_row current q row)
    ∙ after-eq current desired pc pd q row
    ∙ sym (row_of-any_row desired q row)
  where
    ok-changes :
        {d d' : Delta}
        → ◌≡◌ {A = Result Error Delta} (ok d) (ok d')
        → d.policy_changes ≡ d'.policy_changes
    ok-changes h = cc
