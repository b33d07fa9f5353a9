-- ===== src/Kernel/Engine/Snapshots.antt =====
-- What a full load of the kernel gives.
use sydom.Base.{
  String, ◌≡◌, refl, subst, sym, ap, ◌∙◌, inl, inr, Bool, true, false, ◌&&◌, ◌||◌, not, Option,
  none, some, List, [], ◌∷◌, ◌==◌, string_eq, list_eq, contains, all, Bool-cases, arith,
}
use sydom.Errors.{Error}
use sydom.Kernel.Types.{Rule, domain_value, Snapshot}
use sydom.Kernel.Casbin.{Casbin, IsLawful, Applier}
use sydom.Kernel.Engine.{
  Engine, Outcome, returned, section_rows, add_section, next, commit, committed, applied, load_data,
  load_groups, rebuild, apply_snapshot,
}

pub g-ne-p : ◌==◌ {A = String} "g" "p" ≡ false
unfolding string_eq
g-ne-p = refl

pub all_intro {ℓ} :
    {T : Type ℓ} (p : T → Bool) (xs : List T) → ((x : T) → p x ≡ true) → all p xs ≡ true
all_intro p [] h = refl
all_intro p (x ∷ xs) h = rw (h x) (all_intro p xs h)

pub or_and-false : (x y : Bool) → x ≡ (x || y && false)
or_and-false x y = ground arith

-- The rows that an engine with exactly these rules holds.
abbrev pub row_of : List Rule → String → List String → Bool
row_of rules q row = (q == "p" || q == "g") && contains (section_rows q rules) row

row_of-sections :
    (rules : List Rule) (q : String) (row : List String)
    → (q == "p" && contains (section_rows "p" rules) row
        || q == "g" && contains (section_rows "g" rules) row)
      ≡ row_of rules q row
row_of-sections rules q row = ground arith

module _ (C : Casbin) (A : Applier) where
  pub returned-injective :
      {e e' : Engine C A} → ◌≡◌ {A = Outcome C A} (returned none e) (returned none e') → e ≡ e'
  returned-injective h = cc

  pub next-eq-none :
      (e : Engine C A) (m : Option Error × C.State) (k : C.State → Outcome C A) {e' : Engine C A}
      → next C A e m k ≡ returned none e'
      → (s : C.State) × (m ≡ (none, s)) × (k s ≡ returned none e')
  next-eq-none e (none, s) k h = (s, refl, h)
  next-eq-none e (some x, s) k h = cc

  pub applied-eq :
      (m : Option A.State) (k : A.State → Outcome C A) {e' : Engine C A}
      → applied C A m k ≡ returned none e'
      → (a : A.State) × (m ≡ some a) × (k a ≡ returned none e')
  applied-eq none k h = cc
  applied-eq (some a) k h = (a, refl, h)

  module _ (L : IsLawful C) where
    has-add_section :
        (p : String) (rows : List (List String)) (s s' : C.State) (q : String) (row : List String)
        → all (λ r. not (C.has p r s)) rows ≡ true
        → add_section C A p rows s ≡ (none, s')
        → C.has q row s' ≡ (C.has q row s || q == p && contains rows row)
    has-add_section p [] s s' q row fresh h = has-same (ap (λ p. p.1) h)
      where
        has-same : s ≡ s' → C.has q row s' ≡ (C.has q row s || q == p && false)
        has-same e = ap (C.has q row) (sym e) ∙ or_and-false (C.has q row s) (q == p)
    has-add_section p (r ∷ rs) s s' q row fresh h = L.has-add_fresh p (r ∷ rs) s s' q row fresh h

    -- What a snapshot leaves: its version and its data policies, the engine ready, and of rows
    -- exactly those of its rules, whatever was there before.
    abbrev pub Loaded : Snapshot → Engine C A → Engine C A → Type 0
    Loaded s e e' =
        (e'.version ≡ s.version)
        × (e'.ready ≡ true)
        × (e'.domain ≡ e.domain)
        × (A.apply_snapshot s.data_policies e.applier ≡ some e'.applier)
        × (all (λ r. domain_value r == e.domain) s.rules ≡ true)
        × ((q : String) (row : List String) → C.has q row e'.ce ≡ row_of s.rules q row)

    -- The rows after both sections are loaded into an empty enforcer.
    has-loaded :
        (ps gs : List (List String)) (c s₁ s₂ s₃ : C.State) (q : String) (row : List String)
        → add_section C A "p" ps (C.clear_policy c) ≡ (none, s₁)
        → add_section C A "g" gs s₁ ≡ (none, s₂)
        → C.invalidate_cache s₂ ≡ (none, s₃)
        → C.has q row s₃ ≡ (q == "p" && contains ps row || q == "g" && contains gs row)
    has-loaded ps gs c s₁ s₂ s₃ q row added_p added_g dropped =
        L.has-invalidate s₂ s₃ q row dropped
        ∙ has-add_section "g" gs s₁ s₂ q row (all_intro _ gs fresh_g) added_g
        ∙ ap (λ b. b || q == "g" && contains gs row) (only_p q row)
      where
        only_p : (q : String) (row : List String) → C.has q row s₁ ≡ (q == "p" && contains ps row)
        only_p q row =
            has-add_section "p" ps (C.clear_policy c) s₁ q row
              (all_intro _ ps (λ r. ap not (L.has-clear "p" r c))) added_p
            ∙ ap (λ b. b || q == "p" && contains ps row) (L.has-clear q row c)

        fresh_g : (r : List String) → not (C.has "g" r s₁) ≡ true
        fresh_g r = ap not (only_p "g" r ∙ ap (λ b. b && contains ps r) g-ne-p)

    rebuild-Loaded :
        (e : Engine C A) (s : Snapshot) (e' : Engine C A)
        → all (λ r. domain_value r == e.domain) s.rules ≡ true
        → rebuild C A e s ≡ returned none e'
        → Loaded s e e'
    rebuild-Loaded e s e' mine h =
        let (s₁, added_p, h₁) =
          next-eq-none e (add_section C A "p" (section_rows "p" s.rules) (C.clear_policy e.ce))
            (load_groups C A e s) h in
        let (s₂, added_g, h₂) =
          next-eq-none e (add_section C A "g" (section_rows "g" s.rules) s₁) (load_data C A e s)
            h₁ in
        let (a, loaded, h₃) =
          applied-eq (A.apply_snapshot s.data_policies e.applier)
            (λ a. commit C A e s.version true a s₂) h₂ in
        let (s₃, dropped, h₄) =
          next-eq-none (record e { applier = a }) (C.invalidate_cache s₂)
            (committed C A e s.version true a) h₃ in
        let same = returned-injective h₄ in
        subst (Loaded s e) same (
          refl,
          refl,
          refl,
          loaded,
          mine,
          λ q row.
              has-loaded (section_rows "p" s.rules) (section_rows "g" s.rules) e.ce s₁ s₂ s₃ q row
                added_p added_g dropped
              ∙ row_of-sections s.rules q row,
        )

    -- A load that returns no error leaves exactly the snapshot in the engine: its version, its
    -- data policies, and of rows those of its rules, all of the engine's domain.
    pub apply_snapshot-Loaded :
        (e : Engine C A) (s : Snapshot) (e' : Engine C A)
        → apply_snapshot C A e s ≡ returned none e'
        → Loaded s e e'
    unfolding apply_snapshot
    apply_snapshot-Loaded e s e' h =
        elim (Bool-cases (all (λ r. domain_value r == e.domain) s.rules)) [
          | inl mine ↦ rebuild-Loaded e s e' mine (rw (mine, apply_snapshot) at h)
          | inr foreign ↦ cc (rw (foreign, apply_snapshot) at h)
        ]
