-- ===== src/Kernel/Engine/Deltas.antt =====
-- What an incremental change makes of the kernel.
use sydom.Base.{
  String, ◌<◌, ◌≡◌, refl, subst, sym, ap, ◌∙◌, inl, inr, Bool, true, ◌&&◌, ◌||◌, not, Option, none,
  some, List, [], ◌∷◌, ◌==◌, string_eq, list_eq, all, leb, Bool-cases, arith,
}
use sydom.Errors.{Error}
use sydom.Kernel.Types.{
  Rule, values, ChangeOp, change_add, change_update, change_remove, change_other, PolicyChange,
  Delta,
}
use sydom.Kernel.Casbin.{Casbin, IsLawful, Applier}
use sydom.Kernel.Engine.{
  Engine, Outcome, returned, change_in_domain, commit, committed, add_rule, remove_rule, and_then,
  apply_policy_change, apply_policy_changes, apply_data_changes, change_data, change_rules,
  apply_delta,
}
use sydom.Kernel.Engine.Snapshots.{next-eq-none, applied-eq, returned-injective}

-- The row of a rule in its section.
abbrev pub is_row : Rule → String → List String → Bool
is_row r q row = (r.ptype == "p" || r.ptype == "g") && (q == r.ptype && row == values r)

-- Whether a row is held after a change, from whether it was before.
abbrev pub row_after : PolicyChange → String → List String → Bool → Bool
row_after pc q row before = elim pc.op [
  | change_add ↦ before || is_row pc.rule q row
  | change_remove ↦ before && not (is_row pc.rule q row)
  | change_update ↦ before && not (is_row pc.old_rule q row) || is_row pc.rule q row
  | change_other n ↦ before
]

abbrev pub row_after_all : List PolicyChange → String → List String → Bool → Bool
row_after_all [] q row before = before
row_after_all (pc ∷ pcs) q row before = row_after_all pcs q row (row_after pc q row before)

module _ (C : Casbin) (A : Applier) where
  and_then-eq-none :
      (m : Option Error × C.State) (k : C.State → Option Error × C.State) {s' : C.State}
      → and_then C A m k ≡ (none, s')
      → (s : C.State) × (m ≡ (none, s)) × (k s ≡ (none, s'))
  and_then-eq-none (none, s) k h = (s, refl, h)
  and_then-eq-none (some x, s) k h = absurd (some-ne-none_pair h)
    where
      some-ne-none_pair :
          {x : Error} {s s' : C.State} → ◌≡◌ {A = Option Error × C.State} (some x, s) (none, s') → ⊥
      some-ne-none_pair h = let e = ap (λ p. p.0) h in cc

  module _ (L : IsLawful C) where
    has-add_rule :
        (r : Rule) (s s' : C.State) (q : String) (row : List String)
        → add_rule C A r s ≡ (none, s')
        → C.has q row s' ≡ (C.has q row s || is_row r q row)
    unfolding add_rule
    has-add_rule r s s' q row h = elim (Bool-cases (r.ptype == "p")) [
      | inl p ↦
          let e = L.has-add_one "p" (values r) s s' q row (rw (p, add_rule) at h) in ground arith
      | inr other ↦ elim (Bool-cases (r.ptype == "g")) [
        | inl g ↦
            let e = L.has-add_one "g" (values r) s s' q row (rw (other, g, add_rule) at h) in
            ground arith
        | inr neither ↦
            let e : s ≡ s' = ap (λ m. m.1) (rw (other, neither, add_rule) at h) in ground arith
      ]
    ]

    has-remove_rule :
        (r : Rule) (s s' : C.State) (q : String) (row : List String)
        → remove_rule C A r s ≡ (none, s')
        → C.has q row s' ≡ (C.has q row s && not (is_row r q row))
    unfolding remove_rule
    has-remove_rule r s s' q row h = elim (Bool-cases (r.ptype == "p")) [
      | inl p ↦
          let e = L.has-remove_one "p" (values r) s s' q row (rw (p, remove_rule) at h) in
          ground arith
      | inr other ↦ elim (Bool-cases (r.ptype == "g")) [
        | inl g ↦
            let e = L.has-remove_one "g" (values r) s s' q row (rw (other, g, remove_rule) at h) in
            ground arith
        | inr neither ↦
            let e : s ≡ s' = ap (λ m. m.1) (rw (other, neither, remove_rule) at h) in ground arith
      ]
    ]

    has-apply_policy_change :
        (pc : PolicyChange) (s s' : C.State) (q : String) (row : List String)
        → apply_policy_change C A pc s ≡ (none, s')
        → C.has q row s' ≡ row_after pc q row (C.has q row s)
    unfolding apply_policy_change
    has-apply_policy_change pc s s' q row h = by_op pc.op refl
      where
        by_op : (op : ChangeOp) → pc.op ≡ op → C.has q row s' ≡ row_after pc q row (C.has q row s)
        by_op change_add e =
            rw e (has-add_rule pc.rule s s' q row (rw (e, apply_policy_change) at h))
        by_op change_remove e =
            rw e (has-remove_rule pc.rule s s' q row (rw (e, apply_policy_change) at h))
        by_op change_update e =
            let (s₁, removed, added) =
              and_then-eq-none (remove_rule C A pc.old_rule s) (add_rule C A pc.rule)
                (rw (e, apply_policy_change) at h) in
            rw e (
              has-add_rule pc.rule s₁ s' q row added
              ∙ ap (λ b. b || is_row pc.rule q row)
                  (has-remove_rule pc.old_rule s s₁ q row removed))
        by_op (change_other n) e =
            rw e (ap (C.has q row) (sym (ap (λ m. m.1) (rw (e, apply_policy_change) at h))))

    has-apply_policy_changes :
        (pcs : List PolicyChange) (s s' : C.State) (q : String) (row : List String)
        → apply_policy_changes C A pcs s ≡ (none, s')
        → C.has q row s' ≡ row_after_all pcs q row (C.has q row s)
    unfolding apply_policy_changes
    has-apply_policy_changes [] s s' q row h = ap (C.has q row) (sym (ap (λ m. m.1) h))
    has-apply_policy_changes (pc ∷ pcs) s s' q row h =
        let (s₁, first, rest) =
          and_then-eq-none (apply_policy_change C A pc s) (apply_policy_changes C A pcs) h in
        has-apply_policy_changes pcs s₁ s' q row rest
        ∙ ap (row_after_all pcs q row) (has-apply_policy_change pc s s₁ q row first)

    -- What a change leaves: a higher version, which is its own, the data policies and the rows
    -- after each of its changes in their order, and the rest of the engine as it was.
    abbrev pub Advanced : Delta → Engine C A → Engine C A → Type 0
    Advanced d e e' =
        (e.version < d.version)
        × (e'.version ≡ d.version)
        × (e'.ready ≡ e.ready)
        × (e'.domain ≡ e.domain)
        × (apply_data_changes C A d.data_changes e.applier ≡ some e'.applier)
        × (all (change_in_domain e.domain) d.policy_changes ≡ true)
        × ((q : String) (row : List String)
            → C.has q row e'.ce ≡ row_after_all d.policy_changes q row (C.has q row e.ce))

    change_rules-Advanced :
        (e : Engine C A) (d : Delta) (e' : Engine C A)
        → e.version < d.version
        → all (change_in_domain e.domain) d.policy_changes ≡ true
        → change_rules C A e d ≡ returned none e'
        → Advanced d e e'
    change_rules-Advanced e d e' newer mine h =
        let (s₁, changed, h₁) =
          next-eq-none C A e (apply_policy_changes C A d.policy_changes e.ce) (change_data C A e d)
            h in
        let (a, loaded, h₂) =
          applied-eq C A (apply_data_changes C A d.data_changes e.applier)
            (λ a. commit C A e d.version e.ready a s₁) h₁ in
        let (s₂, dropped, h₃) =
          next-eq-none C A (record e { applier = a }) (C.invalidate_cache s₁)
            (committed C A e d.version e.ready a) h₂ in
        let same = returned-injective C A h₃ in
        subst (Advanced d e) same (
          newer,
          refl,
          refl,
          refl,
          loaded,
          mine,
          λ q row.
              L.has-invalidate s₁ s₂ q row dropped
              ∙ has-apply_policy_changes d.policy_changes e.ce s₁ q row changed,
        )

    -- A change that returns no error has a version above the engine's, and does to the engine
    -- what its parts say.
    pub apply_delta-Advanced :
        (e : Engine C A) (d : Delta) (e' : Engine C A)
        → apply_delta C A e d ≡ returned none e'
        → Advanced d e e'
    unfolding apply_delta
    apply_delta-Advanced e d e' h = elim (Bool-cases (leb d.version e.version)) [
      | inl stale ↦ absurd (stale_refused (rw (stale, apply_delta) at h))
      | inr newer ↦ elim (Bool-cases (all (change_in_domain e.domain) d.policy_changes)) [
        | inl mine ↦
            change_rules-Advanced e d e' (ground arith) mine (rw (newer, mine, apply_delta) at h)
        | inr foreign ↦ absurd (stale_refused (rw (newer, foreign, apply_delta) at h))
      ]
    ]
      where
        stale_refused :
            {x : Error} {e e' : Engine C A}
            → ◌≡◌ {A = Outcome C A} (returned (some x) e) (returned none e')
            → ⊥
        stale_refused h = cc
