-- ===== src/Kernel/Engine/FailClosed.antt =====
-- An engine in doubt denies.
use sydom.Base.{
  ℕ, String, ◌≡◌, refl, sym, ap, ◌∙◌, ◌⊎◌, inl, inr, Bool, true, false, Option, none, some, [], ◌∷◌,
  ok, ◌==◌, string_eq, all, leb, Bool-cases, arith,
}
use sydom.Errors.{Error}
use sydom.Kernel.Types.{domain_value, Delta, Snapshot}
use sydom.Kernel.Casbin.{Casbin, Applier}
use sydom.Kernel.Engine.{
  Engine, Outcome, returned, change_in_domain, section_rows, add_section, next, commit, committed,
  applied, load_data, load_groups, apply_snapshot, apply_policy_changes, apply_data_changes,
  change_data, apply_delta, enforce,
}

module _ (C : Casbin) (A : Applier) where
  -- A request is let through only by an engine that is ready, in the engine's domain, and where
  -- the enforcer lets it through.
  pub enforce_allows :
      (e : Engine C A) (sub dom obj act : String)
      → (enforce C A e sub dom obj act).0 ≡ ok true
      → (e.ready ≡ true)
        × (dom ≡ e.domain)
        × ((C.enforce (sub ∷ dom ∷ obj ∷ act ∷ []) e.ce).0 ≡ ok true)
  unfolding enforce
  enforce_allows e sub dom obj act h = ground arith

  -- What an error leaves: the engine as it was, or one that is not ready, of the same version
  -- and domain.
  abbrev pub Refused : Engine C A → Engine C A → Type 0
  Refused e e' = ((e' ≡ e) ⊎ (e'.ready ≡ false)) × (e'.version ≡ e.version) × (e'.domain ≡ e.domain)

  returned-some :
      {x y : Error} {e e' : Engine C A}
      → ◌≡◌ {A = Outcome C A} (returned (some x) e) (returned (some y) e')
      → e ≡ e'
  returned-some h = cc

  unchanged :
      {e e' : Engine C A} {x y : Error}
      → ◌≡◌ {A = Outcome C A} (returned (some y) e) (returned (some x) e')
      → Refused e e'
  unchanged h =
      let same = returned-some h in
      (inl (sym same), ap (λ e. e.version) (sym same), ap (λ e. e.domain) (sym same))

  next-Refused :
      (e₀ e : Engine C A) (m : Option Error × C.State) (k : C.State → Outcome C A) {x : Error}
      {e' : Engine C A}
      → e.version ≡ e₀.version
      → e.domain ≡ e₀.domain
      → ((s : C.State) → k s ≡ returned (some x) e' → Refused e₀ e')
      → next C A e m k ≡ returned (some x) e'
      → Refused e₀ e'
  next-Refused e₀ e (none, s) k v d later h = later s h
  next-Refused e₀ e (some y, s) k v d later h =
      let same = returned-some h in
      (
        inr (ap (λ e. e.ready) (sym same)),
        ap (λ e. e.version) (sym same) ∙ v,
        ap (λ e. e.domain) (sym same) ∙ d,
      )

  commit-Refused :
      (e : Engine C A) (version : ℕ) (ready : Bool) (a : A.State) (s : C.State) {x : Error}
      {e' : Engine C A}
      → commit C A e version ready a s ≡ returned (some x) e'
      → Refused e e'
  commit-Refused e version ready a s h =
      next-Refused e (record e { applier = a }) (C.invalidate_cache s)
        (committed C A e version ready a) refl refl (λ s' k. cc) h

  applied-Refused :
      (e : Engine C A) (version : ℕ) (ready : Bool) (m : Option A.State) (s : C.State) {x : Error}
      {e' : Engine C A}
      → applied C A m (λ a. commit C A e version ready a s) ≡ returned (some x) e'
      → Refused e e'
  applied-Refused e version ready none s h = cc
  applied-Refused e version ready (some a) s h = commit-Refused e version ready a s h

  -- A snapshot that fails leaves the engine as it was, or not ready; never a new version.
  pub apply_snapshot-Refused :
      (e : Engine C A) (s : Snapshot) (x : Error) (e' : Engine C A)
      → apply_snapshot C A e s ≡ returned (some x) e'
      → Refused e e'
  unfolding apply_snapshot
  apply_snapshot-Refused e s x e' h =
      elim (Bool-cases (all (λ r. domain_value r == e.domain) s.rules)) [
        | inl mine ↦
            next-Refused e e (add_section C A "p" (section_rows "p" s.rules) (C.clear_policy e.ce))
              (load_groups C A e s) refl refl
              (λ s₁.
                next-Refused e e (add_section C A "g" (section_rows "g" s.rules) s₁)
                  (load_data C A e s) refl refl
                  (λ s₂.
                    applied-Refused e s.version true (A.apply_snapshot s.data_policies e.applier)
                      s₂))
              (rw (mine, apply_snapshot) at h)
        | inr foreign ↦ unchanged (rw (foreign, apply_snapshot) at h)
      ]

  -- A change that fails leaves the engine as it was, or not ready; never a new version.
  pub apply_delta-Refused :
      (e : Engine C A) (d : Delta) (x : Error) (e' : Engine C A)
      → apply_delta C A e d ≡ returned (some x) e'
      → Refused e e'
  unfolding apply_delta
  apply_delta-Refused e d x e' h = elim (Bool-cases (leb d.version e.version)) [
    | inl stale ↦ unchanged (rw (stale, apply_delta) at h)
    | inr newer ↦ elim (Bool-cases (all (change_in_domain e.domain) d.policy_changes)) [
      | inl mine ↦
          next-Refused e e (apply_policy_changes C A d.policy_changes e.ce) (change_data C A e d)
            refl refl
            (λ s.
              applied-Refused e d.version e.ready (apply_data_changes C A d.data_changes e.applier)
                s)
            (rw (newer, mine, apply_delta) at h)
      | inr foreign ↦ unchanged (rw (newer, foreign, apply_delta) at h)
    ]
  ]
