-- ===== src/Kernel/Engine/Batch.antt =====
-- A batch of requests is answered in its order.
use mathlib.Core.List.{append-nil}
use sydom.Base.{
  String, ◌≡◌, subst, refl, sym, ap, ◌∙◌, inl, inr, Bool, true, false, Option, none, some, List, [],
  ◌∷◌, ◌++◌, Result, ok, err, Bool-cases,
}
use sydom.Errors.{Error, not_ready}
use sydom.Kernel.Casbin.{Casbin, Applier}
use sydom.Kernel.Engine.{Engine, enforce_rows, batch_enforce}

module _ (C : Casbin) (A : Applier) where
  -- The enforcer answers one request after the other, all of them and no more.
  abbrev pub Answers : List (List String) → List Bool → C.State → C.State → Type 0
  Answers [] [] s s' = s ≡ s'
  Answers [] (b ∷ bs) s s' = ⊥
  Answers (r ∷ rs) [] s s' = ⊥
  Answers (r ∷ rs) (b ∷ bs) s s' =
      (s₁ : C.State) × (C.enforce r s ≡ (ok b, s₁)) × Answers rs bs s₁ s'

  enforce_rows-Answers :
      (rs : List (List String)) (before results : List Bool) (s s' : C.State)
      → enforce_rows C A rs before s ≡ ((results, none), s')
      → (bs : List Bool) × (results ≡ before ++ bs) × Answers rs bs s s'
  unfolding enforce_rows
  enforce_rows-Answers [] before results s s' h =
      ([], ap (λ m. m.0.0) (sym h) ∙ sym (append-nil before), ap (λ m. m.1) h)
  enforce_rows-Answers (r ∷ rs) before results s s' h =
      go (C.enforce r s) refl (λ b s₁. enforce_rows-Answers rs (before ++ b ∷ []) results s₁ s') h
    where
      go :
          (m : Result Error Bool × C.State)
          → C.enforce r s ≡ m
          → ((b : Bool) (s₁ : C.State)
              → enforce_rows C A rs (before ++ b ∷ []) s₁ ≡ ((results, none), s')
              → (bs : List Bool) × (results ≡ (before ++ b ∷ []) ++ bs) × Answers rs bs s₁ s')
          → (elim m.0 [
            | ok b ↦ enforce_rows C A rs (before ++ b ∷ []) m.1
            | err x ↦ ((before, some x), m.1)
          ])
            ≡ ((results, none), s')
          → (bs : List Bool) × (results ≡ before ++ bs) × Answers (r ∷ rs) bs s s'
      go (ok b, s₁) e ih h =
          let (bs, split, later) = ih b s₁ h in
          (b ∷ bs, split ∙ append_one before b bs, (s₁, e, later))
        where
          append_one :
              (xs : List Bool) (b : Bool) (ys : List Bool) → (xs ++ b ∷ []) ++ ys ≡ xs ++ b ∷ ys
          append_one [] b ys = refl
          append_one (x ∷ xs) b ys = ap (λ l. x ∷ l) (append_one xs b ys)
      go (err x, s₁) e ih h = absurd (some_err (ap (λ m. m.0.1) h))
        where
          some_err : {x : Error} → ◌≡◌ {A = Option Error} (some x) none → ⊥
          some_err h = cc

  -- A batch without an error comes from an engine that is ready, and has one answer for each
  -- request, in the order of the requests.
  pub batch_enforce-Answers :
      (e : Engine C A) (requests : List (List String)) (results : List Bool) (e' : Engine C A)
      → batch_enforce C A e requests ≡ ((results, none), e')
      → (e.ready ≡ true) × Answers requests results e.ce e'.ce
  unfolding batch_enforce
  batch_enforce-Answers e requests results e' h = elim (Bool-cases e.ready) [
    | inl on ↦ (on, answered (parts on h))
    | inr off ↦ absurd (refused off h)
  ]
    where
      refused : e.ready ≡ false → batch_enforce C A e requests ≡ ((results, none), e') → ⊥
      refused off h =
          let k : some not_ready ≡ none = sym (rw (off, batch_enforce) refl) ∙ ap (λ m. m.0.1) h in
          cc k

      parts :
          e.ready ≡ true
          → batch_enforce C A e requests ≡ ((results, none), e')
          → enforce_rows C A requests [] e.ce ≡ ((results, none), e'.ce)
      parts on h =
          sym (rw (on, batch_enforce) refl)
          ∙ ap {A = (List Bool × Option Error) × Engine C A}
              {B = (List Bool × Option Error) × C.State} (λ m. (m.0, m.1.ce)) h

      answered :
          enforce_rows C A requests [] e.ce ≡ ((results, none), e'.ce)
          → Answers requests results e.ce e'.ce
      answered h =
          let (bs, same, answers) = enforce_rows-Answers requests [] results e.ce e'.ce h in
          subst (λ bs. Answers requests bs e.ce e'.ce) (sym same) answers
