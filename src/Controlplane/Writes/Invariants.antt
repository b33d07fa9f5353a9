-- ===== src/Controlplane/Writes/Invariants.antt =====
-- What holds of the tables after every policy write that succeeds.
use sydom.Base.{
  String, ◌≡◌, refl, sym, subst, ap, ◌∙◌, inl, inr, ◌↔◌, Option, List, [], In, All, ok, err,
  ok-injective,
}
use sydom.Base.Int.{ℤ}
use sydom.Kernel.Types.{Rule}
use sydom.Controlplane.Types.{DataPolicyChange, Delta}
use sydom.Controlplane.Diff.{diff}
use sydom.Controlplane.Diff.Keys.{IsPlain}
use sydom.Controlplane.Diff.Membership.{diff_iff}
use sydom.Controlplane.Store.{Database}
use sydom.Controlplane.Store.Statements.{read_app_rules}
use sydom.Controlplane.Projection.{project_app}
use sydom.Controlplane.Writes.{Driver, WriteOp, Failed, run_versioned_write}
use sydom.Controlplane.Writes.Rules.{Holds, In-read_app_rules}
use sydom.Controlplane.Writes.Tables.{
  Synced, decide-In, published-rules, published-projection, Synced-apply_diff,
}
use sydom.Controlplane.Writes.Committed.{
  Outcome, rolled_back, silent_change, published, run_versioned_write-Outcome,
}

Synced-no_diff :
    (app : ℤ) (db : Database)
    → All IsPlain (read_app_rules app db)
    → All IsPlain (project_app app db)
    → diff (read_app_rules app db) (project_app app db) ≡ ([], [])
    → Synced app db
Synced-no_diff app db plain plain' same r =
    let current = read_app_rules app db in
    let desired = project_app app db in
    let (added, removed) =
      subst
        (λ (p : List Rule × List Rule).
          (In r p.0 ↔ (In r desired × ¬ In r current))
          × (In r p.1 ↔ (In r current × ¬ In r desired)))
        same (diff_iff current desired plain plain' r) in
    (
      λ old. elim (decide-In r desired) [
        | inl there ↦ there
        | inr gone ↦ absurd (removed.1 (old, gone))
      ],
      λ there. elim (decide-In r current) [
        | inl old ↦ old
        | inr new ↦ absurd (added.1 (there, new))
      ],
    )

-- After a write that succeeds the stored rules of the application are those that its tables stand
-- for, whatever they were before, where no cell of the mutated tables' rules holds the separator.
pub run_versioned_write-Synced :
    (d : Driver) (operator : String) (app : ℤ) (op : WriteOp) (before mutated : Database)
    (changes : List DataPolicyChange) (o : Option Delta) (after : Database)
    → op.mutate before ≡ ok (changes, mutated)
    → All IsPlain (read_app_rules app mutated)
    → All IsPlain (project_app app mutated)
    → run_versioned_write d operator app op before ≡ (ok o, after)
    → Synced app after
run_versioned_write-Synced d operator app op before mutated changes o after made plain plain' h =
    go (
      subst (Outcome d operator app op before) h
        (run_versioned_write-Outcome d operator app op before))
  where
    same_tables :
        {cs : List DataPolicyChange} {z : Database} → op.mutate before ≡ ok (cs, z) → mutated ≡ z
    same_tables made' = ap (λ p. p.1) (ok-injective (sym made ∙ made'))

    go :
        {o : Option Delta} {z : Database}
        → Outcome d operator app op before (ok o, z)
        → Synced app z
    go (silent_change after passed made' same) =
        let e = same_tables made' in
        Synced-no_diff app after (subst (λ z. All IsPlain (read_app_rules app z)) e plain)
          (subst (λ z. All IsPlain (project_app app z)) e plain') same
    go
          (published cur cs z ruled after rules locked passed made' differ some_change applied
            written) =
        λ r.
          let e = same_tables made' in
          let (f, g) =
            Synced-apply_diff app _ z ruled rules
              (subst (λ z. All IsPlain (read_app_rules app z)) e plain)
              (subst (λ z. All IsPlain (project_app app z)) e plain') differ applied r in
          let (i, j) = In-read_app_rules app after r in
          let rows = published-rules d operator app op cur rules cs ruled written in
          let same = published-projection d operator app op cur rules cs z ruled applied written in
          (
            λ k. subst (In r) (sym same) (f (subst (Holds app r) rows (i k))),
            λ k. j (subst (Holds app r) (sym rows) (g (subst (In r) same k))),
          )

-- A write that fails leaves every table as it was.
pub run_versioned_write-err :
    (d : Driver) (operator : String) (app : ℤ) (op : WriteOp) (before : Database) (e : Failed)
    (after : Database)
    → run_versioned_write d operator app op before ≡ (err e, after)
    → after ≡ before
run_versioned_write-err d operator app op before e after h = go (
    subst (Outcome d operator app op before) h
      (run_versioned_write-Outcome d operator app op before))
  where
    go : {e : Failed} {z : Database} → Outcome d operator app op before (err e, z) → z ≡ before
    go (rolled_back e) = refl
