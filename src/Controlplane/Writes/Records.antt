-- ===== src/Controlplane/Writes/Records.antt =====
-- What a write leaves on record: the version, the audit and what is sent.
use sydom.Base.{
  String, ◌≡◌, refl, sym, subst, ap, ◌∙◌, inl, inr, Option, false, none, some, List, [], ◌∷◌, ◌++◌,
  ok, ok-injective, Bool-cases, ◌==◌,
}
use sydom.Base.Int.{ℤ, ℤ_eq}
use sydom.Kernel.Types.{Rule}
use sydom.Controlplane.Types.{DataPolicyChange, Delta}
use sydom.Controlplane.Store.{Database, Application, Audit, select, first_row, update_where}
use sydom.Controlplane.Store.Statements.{
  read_app_rules, audit_row, apply_diff, lock_app_version, version_of, bump_app_version,
}
use sydom.Controlplane.Diff.{diff}
use sydom.Controlplane.Projection.{project_app}
use sydom.Controlplane.Writes.{
  Driver, WriteOp, next_version, audit_diff, all_empty, run_versioned_write,
}
use sydom.Controlplane.Writes.Tables.{ruled-tables}
use sydom.Controlplane.Writes.Written.{sent, with_records, write_records-ok}
use sydom.Controlplane.Writes.Committed.{
  Outcome, silent_change, published, delta_of, published_tables, run_versioned_write-Outcome,
}

lock-bump :
    (app version v : ℤ) (db : Database)
    → lock_app_version app db ≡ ok v
    → lock_app_version app (bump_app_version app version db) ≡ ok version
unfolding lock_app_version bump_app_version
lock-bump app version v db h = go db.applications h
  where
    go :
        (xs : List Application)
        → version_of (first_row (select (λ (a : Application). a.id == app) xs)) ≡ ok v
        → version_of (
            first_row (
              select
                (λ (a : Application). a.id == app)
                (update_where
                  (λ (a : Application). a.id == app)
                  (λ (a : Application). record a { current_version = version })
                  xs)))
          ≡ ok version
    go [] h = cc
    go (a ∷ xs) h = elim (Bool-cases (a.id == app)) [
      | inl same ↦ rw (same, same)
      | inr other ↦ rw (other, other) (go xs (rw other at h))
    ]

-- What a write that came to a delta, or to none, has recorded since its mutation.
abbrev pub Recorded :
    Driver
    → String
    → ℤ
    → WriteOp
    → ℤ
    → List DataPolicyChange
    → Database
    → Option Delta
    → Database
    → Type 0
Recorded d operator app op cur changes mutated none after =
    (after ≡ mutated)
    × (changes ≡ [])
    × (diff (read_app_rules app mutated) (project_app app mutated) ≡ ([], []))
Recorded d operator app op cur changes mutated (some delta) after =
    (delta.app_id ≡ app)
    × (delta.version ≡ next_version cur)
    × (delta.data_changes ≡ changes)
    × (diff (read_app_rules app mutated) (project_app app mutated)
        ≡ (delta.rule_adds, delta.rule_removes))
    × (¬ ((delta.rule_adds ≡ []) × (delta.rule_removes ≡ []) × (delta.data_changes ≡ [])))
    × (lock_app_version app after ≡ ok (next_version cur))
    × (after.outbox ≡ mutated.outbox ++ sent d app delta)
    × (row : Audit) × (audit_row app operator op.action op.entity_type op.entity_id
          (audit_diff delta.rule_adds delta.rule_removes delta.data_changes) delta.version
        ≡ ok row)
    × (after.audits ≡ mutated.audits ++ row ∷ [])

all_empty-false :
    (adds removes : List Rule) (changes : List DataPolicyChange)
    → all_empty adds removes changes ≡ false
    → ¬ ((adds ≡ []) × (removes ≡ []) × (changes ≡ []))
all_empty-false [] [] [] h none_left = cc
all_empty-false [] [] (c ∷ cs) h (a, r, e) = cc
all_empty-false [] (r ∷ rs) cs h (a, e, c) = cc
all_empty-false (a ∷ adds) rs cs h (e, r, c) = cc

published-Recorded :
    (d : Driver) (operator : String) (app : ℤ) (op : WriteOp) (cur : ℤ)
    (rules : List Rule × List Rule) (changes : List DataPolicyChange) (db ruled after : Database)
    → lock_app_version app db ≡ ok cur
    → diff (read_app_rules app db) (project_app app db) ≡ rules
    → all_empty rules.0 rules.1 changes ≡ false
    → apply_diff app rules.0 rules.1 (next_version cur) db ≡ ok ruled
    → published_tables d operator app op cur rules changes ruled ≡ ok after
    → Recorded d operator app op cur changes db (some (delta_of app cur rules changes)) after
unfolding bump_app_version lock_app_version
published-Recorded d operator app op cur rules changes db ruled after kept differ some_change
      applied written =
    let delta = delta_of app cur rules changes in
    let (rows, e') = ruled-tables app (next_version cur) rules.0 rules.1 db applied in
    let (row, made, e) =
      write_records-ok d app operator op.action op.entity_type op.entity_id delta ruled written in
    let whole = e ∙ ap (with_records app (next_version cur) row (sent d app delta)) e' in
    (
      refl,
      refl,
      refl,
      differ,
      all_empty-false rules.0 rules.1 changes some_change,
      ap (lock_app_version app) whole ∙ lock-bump app (next_version cur) cur db kept,
      ap (λ (z : Database). z.outbox) whole,
      row,
      made,
      ap (λ (z : Database). z.audits) whole,
    )

-- A write that succeeds, and whose mutation leaves the application at the version where the write
-- found it, either publishes or records nothing. It publishes only a delta that is not empty: the
-- difference between the stored rules and those that the tables stand for, with the changes of
-- data policies; it takes the next version, writes one audit of the delta and, where there is a
-- sink, sends the delta once. It records nothing, and leaves the tables as the mutation left them,
-- only where that difference and those changes are empty.
pub run_versioned_write-Recorded :
    (d : Driver) (operator : String) (app : ℤ) (op : WriteOp) (before mutated : Database)
    (changes : List DataPolicyChange) (cur : ℤ) (o : Option Delta) (after : Database)
    → op.mutate before ≡ ok (changes, mutated)
    → lock_app_version app before ≡ ok cur
    → lock_app_version app mutated ≡ ok cur
    → run_versioned_write d operator app op before ≡ (ok o, after)
    → Recorded d operator app op cur changes mutated o after
run_versioned_write-Recorded d operator app op before mutated changes cur o after made locked kept
      h =
    go (
      subst (Outcome d operator app op before) h
        (run_versioned_write-Outcome d operator app op before))
  where
    same :
        {cs : List DataPolicyChange} {z : Database}
        → op.mutate before ≡ ok (cs, z)
        → (changes ≡ cs) × (mutated ≡ z)
    same made' = let e = ok-injective (sym made ∙ made') in (ap (λ p. p.0) e, ap (λ p. p.1) e)

    go :
        {o : Option Delta} {z : Database}
        → Outcome d operator app op before (ok o, z)
        → Recorded d operator app op cur changes mutated o z
    go (silent_change z passed made' differ) =
        let (c, m) = same made' in
        (
          sym m,
          c,
          subst (λ b. diff (read_app_rules app b) (project_app app b) ≡ ([], [])) (sym m) differ,
        )
    go
          (published cur' cs db ruled z rules locked' passed made' differ some_change applied
            written) =
        let (c, m) = same made' in
        let n = ok-injective (sym locked ∙ locked') in
        subst
          (λ k. Recorded d operator app op k changes mutated (some (delta_of app cur' rules cs)) z)
          (sym n)
          (subst
            (λ l. Recorded d operator app op cur' l mutated (some (delta_of app cur' rules cs)) z)
            (sym c)
            (subst (λ b. Recorded d operator app op cur' cs b (some (delta_of app cur' rules cs)) z)
              (sym m)
              (published-Recorded d operator app op cur' rules cs db ruled z
                (subst (λ b. lock_app_version app b ≡ ok cur') m (kept ∙ ap ok n)) differ
                some_change applied written)))
