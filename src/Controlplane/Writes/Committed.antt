-- ===== src/Controlplane/Writes/Committed.antt =====
-- What a policy write comes to, on every branch.
use sydom.Base.{
  String, ◌≡◌, refl, subst, ◌∙◌, inl, inr, Bool, true, false, Option, none, some, List, [], ◌∷◌,
  Bool-cases, Result, ok, err, require, ◌>>=◌, ◌>>◌,
}
use sydom.Base.Int.{ℤ}
use sydom.Kernel.Types.{Rule}
use sydom.Controlplane.Types.{DataPolicyChange, Delta}
use sydom.Controlplane.Diff.{diff}
use sydom.Controlplane.Store.{Database, Failure, driver}
use sydom.Controlplane.Store.Statements.{read_app_rules, apply_diff, lock_app_version}
use sydom.Controlplane.Projection.{project_app}
use sydom.Controlplane.Writes.{
  Call, Driver, asked, write_records, write_rules, read_projection, read_rules, run_check,
  run_mutation, lock_row, WriteOp, Failed, unclassed, classified, plain, settle, next_version,
  all_empty, publish, settle_diff, reproject, transaction, run_versioned_write,
}

-- The delta of a write.
abbrev pub delta_of : ℤ → ℤ → List Rule × List Rule → List DataPolicyChange → Delta
delta_of app cur rules changes = record {
  app_id = app;
  version = next_version cur;
  rule_adds = rules.0;
  rule_removes = rules.1;
  data_changes = changes;
}

-- The tables after a write that is published, from those with the new rules.
abbrev pub published_tables :
    Driver
    → String
    → ℤ
    → WriteOp
    → ℤ
    → List Rule × List Rule
    → List DataPolicyChange
    → Database
    → Result Failure Database
published_tables d operator app op cur rules changes ruled =
    write_records d operator app op.action op.entity_type op.entity_id
      (delta_of app cur rules changes) ruled

pub asked-ok :
    {A : Type 0} (d : Driver) (call : Call) (r : Result Failure A) {a : A}
    → asked d call r ≡ ok a
    → r ≡ ok a
asked-ok {A = A} d call r {a} h = elim (Bool-cases (d.answers call)) [
  | inl answered ↦ rw answered at h
  | inr silent ↦ absurd (failed (rw silent at h))
]
  where
    failed : ¬ (◌≡◌ {A = Result Failure A} (err driver) (ok a))
    failed e = cc

all_empty-true :
    (adds removes : List Rule) (changes : List DataPolicyChange)
    → all_empty adds removes changes ≡ true
    → (adds ≡ []) × (removes ≡ []) × (changes ≡ [])
all_empty-true [] [] [] h = (refl, refl, refl)
all_empty-true [] [] (c ∷ cs) h = cc
all_empty-true [] (r ∷ rs) cs h = cc
all_empty-true (a ∷ adds) rs cs h = cc

module _ (d : Driver) (operator : String) (app : ℤ) (op : WriteOp) (before : Database) where
  -- A write fails and leaves the tables as they were; or it changes nothing that is sent, and
  -- leaves what the mutation left; or it publishes the difference.
  pub data Outcome : Result Failed (Option Delta) × Database → Type 0 where
    rolled_back : (e : Failed) → Outcome (err e, before)
    silent_change :
        (after : Database)
        → op.pre_check before ≡ ok tt
        → op.mutate before ≡ ok ([], after)
        → diff (read_app_rules app after) (project_app app after) ≡ ([], [])
        → Outcome (ok none, after)
    published :
        (cur : ℤ) (changes : List DataPolicyChange) (mutated ruled after : Database)
        (rules : List Rule × List Rule)
        → lock_app_version app before ≡ ok cur
        → op.pre_check before ≡ ok tt
        → op.mutate before ≡ ok (changes, mutated)
        → diff (read_app_rules app mutated) (project_app app mutated) ≡ rules
        → all_empty rules.0 rules.1 changes ≡ false
        → apply_diff app rules.0 rules.1 (next_version cur) mutated ≡ ok ruled
        → published_tables d operator app op cur rules changes ruled ≡ ok after
        → Outcome (ok (some (delta_of app cur rules changes)), after)

  after_commit :
      (c : Bool) (o : Option Delta) (after : Database)
      → Outcome (ok o, after)
      → Outcome (settle before (require c (unclassed driver) >> ok (o, after)))
  after_commit true o after out = out
  after_commit false o after out = rolled_back (unclassed driver)

  after_answer :
      (b : Bool) (m : Result Failed (Option Delta × Database))
      → Outcome (settle before m)
      → Outcome (settle before (require b (unclassed driver) >> m))
  after_answer true m out = out
  after_answer false m out = rolled_back (unclassed driver)

  module _ (cur : ℤ) (changes : List DataPolicyChange) (mutated : Database)
      (locked : lock_app_version app before ≡ ok cur) (passed : op.pre_check before ≡ ok tt)
      (made : op.mutate before ≡ ok (changes, mutated)) where
    after_publish :
        (rules : List Rule × List Rule)
        → diff (read_app_rules app mutated) (project_app app mutated) ≡ rules
        → all_empty rules.0 rules.1 changes ≡ false
        → Outcome (
            settle before (
              publish d operator app op.action op.entity_type op.entity_id
                (next_version cur)
                rules
                changes
                mutated))
    unfolding publish
    after_publish rules differ some_change =
        on_rules (asked d write_rules (apply_diff app rules.0 rules.1 (next_version cur) mutated))
          refl
      where
        on_tables :
            (ruled : Database)
            → apply_diff app rules.0 rules.1 (next_version cur) mutated ≡ ok ruled
            → (m : Result Failure Database)
            → published_tables d operator app op cur rules changes ruled ≡ m
            → Outcome (
                settle before (
                  plain m >>= λ written.
                  require d.commits (unclassed driver)
                  >> ok (some (delta_of app cur rules changes), written)))
        on_tables ruled applied (err e) written = rolled_back (unclassed e)
        on_tables ruled applied (ok after) written =
            after_commit d.commits (some (delta_of app cur rules changes)) after (
              published cur changes mutated ruled after rules locked passed made differ some_change
                applied written)

        on_rules :
            (m : Result Failure Database)
            → asked d write_rules (apply_diff app rules.0 rules.1 (next_version cur) mutated) ≡ m
            → Outcome (
                settle before (
                  plain m >>= λ ruled.
                  plain (published_tables d operator app op cur rules changes ruled) >>= λ written.
                  require d.commits (unclassed driver)
                  >> ok (some (delta_of app cur rules changes), written)))
        on_rules (err e) applied = rolled_back (unclassed e)
        on_rules (ok ruled) applied =
            on_tables ruled
              (asked-ok d write_rules (apply_diff app rules.0 rules.1 (next_version cur) mutated)
                applied)
              (published_tables d operator app op cur rules changes ruled) refl

    after_diff :
        (rules : List Rule × List Rule)
        → diff (read_app_rules app mutated) (project_app app mutated) ≡ rules
        → Outcome (settle before (settle_diff d operator app op cur changes mutated rules))
    unfolding settle_diff
    after_diff rules differ = elim (Bool-cases (all_empty rules.0 rules.1 changes)) [
      | inl empty ↦
          let (a, r, c) = all_empty-true rules.0 rules.1 changes empty in
          rw empty (
            after_commit d.commits none mutated (
              silent_change mutated passed (subst (λ z. op.mutate before ≡ ok (z, mutated)) c made)
                (differ ∙ (λ i. (a i, r i)))))
      | inr some_change ↦ rw some_change (after_publish rules differ some_change)
    ]

    after_mutation : Outcome (settle before (reproject d operator app op cur changes mutated))
    unfolding reproject
    after_mutation = after_answer (d.answers read_projection) _ (
        after_answer (d.answers read_rules) _
          (after_diff (diff (read_app_rules app mutated) (project_app app mutated)) refl))

  after_lock :
      (cur : ℤ)
      → lock_app_version app before ≡ ok cur
      → Outcome (
          settle before (
            classified (asked d run_check (op.pre_check before))
            >> (classified (asked d run_mutation (op.mutate before)) >>= λ done.
                reproject d operator app op cur done.0 done.1)))
  unfolding classified
  after_lock cur locked = checked (asked d run_check (op.pre_check before)) refl
    where
      mutated :
          op.pre_check before ≡ ok tt
          → (m : Result Failure (List DataPolicyChange × Database))
          → asked d run_mutation (op.mutate before) ≡ m
          → Outcome (
              settle before
                (classified m >>= λ done. reproject d operator app op cur done.0 done.1))
      mutated passed (err e) made = rolled_back _
      mutated passed (ok (changes, db)) made =
          after_mutation cur changes db locked passed
            (asked-ok d run_mutation (op.mutate before) made)

      checked :
          (c : Result Failure (Unit {0}))
          → asked d run_check (op.pre_check before) ≡ c
          → Outcome (
              settle before (
                classified c
                >> (classified (asked d run_mutation (op.mutate before)) >>= λ done.
                    reproject d operator app op cur done.0 done.1)))
      checked (err e) passed = rolled_back _
      checked (ok u) passed =
          mutated (asked-ok d run_check (op.pre_check before) passed)
            (asked d run_mutation (op.mutate before)) refl

  after_begin :
      (b : Bool)
      → Outcome (
          settle before (
            require b (unclassed driver)
            >> (plain (asked d lock_row (lock_app_version app before)) >>= λ cur.
                classified (asked d run_check (op.pre_check before))
                >> (classified (asked d run_mutation (op.mutate before)) >>= λ done.
                    reproject d operator app op cur done.0 done.1))))
  after_begin false = rolled_back (unclassed driver)
  after_begin true = go (asked d lock_row (lock_app_version app before)) refl
    where
      go :
          (m : Result Failure ℤ)
          → asked d lock_row (lock_app_version app before) ≡ m
          → Outcome (
              settle before (
                plain m >>= λ cur.
                classified (asked d run_check (op.pre_check before))
                >> (classified (asked d run_mutation (op.mutate before)) >>= λ done.
                    reproject d operator app op cur done.0 done.1)))
      go (err e) locked = rolled_back (unclassed e)
      go (ok cur) locked = after_lock cur (asked-ok d lock_row (lock_app_version app before) locked)

  pub run_versioned_write-Outcome : Outcome (run_versioned_write d operator app op before)
  unfolding run_versioned_write transaction
  run_versioned_write-Outcome = after_begin d.begins
