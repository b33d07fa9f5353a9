-- ===== src/Controlplane/Writes/Success.antt =====
-- When a write succeeds, and when its difference can be stored.
use sydom.Base.{
  String, ◌≡◌, refl, subst, ap, ◌∙◌, inl, inr, true, Option, none, some, List, [], ◌∷◌, ◌++◌, map,
  any, In, In-map, All, Bool-cases, ok, require, ◌>>=◌, ◌>>◌,
}
use sydom.Base.Int.{ℤ}
use sydom.Kernel.Types.{Rule}
use sydom.Controlplane.Types.{DataPolicyChange, Delta}
use sydom.Controlplane.Diff.{diff, rule_key}
use sydom.Controlplane.Diff.Keys.{IsPlain}
use sydom.Controlplane.Diff.Membership.{diff_iff}
use sydom.Controlplane.Diff.Distinct.{Apart, diff-Apart}
use sydom.Controlplane.Store.{Database, CasbinRule, driver}
use sydom.Controlplane.Store.Statements.{
  read_app_rules, apply_diff, insert_rules, delete_rules, lock_app_version, bump_app_version,
  insert_audit,
}
use sydom.Controlplane.Projection.{project_app}
use sydom.Controlplane.Writes.{
  lock_row, run_check, run_mutation, read_projection, read_rules, write_rules, write_version,
  write_audit, asked, write_records, audit_diff, Driver, WriteOp, unclassed, classified, plain,
  settle, next_version, persist, all_empty, publish, settle_diff, reproject, transaction,
  run_versioned_write,
}
use sydom.Controlplane.Writes.Rules.{
  Holds, names, names-true, Holds-append_rule, Holds-delete_rules, In-read_app_rules,
}
use sydom.Controlplane.Writes.Committed.{delta_of, published_tables}
use sydom.Controlplane.Writes.Steady.{
  IsSteady, IsAuditable, insert_audit-done, persist-done, asked-done,
}

any-Holds :
    (app : ℤ) (r : Rule) (rows : List CasbinRule) → any (names app r) rows ≡ true → Holds app r rows
any-Holds app r [] h = cc
any-Holds app r (c ∷ rows) h = elim (Bool-cases (names app r c)) [
  | inl here ↦ let (of_app, e) = (names-true app r c).0 here in (c, inl refl, of_app, e)
  | inr later ↦
      let (c', i, of_app, e) = any-Holds app r rows (rw later at h) in (c', inr i, of_app, e)
]

-- Rules that the table lacks, with keys of their own, can be inserted.
insert_rules-ok :
    (app version : ℤ) (rs : List Rule) (rows : List CasbinRule)
    → Apart rs
    → ((r : Rule) → In r rs → ¬ Holds app r rows)
    → (out : List CasbinRule) × (insert_rules app version rs rows ≡ ok out)
unfolding insert_rules names
insert_rules-ok app version [] rows apart new = (rows, refl)
insert_rules-ok app version (r ∷ rs) rows (own, apart) new =
    let (out, done) =
      insert_rules-ok app version rs
        (rows ++ record { app_id = app; rule = r; version = version } ∷ []) apart
        (λ s i h. elim ((Holds-append_rule app version app s r rows).0 h) [
          | inl old ↦ new s (inr i) old
          | inr (_, same) ↦
              own (subst (λ z. In z (map rule_key rs)) (ap rule_key same) (In-map rule_key s rs i))
        ]) in
    elim (Bool-cases (any (names app r) rows)) [
      | inl there ↦ absurd (new r (inl refl) (any-Holds app r rows there))
      | inr free ↦ (out, rw free done)
    ]

apply_diff-ok :
    (app version : ℤ) (db : Database)
    → All IsPlain (read_app_rules app db)
    → All IsPlain (project_app app db)
    → (ruled : Database) × (apply_diff app
          (diff (read_app_rules app db) (project_app app db)).0
          (diff (read_app_rules app db) (project_app app db)).1
          version
          db
        ≡ ok ruled)
unfolding apply_diff
apply_diff-ok app version db plain_now plain_then =
    let current = read_app_rules app db in
    let desired = project_app app db in
    let rules = diff current desired in
    let (out, done) =
      insert_rules-ok app version rules.0 (delete_rules app rules.1 db.casbin_rules)
        (diff-Apart current desired)
        (λ r i h.
          let (old, _) = (Holds-delete_rules app app r rules.1 db.casbin_rules).0 h in
          let (added, _) = diff_iff current desired plain_now plain_then r in
          (added.0 i).1 ((In-read_app_rules app db r).1 old)) in
    (record db { casbin_rules = out }, rw done)

module _ (d : Driver) (operator : String) (app : ℤ) (op : WriteOp) (steady : IsSteady d)
    (fits : IsAuditable operator op.action op.entity_type op.entity_id) where
  written-done :
      (cur : ℤ) (rules : List Rule × List Rule) (changes : List DataPolicyChange) (ruled : Database)
      → (after : Database) × (published_tables d operator app op cur rules changes ruled ≡ ok after)
  unfolding write_records
  written-done cur rules changes ruled =
      let delta = delta_of app cur rules changes in
      let bumped = bump_app_version app delta.version ruled in
      let (audited, put) =
        insert_audit-done app operator op.action op.entity_type op.entity_id
          (audit_diff rules.0 rules.1 changes) delta.version bumped fits in
      let (after, sent) = persist-done d app delta audited steady in
      (
        after,
        ap
              (λ m. m >>= λ z.
                asked d write_audit (
                  insert_audit app operator op.action op.entity_type op.entity_id
                    (audit_diff rules.0 rules.1 changes) delta.version z)
                >>= λ z. persist d app delta z)
              (asked-done d write_version steady refl)
            ∙ ap (λ m. m >>= λ z. persist d app delta z) (asked-done d write_audit steady put)
            ∙ sent,
      )

  publish-ok :
      (cur : ℤ) (rules : List Rule × List Rule) (changes : List DataPolicyChange)
      (mutated ruled after : Database)
      → apply_diff app rules.0 rules.1 (next_version cur) mutated ≡ ok ruled
      → published_tables d operator app op cur rules changes ruled ≡ ok after
      → publish d operator app op.action op.entity_type op.entity_id
          (next_version cur)
          rules
          changes
          mutated
        ≡ ok (some (delta_of app cur rules changes), after)
  unfolding publish
  publish-ok cur rules changes mutated ruled after applied written =
      ap
        (λ m. plain m >>= λ ruled.
          plain (published_tables d operator app op cur rules changes ruled) >>= λ written.
          require d.commits (unclassed driver)
          >> ok (some (delta_of app cur rules changes), written))
        (asked-done d write_rules steady applied)
      ∙ ap
          (λ m. plain m >>= λ written.
            require d.commits (unclassed driver)
            >> ok (some (delta_of app cur rules changes), written))
          written
      ∙ ap (λ b. require b (unclassed driver) >> ok (some (delta_of app cur rules changes), after))
          steady.commits

  settle_diff-ok :
      (cur : ℤ) (rules : List Rule × List Rule) (changes : List DataPolicyChange)
      (mutated ruled : Database)
      → apply_diff app rules.0 rules.1 (next_version cur) mutated ≡ ok ruled
      → (o : Option Delta) × (z : Database) × (settle_diff d operator app op cur changes mutated
            rules
          ≡ ok (o, z))
  unfolding settle_diff
  settle_diff-ok cur rules changes mutated ruled applied =
      let (after, written) = written-done cur rules changes ruled in
      elim (Bool-cases (all_empty rules.0 rules.1 changes)) [
        | inl empty ↦ (none, mutated, rw (empty, steady.commits))
        | inr change ↦ (
          some (delta_of app cur rules changes),
          after,
          rw change (publish-ok cur rules changes mutated ruled after applied written),
        )
      ]

  reproject-ok :
      (cur : ℤ) (changes : List DataPolicyChange) (mutated : Database)
      → All IsPlain (read_app_rules app mutated)
      → All IsPlain (project_app app mutated)
      → (o : Option Delta) × (z : Database) × (reproject d operator app op cur changes mutated
          ≡ ok (o, z))
  unfolding reproject
  reproject-ok cur changes mutated plain_now plain_then =
      let (ruled, applied) = apply_diff-ok app (next_version cur) mutated plain_now plain_then in
      let (o, z, settled) =
        settle_diff-ok cur (diff (read_app_rules app mutated) (project_app app mutated)) changes
          mutated ruled applied in
      (o, z, rw (steady.answers read_projection) (rw (steady.answers read_rules) settled))

-- A write succeeds where the driver begins, answers every call, marshals and commits, the
-- application exists, the check and the mutation pass, the columns of the audit hold the operator
-- and the operation's texts, and no cell of the rules that are stored after the mutation, or that
-- the mutated tables stand for, has the separator in it.
pub run_versioned_write-ok :
    (d : Driver) (operator : String) (app : ℤ) (op : WriteOp) (before mutated : Database)
    (changes : List DataPolicyChange) (cur : ℤ)
    → IsSteady d
    → IsAuditable operator op.action op.entity_type op.entity_id
    → lock_app_version app before ≡ ok cur
    → op.pre_check before ≡ ok tt
    → op.mutate before ≡ ok (changes, mutated)
    → All IsPlain (read_app_rules app mutated)
    → All IsPlain (project_app app mutated)
    → (o : Option Delta) × (after : Database) × (run_versioned_write d operator app op before
        ≡ (ok o, after))
unfolding run_versioned_write transaction classified
run_versioned_write-ok d operator app op before mutated changes cur steady fits locked passed made
      plain_now plain_then =
    let (o, z, settled) =
      reproject-ok d operator app op steady fits cur changes mutated plain_now plain_then in
    (
      o,
      z,
      ap
            (λ b. settle before (
              require b (unclassed driver)
              >> (plain (asked d lock_row (lock_app_version app before)) >>= λ cur.
                  classified (asked d run_check (op.pre_check before))
                  >> (classified (asked d run_mutation (op.mutate before)) >>= λ done.
                      reproject d operator app op cur done.0 done.1))))
            steady.begins
          ∙ ap
              (λ m. settle before (
                plain m >>= λ cur.
                classified (asked d run_check (op.pre_check before))
                >> (classified (asked d run_mutation (op.mutate before)) >>= λ done.
                    reproject d operator app op cur done.0 done.1)))
              (asked-done d lock_row steady locked)
          ∙ ap
              (λ m. settle before (
                classified m
                >> (classified (asked d run_mutation (op.mutate before)) >>= λ done.
                    reproject d operator app op cur done.0 done.1)))
              (asked-done d run_check steady passed)
          ∙ ap
              (λ m.
                settle before
                  (classified m >>= λ done. reproject d operator app op cur done.0 done.1))
              (asked-done d run_mutation steady made)
          ∙ ap (settle before) settled,
    )
