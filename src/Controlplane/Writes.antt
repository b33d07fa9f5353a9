-- ===== src/Controlplane/Writes.antt =====
-- policy/manager.go: the transactions that all policy writes go through. A transaction is a
-- function of the tables, and one that fails leaves them as they were. What the operator's context
-- holds, and whether the driver begins, commits and marshals, are given from outside.
pub mod Operations
pub mod Bulk
pub mod Templates
pub mod Rules
pub mod Committed
pub mod Written
pub mod Tables
pub mod Invariants
pub mod Records
pub mod Inheritance
pub mod Steady
pub mod Success
mod Tests
mod Runs
use sydom.Base.{
  ℕ, ◌+◌, ◌%◌, String, Bool, true, false, ◌&&◌, Option, none, some, List, [], ◌∷◌, ◌++◌,
  if◌then◌else◌, Result, ok, err, require, ◌>>=◌, ◌>>◌,
}
use sydom.Base.Int.{ℤ, to_uint64, to_int64, uint64_mod}
use sydom.Kernel.Types.{Rule}
use sydom.Wire
use sydom.Controlplane.Types.{DataPolicyChange, Delta}
use sydom.Controlplane.Translate.{delta_to_proto}
use sydom.Controlplane.Diff.{diff}
use sydom.Controlplane.Store.{
  Database, AuditDiff, Failure, no_rows, missing_row, unique_violation, foreign_key_violation,
  inheritance_cycle, bad_input, import_conflict, driver,
}
use sydom.Controlplane.Store.Statements.{
  read_app_rules, apply_diff, lock_app_version, bump_app_version, insert_audit,
}
use sydom.Controlplane.Projection.{project_app}

-- The sentinel that an error's chain carries; `unclassified` where it carries none.
pub data Category : Type 0 where
  invalid_input conflict not_found precondition unclassified : Category

pub record Failed : Type 0 where
  pub category : Category
  pub cause : Failure

unfoldable pub classify : Failure → Failed
classify inheritance_cycle = record { category = precondition; cause = inheritance_cycle }
classify unique_violation = record { category = conflict; cause = unique_violation }
classify foreign_key_violation = record { category = precondition; cause = foreign_key_violation }
classify missing_row = record { category = not_found; cause = missing_row }
classify no_rows = record { category = not_found; cause = no_rows }
classify bad_input = record { category = invalid_input; cause = bad_input }
classify import_conflict = record { category = unclassified; cause = import_conflict }
classify driver = record { category = unclassified; cause = driver }

abbrev pub unclassed : Failure → Failed
unclassed e = record { category = unclassified; cause = e }

module _ {A : Type 0} where
  -- `return nil, classify(…)` and `return nil, err`
  abbrev pub classified : Result Failure A → Result Failed A
  unfolding classify
  classified (ok a) = ok a
  classified (err e) = err (classify e)

  abbrev pub plain : Result Failure A → Result Failed A
  plain (ok a) = ok a
  plain (err e) = err (unclassed e)

  -- The end of a transaction: what failed is rolled back.
  abbrev pub settle : Database → Result Failed (A × Database) → Result Failed A × Database
  settle before (ok (a, after)) = (ok a, after)
  settle before (err e) = (err e, before)

-- The calls of a transaction that run statements.
pub data Call : Type 0 where
  lock_row run_check run_mutation read_projection read_rules write_rules write_version write_audit
        write_outbox :
      Call

-- What the connection does: whether it begins and commits, and whether it answers the statements
-- of a call, where the tables themselves do not refuse them.
pub record Driver : Type 0 where
  pub answers : Call → Bool
  pub begins : Bool
  pub commits : Bool
  pub has_sink : Bool
  pub marshals : Wire.Delta → Bool

pub record WriteOp : Type 0 where
  pub action : String
  pub entity_type : String
  pub entity_id : String
  pub mutate : Database → Result Failure (List DataPolicyChange × Database)
  pub pre_check : Database → Result Failure (Unit {0})

-- `preCheck == nil`
abbrev pub unchecked : Database → Result Failure (Unit {0})
unchecked db = ok tt

-- A delta's parts as JSON, or nothing where all are empty.
unfoldable pub audit_diff : List Rule → List Rule → List DataPolicyChange → Option AuditDiff
audit_diff [] [] [] = none
audit_diff adds removes changes =
    some (record { adds = adds; removes = removes; data_changes = changes })

-- `cur + 1`
abbrev pub next_version : ℤ → ℤ
next_version cur = to_int64 ((to_uint64 cur + 1) % uint64_mod)

module _ {A : Type 0} where
  abbrev pub asked : Driver → Call → Result Failure A → Result Failure A
  asked d call r = require (d.answers call) driver >> r

-- outbox/sink.go, `Persist`, where there is a sink.
unfoldable pub persist : Driver → ℤ → Delta → Database → Result Failure Database
persist d app delta db =
    if d.has_sink
    then require (d.marshals (delta_to_proto delta)) driver
      >> asked d write_outbox (
          ok (record db {
            outbox =
                db.outbox
                ++ record { app_id = app; version = delta.version; delta = delta_to_proto delta }
                  ∷ [];
          }))
    else ok db

-- The new version, the audit and the outbox.
unfoldable pub write_records :
    Driver → String → ℤ → String → String → String → Delta → Database → Result Failure Database
unfolding persist audit_diff
write_records d operator app action entity_type entity_id delta db =
    asked d write_version (ok (bump_app_version app delta.version db)) >>= λ bumped.
    asked d write_audit (
      insert_audit app operator action entity_type entity_id
        (audit_diff delta.rule_adds delta.rule_removes delta.data_changes) delta.version bumped)
    >>= λ audited. persist d app delta audited

abbrev all_empty : List Rule → List Rule → List DataPolicyChange → Bool
all_empty [] [] [] = true
all_empty adds removes changes = false

-- Step 6: the version, the rules, the audit and the outbox.
publish :
    Driver
    → String
    → ℤ
    → String
    → String
    → String
    → ℤ
    → List Rule × List Rule
    → List DataPolicyChange
    → Database
    → Result Failed (Option Delta × Database)
unfolding write_records
publish d operator app action entity_type entity_id version (adds, removes) changes db =
    let delta : Delta = record {
      app_id = app;
      version = version;
      rule_adds = adds;
      rule_removes = removes;
      data_changes = changes;
    } in
    plain (asked d write_rules (apply_diff app adds removes version db)) >>= λ ruled.
    plain (write_records d operator app action entity_type entity_id delta ruled) >>= λ written.
    require d.commits (unclassed driver) >> ok (some delta, written)

-- Steps 4 and 5, on what the mutation left: with no change there is nothing to publish.
settle_diff :
    Driver
    → String
    → ℤ
    → WriteOp
    → ℤ
    → List DataPolicyChange
    → Database
    → List Rule × List Rule
    → Result Failed (Option Delta × Database)
unfolding publish
settle_diff d operator app op cur changes db (adds, removes) =
    if all_empty adds removes changes
    then require d.commits (unclassed driver) >> ok (none, db)
    else publish d operator app op.action op.entity_type op.entity_id (next_version cur)
        (adds, removes) changes db

reproject :
    Driver
    → String
    → ℤ
    → WriteOp
    → ℤ
    → List DataPolicyChange
    → Database
    → Result Failed (Option Delta × Database)
unfolding settle_diff
reproject d operator app op cur changes db =
    require (d.answers read_projection) (unclassed driver)
    >> (require (d.answers read_rules) (unclassed driver)
        >> settle_diff d operator app op cur changes db
            (diff (read_app_rules app db) (project_app app db)))

transaction : Driver → String → ℤ → WriteOp → Database → Result Failed (Option Delta × Database)
unfolding reproject
transaction d operator app op db =
    require d.begins (unclassed driver)
    >> (plain (asked d lock_row (lock_app_version app db)) >>= λ cur.
        classified (asked d run_check (op.pre_check db))
        >> (classified (asked d run_mutation (op.mutate db)) >>= λ done.
            reproject d operator app op cur done.0 done.1))

unfoldable pub run_versioned_write :
    Driver → String → ℤ → WriteOp → Database → Result Failed (Option Delta) × Database
unfolding transaction
run_versioned_write d operator app op db = settle db (transaction d operator app op db)

pub record WriteOpData : Type 0 where
  pub action : String
  pub entity_type : String
  pub entity_id : String
  pub apply : ℤ → Database → Result Failure (List DataPolicyChange × Database)

data_transaction :
    Driver → String → ℤ → WriteOpData → Database → Result Failed (Option Delta × Database)
unfolding write_records
data_transaction d operator app op db =
    require d.begins (unclassed driver)
    >> (plain (asked d lock_row (lock_app_version app db)) >>= λ cur.
        classified (asked d run_mutation (op.apply (next_version cur) db)) >>= λ done.
        let delta : Delta = record {
          app_id = app;
          version = next_version cur;
          rule_adds = [];
          rule_removes = [];
          data_changes = done.0;
        } in
        plain (write_records d operator app op.action op.entity_type op.entity_id delta done.1)
        >>= λ written. require d.commits (unclassed driver) >> ok (some delta, written))

unfoldable pub run_versioned_write_data :
    Driver → String → ℤ → WriteOpData → Database → Result Failed (Option Delta) × Database
unfolding data_transaction
run_versioned_write_data d operator app op db = settle db (data_transaction d operator app op db)
