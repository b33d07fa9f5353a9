-- ===== src/Controlplane/Writes/Tests.antt =====
-- Writes to the tables of the example.
use sydom.Base.{arith, ◌≡◌, refl, Option, some, [], ◌∷◌, Result, ok, err, All, string_eq}
use sydom.Base.Int.{pos, ℤ_eq, to_int64, to_uint64}
use sydom.Base.Dict.{lookup, insert}
use sydom.Controlplane.Types.{Delta}
use sydom.Controlplane.Diff.{diff}
use sydom.Controlplane.Diff.Keys.{IsPlain}
use sydom.Controlplane.Diff.Example.{reader-IsPlain, writer-IsPlain, member-IsPlain}
use sydom.Kernel.Engine.Example.{writer}
use sydom.Controlplane.Store.{Database, foreign_key_violation}
use sydom.Controlplane.Store.Statements.{
  read_app_rules, lock_app_version, insert_role_permission, apply_diff, insert_audit,
  insert_role_inheritance,
}
use sydom.Controlplane.Projection.{project_app, edges, check_no_cycle}
use sydom.Controlplane.Projection.Acyclic.{IsAcyclic}
use sydom.Controlplane.Writes.{WriteOp, Failed, precondition, classified, run_versioned_write}
use sydom.Controlplane.Writes.Operations.{grant_permission, add_role_inheritance}
use sydom.Controlplane.Writes.Tables.{Synced}
use sydom.Controlplane.Writes.Invariants.{run_versioned_write-Synced}
use sydom.Controlplane.Writes.Records.{Recorded, run_versioned_write-Recorded}
use sydom.Controlplane.Writes.Inheritance.{add_role_inheritance-IsAcyclic}
use sydom.Base.Decimal.{decimal}
use sydom.Controlplane.Writes.Steady.{IsSteady, IsAuditable, text_length}
use sydom.Controlplane.Writes.Success.{run_versioned_write-ok}
use sydom.Controlplane.Example.{tables, steady}

-- The role that reads may write as well.
abbrev grant : WriteOp
unfolding grant_permission
grant = grant_permission (pos 1) (pos 1) (pos 2) "allow"

abbrev granted : Database
granted = record tables {
  role_permissions =
      record { app_id = pos 1; role_id = pos 1; permission_id = pos 1; eft = "allow" }
      ∷ record { app_id = pos 1; role_id = pos 1; permission_id = pos 2; eft = "allow" }
      ∷ [];
}

grants : grant.mutate tables ≡ ok ([], granted)
unfolding insert_role_permission grant_permission ℤ_eq native.Mathlib.Decide.ℕ_discrete
grants = refl

abbrev delta : Delta
delta = record {
  app_id = pos 1;
  version = pos 5;
  rule_adds = writer ∷ [];
  rule_removes = [];
  data_changes = [];
}

abbrev written : Result Failed (Option Delta) × Database
unfolding run_versioned_write insert_role_permission grant_permission
written = run_versioned_write steady "ann" (pos 1) grant tables

publishes : written.0 ≡ ok (some delta)
unfolding run_versioned_write insert_role_permission grant_permission diff lock_app_version ℤ_eq
    native.Mathlib.Decide.ℕ_discrete classified project_app insert string_eq lookup read_app_rules
    apply_diff to_int64 to_uint64 insert_audit decimal
publishes = refl

current-IsPlain : All IsPlain (read_app_rules (pos 1) granted)
unfolding read_app_rules ℤ_eq native.Mathlib.Decide.ℕ_discrete
current-IsPlain = (reader-IsPlain, (member-IsPlain, tt))

desired-IsPlain : All IsPlain (project_app (pos 1) granted)
unfolding project_app ℤ_eq native.Mathlib.Decide.ℕ_discrete
desired-IsPlain = (reader-IsPlain, (writer-IsPlain, (member-IsPlain, tt)))

at_four : lock_app_version (pos 1) tables ≡ ok (pos 4)
unfolding lock_app_version ℤ_eq native.Mathlib.Decide.ℕ_discrete
at_four = refl

writes : run_versioned_write steady "ann" (pos 1) grant tables ≡ (ok (some delta), written.1)
unfolding run_versioned_write lock_app_version ℤ_eq native.Mathlib.Decide.ℕ_discrete classified
    grant insert_role_permission
writes = λ i. (publishes i, written.1)

run_versioned_write-Synced_example : Synced (pos 1) written.1
run_versioned_write-Synced_example =
    run_versioned_write-Synced steady "ann" (pos 1) grant tables granted [] (some delta) written.1
      grants current-IsPlain desired-IsPlain writes

run_versioned_write-Recorded_example :
    Recorded steady "ann" (pos 1) grant (pos 4) [] granted (some delta) written.1
unfolding lock_app_version
run_versioned_write-Recorded_example =
    run_versioned_write-Recorded steady "ann" (pos 1) grant tables granted [] (pos 4) (some delta)
      written.1 grants at_four at_four writes

steady-IsSteady : IsSteady steady
steady-IsSteady = record {
  begins = refl;
  answers = λ call. refl;
  marshals = λ m. refl;
  commits = refl;
}

grant-IsAuditable : IsAuditable "ann" grant.action grant.entity_type grant.entity_id
unfolding text_length grant_permission grant decimal
grant-IsAuditable = record {
  operator_fits = omega arith;
  action_fits = omega arith;
  entity_type_fits = omega arith;
  entity_id_fits = omega arith;
}

run_versioned_write-ok_example :
    (o : Option Delta) × (after : Database) × (run_versioned_write steady "ann" (pos 1) grant tables
      ≡ (ok o, after))
unfolding grant
run_versioned_write-ok_example =
    run_versioned_write-ok steady "ann" (pos 1) grant tables granted [] (pos 4) steady-IsSteady
      grant-IsAuditable at_four refl grants current-IsPlain desired-IsPlain

-- A permission that does not exist.
abbrev dangling : WriteOp
unfolding grant_permission
dangling = grant_permission (pos 1) (pos 1) (pos 9) "allow"

refuses :
    run_versioned_write steady "ann" (pos 1) dangling tables
    ≡ (err (record { category = precondition; cause = foreign_key_violation }), tables)
unfolding run_versioned_write insert_role_permission grant_permission lock_app_version ℤ_eq
    native.Mathlib.Decide.ℕ_discrete classified
refuses = refl

abbrev inherited : Result Failed (Option Delta) × Database
inherited =
    run_versioned_write steady "ann" (pos 1) (add_role_inheritance (pos 1) (pos 1) (pos 2)) tables

abbrev inheriting : Delta
inheriting = record {
  app_id = pos 1;
  version = pos 5;
  rule_adds =
      record { ptype = "g"; v0 = "staff"; v1 = "lead"; v2 = "app"; v3 = ""; v4 = ""; v5 = "" } ∷ [];
  rule_removes = [];
  data_changes = [];
}

inherits : inherited.0 ≡ ok (some inheriting)
unfolding run_versioned_write insert_role_inheritance add_role_inheritance check_no_cycle diff
    lock_app_version ℤ_eq native.Mathlib.Decide.ℕ_discrete classified project_app insert string_eq
    lookup read_app_rules apply_diff to_int64 to_uint64 insert_audit decimal
inherits = refl

flat : IsAcyclic (edges (pos 1) tables)
unfolding edges
flat a b i = absurd i

add_role_inheritance-IsAcyclic_example : IsAcyclic (edges (pos 1) inherited.1)
add_role_inheritance-IsAcyclic_example =
    add_role_inheritance-IsAcyclic steady "ann" (pos 1) (pos 1) (pos 2) tables (some inheriting)
      inherited.1 flat (λ i. (inherits i, inherited.1))
