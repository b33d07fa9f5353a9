-- ===== src/Lib.antt =====
-- Sydom is an authorization service of two programs. The control plane keeps roles, bindings and
-- data policies in a database, projects them to rules, and sends snapshots and changes to
-- sidecars. A sidecar holds the rules of one application in memory and answers its requests: may
-- this subject do that, and which rows of a resource may it see.
--
-- The paths below are those of the repository.
--
-- * internal/sidecar/dataperm is Dataperm: condition trees and their validation (condition.go,
--   Dataperm.Condition), the policy table (table.go, Dataperm.Table), the merge of a user's
--   policies and the resolution of variables (filter.go, Dataperm.Filter), the SQL fragment
--   (render_sql.go, Dataperm.RenderSql) and the preview of it (symbolic.go, Dataperm.Symbolic).
--   Functions keep their names: selectAndMerge is select_and_merge.
-- * internal/sidecar/kernel is Kernel: types.go is Kernel.Types, cache.go is Kernel.Cache, and
--   engine.go is Kernel.Engine. The casbin enforcer is a library of others: the record Casbin of
--   Kernel.Casbin has its operations and IsLawful what its documentation says of the rows that
--   it holds. Kernel.Casbin.Rows is an enforcer that meets this, for the tests. The receiver of
--   data policies is the record Applier, which Authz.table_applier fills with the table.
-- * internal/sidecar/syncclient is Sync: translate.go is Sync.Translate, backoff.go
--   Sync.Backoff, client.go Sync.Client. Sync.Convergence joins both programs: the difference of
--   two rule sets, its message, and its apply.
-- * internal/sidecar/authz is Authz, with the staleness guard and the calls of an application.
-- * internal/controlplane is Controlplane: types.go is Controlplane.Types, translate/translate.go
--   Controlplane.Translate, projection/diff.go Controlplane.Diff, projection/project.go
--   Controlplane.Projection, policysync/hub.go Controlplane.Hub. Of store, the files store.go,
--   source.go and batch.go are Controlplane.Store, one definition for each function, on tables
--   that are lists of rows. policy/manager.go, policy/errors.go, policy/bulk.go and
--   outbox/sink.go are Controlplane.Writes: run_versioned_write and run_versioned_write_data are
--   the transactions, Operations the writes that go through them, Bulk the batches, Templates
--   ReportPermissions and ApplyTemplate. Controlplane.Manager has the changes that the writes of
--   data policies send. iac/doc.go, iac/diff.go and iac/parse.go are Controlplane.Iac, and
--   policy/policy_as_code.go is Controlplane.Import.
-- * api/proto/sydom/sync/v1 is Wire. Errors has the sentinel errors, Base what all modules
--   share.
--
-- State is passed explicitly. A lock that covers a whole operation makes it one step, and so
-- concurrent calls are sequences of steps. A call that can fail gives a Result; the run-time
-- panic of a nil pointer is an error of its own, since nothing in the program recovers from one.
-- A uint64 of a version or an identifier is a number where no arithmetic is done on it; where it
-- is, and in the conversion of an int64, the wrap is written out. A float64 is carried by its
-- bits. A Go map that is ranged over is an association list in the order of insertion.
--
-- A transaction is a function of the tables: one that fails leaves them as they were, and the lock
-- on the application's row makes it one step. A unique or foreign key and a check that the
-- migrations declare is a test in the statement that it can refuse. The columns of the audit cut or
-- refuse a text that is too long, and those of the rules hold whatever the columns hold that they
-- are projected from. For all else that can stop a statement, a text that is too long for another
-- column among it, the driver does not answer: Driver.answers says of each call of a transaction
-- whether its statements are answered. A read before a transaction is answered. JSONB columns keep
-- their text, and the cast to JSONB is a parameter; time stamps are not modelled.
--
-- The search for cycles recurs on fuel, the number of edges and two: each level but the last visits
-- for the first time a role, the one it starts from or one that an edge leads to. No other
-- function needs fuel: each recursion is on a tree, a list or a count.
--
-- Parameters are json.Unmarshal into a condition, json.Valid, the parse of a policy file and the
-- canonical text of a JSON value, fmt.Sprintf of a value, rand.Int63n, the clock, the role
-- resolver, the cast to JSONB, whether the database's driver begins, answers and commits and the
-- message is marshalled, whether a context is cancelled when its stream breaks, the random code of
-- a business role, and the answers and events of the control plane. The loop of SyncClient.Run
-- around a subscription, the export of a policy file, the transport, metrics, the console and the
-- management API are not modelled.
pub mod Authz
pub mod Base
pub mod Controlplane
pub mod Dataperm
pub mod Errors
pub mod Kernel
pub mod Sync
pub mod Wire
