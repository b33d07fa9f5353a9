-- ===== src/Controlplane/Manager/Tests.antt =====
-- The deletion of a policy on documents.
use sydom.Base.{◌≡◌, refl, false, some, map, string_eq, nat_eq, any, ◌==◌}
use sydom.Base.Int.{pos, to_uint64}
use sydom.Base.Dict.{lookup, erase}
use sydom.Kernel.Casbin.Rows.{rows_casbin}
use sydom.Kernel.Engine.{apply_data_changes}
use sydom.Dataperm.Table.{find, bucket, apply_change}
use sydom.Dataperm.Example.{read_json, docs, docs-IsWellFormed}
use sydom.Sync.Translate.RoundTrip.{sent_data}
use sydom.Controlplane.Manager.{delete_changes}
use sydom.Controlplane.Manager.Deletion.{delete_changes-keep}
use sydom.Authz.{table_applier}

none_without_resource : any (λ s. s.id == to_uint64 (pos 1)) (bucket "" docs) ≡ false
unfolding lookup string_eq nat_eq
none_without_resource = refl

applies :
    apply_data_changes rows_casbin
      (table_applier read_json)
      (map sent_data (delete_changes (pos 1)))
      docs
    ≡ some docs
unfolding apply_data_changes delete_changes apply_change lookup erase string_eq nat_eq
applies = refl

delete_changes-keep_example : find "doc" docs ≡ find "doc" docs
delete_changes-keep_example =
    delete_changes-keep rows_casbin read_json (pos 1) docs docs "doc" docs-IsWellFormed
      none_without_resource applies
