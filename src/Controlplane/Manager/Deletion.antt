-- ===== src/Controlplane/Manager/Deletion.antt =====
-- What a deletion of a data policy does at the sidecar.
use sydom.Base.{String, ◌≡◌, Option, none, some, map, Result, ok, err, false, any, ◌==◌, nat_eq}
use sydom.Base.Int.{ℤ, to_uint64}
use sydom.Errors.{Error}
use sydom.Kernel.Types.{DataPolicy, change_remove}
use sydom.Kernel.Casbin.{Casbin}
use sydom.Kernel.Engine.{apply_data_changes}
use sydom.Dataperm.Condition.{Condition}
use sydom.Dataperm.Table.{Table, bucket, find, apply_change}
use sydom.Dataperm.Table.Invariant.{IsWellFormed}
use sydom.Dataperm.Table.Buckets.{apply_change-remove_absent}
use sydom.Sync.Translate.RoundTrip.{sent_data}
use sydom.Controlplane.Manager.{delete_changes}
use sydom.Authz.{table_applier, completed}

completed-eq : {A : Type 0} (m : Result Error A) {a : A} → completed m ≡ some a → m ≡ ok a
completed-eq (ok a) h = cc
completed-eq (err x) h = cc

-- The change that a deletion sends, applied at the sidecar, changes the policies of no resource,
-- where the resource with the empty name has no policy of that identifier: what was deleted stays
-- in force until the next full load.
pub delete_changes-keep :
    (C : Casbin) (unmarshal : String → Option Condition) (id : ℤ) (t t' : Table) (j : String)
    → IsWellFormed t
    → any (λ s. s.id == to_uint64 id) (bucket "" t) ≡ false
    → apply_data_changes C (table_applier unmarshal) (map sent_data (delete_changes id)) t ≡ some t'
    → find j t' ≡ find j t
unfolding apply_data_changes delete_changes
delete_changes-keep C unmarshal id t t' j w absent h =
    apply_change-remove_absent unmarshal deleted t j w absent (
      completed-eq (apply_change unmarshal change_remove deleted t)
        (one_change (completed (apply_change unmarshal change_remove deleted t)) h))
  where
    deleted : DataPolicy
    deleted = record {
      id = to_uint64 id;
      subject_type = "";
      subject_id = "";
      resource = "";
      condition = "";
      effect = "";
    }

    one_change :
        (m : Option Table) → (elim m [ none ↦ none | some a' ↦ some a' ]) ≡ some t' → m ≡ some t'
    one_change none h = h
    one_change (some t) h = h
