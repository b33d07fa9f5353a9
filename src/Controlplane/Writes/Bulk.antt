-- ===== src/Controlplane/Writes/Bulk.antt =====
-- policy/bulk.go: one transaction for many deletions.
use sydom.Base.{ℕ, String, ◌<>◌, ◌++◌, Option, none, List, [], ◌∷◌, Result, ok, err, length}
use sydom.Base.Int.{ℤ, pos}
use sydom.Base.Decimal.{decimal}
use sydom.Controlplane.Types.{DataPolicyChange, Delta}
use sydom.Controlplane.Manager.{delete_changes}
use sydom.Controlplane.Store.{Database}
use sydom.Controlplane.Store.Batches.{
  UserRolePair, GrantPair, InheritancePair, delete_roles_batch, delete_role_permissions_batch,
  delete_role_inheritances_batch, delete_user_role_bindings_batch, delete_data_policies_batch,
}
use sydom.Controlplane.Writes.{
  Driver, WriteOp, WriteOpData, Failed, unchecked, run_versioned_write, run_versioned_write_data,
}

unfoldable pub batch_entity_id : ℕ → String
batch_entity_id n = "batch:" <> decimal (pos n)

-- The delta and how many rows went; on an error the count is not used.
abbrev pub Counted : Type 0
Counted = Result Failed (Option Delta × ℕ) × Database

abbrev pub counted : ℕ → Result Failed (Option Delta) × Database → Counted
counted n (ok o, after) = (ok (o, n), after)
counted n (err e, after) = (err e, after)

module _ (app : ℤ) where
  unfoldable pub batch_unbind_user_role_op : List UserRolePair → WriteOp
  unfolding batch_entity_id
  batch_unbind_user_role_op pairs = record {
    action = "batch_unbind_user_role";
    entity_type = "user_role_binding";
    entity_id = batch_entity_id (length pairs);
    mutate = λ db. ok ([], (delete_user_role_bindings_batch app pairs db).1);
    pre_check = unchecked;
  }

  unfoldable pub batch_unbind_user_role : Driver → String → List UserRolePair → Database → Counted
  unfolding batch_unbind_user_role_op
  batch_unbind_user_role d operator pairs db =
      counted (delete_user_role_bindings_batch app pairs db).0
        (run_versioned_write d operator app (batch_unbind_user_role_op pairs) db)

  unfoldable pub batch_revoke_permission_op : List GrantPair → WriteOp
  unfolding batch_entity_id
  batch_revoke_permission_op pairs = record {
    action = "batch_revoke";
    entity_type = "role_permission";
    entity_id = batch_entity_id (length pairs);
    mutate = λ db. ok ([], (delete_role_permissions_batch app pairs db).1);
    pre_check = unchecked;
  }

  unfoldable pub batch_revoke_permission : Driver → String → List GrantPair → Database → Counted
  unfolding batch_revoke_permission_op
  batch_revoke_permission d operator pairs db =
      counted (delete_role_permissions_batch app pairs db).0
        (run_versioned_write d operator app (batch_revoke_permission_op pairs) db)

  unfoldable pub batch_remove_role_inheritance_op : List InheritancePair → WriteOp
  unfolding batch_entity_id
  batch_remove_role_inheritance_op pairs = record {
    action = "batch_remove_inheritance";
    entity_type = "role_inheritance";
    entity_id = batch_entity_id (length pairs);
    mutate = λ db. ok ([], (delete_role_inheritances_batch app pairs db).1);
    pre_check = unchecked;
  }

  unfoldable pub batch_remove_role_inheritance :
      Driver → String → List InheritancePair → Database → Counted
  unfolding batch_remove_role_inheritance_op
  batch_remove_role_inheritance d operator pairs db =
      counted (delete_role_inheritances_batch app pairs db).0
        (run_versioned_write d operator app (batch_remove_role_inheritance_op pairs) db)

  unfoldable pub batch_delete_role_op : List ℤ → WriteOp
  unfolding batch_entity_id
  batch_delete_role_op ids = record {
    action = "batch_delete_role";
    entity_type = "role";
    entity_id = batch_entity_id (length ids);
    mutate = λ db. ok ([], (delete_roles_batch app ids db).1);
    pre_check = unchecked;
  }

  unfoldable pub batch_delete_role : Driver → String → List ℤ → Database → Counted
  unfolding batch_delete_role_op
  batch_delete_role d operator ids db =
      counted (delete_roles_batch app ids db).0
        (run_versioned_write d operator app (batch_delete_role_op ids) db)

  removals : List ℤ → List DataPolicyChange
  removals [] = []
  removals (id ∷ ids) = delete_changes id ++ removals ids

  delete_policies : List ℤ → WriteOpData
  unfolding removals batch_entity_id
  delete_policies ids = record {
    action = "batch_delete_data_policy";
    entity_type = "data_policy";
    entity_id = batch_entity_id (length ids);
    apply = λ version db.
        let (removed, after) = delete_data_policies_batch app ids db in
        ok (removals removed, after);
  }

  -- An empty batch starts no transaction.
  unfoldable pub batch_delete_data_policy : Driver → String → List ℤ → Database → Counted
  unfolding delete_policies
  batch_delete_data_policy d operator [] db = (ok (none, 0), db)
  batch_delete_data_policy d operator (id ∷ ids) db =
      counted (length (delete_data_policies_batch app (id ∷ ids) db).0)
        (run_versioned_write_data d operator app (delete_policies (id ∷ ids)) db)
