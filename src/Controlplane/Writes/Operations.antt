-- ===== src/Controlplane/Writes/Operations.antt =====
-- policy/manager.go, the writes: what each does to the tables inside the transaction.
use sydom.Base.{
  Bool, String, ◌<>◌, Option, List, [], ◌∷◌, ◌==◌, string_eq, if◌then◌else◌, Result, ok, err, ◌>>=◌,
}
use sydom.Base.Int.{ℤ}
use sydom.Base.Decimal.{decimal}
use sydom.Controlplane.Types.{DataPolicy, DataPolicyChange, Delta}
use sydom.Controlplane.Manager.{upsert_changes, delete_changes}
use sydom.Controlplane.Store.{Database, Failure}
use sydom.Controlplane.Store.Statements.{
  insert_role, delete_role, insert_role_permission, delete_role_permission, insert_role_inheritance,
  delete_role_inheritance, insert_user_role_binding, delete_user_role_binding,
}
use sydom.Controlplane.Store.Upserts.{upsert_permission, upsert_data_policy, delete_data_policy}
use sydom.Controlplane.Projection.{check_no_cycle}
use sydom.Controlplane.Writes.{WriteOp, WriteOpData, Failed, classify, unchecked}

-- A mutation without changes of data policies.
abbrev pub silent : Result Failure Database → Result Failure (List DataPolicyChange × Database)
silent (ok db) = ok ([], db)
silent (err e) = err e

module _ {A : Type 0} where
  -- One that answers with a value as well, which the method returns beside the delta.
  abbrev pub silently :
      Result Failure (A × Database) → Result Failure (List DataPolicyChange × Database)
  silently (ok (a, db)) = ok ([], db)
  silently (err e) = err e

  abbrev pub and_value :
      Result Failure (A × Database)
      → Result Failed (Option Delta) × Database
      → Result Failed (A × Option Delta) × Database
  unfolding classify
  and_value made (err e, after) = (err e, after)
  and_value (ok (a, db)) (ok o, after) = (ok (a, o), after)
  and_value (err e) (ok o, after) = (err (classify e), after)

-- `fmt.Sprintf("%d:%d", a, b)`
abbrev pub pair_id : ℤ → ℤ → String
pair_id a b = decimal a <> (":" <> decimal b)

abbrev pub arrow_id : ℤ → ℤ → String
arrow_id a b = decimal a <> ("->" <> decimal b)

-- What the methods run, each for an application.
module _ (app : ℤ) where
  unfoldable pub grant_permission : ℤ → ℤ → String → WriteOp
  grant_permission role permission eft = record {
    action = "grant";
    entity_type = "role_permission";
    entity_id = pair_id role permission;
    mutate = λ db. silent (insert_role_permission app role permission eft db);
    pre_check = unchecked;
  }

  unfoldable pub revoke_permission : ℤ → ℤ → WriteOp
  revoke_permission role permission = record {
    action = "revoke";
    entity_type = "role_permission";
    entity_id = pair_id role permission;
    mutate = λ db. ok ([], delete_role_permission app role permission db);
    pre_check = unchecked;
  }

  unfoldable pub create_role : String → String → WriteOp
  create_role code name = record {
    action = "create_role";
    entity_type = "role";
    entity_id = code;
    mutate = λ db. silently (insert_role app code name db);
    pre_check = unchecked;
  }

  grant_all : ℤ → List ℤ → Database → Result Failure Database
  grant_all role [] db = ok db
  grant_all role (p ∷ ps) db =
      insert_role_permission app role p "allow" db >>= λ granted. grant_all role ps granted

  insert_business_role : String → String → List ℤ → Database → Result Failure (ℤ × Database)
  unfolding grant_all
  insert_business_role code name permissions db = insert_role app code name db >>= λ made.
      grant_all made.0 permissions made.1 >>= λ granted. ok (made.0, granted)

  -- The code is drawn at random before.
  unfoldable pub create_business_role : String → String → List ℤ → WriteOp
  unfolding insert_business_role
  create_business_role code name permissions = record {
    action = "create_business_role";
    entity_type = "role";
    entity_id = code;
    mutate = λ db. silently (insert_business_role code name permissions db);
    pre_check = unchecked;
  }

  unfoldable pub remove_role : ℤ → WriteOp
  remove_role role = record {
    action = "delete_role";
    entity_type = "role";
    entity_id = decimal role;
    mutate = λ db. ok ([], delete_role app role db);
    pre_check = unchecked;
  }

  unfoldable pub register_permission : String → String → String → String → String → WriteOp
  register_permission code resource action type name = record {
    action = "upsert_permission";
    entity_type = "permission";
    entity_id = code;
    mutate = λ db. silently (upsert_permission app code resource action type name db);
    pre_check = unchecked;
  }

  unfoldable pub add_role_inheritance : ℤ → ℤ → WriteOp
  add_role_inheritance child parent = record {
    action = "add_inheritance";
    entity_type = "role_inheritance";
    entity_id = arrow_id child parent;
    mutate = λ db. silent (insert_role_inheritance app child parent db);
    pre_check = λ db. check_no_cycle app child parent db;
  }

  unfoldable pub remove_role_inheritance : ℤ → ℤ → WriteOp
  remove_role_inheritance child parent = record {
    action = "remove_inheritance";
    entity_type = "role_inheritance";
    entity_id = arrow_id child parent;
    mutate = λ db. ok ([], delete_role_inheritance app child parent db);
    pre_check = unchecked;
  }

  unfoldable pub bind_user_role : String → ℤ → WriteOp
  bind_user_role user role = record {
    action = "bind_user";
    entity_type = "user_role_binding";
    entity_id = user <> (":" <> decimal role);
    mutate = λ db. silent (insert_user_role_binding app user role db);
    pre_check = unchecked;
  }

  unfoldable pub unbind_user_role : String → ℤ → WriteOp
  unbind_user_role user role = record {
    action = "unbind_user";
    entity_type = "user_role_binding";
    entity_id = user <> (":" <> decimal role);
    mutate = λ db. ok ([], delete_user_role_binding app user role db);
    pre_check = unchecked;
  }

  unfoldable pub put_data_policy : (String → Bool) → DataPolicy → WriteOpData
  put_data_policy jsonb p =
      let settled : DataPolicy = record p {
        effect = if p.effect == "" then "allow" else p.effect;
      } in
      record {
        action = "upsert_data_policy";
        entity_type = "data_policy";
        entity_id = p.subject_id;
        apply = λ version db. upsert_data_policy jsonb app settled version db >>= λ r.
            ok (upsert_changes settled r.0 r.1, r.2);
      }

  unfoldable pub remove_data_policy : ℤ → WriteOpData
  remove_data_policy id = record {
    action = "delete_data_policy";
    entity_type = "data_policy";
    entity_id = decimal id;
    apply = λ version db. delete_data_policy app id db >>= λ after. ok (delete_changes id, after);
  }
