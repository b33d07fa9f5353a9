-- ===== src/Controlplane/Import/Apply.antt =====
-- policy/policy_as_code.go, `applyImportPlan`: the plan in the order that the foreign keys want.
use sydom.Base.{Bool, String, ◌<>◌, true, false, List, [], ◌∷◌, string_eq, Result, ok, ◌>>=◌}
use sydom.Base.Int.{ℤ, pos, ℤ_eq}
use sydom.Base.Dict.{Dict, lookup}
use sydom.Controlplane.Store.{Database, RoleRow, DataPolicyRow, Failure}
use sydom.Controlplane.Store.Statements.{delete_role, insert_role_with_source}
use sydom.Controlplane.Store.Sources.{
  upsert_permission_with_source, update_role_meta, adopt_role_source, adopt_data_policy_source,
  delete_permission,
}
use sydom.Controlplane.Iac.{Document, Role, Kind, EntityType, PlanItem}
use sydom.Controlplane.Import.{role_policies, app_roles, app_data_policies}
use sydom.Controlplane.Import.Rows.{
  State, found, roles_by_key, for_items, delete_rows, write_policy, write_scopes, role_of,
  permission_of, policy_of, top_row, reset_role_permissions,
}

module _ (jsonb : String → Bool) (app : ℤ) where
  module _ (roles : Dict String RoleRow) (dps : List DataPolicyRow) (doc : Document) where
    -- Phase A1: the roles to delete, with their data scopes.
    drop_role : EntityType → Kind → String → State → Result Failure State
    unfolding delete_rows
    drop_role EntityType.role Kind.delete id st = found (lookup id roles) >>= λ r.
        delete_rows app (role_policies r.code dps) st >>= λ after.
        ok (after.0, delete_role app r.id after.1)
    drop_role t k id st = ok st

    -- Phase A2: the data policies to delete.
    drop_policy : EntityType → Kind → String → State → Result Failure State
    unfolding delete_rows top_row
    drop_policy EntityType.data_policy Kind.delete id st =
        found (top_row app dps id) >>= λ d. delete_rows app (d ∷ []) st
    drop_policy t k id st = ok st

    -- Phase B1: a permission is written whole, whatever the change is.
    put_permission : EntityType → Kind → String → State → Result Failure State
    unfolding permission_of
    put_permission EntityType.role k id st = ok st
    put_permission EntityType.data_policy k id st = ok st
    put_permission EntityType.permission Kind.delete id st = ok st
    put_permission EntityType.permission Kind.conflict id st = ok st
    put_permission EntityType.permission k id (changes, db) =
        let p = permission_of app doc id in
        upsert_permission_with_source app p.code p.resource p.action p.type p.name p.description
          "iac" db
        >>= λ r. ok (changes, r.1)

    -- Phase B2: the role that a change is about, by its identifier and code.
    role_target : Kind → String → Database → Result Failure ((ℤ × String) × Database)
    unfolding role_of
    role_target Kind.create id db =
        insert_role_with_source app ("iac:" <> id) (role_of app doc id).name "iac" db >>= λ r.
        ok ((r.0, "iac:" <> id), r.1)
    role_target Kind.adopt id db =
        found (lookup id roles) >>= λ r. ok ((r.id, r.code), adopt_role_source app r.id db)
    role_target k id db = found (lookup id roles) >>= λ r. ok ((r.id, r.code), db)

    align_role : Role → State → (ℤ × String) × Database → Result Failure State
    unfolding reset_role_permissions delete_rows write_scopes
    align_role dr (changes, before) ((id, code), db) =
        reset_role_permissions app id dr.permission_codes
          (update_role_meta app id dr.name dr.description db)
        >>= λ granted. delete_rows app (role_policies code dps) (changes, granted) >>= λ cleared.
            write_scopes app jsonb code dr.data_scopes cleared

    put_role : EntityType → Kind → String → State → Result Failure State
    unfolding role_target align_role role_of
    put_role EntityType.permission k id st = ok st
    put_role EntityType.data_policy k id st = ok st
    put_role EntityType.role Kind.delete id st = ok st
    put_role EntityType.role Kind.conflict id st = ok st
    put_role EntityType.role k id st =
        role_target k id st.1 >>= λ target. align_role (role_of app doc id) st target

    -- Phase B3.
    put_policy : EntityType → Kind → String → State → Result Failure State
    unfolding write_policy top_row policy_of
    put_policy EntityType.permission k id st = ok st
    put_policy EntityType.role k id st = ok st
    put_policy EntityType.data_policy Kind.delete id st = ok st
    put_policy EntityType.data_policy Kind.conflict id st = ok st
    put_policy EntityType.data_policy Kind.create id st =
        let p = policy_of app doc id in
        write_policy app jsonb (pos 0) p.subject_type p.subject_id p.resource p.effect p.condition
          st true
    put_policy EntityType.data_policy Kind.adopt id (changes, db) =
        let p = policy_of app doc id in
        found (top_row app dps id) >>= λ d.
        write_policy app jsonb d.id p.subject_type p.subject_id p.resource p.effect p.condition
          (changes, adopt_data_policy_source app d.id db) false
    put_policy EntityType.data_policy Kind.update id st =
        let p = policy_of app doc id in
        found (top_row app dps id) >>= λ d.
        write_policy app jsonb d.id p.subject_type p.subject_id p.resource p.effect p.condition st
          false

    -- Phase C: the permissions to delete, when nothing refers to them any more.
    drop_permission : EntityType → Kind → String → State → Result Failure State
    drop_permission EntityType.permission Kind.delete id (changes, db) =
        delete_permission app id db >>= λ after. ok (changes, after)
    drop_permission t k id st = ok st

    phases : List PlanItem → State → Result Failure State
    unfolding for_items drop_role drop_policy put_permission put_role put_policy drop_permission
    phases items st = for_items (λ x. drop_role x.entity_type x.kind x.identity) items st >>= λ a1.
        for_items (λ x. drop_policy x.entity_type x.kind x.identity) items a1 >>= λ a2.
        for_items (λ x. put_permission x.entity_type x.kind x.identity) items a2 >>= λ b1.
        for_items (λ x. put_role x.entity_type x.kind x.identity) items b1 >>= λ b2.
        for_items (λ x. put_policy x.entity_type x.kind x.identity) items b2 >>= λ b3.
        for_items (λ x. drop_permission x.entity_type x.kind x.identity) items b3

  unfoldable pub apply_import_plan : Document → List PlanItem → Database → Result Failure State
  unfolding roles_by_key phases
  apply_import_plan doc items db = roles_by_key (app_roles app db) [] >>= λ roles.
      phases roles (app_data_policies app db) doc items ([], db)
