-- ===== src/Controlplane/Import/Rows.antt =====
-- policy/policy_as_code.go: what the phases of an import look up, and the rows that they clear and
-- write.
use sydom.Base.{
  String, Bool, true, Option, none, some, List, [], ◌∷◌, ◌++◌, ◌==◌, string_eq, if◌then◌else◌,
  Result, ok, err, ◌>>=◌,
}
use sydom.Base.Int.{ℤ, pos, ℤ_eq}
use sydom.Base.Dict.{Dict, lookup, insert}
use sydom.Base.Keyed.{index}
use sydom.Kernel.Types.{change_add, change_update}
use sydom.Controlplane.Types
use sydom.Controlplane.Types.{DataPolicyChange, Delta}
use sydom.Controlplane.Manager.{delete_changes}
use sydom.Controlplane.Store.{Database, RoleRow, DataPolicyRow, Failure, driver, select, first_row}
use sydom.Controlplane.Store.Statements.{
  delete_role_permission, insert_role_permission, lock_app_version,
}
use sydom.Controlplane.Store.Upserts.{
  delete_data_policy, permission_ids_by_code, upsert_data_policy_with_source,
}
use sydom.Controlplane.Store.Sources.{role_permission_codes}
use sydom.Controlplane.Iac.{Document, Permission, Role, DataScope, DataPolicy, PlanItem, policy_id}
use sydom.Controlplane.Iac.Plan.{declared_id}
use sydom.Controlplane.Writes.{next_version}
use sydom.Controlplane.Import.{iac_role_key, is_expressible_role_key, top_policies}

-- The changes so far, and the tables.
abbrev pub State : Type 0
State = List DataPolicyChange × Database

-- `roleByKey`; a key of two roles is refused.
unfoldable pub roles_by_key :
    List RoleRow → Dict String RoleRow → Result Failure (Dict String RoleRow)
roles_by_key [] m = ok m
roles_by_key (r ∷ rs) m =
    let key = iac_role_key r.code in
    let skipped = roles_by_key rs m in
    let taken : Result Failure (Dict String RoleRow) = (elim (lookup key m) [
      | none ↦ roles_by_key rs (insert key r m)
      | some other ↦ err driver
    ]) in
    if is_expressible_role_key key then taken else skipped

-- A row that the plan names, which has to be there.
module _ {A : Type 0} where
  abbrev pub found : Option A → Result Failure A
  found none = err driver
  found (some a) = ok a

norm_effect : String → String
norm_effect e = if e == "" then "allow" else e

unfoldable pub for_items :
    (PlanItem → State → Result Failure State) → List PlanItem → State → Result Failure State
for_items step [] st = ok st
for_items step (x ∷ xs) st = step x st >>= λ st'. for_items step xs st'

module _ (app : ℤ) where
  unfoldable pub delete_rows : List DataPolicyRow → State → Result Failure State
  delete_rows [] st = ok st
  delete_rows (d ∷ rows) (changes, db) = delete_data_policy app d.id db >>= λ after.
      delete_rows rows (changes ++ delete_changes d.id, after)

  -- `resetRolePermissions`: the grants that are there go, then those of the file come.
  revoke_codes : Dict String ℤ → ℤ → List String → Database → Result Failure Database
  revoke_codes ids role [] db = ok db
  revoke_codes ids role (c ∷ cs) db = found (lookup c ids) >>= λ permission.
      revoke_codes ids role cs (delete_role_permission app role permission db)

  allow_codes : Dict String ℤ → ℤ → List String → Database → Result Failure Database
  allow_codes ids role [] db = ok db
  allow_codes ids role (c ∷ cs) db = found (lookup c ids) >>= λ permission.
      insert_role_permission app role permission "allow" db >>= λ after.
      allow_codes ids role cs after

  unfoldable pub reset_role_permissions : ℤ → List String → Database → Result Failure Database
  unfolding revoke_codes allow_codes
  reset_role_permissions role desired db =
      let cur = role_permission_codes app role db in
      let ids = permission_ids_by_code app (cur ++ desired) db in
      revoke_codes ids role cur db >>= λ cleared. allow_codes ids role desired cleared

  -- `jsonb` is whether the cast to JSONB accepts a text.
  module _ (jsonb : String → Bool) where
    -- A policy of the file, written under the version that the transaction will publish.
    unfoldable pub write_policy :
        ℤ → String → String → String → String → String → State → Bool → Result Failure State
    unfolding norm_effect
    write_policy id subject_type subject_id resource effect condition (changes, db) is_new =
        lock_app_version app db >>= λ cur.
        let p : Types.DataPolicy = record {
          id = id;
          subject_type = subject_type;
          subject_id = subject_id;
          resource = resource;
          condition = condition;
          effect = norm_effect effect;
          description = "";
        } in
        upsert_data_policy_with_source jsonb app p "iac" (next_version cur) db >>= λ r. ok (
          changes
              ++ record {
                op = if is_new then change_add else change_update;
                policy = record p { id = r.0 };
              }
                ∷ [],
          r.2,
        )

    unfoldable pub write_scopes : String → List DataScope → State → Result Failure State
    unfolding write_policy norm_effect
    write_scopes role [] st = ok st
    write_scopes role (ds ∷ rest) st =
        write_policy (pos 0) "role" role ds.resource ds.effect ds.condition st true >>= λ st'.
        write_scopes role rest st'

  -- The maps from the document, whose missing entries are Go's zero values.
  unfoldable pub role_of : Document → String → Role
  role_of doc key = elim (lookup key (index (λ (r : Role). r.key) doc.roles [])) [
    | some r ↦ r
    | none ↦ record {
      key = "";
      name = "";
      description = "";
      permission_codes = [];
      data_scopes = [];
      source = "";
    }
  ]

  unfoldable pub permission_of : Document → String → Permission
  permission_of doc code =
      elim (lookup code (index (λ (p : Permission). p.code) doc.permissions [])) [
        | some p ↦ p
        | none ↦ record {
          code = "";
          resource = "";
          action = "";
          type = "";
          name = "";
          description = "";
          source = "";
        }
      ]

  unfoldable pub policy_of : Document → String → DataPolicy
  policy_of doc id = elim (lookup id (index declared_id doc.data_policies [])) [
    | some p ↦ p
    | none ↦ record {
      subject_type = "";
      subject_id = "";
      resource = "";
      effect = "";
      condition = "";
      source = "";
    }
  ]

  -- `topDPByIdentity`: the first row of an identity.
  unfoldable pub top_row : List DataPolicyRow → String → Option DataPolicyRow
  top_row dps id = first_row (
      select (λ (d : DataPolicyRow). id == policy_id d.subject_type d.subject_id d.resource)
        (top_policies dps))
