-- ===== src/Controlplane/Store/Upserts.antt =====
-- store/store.go, the writes that insert a row or change the one that is there.
use sydom.Base.{
  ◌+◌, String, Bool, true, false, ◌&&◌, ◌||◌, not, none, some, List, [], ◌∷◌, ◌++◌, ◌==◌, string_eq,
  if◌then◌else◌, any, contains, Result, ok, require, ◌>>=◌, ◌>>◌,
}
use sydom.Base.Int.{ℤ, pos, ℤ_eq}
use sydom.Base.Dict.{Dict, insert}
use sydom.Controlplane.Types.{DataPolicy}
use sydom.Controlplane.Store.{
  Database, RoleRow, PermissionRow, DataPolicyRow, Failure, missing_row, driver,
  foreign_key_violation, select, first_row, update_where,
}
use sydom.Controlplane.Store.Statements.{has_app, insert_role_with_source}

-- `ON CONFLICT (app_id, code) DO UPDATE`: `set` writes the columns of the row that is there, and
-- `fresh` is the row that is inserted otherwise.
unfoldable pub upsert_permission_row :
    ℤ
    → String
    → (PermissionRow → PermissionRow)
    → (ℤ → PermissionRow)
    → Database
    → Result Failure (ℤ × Database)
upsert_permission_row app code set fresh db =
    elim (first_row
      (select (λ (p : PermissionRow). p.app_id == app && p.code == code) db.permissions)) [
        | some p ↦ ok (
          p.id,
          record db {
            permissions =
                update_where (λ (p : PermissionRow). p.app_id == app && p.code == code) set
                  db.permissions;
          },
        )
        | none ↦
            require (has_app db app) foreign_key_violation
            >> ok (
              pos db.next_permission,
              record db {
                permissions = db.permissions ++ fresh (pos db.next_permission) ∷ [];
                next_permission = db.next_permission + 1;
              },
            )
      ]

unfoldable pub upsert_permission :
    ℤ → String → String → String → String → String → Database → Result Failure (ℤ × Database)
unfolding upsert_permission_row
upsert_permission app code resource action type name db =
    upsert_permission_row app code
      (λ p. record p { resource = resource; action = action; type = type; name = name })
      (λ id. record {
        id = id;
        app_id = app;
        code = code;
        resource = resource;
        action = action;
        type = type;
        name = name;
        description = "";
        source = "manual";
      })
      db

-- An existing row is overwritten only if it was reported too. The answer is whether one was.
unfoldable pub upsert_auto_permission :
    ℤ
    → String
    → String
    → String
    → String
    → String
    → String
    → Database
    → Result Failure (Bool × Database)
upsert_auto_permission app code resource action type name description db =
    elim (first_row
      (select (λ (p : PermissionRow). p.app_id == app && p.code == code) db.permissions)) [
        | some p ↦ ok (
            if p.source == "auto"
            then (
              true,
              record db {
                permissions =
                    update_where (λ (p : PermissionRow). p.app_id == app && p.code == code)
                      (λ (p : PermissionRow). record p {
                        resource = resource;
                        action = action;
                        type = type;
                        name = name;
                        description = description;
                      })
                      db.permissions;
              },
            )
            else (false, db))
        | none ↦
            require (has_app db app) foreign_key_violation
            >> ok (
              true,
              record db {
                permissions =
                    db.permissions
                    ++ record {
                      id = pos db.next_permission;
                      app_id = app;
                      code = code;
                      resource = resource;
                      action = action;
                      type = type;
                      name = name;
                      description = description;
                      source = "auto";
                    }
                      ∷ [];
                next_permission = db.next_permission + 1;
              },
            )
      ]

abbrev or_allow : String → String
or_allow effect = if effect == "" then "allow" else effect

-- `data_policy_effect_chk`
abbrev effect_allowed : String → Bool
effect_allowed effect = effect == "allow" || effect == "deny"

-- The identifier 0 asks for a new row; any other names the row to change, which must be there.
-- `jsonb` is whether the cast to JSONB accepts a text. The column keeps the text that it is given.
module _ (jsonb : String → Bool) (app : ℤ) where
  upsert_data_policy_row :
      DataPolicy
      → (DataPolicyRow → String)
      → Failure
      → ℤ
      → Database
      → Result Failure (ℤ × Bool × Database)
  upsert_data_policy_row p source missing version db =
      let row : ℤ → String → DataPolicyRow = λ id from. record {
        id = id;
        app_id = app;
        subject_type = p.subject_type;
        subject_id = p.subject_id;
        resource = p.resource;
        condition = p.condition;
        effect = or_allow p.effect;
        description = p.description;
        source = from;
        version = version;
      } in
      let fresh = row (pos db.next_data_policy) "manual" in
      require (jsonb p.condition) driver
      >> (if p.id == pos 0
          then require (effect_allowed (or_allow p.effect)) driver
            >> (require (has_app db app) foreign_key_violation
                >> ok (
                  pos db.next_data_policy,
                  true,
                  record db {
                    data_policies = db.data_policies ++ record fresh { source = source fresh } ∷ [];
                    next_data_policy = db.next_data_policy + 1;
                  },
                ))
          else require
              (any (λ (d : DataPolicyRow). d.app_id == app && d.id == p.id) db.data_policies)
              missing
            >> (require (effect_allowed (or_allow p.effect)) driver
                >> ok (
                  p.id,
                  false,
                  record db {
                    data_policies =
                        update_where (λ (d : DataPolicyRow). d.app_id == app && d.id == p.id)
                          (λ (d : DataPolicyRow). row d.id (source d)) db.data_policies;
                  },
                )))

  -- The statement leaves the source of a row alone; a new row has the column's default.
  unfoldable pub upsert_data_policy :
      DataPolicy → ℤ → Database → Result Failure (ℤ × Bool × Database)
  unfolding upsert_data_policy_row
  upsert_data_policy p version db =
      upsert_data_policy_row p (λ (d : DataPolicyRow). d.source) missing_row version db

  unfoldable pub upsert_data_policy_with_source :
      DataPolicy → String → ℤ → Database → Result Failure (ℤ × Bool × Database)
  unfolding upsert_data_policy_row
  upsert_data_policy_with_source p source version db =
      upsert_data_policy_row p (λ (d : DataPolicyRow). source) driver version db

unfoldable pub delete_data_policy : ℤ → ℤ → Database → Result Failure Database
delete_data_policy app id db =
    require (any (λ (d : DataPolicyRow). d.app_id == app && d.id == id) db.data_policies)
      missing_row
    >> ok (record db {
      data_policies =
          select (λ (d : DataPolicyRow). not (d.app_id == app && d.id == id)) db.data_policies;
    })

-- The rows of the codes into a map, row by row.
index_ids : List PermissionRow → Dict String ℤ → Dict String ℤ
index_ids [] m = m
index_ids (p ∷ ps) m = index_ids ps (insert p.code p.id m)

unfoldable pub permission_ids_by_code : ℤ → List String → Database → Dict String ℤ
unfolding index_ids
permission_ids_by_code app codes db =
    index_ids
      (select (λ (p : PermissionRow). p.app_id == app && contains codes p.code) db.permissions) []

-- A role that is there is left as it is.
unfoldable pub upsert_template_role :
    ℤ → String → String → Database → Result Failure (ℤ × Bool × Database)
unfolding insert_role_with_source
upsert_template_role app code name db =
    elim (first_row (select (λ (r : RoleRow). r.app_id == app && r.code == code) db.roles)) [
      | some r ↦ ok (r.id, false, db)
      | none ↦
          insert_role_with_source app code name "manual" db >>= λ made. ok (made.0, true, made.1)
    ]
