-- ===== src/Controlplane/Writes/Templates.antt =====
-- policy/manager.go, the writes that report permissions and that apply a template.
use sydom.Base.{
  Bool, ℕ, ◌+◌, String, ◌<>◌, Option, none, some, List, [], ◌∷◌, ◌++◌, ◌==◌, string_eq,
  if◌then◌else◌, any, length, map, ◌||◌, Result, ok, err, ◌>>=◌,
}
use sydom.Base.Int.{ℤ, pos, ℤ_eq}
use sydom.Base.Dict.{Dict, lookup}
use sydom.Base.Text.{contains_rune}
use sydom.Kernel.Types.{change_add}
use sydom.Controlplane.Types.{DataPolicy, DataPolicyChange, Delta}
use sydom.Controlplane.Store.{Database, Failure, driver, bad_input}
use sydom.Controlplane.Store.Statements.{insert_role_permission, lock_app_version}
use sydom.Controlplane.Store.Upserts.{
  upsert_auto_permission, upsert_data_policy, permission_ids_by_code, upsert_template_role,
}
use sydom.Controlplane.Writes.{
  Driver, WriteOp, Failed, classify, unchecked, next_version, run_versioned_write,
}
use sydom.Controlplane.Writes.Operations.{silently}

pub record PermissionPoint : Type 0 where
  pub code : String
  pub resource : String
  pub action : String
  pub type : String
  pub name : String
  pub description : String

pub record ReportResult : Type 0 where
  pub upserted : ℕ
  pub skipped : ℕ

pub record TemplateDataScope : Type 0 where
  pub resource : String
  pub effect : String
  pub condition : String

pub record TemplateRole : Type 0 where
  pub key : String
  pub name : String
  pub permission_codes : List String
  pub data_scopes : List TemplateDataScope

pub record ApplyTemplateResult : Type 0 where
  pub perms_upserted : ℕ
  pub perms_skipped : ℕ
  pub roles_created : ℕ
  pub roles_skipped : ℕ
  pub data_scopes_created : ℕ

module _ (app : ℤ) where
  -- The loop over the points, with the counts so far.
  unfoldable pub report_points :
      List PermissionPoint → ReportResult → Database → Result Failure (ReportResult × Database)
  report_points [] res db = ok (res, db)
  report_points (p ∷ ps) res db =
      upsert_auto_permission app p.code p.resource p.action p.type p.name p.description db >>= λ r.
      report_points ps
        (if r.0
          then record res { upserted = res.upserted + 1 }
          else record res { skipped = res.skipped + 1 })
        r.1

  unfoldable pub report_op : List PermissionPoint → WriteOp
  unfolding report_points
  report_op points = record {
    action = "report_permissions";
    entity_type = "permission";
    entity_id = "";
    mutate = λ db. silently (report_points points (record { upserted = 0; skipped = 0 }) db);
    pre_check = unchecked;
  }

  -- The operator is the report itself, whoever asks for it; the delta is not returned.
  reported :
      Result Failure (ReportResult × Database)
      → Result Failed (Option Delta) × Database
      → Result Failed ReportResult × Database
  unfolding classify
  reported made (err e, after) = (err e, after)
  reported (ok (r, db)) (ok o, after) = (ok r, after)
  reported (err e) (ok o, after) = (err (classify e), after)

  unfoldable pub report_permissions :
      Driver → List PermissionPoint → Database → Result Failed ReportResult × Database
  unfolding report_op reported
  report_permissions d points db =
      reported (report_points points (record { upserted = 0; skipped = 0 }) db)
        (run_versioned_write d "auto-report" app (report_op points) db)

  -- The permissions of a template: the counts and the codes.
  register_points :
      List PermissionPoint
      → ApplyTemplateResult
      → Database
      → Result Failure (ApplyTemplateResult × Database)
  register_points [] res db = ok (res, db)
  register_points (p ∷ ps) res db =
      upsert_auto_permission app p.code p.resource p.action p.type p.name p.description db >>= λ r.
      register_points ps
        (if r.0
          then record res { perms_upserted = res.perms_upserted + 1 }
          else record res { perms_skipped = res.perms_skipped + 1 })
        r.1

  grant_codes : Dict String ℤ → ℤ → List String → Database → Result Failure Database
  grant_codes ids role [] db = ok db
  grant_codes ids role (c ∷ cs) db = elim (lookup c ids) [
    | none ↦ err driver
    | some permission ↦ insert_role_permission app role permission "allow" db >>= λ after.
        grant_codes ids role cs after
  ]

  -- `jsonb` is whether the cast to JSONB accepts a text.
  module _ (jsonb : String → Bool) where
    -- The version is the one that the write ends with: the application's row is locked, and each
    -- read of it gives the same number.
    plant_scopes :
        String
        → List TemplateDataScope
        → List DataPolicyChange
        → Database
        → Result Failure (List DataPolicyChange × Database)
    plant_scopes code [] changes db = ok (changes, db)
    plant_scopes code (ds ∷ rest) changes db = lock_app_version app db >>= λ cur.
        let p : DataPolicy = record {
          id = pos 0;
          subject_type = "role";
          subject_id = code;
          resource = ds.resource;
          condition = ds.condition;
          effect = if ds.effect == "" then "allow" else ds.effect;
          description = "";
        } in
        upsert_data_policy jsonb app p (next_version cur) db >>= λ r.
        plant_scopes code rest
          (changes ++ record { op = change_add; policy = record p { id = r.0 } } ∷ []) r.2

    -- A role that is there already is left alone.
    plant_roles :
        String
        → Dict String ℤ
        → List TemplateRole
        → ApplyTemplateResult
        → List DataPolicyChange
        → Database
        → Result Failure (ApplyTemplateResult × List DataPolicyChange × Database)
    unfolding grant_codes plant_scopes
    plant_roles template ids [] res changes db = ok (res, changes, db)
    plant_roles template ids (r ∷ rs) res changes db =
        let code : String = "tpl:" <> (template <> (":" <> r.key)) in
        upsert_template_role app code r.name db >>= λ made.
        let planted : Result Failure (ApplyTemplateResult × List DataPolicyChange × Database) =
          (if made.1
            then (grant_codes ids made.0 r.permission_codes made.2 >>= λ granted.
                plant_scopes code r.data_scopes changes granted >>= λ scoped. ok (
                  record res {
                    roles_created = res.roles_created + 1;
                    data_scopes_created = res.data_scopes_created + length r.data_scopes;
                  },
                  scoped.0,
                  scoped.1,
                ))
            else ok (record res { roles_skipped = res.roles_skipped + 1 }, changes, made.2)) in
        planted >>= λ p. plant_roles template ids rs p.0 p.1 p.2

    plant :
        String
        → List PermissionPoint
        → List TemplateRole
        → Database
        → Result Failure (ApplyTemplateResult × List DataPolicyChange × Database)
    unfolding register_points plant_roles
    plant template points roles db =
        register_points points
          (record {
            perms_upserted = 0;
            perms_skipped = 0;
            roles_created = 0;
            roles_skipped = 0;
            data_scopes_created = 0;
          })
          db
        >>= λ r.
            plant_roles template
              (permission_ids_by_code app (map (λ (p : PermissionPoint). p.code) points) r.1) roles
              r.0 [] r.1

    template_op : String → List PermissionPoint → List TemplateRole → WriteOp
    unfolding plant
    template_op template points roles = record {
      action = "apply_template";
      entity_type = "template";
      entity_id = template;
      mutate = λ db. plant template points roles db >>= λ r. ok (r.1, r.2);
      pre_check = unchecked;
    }

    applied :
        Result Failure (ApplyTemplateResult × List DataPolicyChange × Database)
        → Result Failed (Option Delta) × Database
        → Result Failed (ApplyTemplateResult × Option Delta) × Database
    unfolding classify
    applied made (err e, after) = (err e, after)
    applied (ok (r, changes, db)) (ok o, after) = (ok (r, o), after)
    applied (err e) (ok o, after) = (err (classify e), after)

    unfoldable pub apply_template :
        Driver
        → String
        → String
        → List PermissionPoint
        → List TemplateRole
        → Database
        → Result Failed (ApplyTemplateResult × Option Delta) × Database
    unfolding template_op applied classify
    apply_template d operator template points roles db =
        if contains_rune template b':' || any (λ (r : TemplateRole). contains_rune r.key b':') roles
        then (err (classify bad_input), db)
        else applied (plant template points roles db)
            (run_versioned_write d operator app (template_op template points roles) db)
