-- ===== src/Controlplane/Import/Transaction.antt =====
-- policy/policy_as_code.go, `ImportAppPolicy`: an import and the transaction around it.
use sydom.Base.{
  String, Bool, true, false, not, Option, none, some, List, string_eq, if◌then◌else◌, ltb, Result,
  ok, err, require, ◌>>=◌, ◌>>◌,
}
use sydom.Base.Int.{ℤ, ℤ_eq}
use sydom.Base.Decimal.{decimal}
use sydom.Controlplane.Types.{Delta}
use sydom.Controlplane.Store.{Database, Failure, import_conflict, bad_input}
use sydom.Controlplane.Store.Statements.{lock_app_version}
use sydom.Controlplane.Iac.{Document, Kind, PlanItem, count, Current}
use sydom.Controlplane.Iac.Plan.{diff}
use sydom.Controlplane.Iac.Validate.{Invalid, validate}
use sydom.Controlplane.Writes.{
  Driver, WriteOp, Failed, classify, unclassed, plain, unchecked, run_versioned_write,
}
use sydom.Controlplane.Import.{snapshot_current}
use sydom.Controlplane.Import.Rows.{State}
use sydom.Controlplane.Import.Apply.{apply_import_plan}

module _ (jsonb : String → Bool) (app : ℤ) (parse : String → Option Document)
    (valid_json : String → Bool) (normalise : String → Option String) where
  -- The plan on the state as the transaction sees it; a conflict refuses the whole.
  converge : Document → Database → Result Failure (List PlanItem × State)
  unfolding apply_import_plan
  converge doc db = snapshot_current normalise app db >>= λ cur.
      let plan = diff normalise doc cur in
      require (not (ltb 0 (count Kind.conflict plan))) import_conflict
      >> (apply_import_plan jsonb app doc plan db >>= λ st. ok (plan, st))

  import_op : Document → WriteOp
  unfolding converge
  import_op doc = record {
    action = "import_policy";
    entity_type = "app";
    entity_id = decimal app;
    mutate = λ db. converge doc db >>= λ done. ok done.1;
    pre_check = unchecked;
  }

  -- The answer: the plan, the version and the delta. The plan that Go returns beside a conflict is
  -- left out.
  abbrev pub Answer : Type 0
  Answer = Result Failed (List PlanItem × ℤ × Option Delta)

  -- The plan that was applied, and the version that the application has then.
  imported :
      Result Failure (List PlanItem × State)
      → Result Failed (Option Delta) × Database
      → Answer × Database
  imported made (err e, after) = (err e, after)
  imported (err e) (ok o, after) = (err (classify e), after)
  imported (ok (plan, st)) (ok (some delta), after) = (ok (plan, delta.version, some delta), after)
  imported (ok (plan, st)) (ok none, after) =
      (plain (lock_app_version app after) >>= λ v. ok (plan, v, none), after)

  -- Before the transaction: an early refusal, or with `dry_run` the plan alone.
  unfoldable pub planned : Driver → Document → Bool → Database → List PlanItem → Answer × Database
  unfolding import_op imported classify
  planned d doc true db plan = (plain (lock_app_version app db) >>= λ v. ok (plan, v, none), db)
  planned d doc false db plan =
      if ltb 0 (count Kind.conflict plan)
      then (err (unclassed import_conflict), db)
      else imported (converge doc db) (run_versioned_write d "iac-import" app (import_op doc) db)

  unfoldable pub snapshotted :
      Driver → Document → Bool → Database → Result Failure Current → Answer × Database
  unfolding planned
  snapshotted d doc dry_run db (err e) = (err (unclassed e), db)
  snapshotted d doc dry_run db (ok cur) = planned d doc dry_run db (diff normalise doc cur)

  unfoldable pub validated :
      Driver → Document → Bool → Database → Result Invalid (Unit {0}) → Answer × Database
  unfolding snapshotted
  validated d doc dry_run db (err e) = (err (unclassed bad_input), db)
  validated d doc dry_run db (ok u) =
      snapshotted d doc dry_run db (snapshot_current normalise app db)

  unfoldable pub parsed : Driver → Bool → Database → Option Document → Answer × Database
  unfolding validated
  parsed d dry_run db none = (err (unclassed bad_input), db)
  parsed d dry_run db (some doc) = validated d doc dry_run db (validate valid_json doc)

  unfoldable pub import_app_policy : Driver → String → Bool → Database → Answer × Database
  unfolding parsed
  import_app_policy d content dry_run db = parsed d dry_run db (parse content)
