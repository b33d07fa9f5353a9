-- ===== src/Controlplane/Import/Refused.antt =====
-- What an import does not do.
use sydom.Base.{
  String, ◌≡◌, refl, subst, Bool, true, false, Option, none, some, List, [], ◌∷◌, inl, inr, In, ok,
  err, ltb, arith,
}
use sydom.Base.Int.{ℤ}
use sydom.Base.Keyed.{last_by}
use sydom.Controlplane.Store.{Database, import_conflict}
use sydom.Controlplane.Iac.{Document, Current, CurrentRole, Kind, PlanItem, count}
use sydom.Controlplane.Iac.Plan.{diff}
use sydom.Controlplane.Iac.Plan.Roles.{declared_as, stored_as, still_bound}
use sydom.Controlplane.Iac.Plan.Justified.{In-diff}
use sydom.Controlplane.Iac.Validate.{validate}
use sydom.Controlplane.Writes.{Driver, unclassed}
use sydom.Controlplane.Import.{snapshot_current}
use sydom.Controlplane.Import.Transaction.{
  planned, snapshotted, validated, parsed, import_app_policy,
}

count-In :
    (x : PlanItem) (items : List PlanItem)
    → In x items
    → x.kind ≡ Kind.conflict
    → ltb 0 (count Kind.conflict items) ≡ true
unfolding count
count-In x [] i h = absurd i
count-In x (y ∷ items) (inl e) h =
    let k : y.kind ≡ Kind.conflict = subst (λ z. z.kind ≡ Kind.conflict) e h in rw k (ground arith)
count-In x (y ∷ items) (inr i) h = ground (arith, count-In x items i h)

-- An import of content that parses to a valid document is refused, and the tables stay as they are, when the
-- snapshot of the application has a role that an import made, that users are still bound to and
-- that the document does not declare any more.
pub import_app_policy-still_bound :
    (jsonb : String → Bool) (app : ℤ) (parse : String → Option Document)
    (valid_json : String → Bool) (normalise : String → Option String) (d : Driver)
    (content : String) (db : Database) (doc : Document) (cur : Current) (cr : CurrentRole)
    → parse content ≡ some doc
    → validate valid_json doc ≡ ok tt
    → snapshot_current normalise app db ≡ ok cur
    → last_by stored_as cr.key cur.roles ≡ some cr
    → last_by declared_as cr.key doc.roles ≡ none
    → cr.source ≡ "iac"
    → cr.has_user_bindings ≡ true
    → import_app_policy jsonb app parse valid_json normalise d content false db
      ≡ (err (unclassed import_conflict), db)
unfolding import_app_policy parsed validated snapshotted planned
import_app_policy-still_bound jsonb app parse valid_json normalise d content db doc cur cr parses
      valid snapped there gone source bound =
    rw (parses, valid, snapped, conflict) refl
  where
    conflict : ltb 0 (count Kind.conflict (diff normalise doc cur)) ≡ true
    conflict =
        count-In _ (diff normalise doc cur)
          ((In-diff normalise doc cur _).1
            (inr (inl (still_bound cr there gone source bound refl))))
          refl
