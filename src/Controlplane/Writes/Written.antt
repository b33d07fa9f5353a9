-- ===== src/Controlplane/Writes/Written.antt =====
-- What the last statements of a write leave of the tables: the version, the audit and what is sent.
use mathlib.Core.List.{append-nil}
use sydom.Base.{
  String, ◌≡◌, sym, ap, ◌∙◌, inl, inr, List, [], ◌∷◌, ◌++◌, Result, ok, err, ok-injective,
  if◌then◌else◌, Bool-cases, >>=-eq-ok,
}
use sydom.Base.Int.{ℤ}
use sydom.Controlplane.Types.{Delta}
use sydom.Controlplane.Translate.{delta_to_proto}
use sydom.Controlplane.Store.{Database, Audit, OutboxRow, Failure, driver}
use sydom.Controlplane.Store.Statements.{bump_app_version, audit_row, insert_audit}
use sydom.Controlplane.Writes.{
  Driver, asked, write_version, write_audit, write_outbox, audit_diff, persist, write_records,
}
use sydom.Controlplane.Writes.Committed.{asked-ok}

-- What is sent, where there is a sink.
abbrev pub sent : Driver → ℤ → Delta → List OutboxRow
sent d app delta =
    if d.has_sink
    then record { app_id = app; version = delta.version; delta = delta_to_proto delta } ∷ []
    else []

-- The tables with a new version, an audit and what is sent.
abbrev pub with_records : ℤ → ℤ → Audit → List OutboxRow → Database → Database
with_records app version row out db = record (bump_app_version app version db) {
  audits = db.audits ++ row ∷ [];
  outbox = db.outbox ++ out;
}

driver_is_no_result : {A : Type 0} {a : A} → ¬ (◌≡◌ {A = Result Failure A} (err driver) (ok a))
driver_is_no_result e = cc

persist-outbox :
    (d : Driver) (app : ℤ) (delta : Delta) (db : Database) {after : Database}
    → persist d app delta db ≡ ok after
    → after ≡ record db { outbox = db.outbox ++ sent d app delta }
unfolding persist
persist-outbox d app delta db {after} h = elim (Bool-cases d.has_sink) [
  | inl sink ↦ elim (Bool-cases (d.marshals (delta_to_proto delta))) [
    | inl marshalled ↦ elim (Bool-cases (d.answers write_outbox)) [
      | inl answered ↦ rw sink (sym (ok-injective (rw (sink, marshalled, answered) at h)))
      | inr fails ↦ absurd (driver_is_no_result (rw (sink, marshalled, fails) at h))
    ]
    | inr fails ↦ absurd (driver_is_no_result (rw (sink, fails) at h))
  ]
  | inr silent ↦ rw silent (
      sym (ok-injective (rw silent at h))
      ∙ ap (λ out. record db { outbox = out }) (sym (append-nil db.outbox)))
]

pub insert_audit-ok :
    (app : ℤ) (operator action entity_type entity_id : String) (delta : Delta) (db : Database)
    {after : Database}
    → insert_audit app operator action entity_type entity_id
        (audit_diff delta.rule_adds delta.rule_removes delta.data_changes)
        delta.version
        db
      ≡ ok after
    → (row : Audit) × (audit_row app operator action entity_type entity_id
          (audit_diff delta.rule_adds delta.rule_removes delta.data_changes)
          delta.version
        ≡ ok row)
      × (after ≡ record db { audits = db.audits ++ row ∷ [] })
unfolding insert_audit
insert_audit-ok app operator action entity_type entity_id delta db h =
    let (row, made, done) =
      >>=-eq-ok
        (audit_row app operator action entity_type entity_id
          (audit_diff delta.rule_adds delta.rule_removes delta.data_changes) delta.version)
        (λ row. ok (record db { audits = db.audits ++ row ∷ [] })) h in
    (row, made, sym (ok-injective done))

pub write_records-ok :
    (d : Driver) (app : ℤ) (operator action entity_type entity_id : String) (delta : Delta)
    (db : Database) {after : Database}
    → write_records d operator app action entity_type entity_id delta db ≡ ok after
    → (row : Audit) × (audit_row app operator action entity_type entity_id
          (audit_diff delta.rule_adds delta.rule_removes delta.data_changes)
          delta.version
        ≡ ok row)
      × (after ≡ with_records app delta.version row (sent d app delta) db)
unfolding write_records bump_app_version
write_records-ok d app operator action entity_type entity_id delta db h =
    let (bumped, up, rest) =
      >>=-eq-ok (asked d write_version (ok (bump_app_version app delta.version db))) _ h in
    let (audited, put, last) = >>=-eq-ok (asked d write_audit _) _ rest in
    let is_bumped =
      ok-injective (asked-ok d write_version (ok (bump_app_version app delta.version db)) up) in
    let (row, made, e) =
      insert_audit-ok app operator action entity_type entity_id delta bumped
        (asked-ok d write_audit _ put) in
    (
      row,
      made,
      persist-outbox d app delta audited last
          ∙ ap (λ (z : Database). record z { outbox = z.outbox ++ sent d app delta }) e
          ∙ ap
              (λ (z : Database). record z {
                audits = z.audits ++ row ∷ [];
                outbox = z.outbox ++ sent d app delta;
              })
              (sym is_bumped),
    )
