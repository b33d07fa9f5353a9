-- ===== src/Controlplane/Writes/Steady.antt =====
-- Where nothing from outside makes a write fail.
use sydom.Base.{
  ℕ, zero, suc, ◌+◌, ◌≤◌, Result, arith, String, ◌≡◌, refl, inl, inr, true, Option, [], ◌∷◌, ◌++◌,
  Bool-cases, ok,
}
use sydom.Base.Int.{ℤ}
use sydom.Wire
use sydom.Controlplane.Types.{Delta}
use sydom.Controlplane.Translate.{delta_to_proto}
use sydom.Controlplane.Store.{Database, AuditDiff, Failure}
use sydom.Controlplane.Store.Statements.{varchar, audit_row, insert_audit}
use sydom.Controlplane.Writes.{Call, write_outbox, asked, Driver, persist}

unfoldable pub text_length : String → ℕ
text_length String.[] = 0
text_length (String.◌∷◌ c s) = text_length s + 1

-- A text of at most `n` characters.
abbrev pub Fits : ℕ → String → Type 0
unfolding text_length
Fits n s = text_length s ≤ n

varchar-ok : (n : ℕ) (s : String) → Fits n s → varchar n s ≡ ok s
unfolding varchar text_length
varchar-ok zero String.[] h = refl
varchar-ok zero (String.◌∷◌ c s) h = absurd (omega (arith, h))
varchar-ok (suc n) String.[] h = refl
varchar-ok (suc n) (String.◌∷◌ c s) h = rw (varchar-ok n s (omega (arith, h))) refl

-- The texts of an audit that its columns hold.
pub record IsAuditable (operator : String) (action entity_type entity_id : String) : Type 0 where
  pub operator_fits : Fits 128 operator
  pub action_fits : Fits 32 action
  pub entity_type_fits : Fits 32 entity_type
  pub entity_id_fits : Fits 128 entity_id

-- A driver that nothing goes wrong with.
pub record IsSteady (d : Driver) : Type 0 where
  pub begins : d.begins ≡ true
  pub answers : (call : Call) → d.answers call ≡ true
  pub marshals : (m : Wire.Delta) → d.marshals m ≡ true
  pub commits : d.commits ≡ true

pub insert_audit-done :
    (app : ℤ) (operator action entity_type entity_id : String) (o : Option AuditDiff) (version : ℤ)
    (db : Database)
    → IsAuditable operator action entity_type entity_id
    → (after : Database) × (insert_audit app operator action entity_type entity_id o version db
        ≡ ok after)
unfolding insert_audit audit_row
insert_audit-done app operator action entity_type entity_id o version db fits = (
  record db {
    audits =
        db.audits
        ++ record {
          app_id = app;
          operator = operator;
          action = action;
          entity_type = entity_type;
          entity_id = entity_id;
          diff = o;
          version = version;
        }
          ∷ [];
  },
  rw
      (
        varchar-ok 128 operator fits.operator_fits,
        varchar-ok 32 action fits.action_fits,
        varchar-ok 32 entity_type fits.entity_type_fits,
        varchar-ok 128 entity_id fits.entity_id_fits,
      )
      refl,
)

pub persist-done :
    (d : Driver) (app : ℤ) (delta : Delta) (db : Database)
    → IsSteady d
    → (after : Database) × (persist d app delta db ≡ ok after)
unfolding persist
persist-done d app delta db steady = elim (Bool-cases d.has_sink) [
  | inl sink ↦ (
    record db {
      outbox =
          db.outbox
          ++ record { app_id = app; version = delta.version; delta = delta_to_proto delta } ∷ [];
    },
    rw (sink, steady.marshals (delta_to_proto delta), steady.answers write_outbox),
  )
  | inr silent ↦ (db, rw silent)
]

pub asked-done :
    {A : Type 0} (d : Driver) (call : Call) {r : Result Failure A} {a : A}
    → IsSteady d
    → r ≡ ok a
    → asked d call r ≡ ok a
asked-done d call steady e = rw (steady.answers call) e
