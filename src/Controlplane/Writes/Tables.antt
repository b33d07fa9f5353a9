-- ===== src/Controlplane/Writes/Tables.antt =====
-- What a published write leaves of the tables, and the rules that it stores.
use mathlib.Core.Path.{fun_ext}
use sydom.Base.{
  Eq, String, ◌≡◌, refl, sym, subst, ap, ◌∙◌, ◌⊎◌, inl, inr, ◌↔◌, List, [], ◌∷◌, ◌++◌, map, ◌==◌,
  string_eq, contains, In-of_contains, not_In-of_contains, In, All, Bool-cases, Result, ok, err,
  ok-injective, ◌>>=◌,
}
use sydom.Base.Int.{ℤ, ℤ_eq}
use sydom.Kernel.Types.{Rule}
use sydom.Controlplane.Types.{DataPolicyChange}
use sydom.Controlplane.Diff.{diff}
use sydom.Controlplane.Diff.Keys.{IsPlain}
use sydom.Controlplane.Diff.Membership.{diff_iff}
use sydom.Controlplane.Store.{
  Database, Application, CasbinRule, Audit, OutboxRow, Failure, select, update_where,
}
use sydom.Controlplane.Store.Statements.{
  read_app_rules, apply_diff, bump_app_version, insert_rules, delete_rules,
}
use sydom.Controlplane.Projection.{
  project_app, domains_of, permission_rules, user_rules, inheritance_rules,
}
use sydom.Controlplane.Writes.{Driver, WriteOp, next_version}
use sydom.Controlplane.Writes.Rules.{Holds, In-read_app_rules, Holds-apply_diff}
use sydom.Controlplane.Writes.Committed.{delta_of, published_tables}
use sydom.Controlplane.Writes.Written.{sent, with_records, write_records-ok}

-- The stored rules of the application are those that its tables stand for.
abbrev pub Synced : ℤ → Database → Type 0
Synced app db = (r : Rule) → In r (read_app_rules app db) ↔ In r (project_app app db)

Rule-discrete : Discrete Rule
Rule-discrete = hlevel (string_eq.dec)

instance abbrev rule_eq : Eq Rule
rule_eq = record { dec = Rule-discrete }

pub decide-In : (r : Rule) (rs : List Rule) → In r rs ⊎ (¬ In r rs)
decide-In r rs = elim (Bool-cases (contains rs r)) [
  | inl there ↦ inl (In-of_contains rs r there)
  | inr gone ↦ inr (not_In-of_contains rs r gone)
]

domains_of-bump :
    (app : ℤ) (version : ℤ) (db : Database) (id : ℤ)
    → domains_of (bump_app_version app version db) id ≡ domains_of db id
unfolding domains_of bump_app_version
domains_of-bump app version db id = go db.applications
  where
    go :
        (xs : List Application)
        → map
            (λ (a : Application). a.domain)
            (select
              (λ (a : Application). a.id == id)
              (update_where
                (λ (a : Application). a.id == app)
                (λ (a : Application). record a { current_version = version })
                xs))
          ≡ map (λ (a : Application). a.domain) (select (λ (a : Application). a.id == id) xs)
    go [] = refl
    go (a ∷ xs) = elim (Bool-cases (a.id == app)) [
      | inl same ↦ elim (Bool-cases (a.id == id)) [
        | inl hit ↦ rw (same, hit) (ap (λ l. a.domain ∷ l) (go xs))
        | inr miss ↦ rw (same, miss) (go xs)
      ]
      | inr other ↦ elim (Bool-cases (a.id == id)) [
        | inl hit ↦ rw (other, hit) (ap (λ l. a.domain ∷ l) (go xs))
        | inr miss ↦ rw (other, miss) (go xs)
      ]
    ]

pub ruled-tables :
    (app version : ℤ) (adds removes : List Rule) (db : Database) {ruled : Database}
    → apply_diff app adds removes version db ≡ ok ruled
    → (rows : List CasbinRule) × (ruled ≡ record db { casbin_rules = rows })
unfolding apply_diff
ruled-tables app version adds removes db {ruled} h =
    go (insert_rules app version adds (delete_rules app removes db.casbin_rules)) h
  where
    go :
        (m : Result Failure (List CasbinRule))
        → (m >>= λ rows. ok (record db { casbin_rules = rows })) ≡ ok ruled
        → (rows : List CasbinRule) × (ruled ≡ record db { casbin_rules = rows })
    go (err e) h = cc
    go (ok rows) h = (rows, sym (ok-injective h))

-- The rules of all three queries, over given domains.
all_rules : (ℤ → List String) → ℤ → Database → List Rule
all_rules domains app db =
    permission_rules domains app db
    ++ (user_rules domains app db ++ inheritance_rules domains app db)

-- To publish a difference changes neither the rules again nor what the tables stand for.
pub published-rules :
    (d : Driver) (operator : String) (app : ℤ) (op : WriteOp) (cur : ℤ)
    (rules : List Rule × List Rule) (changes : List DataPolicyChange) (ruled : Database)
    {after : Database}
    → published_tables d operator app op cur rules changes ruled ≡ ok after
    → after.casbin_rules ≡ ruled.casbin_rules
unfolding bump_app_version
published-rules d operator app op cur rules changes ruled written =
    let (row, made, e) =
      write_records-ok d app operator op.action op.entity_type op.entity_id
        (delta_of app cur rules changes) ruled written in
    ap (λ (z : Database). z.casbin_rules) e

-- The tables with other rules, a new version, an audit and what is sent.
abbrev with_rules : ℤ → ℤ → Audit → List OutboxRow → List CasbinRule → Database → Database
with_rules app version row out rows db =
    with_records app version row out (record db { casbin_rules = rows })

all_rules-with_rules :
    (domains : ℤ → List String) (app a version : ℤ) (row : Audit) (out : List OutboxRow)
    (rows : List CasbinRule) (db : Database)
    → all_rules domains app (with_rules a version row out rows db) ≡ all_rules domains app db
unfolding all_rules permission_rules user_rules inheritance_rules bump_app_version
all_rules-with_rules domains app a version row out rows db = refl

domains_of-with_rules :
    (app version : ℤ) (row : Audit) (out : List OutboxRow) (rows : List CasbinRule) (db : Database)
    (id : ℤ)
    → domains_of (with_rules app version row out rows db) id ≡ domains_of db id
unfolding domains_of bump_app_version
domains_of-with_rules app version row out rows db id = domains_of-bump app version db id

project_app-with_rules :
    (app version : ℤ) (row : Audit) (out : List OutboxRow) (rows : List CasbinRule) (db : Database)
    → project_app app (with_rules app version row out rows db) ≡ project_app app db
unfolding project_app all_rules
project_app-with_rules app version row out rows db =
    ap (λ domains. all_rules domains app (with_rules app version row out rows db))
      (fun_ext (domains_of-with_rules app version row out rows db))
    ∙ all_rules-with_rules (domains_of db) app app version row out rows db

pub published-projection :
    (d : Driver) (operator : String) (app : ℤ) (op : WriteOp) (cur : ℤ)
    (rules : List Rule × List Rule) (changes : List DataPolicyChange) (mutated ruled : Database)
    {after : Database}
    → apply_diff app rules.0 rules.1 (next_version cur) mutated ≡ ok ruled
    → published_tables d operator app op cur rules changes ruled ≡ ok after
    → project_app app after ≡ project_app app mutated
published-projection d operator app op cur rules changes mutated ruled {after} applied written =
    let delta = delta_of app cur rules changes in
    let (row, made, e) =
      write_records-ok d app operator op.action op.entity_type op.entity_id delta ruled written in
    let (rows, e') = ruled-tables app (next_version cur) rules.0 rules.1 mutated applied in
    ap (project_app app) (e ∙ ap (with_records app (next_version cur) row (sent d app delta)) e')
    ∙ project_app-with_rules app (next_version cur) row (sent d app delta) rows mutated

-- The rules of the mutated tables after the difference is applied.
pub Synced-apply_diff :
    (app version : ℤ) (mutated ruled : Database) (rules : List Rule × List Rule)
    → All IsPlain (read_app_rules app mutated)
    → All IsPlain (project_app app mutated)
    → diff (read_app_rules app mutated) (project_app app mutated) ≡ rules
    → apply_diff app rules.0 rules.1 version mutated ≡ ok ruled
    → (r : Rule) → Holds app r ruled.casbin_rules ↔ In r (project_app app mutated)
Synced-apply_diff app version mutated ruled rules plain plain' differ applied r =
    let current = read_app_rules app mutated in
    let desired = project_app app mutated in
    let (added, removed) =
      subst
        (λ (p : List Rule × List Rule).
          (In r p.0 ↔ (In r desired × ¬ In r current))
          × (In r p.1 ↔ (In r current × ¬ In r desired)))
        differ (diff_iff current desired plain plain' r) in
    let (f, g) = Holds-apply_diff app app version r rules.0 rules.1 mutated applied in
    (
      λ h. elim (f h) [
        | inl (old, kept) ↦ elim (decide-In r desired) [
          | inl there ↦ there
          | inr gone ↦
              absurd (kept (refl, removed.1 ((In-read_app_rules app mutated r).1 old, gone)))
        ]
        | inr (_, new) ↦ (added.0 new).0
      ],
      λ there. elim (decide-In r current) [
        | inl old ↦ g (inl ((In-read_app_rules app mutated r).0 old, λ k. (removed.0 k.1).1 there))
        | inr new ↦ g (inr (refl, added.1 (there, new)))
      ],
    )
