-- ===== src/Controlplane/Writes/Inheritance.antt =====
-- What a new edge does to the inheritance of roles.
use sydom.Base.{
  String, ◌≡◌, sym, subst, ap, ◌∙◌, ◌⊎◌, inl, inr, Bool, ◌&&◌, Option, List, [], ◌∷◌, ◌++◌, map,
  any, Bool-cases, Result, ok, err, ok-injective, ◌==◌, ==_refl,
}
use sydom.Base.Int.{ℤ, ℤ_eq}
use sydom.Kernel.Types.{Rule}
use sydom.Controlplane.Types.{DataPolicyChange, Delta}
use sydom.Controlplane.Store.{
  Database, RoleInheritance, Failure, foreign_key_violation, inheritance_cycle, select,
}
use sydom.Controlplane.Store.Statements.{
  apply_diff, bump_app_version, insert_role_inheritance, has_role,
}
use sydom.Controlplane.Projection.{edge_of, edges, check_no_cycle}
use sydom.Controlplane.Projection.Reachable.{Reach}
use sydom.Controlplane.Projection.Acyclic.{IsAcyclic, check_no_cycle-Reach, edge-IsAcyclic}
use sydom.Controlplane.Writes.{Driver, WriteOp, next_version, run_versioned_write}
use sydom.Controlplane.Writes.Tables.{ruled-tables}
use sydom.Controlplane.Writes.Written.{sent, with_records, write_records-ok}
use sydom.Controlplane.Writes.Committed.{
  Outcome, silent_change, published, delta_of, published_tables, run_versioned_write-Outcome,
}
use sydom.Controlplane.Writes.Operations.{silent, add_role_inheritance}

published-edges :
    (d : Driver) (operator : String) (app : ℤ) (op : WriteOp) (cur : ℤ)
    (rules : List Rule × List Rule) (changes : List DataPolicyChange) (db ruled after : Database)
    → apply_diff app rules.0 rules.1 (next_version cur) db ≡ ok ruled
    → published_tables d operator app op cur rules changes ruled ≡ ok after
    → edges app after ≡ edges app db
unfolding bump_app_version edges
published-edges d operator app op cur rules changes db ruled after applied written =
    let delta = delta_of app cur rules changes in
    let (rows, e') = ruled-tables app (next_version cur) rules.0 rules.1 db applied in
    let (row, made, e) =
      write_records-ok d app operator op.action op.entity_type op.entity_id delta ruled written in
    ap (edges app) (e ∙ ap (with_records app (next_version cur) row (sent d app delta)) e')

edges-append :
    (app child parent : ℤ) (rows : List RoleInheritance)
    → map edge_of (
        select
          (λ (h : RoleInheritance). h.app_id == app)
          (rows ++ record { app_id = app; parent_role_id = parent; child_role_id = child } ∷ []))
      ≡ map edge_of (select (λ (h : RoleInheritance). h.app_id == app) rows) ++ (child, parent) ∷ []
edges-append app child parent [] = rw (==_refl app)
edges-append app child parent (h ∷ rows) = elim (Bool-cases (h.app_id == app)) [
  | inl mine ↦ rw mine (ap (λ l. edge_of h ∷ l) (edges-append app child parent rows))
  | inr other ↦ rw other (edges-append app child parent rows)
]

-- The statement adds the one edge, or none.
inserted-edges :
    (app child parent : ℤ) (db : Database) {after : Database}
    → insert_role_inheritance app child parent db ≡ ok after
    → (edges app after ≡ edges app db) ⊎ (edges app after ≡ edges app db ++ (child, parent) ∷ [])
unfolding insert_role_inheritance edges
inserted-edges app child parent db {after} h = elim (Bool-cases (any there db.role_inheritances)) [
  | inl old ↦ inl (ap (edges app) (sym (ok-injective (rw old at h))))
  | inr new ↦ elim (Bool-cases (has_role db app parent && has_role db app child)) [
    | inl known ↦ inr (
        ap (edges app) (sym (ok-injective (rw (new, known) at h)))
        ∙ edges-append app child parent db.role_inheritances)
    | inr unknown ↦ absurd (failed (rw (new, unknown) at h))
  ]
]
  where
    there : RoleInheritance → Bool
    there h = h.app_id == app && h.parent_role_id == parent && h.child_role_id == child

    failed : ¬ (◌≡◌ {A = Result Failure Database} (err foreign_key_violation) (ok after))
    failed e = cc

-- If the inheritance between the roles of an application has no cycle, a write of
-- `AddRoleInheritance` that succeeds leaves it without one.
pub add_role_inheritance-IsAcyclic :
    (d : Driver) (operator : String) (app child parent : ℤ) (before : Database) (o : Option Delta)
    (after : Database)
    → IsAcyclic (edges app before)
    → run_versioned_write d operator app (add_role_inheritance app child parent) before
      ≡ (ok o, after)
    → IsAcyclic (edges app after)
unfolding add_role_inheritance
add_role_inheritance-IsAcyclic d operator app child parent before o after acyclic h = go (
    subst (Outcome d operator app op before) h
      (run_versioned_write-Outcome d operator app op before))
  where
    op : WriteOp
    op = add_role_inheritance app child parent

    inserted :
        (m : Result Failure Database) {cs : List DataPolicyChange} {z : Database}
        → silent m ≡ ok (cs, z)
        → m ≡ ok z
    inserted (ok db) e = ap ok (ap (λ p. p.1) (ok-injective e))
    inserted (err x) e = cc

    apart : check_no_cycle app child parent before ≡ ok tt → ¬ Reach (edges app before) parent child
    apart passed = elim (check_no_cycle-Reach app child parent before) [
      | inl (_, free) ↦ free
      | inr (cycle, _) ↦ absurd (differ (sym passed ∙ cycle))
    ]
      where
        differ : ¬ (◌≡◌ {A = Result Failure (Unit {0})} (ok tt) (err inheritance_cycle))
        differ e = cc

    mutated-IsAcyclic :
        {cs : List DataPolicyChange} {z : Database}
        → check_no_cycle app child parent before ≡ ok tt
        → silent (insert_role_inheritance app child parent before) ≡ ok (cs, z)
        → IsAcyclic (edges app z)
    mutated-IsAcyclic passed made =
        elim (inserted-edges app child parent before
          (inserted (insert_role_inheritance app child parent before) made)) [
            | inl same ↦ subst IsAcyclic (sym same) acyclic
            | inr more ↦
                subst IsAcyclic (sym more)
                  (edge-IsAcyclic (edges app before) child parent acyclic (apart passed))
          ]

    go :
        {o : Option Delta} {z : Database}
        → Outcome d operator app op before (ok o, z)
        → IsAcyclic (edges app z)
    go (silent_change z passed made differ) = mutated-IsAcyclic passed made
    go (published cur cs db ruled z rules locked passed made differ some_change applied written) =
        subst IsAcyclic
          (sym (published-edges d operator app op cur rules cs db ruled z applied written))
          (mutated-IsAcyclic passed made)
