-- ===== src/Controlplane/Projection.antt =====
-- projection/project.go: the rules that the tables of an application stand for, and the search
-- that keeps the inheritance of its roles free of cycles.
pub mod Reachable
pub mod Search
pub mod Acyclic
mod Tests
use sydom.Base.{
  ℕ, zero, suc, ◌+◌, String, Bool, true, false, ◌||◌, Option, none, some, List, [], ◌∷◌, ◌++◌, map,
  ◌==◌, if◌then◌else◌, length, contains, Result, ok, err, require, ◌>>◌,
}
use sydom.Base.Int.{ℤ, ℤ_eq}
use sydom.Kernel.Types.{Rule}
use sydom.Controlplane.Store.{
  Database, Application, RoleRow, PermissionRow, RolePermission, RoleInheritance, UserRoleBinding,
  Failure, inheritance_cycle, driver, select, join,
}

-- `JOIN … ON x.id = <id>`
roles_of : Database → ℤ → List RoleRow
roles_of db id = select (λ (r : RoleRow). r.id == id) db.roles

-- `app.domain` of `JOIN application app ON app.id = <id>`
unfoldable pub domains_of : Database → ℤ → List String
domains_of db id =
    map (λ (a : Application). a.domain) (select (λ (a : Application). a.id == id) db.applications)

-- `g, <sub>, <role>, <domain>`
abbrev pub grouping : String → String → String → Rule
grouping sub role dom = record {
  ptype = "g";
  v0 = sub;
  v1 = role;
  v2 = dom;
  v3 = "";
  v4 = "";
  v5 = "";
}

-- `p, <role>, <domain>, <resource>, <action>, <effect>`
abbrev pub permitting : RoleRow → PermissionRow → String → String → Rule
permitting r p eft dom = record {
  ptype = "p";
  v0 = r.code;
  v1 = dom;
  v2 = p.resource;
  v3 = p.action;
  v4 = eft;
  v5 = "";
}

-- The three queries, over the domains of the applications.
module _ (domains : ℤ → List String) (app : ℤ) (db : Database) where
  unfoldable pub permission_rules : List Rule
  unfolding roles_of
  permission_rules =
      join
        (λ (rp : RolePermission).
          join
            (λ (r : RoleRow).
              join (λ (p : PermissionRow). map (permitting r p rp.eft) (domains rp.app_id))
                (select (λ (p : PermissionRow). p.id == rp.permission_id) db.permissions))
            (roles_of db rp.role_id))
        (select (λ (rp : RolePermission). rp.app_id == app) db.role_permissions)

  unfoldable pub user_rules : List Rule
  unfolding roles_of
  user_rules =
      join
        (λ (b : UserRoleBinding).
          join (λ (r : RoleRow). map (grouping b.user_id r.code) (domains b.app_id))
            (roles_of db b.role_id))
        (select (λ (b : UserRoleBinding). b.app_id == app) db.user_role_bindings)

  unfoldable pub inheritance_rules : List Rule
  unfolding roles_of
  inheritance_rules =
      join
        (λ (h : RoleInheritance).
          join
            (λ (c : RoleRow).
              join (λ (p : RoleRow). map (grouping c.code p.code) (domains h.app_id))
                (roles_of db h.parent_role_id))
            (roles_of db h.child_role_id))
        (select (λ (h : RoleInheritance). h.app_id == app) db.role_inheritances)

unfoldable pub project_app : ℤ → Database → List Rule
unfolding permission_rules user_rules inheritance_rules domains_of
project_app app db =
    permission_rules (domains_of db) app db
    ++ (user_rules (domains_of db) app db ++ inheritance_rules (domains_of db) app db)

-- `adj`: each row from a child to its parent.
abbrev pub edge_of : RoleInheritance → ℤ × ℤ
edge_of h = (h.child_role_id, h.parent_role_id)

unfoldable pub edges : ℤ → Database → List (ℤ × ℤ)
edges app db = map edge_of (select (λ (h : RoleInheritance). h.app_id == app) db.role_inheritances)

-- `adj[n]`
unfoldable pub parents : List (ℤ × ℤ) → ℤ → List ℤ
parents [] n = []
parents ((c, p) ∷ es) n = let rest = parents es n in if c == n then p ∷ rest else rest

-- `for _, nxt := range adj[n] { if dfs(nxt) { return true } }`, over the set of visited roles.
after_visit : Option (Bool × List ℤ) → (List ℤ → Option (Bool × List ℤ)) → Option (Bool × List ℤ)
after_visit none rest = none
after_visit (some (true, visited)) rest = some (true, visited)
after_visit (some (false, visited)) rest = rest visited

scan : (ℤ → List ℤ → Option (Bool × List ℤ)) → List ℤ → List ℤ → Option (Bool × List ℤ)
unfolding after_visit
scan visit [] visited = some (false, visited)
scan visit (n ∷ ns) visited = after_visit (visit n visited) (λ visited'. scan visit ns visited')

-- The closure `dfs`: whether `child` is reached from `n`, and the visited roles. It recurs without
-- a bound in Go; here the first argument bounds the depth, and none says that it was too small.
unfoldable pub dfs : List (ℤ × ℤ) → ℤ → ℕ → ℤ → List ℤ → Option (Bool × List ℤ)
unfolding scan parents after_visit
dfs es child zero n visited = none
dfs es child (suc fuel) n visited =
    if n == child
    then some (true, visited)
    else if contains visited n
    then some (false, visited)
    else scan (dfs es child fuel) (parents es n) (n ∷ visited)

-- Deep enough for any search: each level but the last visits a role for the first time.
abbrev pub depth : List (ℤ × ℤ) → ℕ
depth es = length es + 2

cycle_found : Option (Bool × List ℤ) → Result Failure (Unit {0})
cycle_found none = err driver
cycle_found (some (true, visited)) = err inheritance_cycle
cycle_found (some (false, visited)) = ok tt

unfoldable pub check_no_cycle : ℤ → ℤ → ℤ → Database → Result Failure (Unit {0})
unfolding dfs cycle_found edges
check_no_cycle app child parent db =
    if child == parent
    then err inheritance_cycle
    else cycle_found (dfs (edges app db) child (depth (edges app db)) parent [])
