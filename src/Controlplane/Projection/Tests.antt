-- ===== src/Controlplane/Projection/Tests.antt =====
-- The search and the check on a small hierarchy.
use sydom.Base.{◌≡◌, refl, ◌↔◌, ◌⊎◌, Bool, true, some, List, [], ◌∷◌, ok, err}
use sydom.Base.Int.{ℤ, pos, ℤ_eq}
use sydom.Controlplane.Store.{Database, inheritance_cycle}
use sydom.Controlplane.Projection.{project_app, edges, dfs, depth, check_no_cycle}
use sydom.Controlplane.Projection.Reachable.{Reach}
use sydom.Controlplane.Projection.Search.{dfs-Reach}
use sydom.Controlplane.Projection.Acyclic.{check_no_cycle-Reach}
use sydom.Kernel.Engine.Example.{reader, member}
use sydom.Controlplane.Example.{tables}

-- 1 inherits 2, and 2 inherits 3 and 1.
abbrev loop : List (ℤ × ℤ)
loop = (pos 1, pos 2) ∷ (pos 2, pos 3) ∷ (pos 2, pos 1) ∷ []

abbrev chain : Database
chain = record tables {
  role_inheritances = record { app_id = pos 1; parent_role_id = pos 2; child_role_id = pos 1 } ∷ [];
}

project_tables : project_app (pos 1) tables ≡ reader ∷ member ∷ []
unfolding project_app ℤ_eq native.Mathlib.Decide.ℕ_discrete
project_tables = refl

closes : check_no_cycle (pos 1) (pos 2) (pos 1) chain ≡ err inheritance_cycle
unfolding check_no_cycle ℤ_eq native.Mathlib.Decide.ℕ_discrete
closes = refl

extends : check_no_cycle (pos 1) (pos 3) (pos 1) chain ≡ ok tt
unfolding check_no_cycle ℤ_eq native.Mathlib.Decide.ℕ_discrete
extends = refl

dfs-Reach_example :
    (r : Bool × List ℤ) × (dfs loop (pos 3) (depth loop) (pos 1) [] ≡ some r)
    × ((r.0 ≡ true) ↔ Reach loop (pos 1) (pos 3))
dfs-Reach_example = dfs-Reach loop (pos 3) (pos 1)

check_no_cycle-Reach_example :
    ((check_no_cycle (pos 1) (pos 2) (pos 1) chain ≡ ok tt)
      × (¬ Reach (edges (pos 1) chain) (pos 1) (pos 2)))
    ⊎ ((check_no_cycle (pos 1) (pos 2) (pos 1) chain ≡ err inheritance_cycle)
        × Reach (edges (pos 1) chain) (pos 1) (pos 2))
check_no_cycle-Reach_example = check_no_cycle-Reach (pos 1) (pos 2) (pos 1) chain
