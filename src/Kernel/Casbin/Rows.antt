-- ===== src/Kernel/Casbin/Rows.antt =====
-- An enforcer that keeps its rows in a list and lets through what it holds: the laws can be met.
use sydom.Base.{
  String, ◌≡◌, refl, sym, ap, ◌∙◌, Bool, ◌&&◌, ◌||◌, not, none, some, List, [], ◌∷◌, ok, ◌==◌,
  contains, string_eq, list_eq, any, arith, if◌then◌else◌,
}
use sydom.Kernel.Types.{DataPolicy}
use sydom.Kernel.Casbin.{Casbin, IsLawful, Applier}

abbrev Rows : Type 0
Rows = List (String × List String)

abbrev holds : String → List String → Rows → Bool
holds q row s = any (λ p. q == p.0 && row == p.1) s

abbrev add_rows : String → List (List String) → Rows → Rows
add_rows p [] s = s
add_rows p (r ∷ rs) s = (p, r) ∷ add_rows p rs s

abbrev drop_row : String → List String → Rows → Rows
drop_row p r [] = []
drop_row p r ((q, row) ∷ s) =
    let rest = drop_row p r s in if q == p && row == r then rest else (q, row) ∷ rest

abbrev drop_rows : String → List (List String) → Rows → Rows
drop_rows p [] s = s
drop_rows p (r ∷ rs) s = drop_rows p rs (drop_row p r s)

abbrev pub rows_casbin : Casbin
rows_casbin = record {
  State = Rows;
  clear_policy = λ s. [];
  add_policies = λ p rows s. (none, add_rows p rows s);
  remove_policies = λ p rows s. (none, drop_rows p rows s);
  invalidate_cache = λ s. (none, s);
  enforce = λ request s. (ok (holds "p" request s), s);
  implicit_roles = λ user dom s. ok [];
  has = holds;
}

holds-add :
    (p : String) (rows : List (List String)) (s : Rows) (q : String) (row : List String)
    → holds q row (add_rows p rows s) ≡ (holds q row s || q == p && contains rows row)
holds-add p [] s q row = ground arith
holds-add p (r ∷ rs) s q row = ground (arith, holds-add p rs s q row)

holds-drop :
    (p : String) (r : List String) (s : Rows) (q : String) (row : List String)
    → holds q row (drop_row p r s) ≡ (holds q row s && not (q == p && row == r))
holds-drop p r [] q row = refl
holds-drop p r ((j, k) ∷ s) q row = ground (arith, holds-drop p r s q row)

pub rows_casbin-IsLawful : IsLawful rows_casbin
rows_casbin-IsLawful = record {
  has-clear = λ q row s. refl;
  has-add_fresh = λ p rows s s' q row fresh h.
      ap (holds q row) (sym (ap (λ m. m.1) h)) ∙ holds-add p rows s q row;
  has-add_one = λ p r s s' q row h. ap (holds q row) (sym (ap (λ m. m.1) h)) ∙ ground arith;
  has-remove_one =
      λ p r s s' q row h. ap (holds q row) (sym (ap (λ m. m.1) h)) ∙ holds-drop p r s q row;
  has-invalidate = λ s s' q row h. ap (holds q row) (sym (ap (λ m. m.1) h));
}

-- A receiver that keeps the data policies of the last load.
abbrev pub last_applier : Applier
last_applier = record {
  State = List DataPolicy;
  apply_snapshot = λ ps s. some ps;
  apply_change = λ op p s. some (p ∷ s);
}
