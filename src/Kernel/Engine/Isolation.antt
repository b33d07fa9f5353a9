-- ===== src/Kernel/Engine/Isolation.antt =====
-- All rows that an engine holds are of its domain.
use sydom.Base.{
  String, ◌≡◌, refl, sym, ◌∙◌, ◌⊎◌, inl, inr, Bool, true, false, ◌&&◌, ◌||◌, not, none, List, [],
  ◌∷◌, ◌==◌, string_eq, list_eq, all, get_or, arith, if◌then◌else◌,
}
use sydom.Kernel.Types.{
  Rule, values, domain_value, ChangeOp, change_add, change_update, change_remove, change_other,
  PolicyChange, Delta, Snapshot,
}
use sydom.Kernel.Types.Values.{get_or-values}
use sydom.Kernel.Casbin.{Casbin, IsLawful, Applier}
use sydom.Kernel.Engine.{
  Engine, returned, section_rows, change_in_domain, apply_snapshot, apply_delta,
}
use sydom.Kernel.Engine.Snapshots.{row_of, apply_snapshot-Loaded}
use sydom.Kernel.Engine.Deltas.{is_row, row_after, row_after_all, Advanced, apply_delta-Advanced}

-- Where a row of a section has its domain.
abbrev pub row_domain : String → List String → String
row_domain q row = if q == "p" then get_or row 1 "" else get_or row 2 ""

row_domain-values :
    (r : Rule)
    → (r.ptype == "p" || r.ptype == "g") ≡ true
    → row_domain r.ptype (values r) ≡ domain_value r
unfolding domain_value
row_domain-values r h =
    ground (arith, get_or-values r 1 (omega arith), get_or-values r 2 (omega arith))

is_row-domain :
    (r : Rule) (q : String) (row : List String) (dom : String)
    → (domain_value r == dom) ≡ true
    → is_row r q row ≡ true
    → row_domain q row ≡ dom
is_row-domain r q row dom mine h = ground (arith, row_domain-values r)

section_rows-domain :
    (rules : List Rule) (q : String) (row : List String) (dom : String)
    → all (λ r. domain_value r == dom) rules ≡ true
    → row_of rules q row ≡ true
    → row_domain q row ≡ dom
unfolding section_rows
section_rows-domain [] q row dom mine h = ground arith
section_rows-domain (r ∷ rs) q row dom mine h =
    ground (arith, section_rows-domain rs q row dom, is_row-domain r q row dom)

or_cases : (x y : Bool) → (x || y) ≡ true → (x ≡ true) ⊎ (y ≡ true)
or_cases true y h = inl refl
or_cases false y h = inr h

and_left : (x y : Bool) → (x && y) ≡ true → x ≡ true
and_left x y h = ground arith

and_right : (x y : Bool) → (x && y) ≡ true → y ≡ true
and_right x y h = ground arith

row_after-domain :
    (pc : PolicyChange) (q : String) (row : List String) (dom : String) (before : Bool)
    → change_in_domain dom pc ≡ true
    → (before ≡ true → row_domain q row ≡ dom)
    → row_after pc q row before ≡ true
    → row_domain q row ≡ dom
unfolding change_in_domain
row_after-domain pc q row dom before mine held h = by_op pc.op refl
  where
    added :
        (r : Rule) (b : Bool)
        → (domain_value r == dom) ≡ true
        → (b ≡ true → row_domain q row ≡ dom)
        → (b || is_row r q row) ≡ true
        → row_domain q row ≡ dom
    added r b mine held h = elim (or_cases b (is_row r q row) h) [
      | inl old ↦ held old
      | inr new ↦ is_row-domain r q row dom mine new
    ]

    by_op : (op : ChangeOp) → pc.op ≡ op → row_domain q row ≡ dom
    by_op change_add e = added pc.rule before (rw (e, change_in_domain) at mine) held (rw e at h)
    by_op change_remove e = held (and_left before _ (rw e at h))
    by_op change_update e =
        added pc.rule (before && not (is_row pc.old_rule q row))
          (and_left _ _ (rw (e, change_in_domain) at mine)) (λ k. held (and_left before _ k))
          (rw e at h)
    by_op (change_other n) e = held (rw e at h)

row_after_all-domain :
    (pcs : List PolicyChange) (q : String) (row : List String) (dom : String) (before : Bool)
    → all (change_in_domain dom) pcs ≡ true
    → (before ≡ true → row_domain q row ≡ dom)
    → row_after_all pcs q row before ≡ true
    → row_domain q row ≡ dom
row_after_all-domain [] q row dom before mine held h = held h
row_after_all-domain (pc ∷ pcs) q row dom before mine held h =
    row_after_all-domain pcs q row dom (row_after pc q row before) (and_right _ _ mine)
      (row_after-domain pc q row dom before (and_left _ _ mine) held) h

module _ (C : Casbin) (A : Applier) where
  -- Each row that the enforcer holds has the engine's domain in the domain's place.
  abbrev pub IsIsolated : Engine C A → Type 0
  IsIsolated e =
      (q : String) (row : List String) → C.has q row e.ce ≡ true → row_domain q row ≡ e.domain

  module _ (L : IsLawful C) where
    -- A snapshot that is accepted leaves only rows of the engine's domain, whatever was held.
    pub apply_snapshot-IsIsolated :
        (e : Engine C A) (s : Snapshot) (e' : Engine C A)
        → apply_snapshot C A e s ≡ returned none e'
        → IsIsolated e'
    apply_snapshot-IsIsolated e s e' h q row held =
        let (version, ready, domain, loaded, mine, rows) = apply_snapshot-Loaded C A L e s e' h in
        section_rows-domain s.rules q row e.domain mine (sym (rows q row) ∙ held) ∙ sym domain

    pub Advanced-IsIsolated :
        (e : Engine C A) (d : Delta) (e' : Engine C A)
        → IsIsolated e
        → Advanced C A L d e e'
        → IsIsolated e'
    Advanced-IsIsolated e d e' isolated (newer, version, ready, domain, loaded, mine, rows) q row
          held =
        row_after_all-domain d.policy_changes q row e.domain (C.has q row e.ce) mine
          (isolated q row) (sym (rows q row) ∙ held)
        ∙ sym domain

    -- A change that is accepted brings in no row of another domain.
    pub apply_delta-IsIsolated :
        (e : Engine C A) (d : Delta) (e' : Engine C A)
        → IsIsolated e
        → apply_delta C A e d ≡ returned none e'
        → IsIsolated e'
    apply_delta-IsIsolated e d e' isolated h =
        Advanced-IsIsolated e d e' isolated (apply_delta-Advanced C A L e d e' h)
