-- ===== src/Kernel/Engine.antt =====
-- engine.go: the kernel of one application. `applyMu` makes each apply one step.
pub mod Snapshots
pub mod Deltas
pub mod Isolation
pub mod FailClosed
pub mod Batch
pub mod Example
mod Tests
use sydom.Base.{
  ℕ, String, Bool, true, false, ◌&&◌, ◌||◌, not, Option, none, some, List, [], ◌∷◌, ◌++◌, Result,
  ok, err, ◌==◌, string_eq, leb, all, if◌then◌else◌,
}
use sydom.Errors.{Error, not_ready, foreign_domain, stale_version}
use sydom.Kernel.Types.{
  Rule, values, domain_value, ChangeOp, change_add, change_update, change_remove, change_other,
  PolicyChange, DataPolicyChange, Delta, Snapshot,
}
use sydom.Kernel.Casbin.{Casbin, Applier}

pub record Engine (C : Casbin) (A : Applier) : Type 0 where
  pub domain : String
  pub ce : C.State
  pub applier : A.State
  pub version : ℕ
  pub ready : Bool

-- How an apply ends: it returns an error or none, or the applier panics.
pub data Outcome (C : Casbin) (A : Applier) : Type 0 where
  returned : Option Error → Engine C A → Outcome C A
  panicked : Outcome C A

-- The rows of the rules with this ptype, in their order.
unfoldable pub section_rows : String → List Rule → List (List String)
section_rows q [] = []
section_rows q (r ∷ rs) =
    let rest = section_rows q rs in if r.ptype == q then values r ∷ rest else rest

unfoldable pub change_in_domain : String → PolicyChange → Bool
unfolding domain_value
change_in_domain dom pc = elim pc.op [
  | change_update ↦ domain_value pc.rule == dom && domain_value pc.old_rule == dom
  | _ ↦ domain_value pc.rule == dom
]

module _ (C : Casbin) (A : Applier) where
  -- `if len(rows) > 0 { AddNamed…Policies }`
  abbrev pub add_section : String → List (List String) → C.State → Option Error × C.State
  add_section p [] s = (none, s)
  add_section p (r ∷ rs) s = C.add_policies p (r ∷ rs) s

  -- What follows a call: the next one, or the end with `ready` off.
  abbrev pub next : Engine C A → Option Error × C.State → (C.State → Outcome C A) → Outcome C A
  next e (none, s) k = k s
  next e (some x, s) k = returned (some x) (record e { ce = s; ready = false })

  abbrev pub committed : Engine C A → ℕ → Bool → A.State → C.State → Outcome C A
  committed e version ready a s =
      returned none (record e { ce = s; applier = a; version = version; ready = ready })

  -- The cache is dropped, and then the version is noted.
  abbrev pub commit : Engine C A → ℕ → Bool → A.State → C.State → Outcome C A
  commit e version ready a s =
      next (record e { applier = a }) (C.invalidate_cache s) (committed e version ready a)

  abbrev pub applied : Option A.State → (A.State → Outcome C A) → Outcome C A
  applied none k = panicked
  applied (some a) k = k a

  -- `ApplySnapshot` from the data policies on, from the "g" rows on, and after its check.
  abbrev pub load_data : Engine C A → Snapshot → C.State → Outcome C A
  load_data e s c =
      applied (A.apply_snapshot s.data_policies e.applier) (λ a. commit e s.version true a c)

  abbrev pub load_groups : Engine C A → Snapshot → C.State → Outcome C A
  load_groups e s c = next e (add_section "g" (section_rows "g" s.rules) c) (load_data e s)

  abbrev pub rebuild : Engine C A → Snapshot → Outcome C A
  rebuild e s =
      next e (add_section "p" (section_rows "p" s.rules) (C.clear_policy e.ce)) (load_groups e s)

  unfoldable pub apply_snapshot : Engine C A → Snapshot → Outcome C A
  unfolding section_rows domain_value
  apply_snapshot e s =
      if all (λ r. domain_value r == e.domain) s.rules
      then rebuild e s
      else returned (some foreign_domain) e

  unfoldable pub add_rule : Rule → C.State → Option Error × C.State
  add_rule r s =
      if r.ptype == "p"
      then C.add_policies "p" (values r ∷ []) s
      else if r.ptype == "g"
      then C.add_policies "g" (values r ∷ []) s
      else (none, s)

  unfoldable pub remove_rule : Rule → C.State → Option Error × C.State
  remove_rule r s =
      if r.ptype == "p"
      then C.remove_policies "p" (values r ∷ []) s
      else if r.ptype == "g"
      then C.remove_policies "g" (values r ∷ []) s
      else (none, s)

  -- `if err := f(); err != nil { return err }; return g()`
  abbrev pub and_then :
      Option Error × C.State → (C.State → Option Error × C.State) → Option Error × C.State
  and_then (none, s) k = k s
  and_then (some x, s) k = (some x, s)

  unfoldable pub apply_policy_change : PolicyChange → C.State → Option Error × C.State
  unfolding add_rule remove_rule
  apply_policy_change pc s = elim pc.op [
    | change_add ↦ add_rule pc.rule s
    | change_remove ↦ remove_rule pc.rule s
    | change_update ↦ and_then (remove_rule pc.old_rule s) (add_rule pc.rule)
    | change_other n ↦ (none, s)
  ]

  unfoldable pub apply_policy_changes : List PolicyChange → C.State → Option Error × C.State
  unfolding apply_policy_change
  apply_policy_changes [] s = (none, s)
  apply_policy_changes (pc ∷ pcs) s = and_then (apply_policy_change pc s) (apply_policy_changes pcs)

  unfoldable pub apply_data_changes : List DataPolicyChange → A.State → Option A.State
  apply_data_changes [] a = some a
  apply_data_changes (dc ∷ dcs) a = elim (A.apply_change dc.op dc.policy a) [
    | none ↦ none
    | some a' ↦ apply_data_changes dcs a'
  ]

  -- `ApplyDelta` from the data changes on, and after its checks.
  abbrev pub change_data : Engine C A → Delta → C.State → Outcome C A
  change_data e d c =
      applied (apply_data_changes d.data_changes e.applier) (λ a. commit e d.version e.ready a c)

  abbrev pub change_rules : Engine C A → Delta → Outcome C A
  change_rules e d = next e (apply_policy_changes d.policy_changes e.ce) (change_data e d)

  unfoldable pub apply_delta : Engine C A → Delta → Outcome C A
  unfolding change_in_domain apply_policy_changes apply_data_changes
  apply_delta e d =
      if leb d.version e.version
      then returned (some stale_version) e
      else if all (change_in_domain e.domain) d.policy_changes
      then change_rules e d
      else returned (some foreign_domain) e

  -- A call of the enforcer may fill its cache.
  abbrev with_cache : {B : Type 0} → Engine C A → B × C.State → B × Engine C A
  with_cache e (b, s) = (b, record e { ce = s })

  unfoldable pub enforce :
      Engine C A → String → String → String → String → Result Error Bool × Engine C A
  enforce e sub dom obj act =
      if not e.ready
      then (err not_ready, e)
      else if dom == e.domain
      then with_cache e (C.enforce (sub ∷ dom ∷ obj ∷ act ∷ []) e.ce)
      else (err foreign_domain, e)

  unfoldable pub implicit_roles : Engine C A → String → String → Result Error (List String)
  implicit_roles e user dom =
      if not e.ready
      then err not_ready
      else if dom == e.domain
      then C.implicit_roles user dom e.ce
      else err foreign_domain

  -- The loop of `BatchEnforce`; an error ends it with the results before it.
  unfoldable pub enforce_rows :
      List (List String) → List Bool → C.State → (List Bool × Option Error) × C.State
  enforce_rows [] results s = ((results, none), s)
  enforce_rows (r ∷ rs) results s =
      let (m, s') = C.enforce r s in
      elim m [ ok b ↦ enforce_rows rs (results ++ b ∷ []) s' | err x ↦ ((results, some x), s') ]

  unfoldable pub batch_enforce :
      Engine C A → List (List String) → (List Bool × Option Error) × Engine C A
  unfolding enforce_rows
  batch_enforce e reqs =
      if not e.ready then (([], some not_ready), e) else with_cache e (enforce_rows reqs [] e.ce)
