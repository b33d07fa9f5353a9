-- ===== src/Kernel/Casbin.antt =====
-- What the kernel uses of its two partners: the enforcer of the casbin library, which is not
-- code of the repository, and the receiver of data policies.
pub mod Rows
use sydom.Base.{
  String, ◌≡◌, Bool, true, false, ◌&&◌, ◌||◌, not, Option, none, some, List, [], ◌∷◌, Result, ◌==◌,
  contains, string_eq, list_eq, all,
}
use sydom.Errors.{Error}
use sydom.Kernel.Types.{DataPolicy, ChangeOp}

-- A SyncedCachedEnforcer. An operation returns the error, if there is one, and the new state;
-- `has` says whether a section ("p" or "g") holds a row.
pub record Casbin : Type 1 where
  pub State : Type 0
  pub clear_policy : State → State
  pub add_policies : String → List (List String) → State → Option Error × State
  pub remove_policies : String → List (List String) → State → Option Error × State
  pub invalidate_cache : State → Option Error × State
  pub enforce : List String → State → Result Error Bool × State
  pub implicit_roles : String → String → State → Result Error (List String)
  pub has : String → List String → State → Bool

-- The documented effect on the rows that are held: clearing drops all of them, a batch of rows
-- none of which is held yet is added whole, one row is added or removed, and the cache is not
-- part of the policy.
pub record IsLawful (C : Casbin) : Type 0 where
  pub has-clear :
      (q : String) (row : List String) (s : C.State) → C.has q row (C.clear_policy s) ≡ false
  pub has-add_fresh :
      (p : String) (rows : List (List String)) (s s' : C.State) (q : String) (row : List String)
      → all (λ r. not (C.has p r s)) rows ≡ true
      → C.add_policies p rows s ≡ (none, s')
      → C.has q row s' ≡ (C.has q row s || q == p && contains rows row)
  pub has-add_one :
      (p : String) (r : List String) (s s' : C.State) (q : String) (row : List String)
      → C.add_policies p (r ∷ []) s ≡ (none, s')
      → C.has q row s' ≡ (C.has q row s || q == p && row == r)
  pub has-remove_one :
      (p : String) (r : List String) (s s' : C.State) (q : String) (row : List String)
      → C.remove_policies p (r ∷ []) s ≡ (none, s')
      → C.has q row s' ≡ (C.has q row s && not (q == p && row == r))
  pub has-invalidate :
      (s s' : C.State) (q : String) (row : List String)
      → C.invalidate_cache s ≡ (none, s')
      → C.has q row s' ≡ C.has q row s

-- A DataPolicyApplier. `none` is a panic of its code.
pub record Applier : Type 1 where
  pub State : Type 0
  pub apply_snapshot : List DataPolicy → State → Option State
  pub apply_change : ChangeOp → DataPolicy → State → Option State
