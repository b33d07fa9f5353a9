-- ===== src/Kernel/Engine/Tests.antt =====
-- The engine of the example, loaded and changed.
use sydom.Base.{◌≡◌, refl, true, none, some, [], ◌∷◌, ok, string_eq, list_eq}
use sydom.Errors.{foreign_domain, stale_version}
use sydom.Kernel.Types.{values, domain_value, Snapshot}
use sydom.Kernel.Casbin.Rows.{rows_casbin, rows_casbin-IsLawful, last_applier}
use sydom.Kernel.Engine.{Engine, returned, apply_snapshot, apply_delta, enforce}
use sydom.Kernel.Engine.Snapshots.{Loaded, apply_snapshot-Loaded}
use sydom.Kernel.Engine.Deltas.{Advanced, apply_delta-Advanced}
use sydom.Kernel.Engine.Isolation.{IsIsolated, apply_snapshot-IsIsolated, apply_delta-IsIsolated}
use sydom.Kernel.Engine.FailClosed.{Refused, apply_snapshot-Refused, apply_delta-Refused}
use sydom.Kernel.Engine.Example.{
  reader, new_engine, first_snapshot, first_engine, second_delta, second_engine,
}

abbrev e₀ : Engine rows_casbin last_applier
e₀ = new_engine last_applier []

abbrev e₁ : Engine rows_casbin last_applier
e₁ = first_engine last_applier []

abbrev e₂ : Engine rows_casbin last_applier
e₂ = second_engine last_applier []

load_first : apply_snapshot rows_casbin last_applier e₀ first_snapshot ≡ returned none e₁
unfolding apply_snapshot values string_eq list_eq domain_value
load_first = refl

change_second : apply_delta rows_casbin last_applier e₁ second_delta ≡ returned none e₂
unfolding apply_delta values string_eq list_eq domain_value
change_second = refl

-- A snapshot with a rule of another domain.
abbrev foreign : Snapshot
foreign = record first_snapshot { version = 2; rules = record reader { v1 = "other" } ∷ [] }

load_foreign :
    apply_snapshot rows_casbin last_applier e₁ foreign ≡ returned (some foreign_domain) e₁
unfolding apply_snapshot values string_eq list_eq domain_value
load_foreign = refl

change_stale :
    apply_delta rows_casbin last_applier e₂ second_delta ≡ returned (some stale_version) e₂
unfolding apply_delta
change_stale = refl

abbrev e₃ : Engine rows_casbin last_applier
e₃ = record e₁ { ce = ("p", "bob" ∷ "app" ∷ "doc" ∷ "read" ∷ []) ∷ [] }

bob_reads : (enforce rows_casbin last_applier e₃ "bob" "app" "doc" "read").0 ≡ ok true
unfolding enforce string_eq list_eq
bob_reads = refl

apply_snapshot-Loaded_example :
    Loaded rows_casbin last_applier rows_casbin-IsLawful first_snapshot e₀ e₁
apply_snapshot-Loaded_example =
    apply_snapshot-Loaded rows_casbin last_applier rows_casbin-IsLawful e₀ first_snapshot e₁
      load_first

apply_delta-Advanced_example :
    Advanced rows_casbin last_applier rows_casbin-IsLawful second_delta e₁ e₂
apply_delta-Advanced_example =
    apply_delta-Advanced rows_casbin last_applier rows_casbin-IsLawful e₁ second_delta e₂
      change_second

first-IsIsolated : IsIsolated rows_casbin last_applier e₁
first-IsIsolated =
    apply_snapshot-IsIsolated rows_casbin last_applier rows_casbin-IsLawful e₀ first_snapshot e₁
      load_first

apply_delta-IsIsolated_example : IsIsolated rows_casbin last_applier e₂
apply_delta-IsIsolated_example =
    apply_delta-IsIsolated rows_casbin last_applier rows_casbin-IsLawful e₁ second_delta e₂
      first-IsIsolated change_second

apply_snapshot-Refused_example : Refused rows_casbin last_applier e₁ e₁
apply_snapshot-Refused_example =
    apply_snapshot-Refused rows_casbin last_applier e₁ foreign foreign_domain e₁ load_foreign

apply_delta-Refused_example : Refused rows_casbin last_applier e₂ e₂
apply_delta-Refused_example =
    apply_delta-Refused rows_casbin last_applier e₂ second_delta stale_version e₂ change_stale
