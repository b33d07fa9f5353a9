-- ===== src/Authz.antt =====
-- internal/sidecar/authz: authorizer.go, the data plane's face to an application. Its engine feeds
-- the policy table of the filter, and its freshness is that of the subscription.
pub mod Fresh
pub mod Served
mod Tests
use sydom.Base.{
  ℕ, zero, suc, ◌+◌, String, Bool, true, false, ◌&&◌, ◌||◌, not, Option, none, some, List, [], ◌∷◌,
  map, Result, ok, err, ◌>>=◌, ◌==◌, nat_eq, ltb, if◌then◌else◌,
}
use sydom.Base.Int.{ℤ, pos, negsuc, lebℤ}
use sydom.Base.Dict.{Dict}
use sydom.Errors.{Error, not_ready, too_stale}
use sydom.Kernel.Types.{DataPolicy, ChangeOp}
use sydom.Kernel.Casbin.{Casbin, Applier}
use sydom.Kernel.Engine.{Engine, enforce, implicit_roles, batch_enforce}
use sydom.Dataperm.Condition.{Condition, Value}
use sydom.Dataperm.Table.{Table, apply_snapshot, apply_change}
use sydom.Dataperm.Filter.{RawResult, filter_raw}
use sydom.Dataperm.RenderSql.{SqlResult, filter_sql}
use sydom.Sync.Client.{SyncClient}

abbrev pub completed : {A : Type 0} → Result Error A → Option A
completed (ok a) = some a
completed (err x) = none

-- The table as the engine's receiver: its methods return no error, so an error here is a panic.
abbrev pub table_applier : (String → Option Condition) → Applier
table_applier unmarshal = record {
  State = Table;
  apply_snapshot = λ ps t. completed (apply_snapshot unmarshal ps t);
  apply_change = λ op p t. completed (apply_change unmarshal op p t);
}

-- The domain is the engine's, noted at the start.
pub record Authorizer (C : Casbin) (unmarshal : String → Option Condition) : Type 0 where
  pub client : SyncClient C (table_applier unmarshal)
  pub domain : String
  pub max_staleness : ℤ

pub record CheckReq : Type 0 where
  pub subject : String
  pub object : String
  pub action : String

-- `a.now().Sub(last) > a.cfg.MaxStaleness`; both times are nanoseconds since 1970.
abbrev pub is_older : ℕ → ℕ → ℤ → Bool
is_older now last (pos m) = ltb (last + m) now
is_older now last (negsuc m) = ltb last (now + suc m)

module _ (C : Casbin) (unmarshal : String → Option Condition) where
  unfoldable pub new : SyncClient C (table_applier unmarshal) → ℤ → Authorizer C unmarshal
  new client max_staleness = record {
    client = client;
    domain = client.engine.domain;
    max_staleness = max_staleness;
  }

module _ (C : Casbin) (unmarshal : String → Option Condition) (a : Authorizer C unmarshal)
    (now : ℕ) where
  -- The time 0 stands for no load yet.
  unfoldable pub check_fresh : Result Error (Unit {0})
  unfolding lebℤ
  check_fresh =
      if not a.client.engine.ready
      then err not_ready
      else if not (lebℤ a.max_staleness (pos 0))
          && (a.client.last_sync_at == 0 || is_older now a.client.last_sync_at a.max_staleness)
      then err too_stale
      else ok tt

  abbrev with_engine :
      {B : Type 0} → B × Engine C (table_applier unmarshal) → B × Authorizer C unmarshal
  with_engine (b, e) =
      let client : SyncClient C (table_applier unmarshal) = record a.client { engine = e } in
      (b, record a { client = client })

  abbrev guarded :
      {B : Type 0}
      → Result Error (Unit {0})
      → (Error → B)
      → B × Authorizer C unmarshal
      → B × Authorizer C unmarshal
  guarded (ok u) refuse go = go
  guarded (err x) refuse go = (refuse x, a)

  unfoldable pub check : String → String → String → Result Error Bool × Authorizer C unmarshal
  unfolding check_fresh enforce
  check subject object action = guarded check_fresh err (
      with_engine
        (enforce C (table_applier unmarshal) a.client.engine subject a.domain object action))

  abbrev row_of_request : CheckReq → List String
  row_of_request r = r.subject ∷ a.domain ∷ r.object ∷ r.action ∷ []

  unfoldable pub batch_check : List CheckReq → (List Bool × Option Error) × Authorizer C unmarshal
  unfolding check_fresh batch_enforce
  batch_check reqs =
      guarded check_fresh (λ x. ([], some x))
        (with_engine
          (batch_enforce C (table_applier unmarshal) a.client.engine (map row_of_request reqs)))

  -- The filter asks the engine for the roles, and reads the table that the engine feeds.
  abbrev pub roles_of : String → String → Result Error (List String)
  roles_of user dom = implicit_roles C (table_applier unmarshal) a.client.engine user dom

  unfoldable pub authorized_sql : String → String → Dict String Value → Result Error SqlResult
  unfolding check_fresh implicit_roles filter_sql
  authorized_sql subject resource attrs = check_fresh >>= λ _.
      filter_sql roles_of a.client.engine.applier subject a.domain resource attrs

  unfoldable pub authorized_raw : String → String → Dict String Value → Result Error RawResult
  unfolding check_fresh implicit_roles filter_raw
  authorized_raw subject resource attrs = check_fresh >>= λ _.
      filter_raw roles_of a.client.engine.applier subject a.domain resource attrs
