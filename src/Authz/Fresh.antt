-- ===== src/Authz/Fresh.antt =====
-- What the guard against stale policies lets through.
use sydom.Base.{
  Option, [], ◌∷◌, ℕ, suc, ◌+◌, ◌≤◌, ◌<◌, String, ◌≡◌, refl, true, false, ◌||◌, Result, ok, err,
  ◌==◌, nat_eq, arith, if◌then◌else◌,
}
use sydom.Base.Int.{pos, lebℤ}
use sydom.Errors.{Error, too_stale}
use sydom.Kernel.Casbin.{Casbin}
use sydom.Kernel.Engine.{enforce}
use sydom.Kernel.Engine.FailClosed.{enforce_allows}
use sydom.Dataperm.Condition.{Condition}
use sydom.Authz.{Authorizer, table_applier, is_older, guarded, with_engine, check_fresh, check}

-- The engine is ready and, where a limit is set, a load or a proof of life was there and is not
-- older than the limit.
abbrev pub IsFresh :
    (C : Casbin) (unmarshal : String → Option Condition) → Authorizer C unmarshal → ℕ → Type 0
IsFresh C unmarshal a now =
    (a.client.engine.ready ≡ true)
    × ((limit : ℕ)
        → a.max_staleness ≡ pos (suc limit)
        → (0 < a.client.last_sync_at) × (now ≤ a.client.last_sync_at + suc limit))

module _ (C : Casbin) (unmarshal : String → Option Condition) (a : Authorizer C unmarshal)
    (now : ℕ) where
  pub check_fresh-IsFresh : check_fresh C unmarshal a now ≡ ok tt → IsFresh C unmarshal a now
  unfolding check_fresh lebℤ
  check_fresh-IsFresh h = (ground arith, λ limit e. limited limit e (ground arith))
    where
      positive : (limit : ℕ) → lebℤ (pos (suc limit)) (pos 0) ≡ false
      positive limit = ground arith

      in_time :
          (limit : ℕ)
          → ◌≡◌ {A = Result Error (Unit {0})}
              (if a.client.last_sync_at == 0 || is_older now a.client.last_sync_at (pos (suc limit))
                then err too_stale
                else ok tt)
              (ok tt)
          → (0 < a.client.last_sync_at) × (now ≤ a.client.last_sync_at + suc limit)
      in_time limit h = (ground arith, ground arith)

      limited :
          (limit : ℕ)
          → a.max_staleness ≡ pos (suc limit)
          → a.client.engine.ready ≡ true
          → (0 < a.client.last_sync_at) × (now ≤ a.client.last_sync_at + suc limit)
      limited limit e on = in_time limit (rw (on, e, positive limit, check_fresh) at h)

  -- A request is let through only where the policies are fresh, the engine's domain is the one
  -- noted at the start, and the enforcer lets the request through in that domain.
  pub check_allows :
      (subject object action : String)
      → (check C unmarshal a now subject object action).0 ≡ ok true
      → IsFresh C unmarshal a now
        × (a.domain ≡ a.client.engine.domain)
        × ((C.enforce (subject ∷ a.domain ∷ object ∷ action ∷ []) a.client.engine.ce).0 ≡ ok true)
  unfolding check
  check_allows subject object action h = go (check_fresh C unmarshal a now) refl h
    where
      go :
          (m : Result Error (Unit {0}))
          → check_fresh C unmarshal a now ≡ m
          → (guarded C unmarshal a now m err (
              with_engine C unmarshal a now (
                enforce C
                  (table_applier unmarshal)
                  a.client.engine
                  subject
                  a.domain
                  object
                  action))).0
            ≡ ok true
          → IsFresh C unmarshal a now
            × (a.domain ≡ a.client.engine.domain)
            × ((C.enforce (subject ∷ a.domain ∷ object ∷ action ∷ []) a.client.engine.ce).0
                ≡ ok true)
      go (ok u) e h =
          let (ready, same, allowed) =
            enforce_allows C (table_applier unmarshal) a.client.engine subject a.domain object
              action h in
          (check_fresh-IsFresh e, same, allowed)
      go (err x) e h = cc
