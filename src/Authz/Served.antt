-- ===== src/Authz/Served.antt =====
-- What an application is served: answers in the order of its requests, and SQL that is complete.
use sydom.Base.{
  ℕ, String, ◌≡◌, refl, Bool, Option, none, some, List, [], map, Result, ok, err, >>=-eq-ok, subst,
}
use sydom.Base.Dict.{Dict}
use sydom.Errors.{Error, NoPanic, Ensures}
use sydom.Kernel.Casbin.{Casbin}
use sydom.Kernel.Engine.{batch_enforce}
use sydom.Kernel.Engine.Batch.{Answers, batch_enforce-Answers}
use sydom.Dataperm.Condition.{Condition, Value}
use sydom.Dataperm.Table.Invariant.{IsWellFormed}
use sydom.Dataperm.RenderSql.{SqlResult}
use sydom.Dataperm.RenderSql.Safety.{IsFilled, filter_sql-IsFilled}
use sydom.Authz.{
  Authorizer, CheckReq, table_applier, check_fresh, guarded, with_engine, row_of_request,
  batch_check, roles_of, authorized_sql,
}
use sydom.Authz.Fresh.{IsFresh, check_fresh-IsFresh}

module _ (C : Casbin) (unmarshal : String → Option Condition) (a : Authorizer C unmarshal)
    (now : ℕ) where
  -- A batch without an error is served from fresh policies only, and gives the enforcer's answer to
  -- each request in the noted domain, as many as there are requests and in their order.
  pub batch_check-Answers :
      (reqs : List CheckReq) (results : List Bool) (a' : Authorizer C unmarshal)
      → batch_check C unmarshal a now reqs ≡ ((results, none), a')
      → IsFresh C unmarshal a now
        × Answers C
            (table_applier unmarshal)
            (map (row_of_request C unmarshal a now) reqs)
            results
            a.client.engine.ce
            a'.client.engine.ce
  unfolding batch_check
  batch_check-Answers reqs results a' h = go (check_fresh C unmarshal a now) refl h
    where
      go :
          (m : Result Error (Unit {0}))
          → check_fresh C unmarshal a now ≡ m
          → guarded C unmarshal a now m
              (λ x. ([], some x))
              (with_engine C unmarshal a now (
                batch_enforce C
                  (table_applier unmarshal)
                  a.client.engine
                  (map (row_of_request C unmarshal a now) reqs)))
            ≡ ((results, none), a')
          → IsFresh C unmarshal a now
            × Answers C
                (table_applier unmarshal)
                (map (row_of_request C unmarshal a now) reqs)
                results
                a.client.engine.ce
                a'.client.engine.ce
      go (ok u) e h =
          let (ready, answers) =
            batch_enforce-Answers C (table_applier unmarshal) a.client.engine
              (map (row_of_request C unmarshal a now) reqs) results a'.client.engine
              (λ i. ((h i).0, (h i).1.client.engine)) in
          (check_fresh-IsFresh C unmarshal a now e, answers)
      go (err x) e h = absurd (some_err (λ i. (h i).0.1))
        where
          some_err : {x : Error} → ◌≡◌ {A = Option Error} (some x) none → ⊥
          some_err h = cc

  -- Where the engine's table is well formed, which every load and change keeps, a SQL fragment is
  -- served from fresh policies only and has exactly one argument for each placeholder.
  pub authorized_sql-IsFilled :
      (subject resource : String) (attrs : Dict String Value) (r : SqlResult)
      → IsWellFormed a.client.engine.applier
      → NoPanic (roles_of C unmarshal a now subject a.domain)
      → authorized_sql C unmarshal a now subject resource attrs ≡ ok r
      → IsFresh C unmarshal a now × IsFilled r
  unfolding authorized_sql
  authorized_sql-IsFilled subject resource attrs r w n h =
      let (u, fresh, served) = >>=-eq-ok (check_fresh C unmarshal a now) _ h in
      (
        check_fresh-IsFresh C unmarshal a now fresh,
        subst (Ensures IsFilled) served (
            filter_sql-IsFilled (roles_of C unmarshal a now) a.client.engine.applier subject
              a.domain resource attrs w n),
      )
