-- ===== src/Authz/Tests.antt =====
-- Requests of an application whose policies are 5 ns old, with a limit of 60.
use sydom.Base.{
  ◌≡◌, refl, true, false, none, List, [], ◌∷◌, map, ok, err, string_eq, list_eq, nat_eq,
}
use sydom.Base.Int.{pos}
use sydom.Base.Dict.{lookup}
use sydom.Errors.{NoPanic, too_stale}
use sydom.Kernel.Casbin.Rows.{rows_casbin}
use sydom.Dataperm.Condition.{str}
use sydom.Dataperm.Filter.{subject_matches, user_var_name}
use sydom.Dataperm.RenderSql.{SqlResult}
use sydom.Dataperm.RenderSql.Safety.{IsFilled}
use sydom.Dataperm.Example.{read_json, docs, docs-IsWellFormed, alice}
use sydom.Kernel.Engine.{implicit_roles}
use sydom.Kernel.Engine.Batch.{Answers}
use sydom.Sync.Client.{SyncClient}
use sydom.Authz.{
  Authorizer, CheckReq, table_applier, check, batch_check, row_of_request, roles_of, authorized_sql,
}
use sydom.Authz.Fresh.{IsFresh, check_allows}
use sydom.Authz.Served.{batch_check-Answers, authorized_sql-IsFilled}

abbrev client : SyncClient rows_casbin (table_applier read_json)
client = record {
  engine = record {
    domain = "app";
    ce = ("p", "alice" ∷ "app" ∷ "doc" ∷ "read" ∷ []) ∷ [];
    applier = docs;
    version = 1;
    ready = true;
  };
  last_sync_at = 100;
  connected = true;
  snapshots_applied = 1;
  backoff = record { initial = pos 3; max = pos 10; attempt = 0 };
}

abbrev authorizer : Authorizer rows_casbin read_json
authorizer = record { client = client; domain = "app"; max_staleness = pos 60 }

allowed : (check rows_casbin read_json authorizer 105 "alice" "doc" "read").0 ≡ ok true
unfolding check string_eq list_eq nat_eq
allowed = refl

stale : (check rows_casbin read_json authorizer 161 "alice" "doc" "read").0 ≡ err too_stale
unfolding check string_eq list_eq nat_eq
stale = refl

abbrev read_write : List CheckReq
read_write =
    record { subject = "alice"; object = "doc"; action = "read" }
    ∷ record { subject = "alice"; object = "doc"; action = "write" }
    ∷ []

answered :
    batch_check rows_casbin read_json authorizer 105 read_write
    ≡ ((true ∷ false ∷ [], none), authorizer)
unfolding batch_check string_eq list_eq nat_eq
answered = refl

abbrev alices_docs : SqlResult
alices_docs = record { sql = "owner = ?"; args = str "7" ∷ [] }

served : authorized_sql rows_casbin read_json authorizer 105 "alice" "doc" alice ≡ ok alices_docs
unfolding authorized_sql string_eq list_eq nat_eq lookup subject_matches user_var_name
served = refl

check_allows_example :
    IsFresh rows_casbin read_json authorizer 105
    × (authorizer.domain ≡ authorizer.client.engine.domain)
    × ((rows_casbin.enforce ("alice" ∷ "app" ∷ "doc" ∷ "read" ∷ []) client.engine.ce).0 ≡ ok true)
check_allows_example =
    check_allows rows_casbin read_json authorizer 105 "alice" "doc" "read" allowed

batch_check-Answers_example :
    IsFresh rows_casbin read_json authorizer 105
    × Answers rows_casbin
        (table_applier read_json)
        (map (row_of_request rows_casbin read_json authorizer 105) read_write)
        (true ∷ false ∷ [])
        client.engine.ce
        client.engine.ce
batch_check-Answers_example =
    batch_check-Answers rows_casbin read_json authorizer 105 read_write (true ∷ false ∷ [])
      authorizer answered

roles_known : NoPanic (roles_of rows_casbin read_json authorizer 105 "alice" "app")
unfolding implicit_roles string_eq
roles_known = tt

authorized_sql-IsFilled_example :
    IsFresh rows_casbin read_json authorizer 105 × IsFilled alices_docs
authorized_sql-IsFilled_example =
    authorized_sql-IsFilled rows_casbin read_json authorizer 105 "alice" "doc" alice alices_docs
      docs-IsWellFormed roles_known served
