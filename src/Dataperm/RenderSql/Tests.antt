-- ===== src/Dataperm/RenderSql/Tests.antt =====
-- The fragment for an intern.
use sydom.Base.{String, ◌≡◌, refl, true, [], ◌∷◌, ok, err, string_eq}
use sydom.Base.Dict.{Dict, lookup}
use sydom.Errors.{Ensures, missing_var}
use sydom.Dataperm.Condition.{Value, str, bool}
use sydom.Dataperm.Filter.{subject_matches, user_var_name}
use sydom.Dataperm.RenderSql.{SqlResult, filter_sql}
use sydom.Dataperm.RenderSql.Safety.{IsFilled, filter_sql-IsFilled}
use sydom.Dataperm.RenderSql.SameText.{filter_sql-same_text}
use sydom.Dataperm.Example.{docs, docs-IsWellFormed, intern_roles, alice}

abbrev bob : Dict String Value
bob = ("id", str "8 OR 1=1") ∷ []

abbrev sql_with : Value → SqlResult
sql_with v = record { sql = "(owner = ? AND NOT (secret = ?))"; args = v ∷ bool true ∷ [] }

for_alice : filter_sql intern_roles docs "alice" "app" "doc" alice ≡ ok (sql_with (str "7"))
unfolding filter_sql string_eq lookup subject_matches user_var_name
for_alice = refl

for_bob : filter_sql intern_roles docs "alice" "app" "doc" bob ≡ ok (sql_with (str "8 OR 1=1"))
unfolding filter_sql string_eq lookup subject_matches user_var_name
for_bob = refl

for_nobody : filter_sql intern_roles docs "alice" "app" "doc" [] ≡ err (missing_var "id")
unfolding filter_sql string_eq lookup subject_matches user_var_name
for_nobody = refl

filter_sql-IsFilled_example :
    Ensures IsFilled (filter_sql intern_roles docs "alice" "app" "doc" alice)
filter_sql-IsFilled_example =
    filter_sql-IsFilled intern_roles docs "alice" "app" "doc" alice docs-IsWellFormed tt

filter_sql-same_text_example : (sql_with (str "7")).sql ≡ (sql_with (str "8 OR 1=1")).sql
filter_sql-same_text_example =
    filter_sql-same_text intern_roles docs "alice" "app" "doc" alice bob (sql_with (str "7"))
      (sql_with (str "8 OR 1=1")) docs-IsWellFormed for_alice for_bob
