-- ===== src/Ai/Tests/Queries.antt =====
-- `validate_sql` of ai/nl2sql.py with a parser of two queries.
use Prim.Native.Char.{code}
use data_effi.Prelude.{
  true, false, String, Option, none, some, List, [], ◌∷◌, ◌≡◌, refl, leb, str_eq, if◌then◌else◌,
  all,
}
use data_effi.Prelude.Int.{ℤ, pos}
use data_effi.Pipeline.Normalize.Runtime.{is_space}
use data_effi.Pipeline.Tests.Files.{ascii}
use data_effi.Ai.Sql.Parser.{Parser, TableRef}
use data_effi.Ai.Sql.Scans.{calls, names}
use data_effi.Ai.Sql.Fence.{strip_markdown_fence}
use data_effi.Ai.Sql.Guard.{accepted, rejected, Reason, validate_sql, sql_text}
use data_effi.Ai.Sql.Accepted.{IsAccepted, validate_sql_iff}
use data_effi.Ai.Sql.Views.{is_allowed_name, validate_sql-views}
use data_effi.Ai.Sql.Bounded.{IsBounded, validate_sql-IsBounded}

abbrev table : String → String → TableRef
table schema name = record { name = name; schema = schema }

record Query : Type 0 where
  tables : List TableRef
  limit : Option (Option ℤ)

abbrev parse_query : String → Option (List (Option Query))
parse_query s =
    if str_eq s "SELECT * FROM v_aging"
    then some (some (record { tables = table "" "v_aging" ∷ []; limit = none }) ∷ [])
    else some (
        some (record { tables = table "core" "users" ∷ []; limit = some (some (pos 9)) })
        ∷ none
        ∷ [])

abbrev parser : Parser Query
parser = record {
  parse = parse_query;
  is_select = λ q. true;
  has_node = λ n q. false;
  has_into = λ q. false;
  has_locks = λ q. false;
  cte_aliases = λ q. [];
  tables = λ q. q.tables;
  anonymous = λ q. [];
  limit = λ q. q.limit;
  with_limit = λ n q. record q { limit = some (some (pos n)) };
  sql = λ q. "SELECT";
  is_word = λ c. leb 95 (code c);
}

abbrev question : String
question = "```sql\nSELECT * FROM v_aging;\n```"

unfenced : sql_text question ≡ "SELECT * FROM v_aging"
unfolding sql_text is_space
unfenced = refl

other_fences :
    (strip_markdown_fence "a ```SQL ``` b" ≡ " ")
    × (strip_markdown_fence "```sql```" ≡ "sql")
    × (strip_markdown_fence "``` x" ≡ "``` x")
unfolding strip_markdown_fence is_space
other_fences = (refl, refl, refl)

words :
    (calls parser.is_word "select pg_sleep  (1)" "pg_sleep" ≡ true)
    × (calls parser.is_word "select my_pg_sleep(1)" "pg_sleep" ≡ false)
    × (names parser.is_word "select current_user" "current_user" ≡ true)
    × (names parser.is_word "select current_users" "current_user" ≡ false)
unfolding calls names is_space
words = (refl, refl, refl, refl)

question_accepted : validate_sql ascii parser question ≡ accepted "SELECT" ("mart.v_aging" ∷ [])
unfolding validate_sql is_space
question_accepted = refl

other_schema :
    validate_sql ascii parser "SELECT * FROM core.users"
    ≡ rejected (Reason.forbidden_schema (table "core" "users"))
unfolding validate_sql is_space
other_schema = refl

stacked_queries : validate_sql ascii parser "SELECT 1; SELECT 2" ≡ rejected Reason.stacked
unfolding validate_sql is_space
stacked_queries = refl

validate_sql_iff_example : IsAccepted ascii parser question "SELECT" ("mart.v_aging" ∷ [])
validate_sql_iff_example =
    (validate_sql_iff ascii parser question "SELECT" ("mart.v_aging" ∷ [])).0 question_accepted

validate_sql-views_example : all is_allowed_name ("mart.v_aging" ∷ []) ≡ true
validate_sql-views_example =
    validate_sql-views ascii parser question "SELECT" ("mart.v_aging" ∷ []) question_accepted

validate_sql-IsBounded_example :
    (t : Query) × ("SELECT" ≡ parser.sql t) × IsBounded parser (λ n q. refl) t
validate_sql-IsBounded_example =
    validate_sql-IsBounded parser (λ n q. refl) ascii question "SELECT" ("mart.v_aging" ∷ [])
      question_accepted
