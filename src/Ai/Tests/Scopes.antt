-- ===== src/Ai/Tests/Scopes.antt =====
-- Two statements with CTEs for `validate_sql` of ai/nl2sql.py.
use Prim.Native.Char.{code}
use data_effi.Prelude.{
  true, false, String, none, some, List, [], ◌∷◌, ◌++◌, ◌≡◌, refl, leb, str_eq, if◌then◌else◌,
  mentions,
}
use data_effi.Pipeline.Normalize.Runtime.{is_space}
use data_effi.Pipeline.Tests.Files.{ascii}
use data_effi.Ai.Sql.Parser.{Parser, TableRef}
use data_effi.Ai.Sql.Guard.{accepted, validate_sql}
use data_effi.Ai.Sql.Vetted.{ctes}
use data_effi.Ai.Sql.Scope.{
  Statement, finish, from_table, with_cte, subquery, references, reached, well_scoped,
}

abbrev table : String → String → TableRef
table schema name = record { name = name; schema = schema }

aliases : Statement → List String
aliases finish = []
aliases (from_table t rest) = aliases rest
aliases (with_cte recursive name body rest) = name ∷ aliases body ++ aliases rest
aliases (subquery q rest) = aliases q ++ aliases rest

names_of : List TableRef → List String
names_of [] = []
names_of (t ∷ ts) = t.name ∷ names_of ts

-- WITH late AS (SELECT * FROM v_aging) SELECT * FROM late, mart.v_cpa_roas
abbrev scoped : Statement
scoped =
    Statement.with_cte false "late" (Statement.from_table (table "" "v_aging") Statement.finish) (
      Statement.from_table (table "" "late")
        (Statement.from_table (table "mart" "v_cpa_roas") Statement.finish))

-- SELECT * FROM v_aging, pg_class
-- WHERE EXISTS (WITH pg_class AS (SELECT * FROM v_aging) SELECT * FROM pg_class)
abbrev smuggled : Statement
smuggled = Statement.from_table (table "" "v_aging") (
    Statement.from_table (table "" "pg_class") (
      Statement.subquery
        (Statement.with_cte false "pg_class"
          (Statement.from_table (table "" "v_aging") Statement.finish)
          (Statement.from_table (table "" "pg_class") Statement.finish))
        Statement.finish))

abbrev parser : Parser Statement
parser = record {
  parse = λ s. some (some (if str_eq s "scoped" then scoped else smuggled) ∷ []);
  is_select = λ q. true;
  has_node = λ n q. false;
  has_into = λ q. false;
  has_locks = λ q. false;
  cte_aliases = aliases;
  tables = references;
  anonymous = λ q. [];
  limit = λ q. none;
  with_limit = λ n q. q;
  sql = λ q. "SELECT";
  is_word = λ c. leb 95 (code c);
}

-- The catalogue pg_class is read, and the query is accepted.
smuggled_accepted :
    (validate_sql ascii parser "smuggled" ≡ accepted "SELECT" ("mart.v_aging" ∷ []))
    × (mentions (names_of (reached ascii.lower [] smuggled)) "pg_class" ≡ true)
    × (well_scoped ascii.lower (ctes ascii parser smuggled) [] smuggled ≡ false)
unfolding validate_sql is_space references aliases reached well_scoped names_of
smuggled_accepted = (refl, refl, refl)
