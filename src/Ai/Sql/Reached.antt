-- ===== src/Ai/Sql/Reached.antt =====
-- What the queries that `validate_sql` of ai/nl2sql.py accepts read from the database.
use Prim.Native.String.{◌++◌ as ◌+++◌}
use mathlib.Core.Logic.Or
use data_effi.Prelude.{Bool, ◌&&◌, String, List}
use data_effi.Pipeline.Normalize.Runtime.{Runtime}
use data_effi.Ai.Sql.Parser.{Parser, TableRef}
use data_effi.Ai.Sql.Safe.{is_view}

-- An allowed reference is the name of a CTE, or it is a view whose name is read.
module _ (lower : String → String) (cs : List String) (told : String → Bool) where
  abbrev pub is_told : TableRef → Bool
  is_told t = is_view lower cs t && told ("mart." +++ lower t.name)
