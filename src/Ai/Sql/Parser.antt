-- ===== src/Ai/Sql/Parser.antt =====
-- What `validate_sql` of ai/nl2sql.py takes from sqlglot and from re.
use Prim.Native.Char.{Char}
use data_effi.Prelude.{ℕ, Bool, String, Option, List}
use data_effi.Prelude.Int.{ℤ}

-- FORBIDDEN_NODES, as the kinds of node to look for
pub data Node : Type 0 where
  insert_node update_node delete_node drop_node create_node alter_node truncate_node grant_node :
      Node
  command_node transaction_node commit_node rollback_node use_node set_node copy_node merge_node :
      Node

-- A name of a table in a statement, with the schema that is written before it, or "".
pub record TableRef : Type 0 where
  pub name : String
  pub schema : String

-- `parse` is sqlglot.parse of the postgres dialect, with None for an exception. `is_select` is
-- isinstance(_, exp.Select); `has_node`, `cte_aliases`, `tables` and `anonymous` are find_all, with
-- the alias_or_name of each exp.CTE, and the `this` of each exp.Anonymous where it is a text.
-- `limit` is the limit of a statement, with None inside where int() of its expression raises;
-- `with_limit` sets it. `is_word` is the class `\w` of re.
pub record Parser (Tree : Type 0) : Type 0 where
  pub parse : String → Option (List (Option Tree))
  pub is_select : Tree → Bool
  pub has_node : Node → Tree → Bool
  pub has_into : Tree → Bool
  pub has_locks : Tree → Bool
  pub cte_aliases : Tree → List String
  pub tables : Tree → List TableRef
  pub anonymous : Tree → List (Option String)
  pub limit : Tree → Option (Option ℤ)
  pub with_limit : ℕ → Tree → Tree
  pub sql : Tree → String
  pub is_word : Char → Bool
