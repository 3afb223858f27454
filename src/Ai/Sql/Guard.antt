-- ===== src/Ai/Sql/Guard.antt =====
-- `validate_sql` and `_enforce_limit` of ai/nl2sql.py.
--
-- A sequence of tests that each return is the list of what they return, and the first answer is the
-- result. Where a test goes through a set, whose order is not fixed, the list goes through it in the
-- order of the source.
use Prim.Native.Char.{code}
use Prim.Native.String.{◌++◌ as ◌+++◌}
use data_effi.Prelude.{
  ℕ, Bool, true, false, not, ◌&&◌, ◌||◌, String, Option, none, some, List, [], ◌∷◌, map, is_empty,
  is_blank, mentions, str_eq, ltb, ◌==◌, ◌⊎◌, inl, inr, if◌then◌else◌, length,
}
use data_effi.Prelude.Int.{ℤ, pos, ltb_ℤ}
use data_effi.Pipeline.Normalize.Runtime.{Runtime}
use data_effi.Pipeline.Normalize.Text.{strip}
use data_effi.Ai.Sql.Lists.{max_rows, allowed_views, forbidden_functions, forbidden_bare_keywords}
use data_effi.Ai.Sql.Scans.{calls, names, rstrip_semicolons, has_semicolon}
use data_effi.Ai.Sql.Fence.{strip_markdown_fence}
use data_effi.Ai.Sql.Parser.{Parser, TableRef, Node}

-- The reasons of _reject.
pub data Reason : Type 0 where
  empty_query stacked unparsable not_select selects_into takes_locks reads_nothing : Reason
  statement_count : ℕ → Reason
  forbidden_node : Node → Reason
  forbidden_schema forbidden_view : TableRef → Reason
  forbidden_function forbidden_keyword : String → Reason

-- ValidationResult
pub data ValidationResult : Type 0 where
  accepted : String → List String → ValidationResult
  rejected : Reason → ValidationResult

-- FORBIDDEN_NODES
abbrev pub forbidden_nodes : List Node
forbidden_nodes =
    Node.insert_node ∷ Node.update_node ∷ Node.delete_node ∷ Node.drop_node ∷ Node.create_node
    ∷ Node.alter_node ∷ Node.truncate_node ∷ Node.grant_node ∷ Node.command_node
    ∷ Node.transaction_node ∷ Node.commit_node ∷ Node.rollback_node ∷ Node.use_node ∷ Node.set_node
    ∷ Node.copy_node ∷ Node.merge_node ∷ []

-- the answer of the first of the tests that holds
unfoldable pub first_answer : {A : Type 0} → (A → Bool) → (A → Reason) → List A → Option Reason
first_answer test reason [] = none
first_answer test reason (a ∷ rest) =
    if test a then some (reason a) else first_answer test reason rest

-- the first test that answers
unfoldable pub answer_of : List (Option Reason) → Option Reason
answer_of [] = none
answer_of (none ∷ rest) = answer_of rest
answer_of (some reason ∷ rest) = some reason

abbrev pub when : Bool → Reason → Option Reason
when test reason = if test then some reason else none

-- the tests on the text of the query
unfoldable pub text_refusal : String → Option Reason
unfolding answer_of has_semicolon
text_refusal text =
    answer_of
      (when (is_blank text) Reason.empty_query ∷ when (has_semicolon text) Reason.stacked ∷ [])

-- What one table in the statement is: a name that a CTE has, not allowed, or a view to read.
pub data TableVerdict : Type 0 where
  skip : TableVerdict
  turn_down : Reason → TableVerdict
  read : String → TableVerdict

abbrev also : String → Reason ⊎ List String → Reason ⊎ List String
also name (inl reason) = inl reason
also name (inr names) = inr (name ∷ names)

module _ (lower : String → String) (ctes : List String) where
  -- the body of the loop over the tables, with both names lowered
  unfoldable pub judge : TableRef → TableVerdict
  judge t =
      let name = lower t.name in
      let schema = lower t.schema in
      if mentions ctes name && is_blank schema
      then TableVerdict.skip
      else if not (is_blank schema) && not (str_eq schema "mart")
      then TableVerdict.turn_down (Reason.forbidden_schema t)
      else if not (mentions allowed_views name)
      then TableVerdict.turn_down (Reason.forbidden_view t)
      else TableVerdict.read ("mart." +++ name)

  -- the loop over the tables: the names that are read, in order, or the first refusal
  unfoldable pub read_tables : List TableRef → Reason ⊎ List String
  unfolding judge
  read_tables [] = inr []
  read_tables (t ∷ ts) = elim (judge t) [
    | skip ↦ read_tables ts
    | turn_down reason ↦ inl reason
    | read name ↦ also name (read_tables ts)
  ]

-- s before t, character by character
comes_before : String → String → Bool
comes_before s String.[] = false
comes_before String.[] (String.◌∷◌ d t) = true
comes_before (String.◌∷◌ c s) (String.◌∷◌ d t) =
    ltb (code c) (code d) || (code c == code d && comes_before s t)

-- a name put into a list that is sorted and has no name twice
unfoldable pub insert_name : String → List String → List String
unfolding comes_before
insert_name name [] = name ∷ []
insert_name name (n ∷ ns) =
    let rest = insert_name name ns in
    if str_eq name n then n ∷ ns else if comes_before name n then name ∷ n ∷ ns else n ∷ rest

-- sorted(set(names))
unfoldable pub sorted_set : List String → List String
unfolding insert_name
sorted_set [] = []
sorted_set (n ∷ ns) = insert_name n (sorted_set ns)

abbrev pub called_name : (String → String) → Option String → String
called_name lower none = ""
called_name lower (some name) = lower name

-- [s for s in statements if s is not None]
unfoldable pub present : {A : Type 0} → List (Option A) → List A
present [] = []
present (none ∷ rest) = present rest
present (some a ∷ rest) = a ∷ present rest

-- the text that is parsed
unfoldable pub sql_text : String → String
unfolding strip strip_markdown_fence rstrip_semicolons
sql_text raw = strip (rstrip_semicolons (strip (strip_markdown_fence raw)))

module _ {Tree : Type 0} (p : Parser Tree) where
  abbrev limited : Tree → Option (Option ℤ) → Tree
  limited t none = p.with_limit max_rows t
  limited t (some none) = p.with_limit max_rows t
  limited t (some (some n)) = if ltb_ℤ (pos max_rows) n then p.with_limit max_rows t else t

  -- _enforce_limit, before the statement is written out
  unfoldable pub enforce_limit : Tree → Tree
  enforce_limit t = limited t (p.limit t)

module _ {Tree : Type 0} (r : Runtime) (p : Parser Tree) where
  -- the tests on the statement, before its tables
  unfoldable pub statement_refusal : Tree → Option Reason
  unfolding answer_of first_answer
  statement_refusal t = answer_of (
      when (not (p.is_select t)) Reason.not_select
      ∷ first_answer (λ node. p.has_node node t) Reason.forbidden_node forbidden_nodes
      ∷ when (p.has_into t) Reason.selects_into
      ∷ when (p.has_locks t) Reason.takes_locks
      ∷ [])

  -- the tests after the tables
  unfoldable pub word_refusal : String → Tree → List String → Option Reason
  unfolding answer_of first_answer calls names
  word_refusal text t views = answer_of (
      when (is_empty views) Reason.reads_nothing
      ∷ first_answer (mentions forbidden_functions) Reason.forbidden_function
          (map (called_name r.lower) (p.anonymous t))
      ∷ first_answer (calls p.is_word (r.lower text)) Reason.forbidden_function forbidden_functions
      ∷ first_answer (names p.is_word (r.lower text)) Reason.forbidden_keyword
          forbidden_bare_keywords
      ∷ [])

  unfoldable pub with_words : Tree → List String → Option Reason → ValidationResult
  unfolding enforce_limit sorted_set
  with_words t views (some reason) = ValidationResult.rejected reason
  with_words t views none = ValidationResult.accepted (p.sql (enforce_limit p t)) (sorted_set views)

  unfoldable pub with_tables : String → Tree → Reason ⊎ List String → ValidationResult
  unfolding word_refusal with_words
  with_tables text t (inl reason) = ValidationResult.rejected reason
  with_tables text t (inr views) = with_words t views (word_refusal text t views)

  unfoldable pub with_statement : String → Tree → Option Reason → ValidationResult
  unfolding read_tables with_tables
  with_statement text t (some reason) = ValidationResult.rejected reason
  with_statement text t none =
      with_tables text t (read_tables r.lower (map r.lower (p.cte_aliases t)) (p.tables t))

  -- the one statement of a query
  unfoldable pub vet : String → Tree → ValidationResult
  unfolding with_statement statement_refusal
  vet text t = with_statement text t (statement_refusal t)

  unfoldable pub one : String → List Tree → ValidationResult
  unfolding vet
  one text (t ∷ []) = vet text t
  one text ts = ValidationResult.rejected (Reason.statement_count (length ts))

  unfoldable pub with_parse : String → Option (List (Option Tree)) → ValidationResult
  unfolding one present
  with_parse text none = ValidationResult.rejected Reason.unparsable
  with_parse text (some statements) = one text (present statements)

  unfoldable pub with_text : String → Option Reason → ValidationResult
  unfolding with_parse
  with_text text (some reason) = ValidationResult.rejected reason
  with_text text none = with_parse text (p.parse text)

  unfoldable pub validate_sql : String → ValidationResult
  unfolding with_text text_refusal sql_text strip
  validate_sql raw =
      if is_blank (strip raw)
      then ValidationResult.rejected Reason.empty_query
      else with_text (sql_text raw) (text_refusal (sql_text raw))
