-- ===== src/Ai/Sql/Accepted.antt =====
-- The queries that `validate_sql` of ai/nl2sql.py accepts, and those alone.
use data_effi.Prelude.{
  false, String, Option, none, some, List, [], ◌∷◌, length, is_blank, ◌≡◌, refl, sym, ◌∙◌, ◌↔◌, inl,
  inr, Bool-cases,
}
use data_effi.Pipeline.Normalize.Runtime.{Runtime}
use data_effi.Pipeline.Normalize.Text.{strip}
use data_effi.Ai.Sql.Scans.{has_semicolon}
use data_effi.Ai.Sql.Parser.{Parser}
use data_effi.Ai.Sql.Guard.{
  Reason, accepted, text_refusal, sorted_set, present, enforce_limit, sql_text, validate_sql, one,
  with_parse, with_text,
}
use data_effi.Ai.Sql.Answers.{pair_iff}
use data_effi.Ai.Sql.Vetted.{IsSafe, views_of, vet-accepted, vet-IsSafe, rejected_not}

module _ {Tree : Type 0} (r : Runtime) (p : Parser Tree) where
  -- What a query is that is accepted with this text and these views.
  pub record IsAccepted (raw sql : String) (views : List String) : Type 0 where
    pub statements : List (Option Tree)
    pub tree : Tree
    pub filled : is_blank (strip raw) ≡ false
    pub written : is_blank (sql_text raw) ≡ false
    pub single : has_semicolon (sql_text raw) ≡ false
    pub parsed : p.parse (sql_text raw) ≡ some statements
    pub only : present statements ≡ tree ∷ []
    pub safe : IsSafe r p (sql_text raw) tree
    pub text : sql ≡ p.sql (enforce_limit p tree)
    pub read : views ≡ sorted_set (views_of r p tree)

  -- The tests on the text.
  text_iff :
      (text : String)
      → (text_refusal text ≡ none) ↔ ((is_blank text ≡ false) × (has_semicolon text ≡ false))
  unfolding text_refusal
  text_iff text = pair_iff (is_blank text) (has_semicolon text) Reason.empty_query Reason.stacked

  is_accepted :
      (raw s : String) (vs : List String)
      → IsAccepted raw s vs
      → validate_sql r p raw ≡ accepted s vs
  unfolding validate_sql with_text with_parse one
  is_accepted raw s vs a =
      let text = (text_iff (sql_text raw)).1 (a.written, a.single) in
      rw (a.filled, text, a.parsed, a.only)
        (vet-accepted r p (sql_text raw) a.tree a.safe
          ∙ (λ i. accepted (sym a.text i) (sym a.read i)))

  of_one :
      (raw : String) (statements : List (Option Tree)) (ts : List Tree) (s : String)
      (vs : List String)
      → is_blank (strip raw) ≡ false
      → text_refusal (sql_text raw) ≡ none
      → p.parse (sql_text raw) ≡ some statements
      → present statements ≡ ts
      → one r p (sql_text raw) ts ≡ accepted s vs
      → IsAccepted raw s vs
  unfolding one
  of_one raw statements [] s vs hf ht hp hl h = rejected_not (Reason.statement_count 0) s vs h
  of_one raw statements (t ∷ []) s vs hf ht hp hl h =
      let e = vet-IsSafe r p (sql_text raw) t s vs h in
      let texts = (text_iff (sql_text raw)).0 ht in
      record {
        statements = statements;
        tree = t;
        filled = hf;
        written = texts.0;
        single = texts.1;
        parsed = hp;
        only = hl;
        safe = e.0;
        text = e.1;
        read = e.2;
      }
  of_one raw statements (t ∷ t' ∷ ts) s vs hf ht hp hl h =
      rejected_not (Reason.statement_count (length (t ∷ t' ∷ ts))) s vs h

  of_parse :
      (raw : String) (o : Option (List (Option Tree))) (s : String) (vs : List String)
      → is_blank (strip raw) ≡ false
      → text_refusal (sql_text raw) ≡ none
      → p.parse (sql_text raw) ≡ o
      → with_parse r p (sql_text raw) o ≡ accepted s vs
      → IsAccepted raw s vs
  unfolding with_parse
  of_parse raw none s vs hf ht hp h = rejected_not Reason.unparsable s vs h
  of_parse raw (some statements) s vs hf ht hp h =
      of_one raw statements (present statements) s vs hf ht hp refl h

  of_text :
      (raw : String) (o : Option Reason) (s : String) (vs : List String)
      → is_blank (strip raw) ≡ false
      → text_refusal (sql_text raw) ≡ o
      → with_text r p (sql_text raw) o ≡ accepted s vs
      → IsAccepted raw s vs
  unfolding with_text
  of_text raw (some reason) s vs hf ht h = rejected_not reason s vs h
  of_text raw none s vs hf ht h = of_parse raw (p.parse (sql_text raw)) s vs hf ht refl h

  -- A text is accepted with a query and a list of views exactly if it is filled, what is left of
  -- it without fence and final semicolons is filled and has no semicolon, the parser finds one
  -- statement in that, the statement is a SELECT without forbidden nodes, INTO or locks, each of
  -- its tables is the name of a CTE or an allowed view of the schema mart or of none, one at least
  -- is such a view and no CTE, no forbidden function or keyword stands in it, the query is that
  -- statement with its limit enforced, and the views are the sorted names of the views it reads.
  pub validate_sql_iff :
      (raw s : String) (vs : List String)
      → (validate_sql r p raw ≡ accepted s vs) ↔ IsAccepted raw s vs
  unfolding validate_sql
  validate_sql_iff raw s vs = (
    λ h. elim (Bool-cases (is_blank (strip raw))) [
      | inl blank ↦ rejected_not Reason.empty_query s vs (rw blank at h)
      | inr filled ↦ of_text raw (text_refusal (sql_text raw)) s vs filled refl (rw filled at h)
    ],
    is_accepted raw s vs,
  )
