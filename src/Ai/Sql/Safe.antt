-- ===== src/Ai/Sql/Safe.antt =====
-- The tables of a query in `validate_sql` of ai/nl2sql.py: the names of a CTE, and the views.
use Prim.Native.String.{◌++◌ as ◌+++◌}
use data_effi.Prelude.{
  Bool, true, false, not, ◌&&◌, ◌||◌, String, List, [], ◌∷◌, all, is_blank, mentions, str_eq, ◌≡◌,
  refl, ◌⊎◌, inl, inr, if◌then◌else◌,
}
use data_effi.Ai.Sql.Lists.{allowed_views}
use data_effi.Ai.Sql.Scans.{names}
use data_effi.Ai.Sql.Parser.{TableRef}
use data_effi.Ai.Sql.Guard.{Reason, TableVerdict, skip, turn_down, read, judge, read_tables}

-- What a verdict says of a table that is the name of a CTE, or a view, or neither.
abbrev Says : Bool → Bool → String → TableVerdict → Type 0
Says cte view name skip = cte ≡ true
Says cte view name (turn_down reason) = (cte || view) ≡ false
Says cte view name (read n) = (cte ≡ false) × (view ≡ true) × (n ≡ name)

judge_cases :
    (named bare mart allowed : Bool) (other_schema other_view : Reason) (name : String)
    → Says (named && bare) ((bare || mart) && allowed) name (
        if named && bare
        then TableVerdict.skip
        else if not bare && not mart
        then TableVerdict.turn_down other_schema
        else if not allowed
        then TableVerdict.turn_down other_view
        else TableVerdict.read name)
judge_cases true true mart allowed s v name = refl
judge_cases false true mart true s v name = (refl, refl, refl)
judge_cases false true mart false s v name = refl
judge_cases true false false allowed s v name = refl
judge_cases false false false allowed s v name = refl
judge_cases true false true true s v name = (refl, refl, refl)
judge_cases false false true true s v name = (refl, refl, refl)
judge_cases true false true false s v name = refl
judge_cases false false true false s v name = refl

module _ (lower : String → String) (ctes : List String) where
  -- A name that a CTE of the statement has, with no schema.
  abbrev pub is_cte : TableRef → Bool
  is_cte t = mentions ctes (lower t.name) && is_blank (lower t.schema)

  -- A view that may be read, of the schema mart or of none.
  abbrev pub is_view : TableRef → Bool
  is_view t =
      (is_blank (lower t.schema) || str_eq (lower t.schema) "mart")
      && mentions allowed_views (lower t.name)

  abbrev pub is_allowed : TableRef → Bool
  is_allowed t = is_cte t || is_view t

  -- The names of the views that are read.
  unfoldable pub read_names : List TableRef → List String
  read_names [] = []
  read_names (t ∷ ts) =
      let rest = read_names ts in if is_cte t then rest else ("mart." +++ lower t.name) ∷ rest

  judge_lem :
      (t : TableRef) → Says (is_cte t) (is_view t) ("mart." +++ lower t.name) (judge lower ctes t)
  unfolding judge
  judge_lem t =
      judge_cases (mentions ctes (lower t.name)) (is_blank (lower t.schema))
        (str_eq (lower t.schema) "mart") (mentions allowed_views (lower t.name))
        (Reason.forbidden_schema t) (Reason.forbidden_view t) ("mart." +++ lower t.name)

  -- What the loop over the tables returns.
  abbrev pub Reads : List TableRef → Reason ⊎ List String → Type 0
  unfolding read_names
  Reads ts (inl reason) = all is_allowed ts ≡ false
  Reads ts (inr names) = (all is_allowed ts ≡ true) × (names ≡ read_names ts)

  read_step :
      (t : TableRef) (ts : List TableRef) (v : TableVerdict) (rest : Reason ⊎ List String)
      → Says (is_cte t) (is_view t) ("mart." +++ lower t.name) v
      → Reads ts rest
      → Reads (t ∷ ts) (elim v [
        | skip ↦ rest
        | turn_down reason ↦ inl reason
        | read name ↦ elim rest [ inl reason ↦ inl reason | inr names ↦ inr (name ∷ names) ]
      ])
  unfolding read_names
  read_step t ts skip (inl reason) h ih = rw h ih
  read_step t ts skip (inr names) h (ok, e) = (rw h ok, rw h e)
  read_step t ts (turn_down reason) rest h ih = rw h refl
  read_step t ts (read name) (inl reason) (hc, hv, e) ih = rw (hc, hv) ih
  read_step t ts (read name) (inr names) (hc, hv, e) (ok, en) =
      (rw (hc, hv) ok, rw (hc, e, en) refl)

  pub read_tables_lem : (ts : List TableRef) → Reads ts (read_tables lower ctes ts)
  unfolding read_tables read_names
  read_tables_lem [] = (refl, refl)
  read_tables_lem (t ∷ ts) =
      read_step t ts (judge lower ctes t) (read_tables lower ctes ts) (judge_lem t)
        (read_tables_lem ts)
