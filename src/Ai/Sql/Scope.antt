-- ===== src/Ai/Sql/Scope.antt =====
-- What SQL makes of the names in a statement that `validate_sql` of ai/nl2sql.py judges.
--
-- A CTE is seen in the query that defines it, after it, and nowhere else; a recursive one is seen in
-- its own body as well. A reference that has no schema and the name of a CTE that is seen there is
-- to the CTE; any other is to a relation of the database.
use data_effi.Prelude.{
  Bool, true, false, not, ◌&&◌, ◌||◌, String, List, [], ◌∷◌, ◌++◌, if◌then◌else◌, all, all-append,
  ◌≡◌, refl, sym, ◌∙◌, inl, inr, Bool-cases, and_parts, and_of,
}
use data_effi.Ai.Sql.Parser.{TableRef}
use data_effi.Ai.Sql.Safe.{is_cte}

-- A query, read from its start: a reference in its FROM, a CTE with its body, or a query inside it,
-- each with what follows.
pub data Statement : Type 0 where
  finish : Statement
  from_table : TableRef → Statement → Statement
  with_cte : Bool → String → Statement → Statement → Statement
  subquery : Statement → Statement → Statement

-- All references, at any depth.
unfoldable pub references : Statement → List TableRef
references finish = []
references (from_table t rest) = t ∷ references rest
references (with_cte recursive name body rest) = references body ++ references rest
references (subquery q rest) = references q ++ references rest

module _ (lower : String → String) where
  abbrev pub body_scope : Bool → String → List String → List String
  body_scope recursive name scope = if recursive then lower name ∷ scope else scope

  -- The references that are to relations of the database, where these CTEs are seen.
  unfoldable pub reached : List String → Statement → List TableRef
  reached scope finish = []
  reached scope (from_table t rest) =
      let more = reached scope rest in if is_cte lower scope t then more else t ∷ more
  reached scope (with_cte recursive name body rest) =
      reached (body_scope recursive name scope) body ++ reached (lower name ∷ scope) rest
  reached scope (subquery q rest) = reached scope q ++ reached scope rest

  -- A reference that has the name of one of these CTEs and no schema is to a CTE that is seen.
  unfoldable pub well_scoped : List String → List String → Statement → Bool
  well_scoped ctes scope finish = true
  well_scoped ctes scope (from_table t rest) =
      (not (is_cte lower ctes t) || is_cte lower scope t) && well_scoped ctes scope rest
  well_scoped ctes scope (with_cte recursive name body rest) =
      well_scoped ctes (body_scope recursive name scope) body
      && well_scoped ctes (lower name ∷ scope) rest
  well_scoped ctes scope (subquery q rest) = well_scoped ctes scope q && well_scoped ctes scope rest

  module _ (ctes : List String) (test : TableRef → Bool) where
    abbrev pub cte_or : TableRef → Bool
    cte_or t = is_cte lower ctes t || test t

    not_cte :
        (named seen ok : Bool)
        → (named || ok) ≡ true
        → (not named || seen) ≡ true
        → seen ≡ false
        → ok ≡ true
    not_cte true true ok ht hs h = cc
    not_cte true false ok ht hs h = cc
    not_cte false seen ok ht hs h = ht

    two :
        (xs ys : List TableRef)
        → all test xs ≡ true
        → all test ys ≡ true
        → all test (xs ++ ys) ≡ true
    two xs ys hx hy = all-append test xs ys ∙ and_of (all test xs) (all test ys) hx hy

    split :
        (xs ys : List TableRef)
        → all cte_or (xs ++ ys) ≡ true
        → (all cte_or xs ≡ true) × (all cte_or ys ≡ true)
    split xs ys h = and_parts (all cte_or xs) (all cte_or ys) (sym (all-append cte_or xs ys) ∙ h)

    -- What holds of the references that have no name of a CTE holds of those to the database.
    pub reached-all :
        (scope : List String) (q : Statement)
        → all cte_or (references q) ≡ true
        → well_scoped ctes scope q ≡ true
        → all test (reached scope q) ≡ true
    unfolding references reached well_scoped
    reached-all scope finish h w = refl
    reached-all scope (from_table t rest) h w =
        let hs = and_parts (cte_or t) (all cte_or (references rest)) h in
        let ws =
          and_parts (not (is_cte lower ctes t) || is_cte lower scope t)
            (well_scoped ctes scope rest) w in
        let more = reached-all scope rest hs.1 ws.1 in
        elim (Bool-cases (is_cte lower scope t)) [
          | inl seen ↦ rw seen more
          | inr unseen ↦
              rw
                (
                  unseen,
                  not_cte (is_cte lower ctes t) (is_cte lower scope t) (test t) hs.0 ws.0 unseen,
                )
                more
        ]
    reached-all scope (with_cte recursive name body rest) h w =
        let inner = body_scope recursive name scope in
        let hs = split (references body) (references rest) h in
        let ws =
          and_parts (well_scoped ctes inner body) (well_scoped ctes (lower name ∷ scope) rest) w in
        two (reached inner body) (reached (lower name ∷ scope) rest)
          (reached-all inner body hs.0 ws.0) (reached-all (lower name ∷ scope) rest hs.1 ws.1)
    reached-all scope (subquery q rest) h w =
        let hs = split (references q) (references rest) h in
        let ws = and_parts (well_scoped ctes scope q) (well_scoped ctes scope rest) w in
        two (reached scope q) (reached scope rest) (reached-all scope q hs.0 ws.0)
          (reached-all scope rest hs.1 ws.1)
