-- ===== src/Ai/Sql/Bounded.antt =====
-- The limit of a query that `validate_sql` of ai/nl2sql.py accepts.
use data_effi.Prelude.{ℕ, false, String, Option, none, some, List, ◌≡◌, refl, inl, inr, Bool-cases}
use data_effi.Prelude.Int.{ℤ, pos, ltb_ℤ}
use data_effi.Pipeline.Normalize.Runtime.{Runtime}
use data_effi.Ai.Sql.Lists.{max_rows}
use data_effi.Ai.Sql.Parser.{Parser}
use data_effi.Ai.Sql.Guard.{accepted, validate_sql, enforce_limit}
use data_effi.Ai.Sql.Accepted.{validate_sql_iff}

module _ {Tree : Type 0} (p : Parser Tree)
    (limit-with_limit : (n : ℕ) (t : Tree) → p.limit (p.with_limit n t) ≡ some (some (pos n))) where
  -- The statement has a limit that is a number and is not too large.
  abbrev pub IsBounded : Tree → Type 0
  IsBounded t = (k : ℤ) × (p.limit t ≡ some (some k)) × (ltb_ℤ (pos max_rows) k ≡ false)

  enforce_limit-IsBounded :
      (t : Tree) (o : Option (Option ℤ)) → p.limit t ≡ o → IsBounded (enforce_limit p t)
  unfolding enforce_limit
  enforce_limit-IsBounded t none h = rw h (pos max_rows, limit-with_limit max_rows t, refl)
  enforce_limit-IsBounded t (some none) h = rw h (pos max_rows, limit-with_limit max_rows t, refl)
  enforce_limit-IsBounded t (some (some n)) h = elim (Bool-cases (ltb_ℤ (pos max_rows) n)) [
    | inl large ↦ rw (h, large) (pos max_rows, limit-with_limit max_rows t, refl)
    | inr small ↦ rw (h, small) (n, h, small)
  ]

  -- If setting the limit of a statement sets it, the query of an accepted text is that of a
  -- statement whose limit is a number not above MAX_ROWS.
  pub validate_sql-IsBounded :
      (r : Runtime) (raw s : String) (vs : List String)
      → validate_sql r p raw ≡ accepted s vs
      → (t : Tree) × (s ≡ p.sql t) × IsBounded t
  validate_sql-IsBounded r raw s vs h =
      let a = (validate_sql_iff r p raw s vs).0 h in
      (enforce_limit p a.tree, a.text, enforce_limit-IsBounded a.tree (p.limit a.tree) refl)
