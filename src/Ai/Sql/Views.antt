-- ===== src/Ai/Sql/Views.antt =====
-- The views that a query may read, by `validate_sql` of ai/nl2sql.py.
use Prim.Native.String.{◌++◌ as ◌+++◌}
use data_effi.Prelude.{
  Bool, true, false, ◌||◌, String, List, [], ◌∷◌, map, all, arith, mentions, str_eq, str_eq_iff,
  ◌≡◌, refl, ap, inl, inr, Bool-cases, and_parts, is_blank,
}
use data_effi.Pipeline.Normalize.Runtime.{Runtime}
use data_effi.Ai.Sql.Lists.{allowed_views}
use data_effi.Ai.Sql.Parser.{Parser, TableRef}
use data_effi.Ai.Sql.Guard.{accepted, validate_sql, sorted_set, insert_name}
use data_effi.Ai.Sql.Safe.{is_cte, is_allowed, read_names}
use data_effi.Ai.Sql.Accepted.{validate_sql_iff}
use data_effi.Ai.Sql.Vetted.{ctes}

-- The name of one of the views that may be read, in the schema mart.
abbrev pub is_allowed_name : String → Bool
is_allowed_name n = mentions (map (λ v. "mart." +++ v) allowed_views) n

pub or_right : (a b : Bool) → b ≡ true → (a || b) ≡ true
or_right true b h = refl
or_right false b h = h

mentions-map :
    (ns : List String) (n : String)
    → mentions ns n ≡ true
    → mentions (map (λ v. "mart." +++ v) ns) ("mart." +++ n) ≡ true
mentions-map [] n h = cc
mentions-map (m ∷ ns) n h = elim (Bool-cases (str_eq m n)) [
  | inl same ↦
      rw
        ((str_eq_iff ("mart." +++ m) ("mart." +++ n)).1
          (ap (λ v. "mart." +++ v) ((str_eq_iff m n).0 same)))
        refl
  | inr other ↦
      or_right (str_eq ("mart." +++ m) ("mart." +++ n))
        (mentions (map (λ v. "mart." +++ v) ns) ("mart." +++ n)) (mentions-map ns n (rw other at h))
]

all-insert_name :
    (q : String → Bool) (n : String) (ns : List String)
    → q n ≡ true
    → all q ns ≡ true
    → all q (insert_name n ns) ≡ true
unfolding insert_name
all-insert_name q n [] hn h = rw hn refl
all-insert_name q n (m ∷ ns) hn h = ground (arith, all-insert_name q n ns hn)

all-sorted_set :
    (q : String → Bool) (ns : List String) → all q ns ≡ true → all q (sorted_set ns) ≡ true
unfolding sorted_set
all-sorted_set q [] h = refl
all-sorted_set q (n ∷ ns) h =
    let e = and_parts (q n) (all q ns) h in
    all-insert_name q n (sorted_set ns) e.0 (all-sorted_set q ns e.1)

all-read_names :
    (lower : String → String) (cs : List String) (ts : List TableRef)
    → all (is_allowed lower cs) ts ≡ true
    → all is_allowed_name (read_names lower cs ts) ≡ true
unfolding read_names
all-read_names lower cs [] h = refl
all-read_names lower cs (t ∷ ts) h =
    let e = and_parts (is_allowed lower cs t) (all (is_allowed lower cs) ts) h in
    let rest = all-read_names lower cs ts e.1 in
    elim (Bool-cases (is_cte lower cs t)) [
      | inl cte ↦ rw cte rest
      | inr other ↦
          let named =
            and_parts (is_blank (lower t.schema) || str_eq (lower t.schema) "mart")
              (mentions allowed_views (lower t.name)) (rw other at e.0) in
          rw (other, mentions-map allowed_views (lower t.name) named.1) rest
    ]

module _ {Tree : Type 0} (r : Runtime) (p : Parser Tree) where
  -- Each view that is named in the result of an accepted text is one of ALLOWED_VIEWS in the
  -- schema mart.
  pub validate_sql-views :
      (raw s : String) (vs : List String)
      → validate_sql r p raw ≡ accepted s vs
      → all is_allowed_name vs ≡ true
  validate_sql-views raw s vs h =
      let a = (validate_sql_iff r p raw s vs).0 h in
      rw a.read (
        all-sorted_set is_allowed_name (read_names r.lower (ctes r p a.tree) (p.tables a.tree))
          (all-read_names r.lower (ctes r p a.tree) (p.tables a.tree) a.safe.allowed))
