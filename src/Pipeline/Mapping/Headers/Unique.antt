-- ===== src/Pipeline/Mapping/Headers/Unique.antt =====
-- What `build_header_map` does with the columns: one column for a field, and none is lost.
use data_effi.Prelude.{
  ℕ, suc, ◌+◌, ◌<◌, String, true, false, ◌||◌, Option, none, some, List, [], ◌∷◌, is_blank,
  mentions, if◌then◌else◌, ◌≡◌, sym, ◌∙◌, arith, is_some, length, length-append, Bool-cases,
  Option-cases, inl, inr, some_inj, ==_iff, str_eq_refl, subst,
}
use data_effi.Prelude.Equality.{nat_eq, string_eq}
use data_effi.Dict.{
  Dict, lookup, insert, lookup-insert, All, All-insert, All-mono, All-lookup, length-insert_new,
}
use data_effi.Pipeline.Models.{BatchKind}
use data_effi.Pipeline.Normalize.Runtime.{Cell, Runtime}
use data_effi.Pipeline.Normalize.Text.{normalize_text, strip}
use data_effi.Pipeline.Mapping.Columns.{columns_by_kind}
use data_effi.Pipeline.Mapping.Headers.{
  HeaderState, no_headers, place, header_step, header_loop, build_header_map, map_headers,
  spelling_table,
}

-- What holds before the header at the position is read.
pub record IsHeaderMap (position : ℕ) (s : HeaderState) : Type 0 where
  pub below : All (λ p f. p < position) s.mapped
  pub in_taken : All (λ p f. mentions s.taken f ≡ true) s.mapped
  pub unique :
      (p q : ℕ) (f : String) → lookup p s.mapped ≡ some f → lookup q s.mapped ≡ some f → p ≡ q

pub not_yet :
    (position : ℕ) (s : HeaderState) → IsHeaderMap position s → lookup position s.mapped ≡ none
not_yet position s h = elim (Option-cases (lookup position s.mapped)) [
  | inl absent ↦ absent
  | inr (f, found) ↦
      let less : position < position =
        All-lookup (λ p f. p < position) s.mapped position f h.below found in
      absurd (omega (arith, less))
]

pub no_headers-IsHeaderMap : IsHeaderMap 0 no_headers
unfolding lookup
no_headers-IsHeaderMap = record { below = tt; in_taken = tt; unique = λ p q f at. cc }

later-IsHeaderMap :
    (position : ℕ) (s : HeaderState) (unmapped : List String)
    → IsHeaderMap position s
    → IsHeaderMap (suc position) (record s { unmapped = unmapped })
later-IsHeaderMap position s unmapped h = record {
  below =
      All-mono (λ p f. p < position) (λ p f. p < suc position) s.mapped (λ p f l. omega (arith, l))
        h.below;
  in_taken = h.in_taken;
  unique = h.unique;
}

put-IsHeaderMap :
    (position : ℕ) (field : String) (s : HeaderState)
    → mentions s.taken field ≡ false
    → IsHeaderMap position s
    → IsHeaderMap
        (suc position)
        (record s { mapped = insert position field s.mapped; taken = field ∷ s.taken })
put-IsHeaderMap position field s free h = record {
  below =
      All-insert (λ p f. p < suc position) s.mapped position field
        (All-mono (λ p f. p < position) (λ p f. p < suc position) s.mapped
          (λ p f l. omega (arith, l)) h.below)
        (omega arith);
  in_taken =
      All-insert (λ p f. mentions (field ∷ s.taken) f ≡ true) s.mapped position field
        (All-mono (λ p f. mentions s.taken f ≡ true) (λ p f. mentions (field ∷ s.taken) f ≡ true)
          s.mapped (λ p f l. ground arith) h.in_taken)
        (ground (arith, str_eq_refl field));
  unique = λ p q f at_p at_q. ground (
    arith,
    h.unique p q f,
    lookup-insert position p field s.mapped,
    lookup-insert position q field s.mapped,
    All-lookup (λ p f. mentions s.taken f ≡ true) s.mapped p f h.in_taken,
    All-lookup (λ p f. mentions s.taken f ≡ true) s.mapped q f h.in_taken,
    ==_iff position p,
    ==_iff position q,
  );
}

pub step-IsHeaderMap :
    (table : Dict String String) (position : ℕ) (header : String) (key : Option String)
    (s : HeaderState)
    → IsHeaderMap position s
    → IsHeaderMap (suc position) (header_step table position header key s)
unfolding header_step place
step-IsHeaderMap table position header none s h = later-IsHeaderMap position s s.unmapped h
step-IsHeaderMap table position header (some key) s h = elim (Option-cases (lookup key table)) [
  | inl unknown ↦ rw unknown (later-IsHeaderMap position s _ h)
  | inr (field, known) ↦ elim (Bool-cases (is_blank field || mentions s.taken field)) [
    | inl refused ↦ rw (known, refused) (later-IsHeaderMap position s _ h)
    | inr fresh ↦ rw (known, fresh) (put-IsHeaderMap position field s (ground arith) h)
  ]
]

pub loop-IsHeaderMap :
    (r : Runtime) (table : Dict String String) (position : ℕ) (headers : List String)
    (s : HeaderState)
    → IsHeaderMap position s
    → IsHeaderMap (position + length headers) (header_loop r table position headers s)
unfolding header_loop
loop-IsHeaderMap r table position [] s h = subst (λ (n : ℕ). IsHeaderMap n s) (omega arith) h
loop-IsHeaderMap r table position (header ∷ rest) s h =
    subst
      (λ (n : ℕ). IsHeaderMap n (
        header_loop r table (suc position) rest
          (header_step table position header (normalize_text r (some (Cell.text header))) s)))
      (omega arith)
      (loop-IsHeaderMap r table (suc position) rest _
        (step-IsHeaderMap table position header (normalize_text r (some (Cell.text header))) s h))

-- A kind with a table of columns has a map.
pub build_header_map-is_some :
    (r : Runtime) (headers : List String) (kind : BatchKind)
    → is_some (columns_by_kind kind) ≡ true
    → is_some (build_header_map r headers kind) ≡ true
unfolding build_header_map map_headers
build_header_map-is_some r headers kind h = elim (Option-cases (columns_by_kind kind)) [
  | inl no_table ↦ cc (no_table, h)
  | inr (aliases, found) ↦ rw found
]

-- A map that is built is the loop's.
pub build_header_map-loop :
    (r : Runtime) (headers : List String) (kind : BatchKind) (s : HeaderState)
    → build_header_map r headers kind ≡ some s
    → (aliases : Dict String (List String)) × (columns_by_kind kind ≡ some aliases)
      × (header_loop r (spelling_table aliases) 0 headers no_headers ≡ s)
unfolding build_header_map map_headers
build_header_map-loop r headers kind s made = elim (Option-cases (columns_by_kind kind)) [
  | inl no_table ↦
      let refused : build_header_map r headers kind ≡ none = rw no_table in cc (sym refused ∙ made)
  | inr (aliases, found) ↦
      let built : build_header_map r headers kind
          ≡ some (header_loop r (spelling_table aliases) 0 headers no_headers) =
        rw found in
      (aliases, found, some_inj (sym built ∙ made))
]

-- If build_header_map returns, no two positions are mapped to the same field.
pub build_header_map_unique :
    (r : Runtime) (headers : List String) (kind : BatchKind) (s : HeaderState)
    → build_header_map r headers kind ≡ some s
    → (p q : ℕ) (f : String) → lookup p s.mapped ≡ some f
    → lookup q s.mapped ≡ some f
    → p ≡ q
build_header_map_unique r headers kind s made =
    let (aliases, found, at) = build_header_map-loop r headers kind s made in
    subst
      (λ (t : HeaderState).
        (p q : ℕ) (f : String) → lookup p t.mapped ≡ some f → lookup q t.mapped ≡ some f → p ≡ q)
      at
      (loop-IsHeaderMap r (spelling_table aliases) 0 headers no_headers
        no_headers-IsHeaderMap).unique

-- How many headers have a text.
abbrev pub readable : Runtime → List String → ℕ
readable r [] = 0
readable r (h ∷ hs) =
    (if is_some (normalize_text r (some (Cell.text h))) then 1 else 0) + readable r hs

step-length :
    (table : Dict String String) (position : ℕ) (header : String) (key : Option String)
    (s : HeaderState)
    → IsHeaderMap position s
    → let t = header_step table position header key s in
      length t.mapped + length t.unmapped
      ≡ length s.mapped + length s.unmapped + (if is_some key then 1 else 0)
unfolding header_step place strip
step-length table position header none s h = omega arith
step-length table position header (some key) s h = elim (Option-cases (lookup key table)) [
  | inl unknown ↦ rw unknown (omega (arith, length-append s.unmapped (strip header ∷ [])))
  | inr (field, known) ↦ elim (Bool-cases (is_blank field || mentions s.taken field)) [
    | inl refused ↦
        rw (known, refused) (omega (arith, length-append s.unmapped (strip header ∷ [])))
    | inr fresh ↦
        rw (known, fresh)
          (omega (arith, length-insert_new position field s.mapped (not_yet position s h)))
  ]
]

loop-length :
    (r : Runtime) (table : Dict String String) (position : ℕ) (headers : List String)
    (s : HeaderState)
    → IsHeaderMap position s
    → let t = header_loop r table position headers s in
      length t.mapped + length t.unmapped ≡ length s.mapped + length s.unmapped + readable r headers
unfolding header_loop
loop-length r table position [] s h = omega arith
loop-length r table position (header ∷ rest) s h =
    let key = normalize_text r (some (Cell.text header)) in
    omega (
      arith,
      step-length table position header key s h,
      loop-length r table (suc position) rest (header_step table position header key s)
          (step-IsHeaderMap table position header key s h),
    )

-- If build_header_map returns, every header that has a text is either mapped or listed as
-- unmapped, and none is both.
pub build_header_map-length :
    (r : Runtime) (headers : List String) (kind : BatchKind) (s : HeaderState)
    → build_header_map r headers kind ≡ some s
    → length s.mapped + length s.unmapped ≡ readable r headers
build_header_map-length r headers kind s made =
    let (aliases, found, at) = build_header_map-loop r headers kind s made in
    subst (λ (t : HeaderState). length t.mapped + length t.unmapped ≡ readable r headers) at
      (omega
        (arith, loop-length r (spelling_table aliases) 0 headers no_headers no_headers-IsHeaderMap))
