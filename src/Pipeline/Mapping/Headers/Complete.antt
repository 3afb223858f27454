-- ===== src/Pipeline/Mapping/Headers/Complete.antt =====
-- `build_header_map` finds every field: where a header spells one, some column is mapped to it.
use data_effi.Prelude.{
  ℕ, suc, String, true, false, not, ◌||◌, Option, none, some, List, [], ◌∷◌, is_blank, mentions,
  ◌≡◌, refl, sym, ◌∙◌, arith, Bool-cases, Option-cases, inl, inr, some_inj, ==_iff, str_eq,
  str_eq_iff, str_eq_refl, subst, ap,
}
use data_effi.Prelude.Equality.{nat_eq, string_eq}
use data_effi.Dict.{Dict, lookup, insert, lookup-insert, lookup-insert_self, checks, checks-lookup}
use data_effi.Pipeline.Models.{BatchKind}
use data_effi.Pipeline.Normalize.Runtime.{Cell, Runtime}
use data_effi.Pipeline.Normalize.Text.{normalize_text}
use data_effi.Pipeline.Mapping.Columns.{columns_by_kind, shipment_columns, movement_columns}
use data_effi.Pipeline.Mapping.Headers.{
  HeaderState, no_headers, place, header_step, header_loop, build_header_map, spelling_table,
}
use data_effi.Pipeline.Mapping.Headers.Unique.{
  IsHeaderMap, not_yet, step-IsHeaderMap, no_headers-IsHeaderMap, build_header_map-loop,
}

-- Every field that is taken has a column.
abbrev Placed : HeaderState → Type 0
Placed s = (f : String) → mentions s.taken f ≡ true → (p : ℕ) × (lookup p s.mapped ≡ some f)

put-Placed :
    (position : ℕ) (field : String) (s : HeaderState)
    → lookup position s.mapped ≡ none
    → Placed s
    → Placed (record s { mapped = insert position field s.mapped; taken = field ∷ s.taken })
put-Placed position field s free h f taken = elim (Bool-cases (str_eq field f)) [
  | inl here ↦
      (position, lookup-insert_self position field s.mapped ∙ ap some ((str_eq_iff field f).0 here))
  | inr before ↦
      let (p, found) = h f (ground arith) in
      (p, ground (arith, lookup-insert position p field s.mapped, ==_iff position p))
]

step-Placed :
    (table : Dict String String) (position : ℕ) (header : String) (key : Option String)
    (s : HeaderState)
    → IsHeaderMap position s
    → Placed s
    → Placed (header_step table position header key s)
unfolding header_step place
step-Placed table position header none s good h = h
step-Placed table position header (some key) s good h = elim (Option-cases (lookup key table)) [
  | inl unknown ↦ rw unknown h
  | inr (field, known) ↦ elim (Bool-cases (is_blank field || mentions s.taken field)) [
    | inl refused ↦ rw (known, refused) h
    | inr fresh ↦ rw (known, fresh) (put-Placed position field s (not_yet position s good) h)
  ]
]

-- What is taken stays taken.
step-taken :
    (table : Dict String String) (position : ℕ) (header : String) (key : Option String)
    (s : HeaderState) (f : String)
    → mentions s.taken f ≡ true
    → mentions (header_step table position header key s).taken f ≡ true
unfolding header_step place
step-taken table position header none s f h = h
step-taken table position header (some key) s f h = elim (Option-cases (lookup key table)) [
  | inl unknown ↦ rw unknown h
  | inr (field, known) ↦ elim (Bool-cases (is_blank field || mentions s.taken field)) [
    | inl refused ↦ rw (known, refused) h
    | inr fresh ↦ rw (known, fresh) (ground arith)
  ]
]

-- A header that spells a field takes it, if it is still free.
step_takes :
    (table : Dict String String) (position : ℕ) (header key field : String) (s : HeaderState)
    → lookup key table ≡ some field
    → is_blank field ≡ false
    → mentions (header_step table position header (some key) s).taken field ≡ true
unfolding header_step place
step_takes table position header key field s known solid =
    elim (Bool-cases (mentions s.taken field)) [
      | inl before ↦ rw (known, solid, before) before
      | inr fresh ↦ rw (known, solid, fresh) (ground (arith, str_eq_refl field))
    ]

module _ (r : Runtime) (table : Dict String String) (header key field : String)
    (text : normalize_text r (some (Cell.text header)) ≡ some key)
    (known : lookup key table ≡ some field) (solid : is_blank field ≡ false) where
  loop-taken :
      (position : ℕ) (headers : List String) (s : HeaderState)
      → mentions s.taken field ≡ true
      → mentions (header_loop r table position headers s).taken field ≡ true
  unfolding header_loop
  loop-taken position [] s h = h
  loop-taken position (h ∷ hs) s taken =
      loop-taken (suc position) hs _
        (step-taken table position h (normalize_text r (some (Cell.text h))) s field taken)

  loop_takes :
      (position : ℕ) (headers : List String) (s : HeaderState)
      → mentions headers header ≡ true
      → mentions (header_loop r table position headers s).taken field ≡ true
  unfolding header_loop
  loop_takes position [] s h = cc
  loop_takes position (h ∷ hs) s among = elim (Bool-cases (str_eq h header)) [
    | inl here ↦
        let same_header = (str_eq_iff h header).0 here in
        loop-taken (suc position) hs
          (header_step table position h (normalize_text r (some (Cell.text h))) s)
          (rw (same_header, text) (step_takes table position header key field s known solid))
    | inr later ↦ loop_takes (suc position) hs _ (ground arith)
  ]

loop-Placed :
    (r : Runtime) (table : Dict String String) (position : ℕ) (headers : List String)
    (s : HeaderState)
    → IsHeaderMap position s
    → Placed s
    → Placed (header_loop r table position headers s)
unfolding header_loop
loop-Placed r table position [] s good h = h
loop-Placed r table position (header ∷ rest) s good h =
    let key = normalize_text r (some (Cell.text header)) in
    loop-Placed r table (suc position) rest (header_step table position header key s)
      (step-IsHeaderMap table position header key s good)
      (step-Placed table position header key s good h)

-- No field has an empty name.
shipment_fields_named :
    checks (λ spelling field. not (is_blank field)) (spelling_table shipment_columns) ≡ true
unfolding lookup insert
shipment_fields_named = refl

movement_fields_named :
    checks (λ spelling field. not (is_blank field)) (spelling_table movement_columns) ≡ true
unfolding lookup insert
movement_fields_named = refl

fields_named :
    (kind : BatchKind) (aliases : Dict String (List String))
    → columns_by_kind kind ≡ some aliases
    → checks (λ spelling field. not (is_blank field)) (spelling_table aliases) ≡ true
fields_named BatchKind.shipments aliases h = rw (sym (some_inj h)) shipment_fields_named
fields_named BatchKind.movements aliases h = rw (sym (some_inj h)) movement_fields_named
fields_named BatchKind.ads aliases h = cc
fields_named BatchKind.cs aliases h = cc

-- If build_header_map returns for a kind with the given columns, and one of the headers is
-- normalised to a spelling of a field, then some position is mapped to the field.
pub build_header_map_complete :
    (r : Runtime) (headers : List String) (kind : BatchKind) (aliases : Dict String (List String))
    (s : HeaderState)
    → columns_by_kind kind ≡ some aliases
    → build_header_map r headers kind ≡ some s
    → (header key field : String) → mentions headers header ≡ true
    → normalize_text r (some (Cell.text header)) ≡ some key
    → lookup key (spelling_table aliases) ≡ some field
    → (p : ℕ) × (lookup p s.mapped ≡ some field)
build_header_map_complete r headers kind aliases s table made header key field among text known =
    let (others, found, looped) = build_header_map-loop r headers kind s made in
    let same_table : others ≡ aliases = some_inj (sym found ∙ table) in
    let solid : is_blank field ≡ false = ground (
      arith,
      checks-lookup (λ (spelling field : String). not (is_blank field)) (spelling_table aliases) key
          field (fields_named kind aliases table) known,
    ) in
    let placed =
      loop-Placed r (spelling_table aliases) 0 headers no_headers no_headers-IsHeaderMap
        (λ f h. cc) in
    let taken =
      loop_takes r (spelling_table aliases) header key field text known solid 0 headers no_headers
        among in
    let ends : header_loop r (spelling_table aliases) 0 headers no_headers ≡ s =
      rw same_table at looped in
    subst (λ (t : HeaderState). (p : ℕ) × (lookup p t.mapped ≡ some field)) ends
      (placed field taken)
