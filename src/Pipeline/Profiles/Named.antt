-- ===== src/Pipeline/Profiles/Named.antt =====
-- The header map that `build_profile_header_map` of pipeline/profiles.py builds.
use data_effi.Prelude.{
  ℕ, suc, zero, ◌+◌, ◌<◌, String, Option, none, some, List, [], ◌∷◌, ◌≡◌, refl, is_blank,
  if◌then◌else◌, or_else, arith, ◌==◌,
}
use data_effi.Prelude.Equality.{nat_eq, string_eq}
use data_effi.Dict.{Dict, lookup, lookup-insert}
use data_effi.Pipeline.Normalize.Runtime.{Cell, Runtime}
use data_effi.Pipeline.Normalize.Text.{normalize_text}
use data_effi.Pipeline.Mapping.Headers.{HeaderState, no_headers}
use data_effi.Pipeline.Profiles.{
  SourceProfile, put_column, profile_step, profile_loop, build_profile_header_map,
}

abbrev pub filled : Option String → Option String
filled none = none
filled (some field) = if is_blank field then none else some field

unfoldable pub named : Dict String String → Option String → Option String
unfolding lookup
named columns none = none
named columns (some key) = filled (lookup key columns)

-- The field that the profile names for the header at a position.
unfoldable pub field_at : Runtime → Dict String String → ℕ → List String → Option String
field_at r columns n [] = none
field_at r columns zero (h ∷ hs) = named columns (normalize_text r (some (Cell.text h)))
field_at r columns (suc n) (h ∷ hs) = field_at r columns n hs

put_column-lookup :
    (n position : ℕ) (header : String) (field : Option String) (s : HeaderState)
    → lookup n (put_column position header field s).mapped
      ≡ (if position == n then or_else (filled field) (lookup n s.mapped) else lookup n s.mapped)
unfolding put_column
put_column-lookup n position header none s = ground arith
put_column-lookup n position header (some field) s =
    ground (arith, lookup-insert position n field s.mapped)

profile_step-lookup :
    (columns : Dict String String) (n position : ℕ) (header : String) (key : Option String)
    (s : HeaderState)
    → lookup n (profile_step columns position header key s).mapped ≡ (
        if position == n
        then or_else (named columns key) (lookup n s.mapped)
        else lookup n s.mapped)
unfolding profile_step named
profile_step-lookup columns n position header none s = ground arith
profile_step-lookup columns n position header (some key) s =
    put_column-lookup n position header (lookup key columns) s

-- The positions that are behind the loop.
behind :
    (r : Runtime) (columns : Dict String String) (n position : ℕ) (headers : List String)
    (s : HeaderState)
    → n < position
    → lookup n (profile_loop r columns position headers s).mapped ≡ lookup n s.mapped
unfolding profile_loop
behind r columns n position [] s h = refl
behind r columns n position (header ∷ headers) s h =
    let key = normalize_text r (some (Cell.text header)) in
    ground (
      arith,
      behind r columns n (suc position) headers (profile_step columns position header key s),
      profile_step-lookup columns n position header key s,
    )

ahead :
    (r : Runtime) (columns : Dict String String) (k position : ℕ) (headers : List String)
    (s : HeaderState)
    → lookup (position + k) (profile_loop r columns position headers s).mapped
      ≡ or_else (field_at r columns k headers) (lookup (position + k) s.mapped)
unfolding profile_loop field_at
ahead r columns k position [] s = refl
ahead r columns zero position (header ∷ headers) s =
    let key = normalize_text r (some (Cell.text header)) in
    ground (
      arith,
      behind r columns position (suc position) headers (profile_step columns position header key s),
      profile_step-lookup columns position position header key s,
    )
ahead r columns (suc k) position (header ∷ headers) s =
    let key = normalize_text r (some (Cell.text header)) in
    ground (
      arith,
      ahead r columns k (suc position) headers (profile_step columns position header key s),
      profile_step-lookup columns (position + suc k) position header key s,
    )

-- With a profile, a position is mapped to the field that the profile's columns name for the
-- normalised text of the header there, and to nothing if the position is beyond the headers, the
-- header has no text, or the profile names no field for it.
pub build_profile_header_map-lookup :
    (r : Runtime) (headers : List String) (p : SourceProfile) (n : ℕ)
    → lookup n (build_profile_header_map r headers p).mapped ≡ field_at r p.columns n headers
unfolding build_profile_header_map lookup
build_profile_header_map-lookup r headers p n =
    ground (arith, ahead r p.columns n 0 headers no_headers)
