-- ===== src/Pipeline/Profiles/Source.antt =====
-- A profile of pipeline/profiles.py, its detection and its header map.
use data_effi.Prelude.{
  ℕ, suc, String, Bool, true, false, ◌&&◌, Option, none, some, List, [], ◌∷◌, is_blank,
  if◌then◌else◌, all, mentions,
}
use mathlib.Core.List.{◌++◌ as append}
use data_effi.Prelude.Equality.{nat_eq, string_eq}
use data_effi.Dict.{Dict, lookup, insert}
use data_effi.Pipeline.Models.{BatchKind}
use data_effi.Pipeline.Normalize.Runtime.{Cell, Runtime}
use data_effi.Pipeline.Normalize.Text.{normalize_text, strip}
use data_effi.Pipeline.Mapping.Headers.{HeaderState, no_headers}
use data_effi.Pipeline.Rows.{Fields}

-- SourceProfile. None is the transform that raises.
pub record SourceProfile : Type 0 where
  pub code : String
  pub platform_code : String
  pub kind : BatchKind
  pub label : String
  pub signature : List String
  pub columns : Dict String String
  pub derived : List String
  pub pii_columns : List String
  pub country_column : Option String
  pub transform : Fields → Option Fields

abbrev pub kind_eq : BatchKind → BatchKind → Bool
kind_eq BatchKind.shipments BatchKind.shipments = true
kind_eq BatchKind.movements BatchKind.movements = true
kind_eq BatchKind.ads BatchKind.ads = true
kind_eq BatchKind.cs BatchKind.cs = true
kind_eq _ _ = false

-- `x or ""`
abbrev pub or_empty : Option String → String
or_empty none = ""
or_empty (some s) = s

unfoldable pub normalized : Runtime → List String → List String
unfolding normalize_text
normalized r [] = []
normalized r (h ∷ hs) = or_empty (normalize_text r (some (Cell.text h))) ∷ normalized r hs

first_match : List String → BatchKind → List SourceProfile → Option SourceProfile
first_match headers kind [] = none
first_match headers kind (p ∷ ps) =
    if kind_eq p.kind kind && all (mentions headers) p.signature
    then some p
    else first_match headers kind ps

unfoldable pub detect_profile :
    Runtime → List SourceProfile → List String → BatchKind → Option SourceProfile
unfolding normalized first_match
detect_profile r profiles headers kind = first_match (normalized r headers) kind profiles

unfoldable pub put_column : ℕ → String → Option String → HeaderState → HeaderState
unfolding strip
put_column position header none s = record s { unmapped = append s.unmapped (strip header ∷ []) }
put_column position header (some field) s =
    if is_blank field
    then record s { unmapped = append s.unmapped (strip header ∷ []) }
    else record s { mapped = insert position field s.mapped }

unfoldable pub profile_step :
    Dict String String → ℕ → String → Option String → HeaderState → HeaderState
unfolding put_column
profile_step columns position header none s = s
profile_step columns position header (some key) s =
    put_column position header (lookup key columns) s

unfoldable pub profile_loop :
    Runtime → Dict String String → ℕ → List String → HeaderState → HeaderState
unfolding profile_step
profile_loop r columns position [] s = s
profile_loop r columns position (header ∷ rest) s =
    profile_loop r columns (suc position) rest
      (profile_step columns position header (normalize_text r (some (Cell.text header))) s)

unfoldable pub build_profile_header_map : Runtime → List String → SourceProfile → HeaderState
unfolding profile_loop
build_profile_header_map r headers p = profile_loop r p.columns 0 headers no_headers
