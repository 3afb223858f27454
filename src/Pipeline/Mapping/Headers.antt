-- ===== src/Pipeline/Mapping/Headers.antt =====
-- `build_header_map` of pipeline/mapping.py: from the headers of a file to the fields of a row.
pub mod Unique
pub mod Complete
use data_effi.Prelude.{
  ℕ, suc, ◌+◌, String, Bool, not, ◌||◌, Option, none, some, List, [], ◌∷◌, ◌++◌, is_blank, mentions,
  if◌then◌else◌, foldl,
}
use data_effi.Prelude.Equality.{nat_eq, string_eq}
use data_effi.Dict.{Dict, lookup, insert, has_key}
use data_effi.Pipeline.Models.{BatchKind}
use data_effi.Pipeline.Normalize.Runtime.{Cell, Runtime}
use data_effi.Pipeline.Normalize.Text.{normalize_text, strip}
use data_effi.Pipeline.Mapping.Columns.{columns_by_kind}

-- d.setdefault(k, v)
abbrev set_default : Dict String String → String → String → Dict String String
set_default d k v = if has_key k d then d else insert k v d

-- the spellings of a field, and then of every field
abbrev spell : String → Dict String String → List String → Dict String String
spell field = foldl (λ d spelling. set_default d spelling field)

abbrev pub spelling_table : Dict String (List String) → Dict String String
spelling_table = foldl (λ d entry. spell entry.0 d entry.1) []

pub record HeaderState : Type 0 where
  pub mapped : Dict ℕ String
  pub unmapped : List String
  pub taken : List String

abbrev pub no_headers : HeaderState
no_headers = record { mapped = []; unmapped = []; taken = [] }

-- `if matched and matched not in taken`
place : ℕ → String → Option String → HeaderState → HeaderState
unfolding strip
place position header none s = record s { unmapped = s.unmapped ++ strip header ∷ [] }
place position header (some field) s =
    if is_blank field || mentions s.taken field
    then record s { unmapped = s.unmapped ++ strip header ∷ [] }
    else record s { mapped = insert position field s.mapped; taken = field ∷ s.taken }

pub header_step : Dict String String → ℕ → String → Option String → HeaderState → HeaderState
unfolding place
header_step table position header none s = s
header_step table position header (some key) s = place position header (lookup key table) s

-- the loop over `enumerate(headers)`
unfoldable pub header_loop :
    Runtime → Dict String String → ℕ → List String → HeaderState → HeaderState
unfolding header_step
header_loop r table position [] s = s
header_loop r table position (header ∷ rest) s =
    header_loop r table (suc position) rest
      (header_step table position header (normalize_text r (some (Cell.text header))) s)

map_headers : Runtime → List String → Option (Dict String (List String)) → Option HeaderState
map_headers r headers none = none
map_headers r headers (some aliases) =
    some (header_loop r (spelling_table aliases) 0 headers no_headers)

-- None is the KeyError of a kind without a table. The map is `mapped`, the rest `unmapped`.
unfoldable pub build_header_map : Runtime → List String → BatchKind → Option HeaderState
unfolding map_headers header_loop
build_header_map r headers kind = map_headers r headers (columns_by_kind kind)
