-- ===== src/Pipeline/Profiles/Redaction.antt =====
-- `redact_row` of pipeline/profiles.py.
use Prim.Native.String.{◌++◌}
use data_effi.Prelude.{
  String, Bool, false, Option, none, some, List, [], ◌∷◌, is_blank, is_some, if◌then◌else◌,
  mentions, take,
}
use data_effi.Prelude.Equality.{nat_eq, string_eq}
use data_effi.Dict.{Dict}
use data_effi.Pipeline.Normalize.Runtime.{Cell, Runtime}
use data_effi.Pipeline.Normalize.Text.{normalize_text, clean_text}
use data_effi.Pipeline.Profiles.Source.{normalized, or_empty}

-- pii_columns_norm, without the columns that have no text
unfoldable pub pii_columns_norm : Runtime → List String → List String
unfolding normalized
pii_columns_norm r [] = []
pii_columns_norm r (c ∷ cs) =
    let rest = pii_columns_norm r cs in
    let key = or_empty (normalize_text r (some (Cell.text c))) in
    if is_blank key then rest else key ∷ rest

abbrev pub is_personal : List String → Option String → Bool
is_personal pii none = false
is_personal pii (some key) = mentions pii key

-- what is kept of a personal value
abbrev pub hidden : Runtime → String → Option String → Option String
hidden r salt none = none
hidden r salt (some s) = some ("sha256:" ++ take 32 (r.sha256 (salt ++ ":" ++ s)))

abbrev pub as_cell : Option String → Option Cell
as_cell none = none
as_cell (some s) = some (Cell.text s)

-- the payload, and the names of the columns that are hidden
unfoldable pub redact_row :
    Runtime
    → Dict String (Option String)
    → List String
    → String
    → Dict String (Option String) × List String
unfolding take clean_text normalize_text
redact_row r [] pii salt = ([], [])
redact_row r ((header, value) ∷ raw) pii salt =
    let (payload, redacted) = redact_row r raw pii salt in
    if is_personal pii (normalize_text r (some (Cell.text header)))
    then (
      (header, hidden r salt (clean_text r (as_cell value))) ∷ payload,
      if is_some (clean_text r (as_cell value)) then header ∷ redacted else redacted,
    )
    else ((header, value) ∷ payload, redacted)
