-- ===== src/Pipeline/Engine/Upload.antt =====
-- The arguments of `IngestEngine.ingest` in pipeline/ingest.py, its reports and its required columns.
use data_effi.Prelude.{
  ℕ, String, Bool, true, false, ◌&&◌, ◌||◌, Option, none, some, List, [], ◌∷◌, ◌++◌, if◌then◌else◌,
  mentions,
}
use data_effi.Dict.{Dict}
use data_effi.Pipeline.Models.{BatchKind, RowFault, IngestReport}
use data_effi.Pipeline.Normalize.Runtime.{Cell}
use data_effi.Pipeline.Mapping.Columns.{required_columns}
use data_effi.Pipeline.Profiles.{SourceProfile, kind_eq}

abbrev pub Table : Type 0
Table = List String × List (List (Option Cell))

-- the arguments of `ingest`; `fresh` is the id that `uuid4` gives to a new batch, `digest` is
-- `content_hash(payload)`, and `read` is what `read_tabular` makes of the payload
pub record Upload : Type 0 where
  pub fresh : ℕ
  pub digest : String
  pub read : Option Table
  pub source_name : String
  pub kind : BatchKind
  pub tenant_id : ℕ
  pub connection_id : ℕ
  pub country_code : String
  pub platform_code : String
  pub default_currency : String
  pub reprocess : Bool

abbrev pub first_report : Upload → IngestReport
first_report u = record {
  batch_id = none;
  content_hash = u.digest;
  source_name = u.source_name;
  kind = u.kind;
  already_loaded = false;
  rows_total = 0;
  rows_inserted = 0;
  rows_updated = 0;
  rows_skipped = 0;
  rows_failed = 0;
  discrepancies = [];
  sanity_issues = [];
  errors = [];
  unmapped_columns = [];
  profile_code = none;
  detected_country_code = none;
  rows_stored = 0;
}

abbrev pub already_loaded_report : Upload → IngestReport
already_loaded_report u = record (first_report u) { already_loaded = true }

-- a file that is refused as a whole: every row fails, with one error
abbrev pub refused_report : IngestReport → RowFault → ℕ → IngestReport
refused_report report fault rows = record report {
  errors = report.errors ++ (record { row_number = 0; fault = fault }) ∷ [];
  rows_total = rows;
  rows_failed = rows;
}

abbrev pub code_of : Option SourceProfile → Option String
code_of none = none
code_of (some p) = some p.code

-- the fields of the header map; a guide's profile derives the tracking number from two columns
abbrev pub is_guide_profile : Option SourceProfile → Bool
is_guide_profile none = false
is_guide_profile (some p) = kind_eq p.kind BatchKind.shipments

abbrev pub fields_of : Dict ℕ String → List String
fields_of [] = []
fields_of ((position, field) ∷ d) = field ∷ fields_of d

abbrev pub mapped_fields : Option SourceProfile → Dict ℕ String → List String
mapped_fields profile header_map =
    let fields = fields_of header_map in
    if is_guide_profile profile
      && (mentions fields "carrier_tracking_number" || mentions fields "external_order_id")
    then "tracking_number" ∷ fields
    else fields

abbrev pub required : Option SourceProfile → BatchKind → Option (List String)
required profile kind =
    if is_guide_profile profile
    then some ("tracking_number" ∷ "created_date" ∷ [])
    else required_columns kind

unfoldable pub missing : List String → List String → List String
missing [] fields = []
missing (c ∷ cs) fields =
    let rest = missing cs fields in if mentions fields c then rest else c ∷ rest
