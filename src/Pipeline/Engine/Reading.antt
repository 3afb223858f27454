-- ===== src/Pipeline/Engine/Reading.antt =====
-- The loop over the rows in `IngestEngine.ingest` of pipeline/ingest.py.
use data_effi.Prelude.{
  ℕ, suc, ◌+◌, ◌%◌, String, Bool, true, false, Option, none, some, List, [], ◌∷◌, ◌++◌,
  if◌then◌else◌, take, ◌==◌,
}
use data_effi.Prelude.Equality.{nat_eq, string_eq}
use data_effi.Dict.{Dict}
use data_effi.Pipeline.Models.{
  BatchKind, ShipmentInput, MovementInput, BatchContext, SanityIssue, RowFault, IngestReport,
}
use data_effi.Pipeline.Normalize.Runtime.{Cell, Runtime, str}
use data_effi.Pipeline.Rows.{Engine, Fields, get, is_true, Verdict}
use data_effi.Pipeline.Rows.Guide.{handle_shipment_row}
use data_effi.Pipeline.Rows.Payment.{handle_movement_row}
use data_effi.Pipeline.Profiles.{SourceProfile, pii_columns_norm, redact_row}
use data_effi.Pipeline.Readers.{record_of}
use data_effi.Pipeline.Engine.Writing.{flush_rows, Run, flush}

-- a handler's issues and verdict, written to the report and to the list that waits
unfoldable pub failed : IngestReport → ℕ → RowFault → IngestReport
failed report row fault = record report {
  rows_failed = report.rows_failed + 1;
  errors = report.errors ++ (record { row_number = row; fault = fault }) ∷ [];
}

abbrev pub said : IngestReport → List SanityIssue → IngestReport
said report issues = record report { sanity_issues = report.sanity_issues ++ issues }

unfoldable pub take_shipment : Run → ℕ → List SanityIssue × Verdict ShipmentInput → Run
unfolding failed
take_shipment run row (issues, Verdict.accepted i) = record run {
  report = said run.report issues;
  shipments = run.shipments ++ i ∷ [];
}
take_shipment run row (issues, Verdict.refused fault) = record run {
  report = failed (said run.report issues) row fault;
}

unfoldable pub take_movement : Run → ℕ → List SanityIssue × Verdict MovementInput → Run
unfolding failed
take_movement run row (issues, Verdict.accepted m) = record run {
  report = said run.report issues;
  movements = run.movements ++ m ∷ [];
}
take_movement run row (issues, Verdict.refused fault) = record run {
  report = failed (said run.report issues) row fault;
}

-- _entity_key_of
unfoldable pub first_key : Runtime → Fields → List String → Option String
unfolding get str take
first_key r fields [] = none
first_key r fields (name ∷ names) =
    let rest = first_key r fields names in
    if is_true (get fields name) then shown (get fields name) else rest
  where
    shown : Option Cell → Option String
    shown none = none
    shown (some c) = some (take 120 (str r c))

abbrev pub key_names : List String
key_names =
    "tracking_number" ∷ "carrier_tracking_number" ∷ "external_ref" ∷ "tracking_number_raw"
    ∷ "external_order_id" ∷ []

-- what stays the same while the rows of a file are read
pub record Job : Type 0 where
  pub engine : Engine
  pub ctx : BatchContext
  pub kind : BatchKind
  pub profile : Option SourceProfile
  pub headers : List String
  pub header_map : Dict ℕ String
  pub currency : String

abbrev pub is_shipments : BatchKind → Bool
is_shipments BatchKind.shipments = true
is_shipments _ = false

-- the fields after the profile's transform, None if it raises
abbrev pub transformed : Option SourceProfile → Fields → Option Fields
transformed none mapped = some mapped
transformed (some p) mapped = p.transform mapped

-- the row's handler; a transform that raises fails the row
unfoldable pub handle : Job → Run → ℕ → Option Fields → Run
unfolding take_shipment take_movement handle_shipment_row handle_movement_row failed
handle job run row none = record run { report = failed run.report row RowFault.raised }
handle job run row (some fields) =
    if is_shipments job.kind
    then take_shipment run row (handle_shipment_row job.engine row fields job.currency)
    else take_movement run row (handle_movement_row job.engine job.ctx row fields job.currency)

abbrev pub pii_headers : Job → List String
unfolding pii_columns_norm
pii_headers job = elim job.profile [
  | none ↦ []
  | some p ↦ pii_columns_norm job.engine.runtime p.pii_columns
]

abbrev pub or_mapped : Fields → Option Fields → Fields
or_mapped mapped none = mapped
or_mapped mapped (some fields) = fields

unfoldable pub archived : Job → Run → ℕ → Fields → Dict String (Option String) × List String → Run
unfolding first_key
archived job run row fields (payload, redacted) = record run {
  archive =
      run.archive
      ++ (record {
        row_number = row;
        entity_key = first_key job.engine.runtime fields key_names;
        payload = payload;
        redacted_fields = redacted;
      })
        ∷ [];
}

-- the original row, whatever happened to it
unfoldable pub archive_row : Job → Run → ℕ → Fields → Dict String (Option String) → Run
unfolding redact_row pii_headers archived
archive_row job run row fields raw =
    if job.engine.archive_rows
    then archived job run row fields
        (redact_row job.engine.runtime raw (pii_headers job) job.engine.pii_salt)
    else run

abbrev pub counted : Run → Run
counted run = record run { report = record run.report { rows_total = run.report.rows_total + 1 } }

-- the body of the loop, before the flush
unfoldable pub read_row : Job → Run → ℕ → Fields × Dict String (Option String) → Run
unfolding handle archive_row
read_row job run row (mapped, raw) =
    archive_row job (handle job (counted run) row (transformed job.profile mapped)) row
      (or_mapped mapped (transformed job.profile mapped)) raw

unfoldable pub flush_if : Bool → BatchContext → Run → Option Run
unfolding flush
flush_if now ctx run = if now then flush ctx run else some run

abbrev pub and_then : Option Run → (Run → Option Run) → Option Run
and_then none next = none
and_then (some run) next = next run

-- the loop over the rows, numbered from 1
unfoldable pub row_loop : Job → ℕ → List (List (Option Cell)) → Run → Option Run
unfolding read_row record_of flush_if
row_loop job row [] run = some run
row_loop job row (cells ∷ rows) run =
    and_then
      (flush_if (row % flush_rows == 0) job.ctx
        (read_row job run row (record_of job.engine.runtime job.headers job.header_map cells)))
      (row_loop job (suc row) rows)
