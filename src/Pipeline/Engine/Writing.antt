-- ===== src/Pipeline/Engine/Writing.antt =====
-- The state of the loop of `IngestEngine.ingest` in pipeline/ingest.py, and its `flush`.
use data_effi.Prelude.{ℕ, ◌+◌, Option, none, some, List, [], ◌++◌, foldl, is_empty, if◌then◌else◌}
use data_effi.Prelude.Equality.{nat_eq, string_eq}
use data_effi.Pipeline.Models.{
  RowOutcome, ShipmentInput, MovementInput, SourceRow, BatchContext, UpsertResult, IngestReport,
}
use data_effi.Pipeline.MemoryStore.{
  MemoryStore, save_source_rows, upsert_shipments, upsert_movements,
}

-- _tally
unfoldable pub tally : IngestReport → UpsertResult → IngestReport
tally report result = elim result.outcome [
  | RowOutcome.inserted ↦ record report {
    rows_inserted = report.rows_inserted + 1;
    discrepancies = report.discrepancies ++ result.discrepancies;
  }
  | RowOutcome.updated ↦ record report {
    rows_updated = report.rows_updated + 1;
    discrepancies = report.discrepancies ++ result.discrepancies;
  }
  | RowOutcome.skipped ↦ record report {
    rows_skipped = report.rows_skipped + 1;
    discrepancies = report.discrepancies ++ result.discrepancies;
  }
  | RowOutcome.failed ↦ record report {
    rows_failed = report.rows_failed + 1;
    discrepancies = report.discrepancies ++ result.discrepancies;
  }
]

-- FLUSH_ROWS
abbrev pub flush_rows : ℕ
flush_rows = 2000

pub record Run : Type 0 where
  pub store : MemoryStore
  pub report : IngestReport
  pub shipments : List ShipmentInput
  pub movements : List MovementInput
  pub archive : List SourceRow

-- the guides that wait; an empty list changes nothing
unfoldable pub flushed_shipments : Run → Option (MemoryStore × List UpsertResult) → Option Run
unfolding tally
flushed_shipments run none = none
flushed_shipments run (some (store, results)) =
    some (record run { store = store; report = foldl tally run.report results; shipments = [] })

unfoldable pub flush_movements : BatchContext → Run → Run
unfolding upsert_movements tally
flush_movements ctx run =
    let (store, results) = upsert_movements ctx run.movements run.store in
    record run { store = store; report = foldl tally run.report results; movements = [] }

unfoldable pub flush_archive : BatchContext → Run → Run
unfolding save_source_rows
flush_archive ctx run =
    if is_empty run.archive
    then run
    else let (store, stored) = save_source_rows ctx run.archive run.store in
      record run {
        store = store;
        report = record run.report { rows_stored = run.report.rows_stored + stored };
        archive = [];
      }

unfoldable pub flush_rest : BatchContext → Option Run → Option Run
unfolding flush_movements flush_archive
flush_rest ctx none = none
flush_rest ctx (some run) = some (flush_archive ctx (flush_movements ctx run))

-- flush()
unfoldable pub flush : BatchContext → Run → Option Run
unfolding flush_rest flushed_shipments upsert_shipments
flush ctx run =
    flush_rest ctx (flushed_shipments run (upsert_shipments ctx run.shipments run.store))
