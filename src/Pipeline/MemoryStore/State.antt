-- ===== src/Pipeline/MemoryStore/State.antt =====
-- The state of `MemoryStore` of pipeline/ingest.py.
use data_effi.Prelude.{ℕ, String, Option, List, []}
use data_effi.Prelude.Equality.{nat_eq, string_eq, pair_eq}
use data_effi.Dict.{Dict}
use data_effi.Decimal.{Decimal}
use data_effi.Pipeline.Models.{SourceRow, BatchContext, Discrepancy, IngestReport}
use data_effi.Pipeline.Merge.{ShipmentRecord}

pub record MovementRecord : Type 0 where
  pub dedupe_key : String
  pub connection_id : ℕ
  pub tenant_id : ℕ
  pub country_code : String
  pub movement_type_code : String
  pub movement_date : ℕ
  pub amount : Decimal
  pub currency_code : String
  pub tracking_number_raw : Option String
  pub external_ref : Option String
  pub description : Option String
  pub shipment_id : Option String
  pub batch_id : Option ℕ

-- tenant, connection, content hash
abbrev pub BatchKey : Type 0
BatchKey = ℕ × (ℕ × String)

pub record MemoryStore : Type 0 where
  pub batches : Dict BatchKey BatchContext
  pub batch_reports : Dict ℕ IngestReport
  pub shipments : Dict (ℕ × String) ShipmentRecord
  pub movements : Dict (ℕ × String) MovementRecord
  pub discrepancies : List (ℕ × Discrepancy)
  pub source_rows : Dict ℕ (List SourceRow)

abbrev pub empty_store : MemoryStore
empty_store = record {
  batches = [];
  batch_reports = [];
  shipments = [];
  movements = [];
  discrepancies = [];
  source_rows = [];
}
