-- ===== src/Pipeline/Tests/Engine.antt =====
-- A load of pipeline/ingest.py at a concrete file.
use data_effi.Prelude.{is_some, ◌+◌, true, false, Option, some, none, [], ◌≡◌, refl}
use data_effi.Prelude.Equality.{nat_eq, string_eq, pair_eq}
use data_effi.Dict.{lookup, insert}
use data_effi.Pipeline.Models.{IngestReport}
use data_effi.Pipeline.MemoryStore.{MemoryStore, empty_store, upsert_shipment}
use data_effi.Pipeline.MemoryStore.Invariant.{IsConsistent, empty_store-IsConsistent}
use data_effi.Pipeline.Engine.Upload.{already_loaded_report}
use data_effi.Pipeline.Engine.Loading.{ingest}
use data_effi.Pipeline.Engine.Accounts.{ingest-rows_total}
use data_effi.Pipeline.Engine.Consistent.{ingest-IsConsistent}
use data_effi.Pipeline.Engine.Repeat.{ingest_twice}
use data_effi.Pipeline.Engine.Returns.{Returned, ingest-returns}
use data_effi.Pipeline.Normalize.Runtime.{is_space}
use data_effi.Pipeline.Mapping.Status.{canon}
use data_effi.Pipeline.Rows.Guide.{attributes}
use data_effi.Pipeline.Tests.Files.{engine, upload}

abbrev or_empty : Option (MemoryStore × IngestReport) → MemoryStore × IngestReport
or_empty (some q) = q
or_empty none = (
  empty_store,
  record {
    batch_id = none;
    content_hash = "";
    source_name = "";
    kind = upload.kind;
    already_loaded = false;
    rows_total = 9;
    rows_inserted = 0;
    rows_updated = 0;
    rows_skipped = 0;
    rows_failed = 0;
    discrepancies = [];
    sanity_issues = [];
    errors = [];
    unmapped_columns = [];
    profile_code = none;
    detected_country_code = none;
    rows_stored = 0;
  },
)

abbrev loaded : MemoryStore × IngestReport
loaded = or_empty (ingest engine [] upload empty_store)

or_empty_lem : (o : Option (MemoryStore × IngestReport)) → is_some o ≡ true → o ≡ some (or_empty o)
or_empty_lem none h = cc
or_empty_lem (some q) h = refl

returns : is_some (ingest engine [] upload empty_store) ≡ true
unfolding ingest lookup insert is_space canon attributes upsert_shipment
returns = refl

-- one guide is inserted, and the row without a number fails
counts : (loaded.1.rows_total ≡ 2) × (loaded.1.rows_inserted ≡ 1) × (loaded.1.rows_failed ≡ 1)
unfolding ingest lookup insert is_space canon attributes upsert_shipment
counts = (refl, refl, refl)

is_loaded : ingest engine [] upload empty_store ≡ some loaded
is_loaded = or_empty_lem (ingest engine [] upload empty_store) returns

ingest-rows_total_example :
    loaded.1.rows_total
    ≡ loaded.1.rows_inserted + loaded.1.rows_updated + loaded.1.rows_skipped + loaded.1.rows_failed
ingest-rows_total_example =
    ingest-rows_total engine [] upload empty_store loaded.0 loaded.1 is_loaded

ingest-IsConsistent_example : IsConsistent loaded.0
ingest-IsConsistent_example =
    ingest-IsConsistent engine [] upload empty_store loaded.0 loaded.1 is_loaded
      empty_store-IsConsistent

ingest_twice_example :
    ingest engine [] upload loaded.0 ≡ some (loaded.0, already_loaded_report upload)
ingest_twice_example =
    ingest_twice engine engine [] [] upload upload empty_store loaded.0 loaded.1 is_loaded refl refl
      refl refl

-- the statuses of a store that a load left
ingest-returns_example : Returned (ingest engine [] (record upload { digest = "d2" }) empty_store)
ingest-returns_example =
    ingest-returns engine [] (record upload { digest = "d2" }) empty_store refl refl tt
