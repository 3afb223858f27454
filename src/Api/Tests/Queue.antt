-- ===== src/Api/Tests/Queue.antt =====
-- Two uploads of one file of guides in the queue of api/ingest_queue.py.
use data_effi.Prelude.{ℕ, true, false, Option, none, some, [], ◌∷◌, ◌≡◌, refl, is_some}
use data_effi.Prelude.Equality.{nat_eq, string_eq, pair_eq}
use data_effi.Dict.{Dict, lookup, insert}
use data_effi.Pipeline.Models.{BatchKind, IngestReport}
use data_effi.Pipeline.Normalize.Runtime.{is_space}
use data_effi.Pipeline.Mapping.Status.{canon}
use data_effi.Pipeline.Rows.Guide.{attributes}
use data_effi.Pipeline.MemoryStore.{MemoryStore, empty_store, upsert_shipment}
use data_effi.Pipeline.Engine.Loading.{ingest}
use data_effi.Pipeline.Engine.Upload.{first_report}
use data_effi.Pipeline.Readers.Bytes.{Bytes}
use data_effi.Pipeline.Readers.Tables.{Libraries, read_tabular}
use data_effi.Pipeline.Tests.Files.{engine}
use data_effi.Api.Queue.{
  UploadJob, JobStatus, Desk, Loader, resolved, resolve, country_from_file, process_upload,
  process_all,
}
use data_effi.Api.Queue.Processed.{IsProcessed, process_upload-IsProcessed, process_upload_again}
use data_effi.Api.Queue.Copies.{IsDuplicate, process_copy}
use data_effi.Api.Queue.Undetermined.{IsRefused, process_upload-undetermined}
use data_effi.Api.Queue.Loads.{Loads, upload_of, engine_loader, engine_loader-LoadsOnce}

abbrev libraries : Libraries
libraries = record {
  decode = λ encoding payload. some "";
  sniff = λ sample. none;
  reader = λ delimiter s.
      ("guia" ∷ "fecha" ∷ "estado" ∷ "valor" ∷ [])
      ∷ ("G1" ∷ "2024-05-01" ∷ "entregado" ∷ "89.900" ∷ [])
      ∷ [];
  workbook = λ payload. [];
  unescape = λ s. s;
}

abbrev loads : Loads
loads = record {
  engine = engine;
  libraries = libraries;
  known_profiles = [];
  ends_with = λ name ending. false;
  fresh = 2;
  digest = λ payload. "d1";
  platform = λ connection. "effi";
}

abbrev loader : Loader MemoryStore
loader = engine_loader loads

abbrev payload : Bytes
payload = 103 ∷ []

abbrev waiting_job : UploadJob
waiting_job = record {
  tenant_id = 1;
  connection_id = 7;
  connection_country = none;
  kind = BatchKind.shipments;
  filename = "guias.csv";
  storage_path = "/tmp/1";
  reprocess = false;
  status = JobStatus.queued;
  batch_id = none;
  content_hash = none;
  error = none;
  started_at = none;
  finished_at = none;
}

abbrev copied_job : UploadJob
copied_job = record waiting_job { storage_path = "/tmp/2" }

-- A workspace with one country.
abbrev desk : MemoryStore → Desk MemoryStore
desk s = record {
  jobs = (1, waiting_job) ∷ (2, copied_job) ∷ [];
  files = λ p. some payload;
  currencies = ("CO", "COP") ∷ [];
  active = λ tenant. "CO" ∷ [];
  store = s;
  events = [];
}

abbrev status_at : ℕ → Dict ℕ UploadJob → Option JobStatus
unfolding lookup
status_at id jobs = elim (lookup id jobs) [ none ↦ none | some job ↦ some job.status ]

statuses :
    (status_at 1 (process_all loader 50 (1 ∷ 2 ∷ []) (desk empty_store)).jobs ≡ some JobStatus.done)
    × (status_at 2 (process_all loader 50 (1 ∷ 2 ∷ []) (desk empty_store)).jobs
        ≡ some JobStatus.duplicate)
unfolding status_at process_all engine_loader upload_of ingest read_tabular lookup insert is_space
    canon attributes upsert_shipment
statuses = (refl, refl)

process_upload-IsProcessed_example :
    IsProcessed 50 1 (desk empty_store) (process_upload loader 50 1 (desk empty_store))
unfolding lookup
process_upload-IsProcessed_example =
    process_upload-IsProcessed loader 50 1 waiting_job (desk empty_store) refl refl

process_upload_again_example :
    process_upload loader 60 1 (process_upload loader 50 1 (desk empty_store))
    ≡ process_upload loader 50 1 (desk empty_store)
process_upload_again_example = process_upload_again loader 50 60 1 (desk empty_store)

abbrev or_nothing : Option (MemoryStore × IngestReport) → MemoryStore × IngestReport
or_nothing none = (empty_store, first_report (upload_of loads waiting_job payload "CO" "COP"))
or_nothing (some q) = q

or_nothing_lem :
    (o : Option (MemoryStore × IngestReport)) → is_some o ≡ true → o ≡ some (or_nothing o)
or_nothing_lem none h = cc
or_nothing_lem (some q) h = refl

abbrev first_load : Option (MemoryStore × IngestReport)
first_load = loader.load waiting_job payload "CO" "COP" empty_store

load_returns : is_some first_load ≡ true
unfolding engine_loader upload_of ingest read_tabular lookup insert is_space canon attributes
    upsert_shipment
load_returns = refl

country_known :
    resolve loader copied_job payload (desk (or_nothing first_load).0) ≡ resolved "CO" "COP"
unfolding engine_loader resolve read_tabular lookup is_space
country_known = refl

process_copy_example :
    IsDuplicate loader
      (engine_loader-LoadsOnce loads)
      2
      (desk (or_nothing first_load).0)
      (process_upload loader 50 2 (desk (or_nothing first_load).0))
unfolding lookup
process_copy_example =
    process_copy loader (engine_loader-LoadsOnce loads) 50 2 waiting_job copied_job payload "CO"
      "COP" "CO" "COP" empty_store (desk (or_nothing first_load).0) (or_nothing first_load).1
      (or_nothing_lem first_load load_returns) refl refl refl refl refl refl country_known

abbrev crowded : Desk MemoryStore
crowded = record (desk empty_store) { active = λ tenant. "CO" ∷ "EC" ∷ [] }

from_file : country_from_file loader waiting_job payload ≡ none
unfolding engine_loader country_from_file read_tabular is_space
from_file = refl

process_upload-undetermined_example : IsRefused 50 1 crowded (process_upload loader 50 1 crowded)
unfolding lookup
process_upload-undetermined_example =
    process_upload-undetermined loader 50 1 waiting_job payload crowded refl refl refl refl
      from_file refl
