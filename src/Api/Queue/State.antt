-- ===== src/Api/Queue/State.antt =====
-- The tables that the queue of api/ingest_queue.py reads and writes, and the loads that it makes.
use data_effi.Prelude.{ℕ, Bool, true, false, String, Option, List}
use data_effi.Prelude.Equality.{nat_eq, string_eq}
use data_effi.Dict.{Dict}
use data_effi.Pipeline.Models.{BatchKind, IngestReport, RowFault}
use data_effi.Pipeline.Normalize.Runtime.{Runtime}
use data_effi.Pipeline.Profiles.{SourceProfile}
use data_effi.Pipeline.Readers.Bytes.{Bytes}
use data_effi.Pipeline.Readers.Tables.{Libraries}

-- The column status of raw.upload_job.
pub data JobStatus : Type 0 where
  queued processing done failed duplicate : JobStatus

-- What is written to the column error.
pub data JobError : Type 0 where
  unreadable_file country_undetermined interrupted : JobError
  country_unsupported : String → JobError
  row_error : RowFault → JobError

-- A row of raw.upload_job, with the country of its connection.
pub record UploadJob : Type 0 where
  pub tenant_id : ℕ
  pub connection_id : ℕ
  pub connection_country : Option String
  pub kind : BatchKind
  pub filename : String
  pub storage_path : String
  pub reprocess : Bool
  pub status : JobStatus
  pub batch_id : Option ℕ
  pub content_hash : Option String
  pub error : Option JobError
  pub started_at : Option ℕ
  pub finished_at : Option ℕ

pub data QueueEvent : Type 0 where
  job_updated : ℕ → JobStatus → Option String → Option ℕ → Option JobError → QueueEvent
  batch_finished : ℕ → Option ℕ → String → QueueEvent

-- What the queue works on. `currencies` is core.country, `active` the active countries of a tenant in
-- core.workspace_country, `files` the uploaded files by path, and `store` what the loads write to.
pub record Desk (S : Type 0) : Type 0 where
  pub jobs : Dict ℕ UploadJob
  pub files : String → Option Bytes
  pub currencies : Dict String String
  pub active : ℕ → List String
  pub store : S
  pub events : List QueueEvent

-- `load` is the call of IngestEngine.ingest for a job, its file, a country and a currency, with None
-- for an exception; `ends_with` is str.endswith of the lowered name of a file.
pub record Loader (S : Type 0) : Type 0 where
  pub runtime : Runtime
  pub libraries : Libraries
  pub known_profiles : List SourceProfile
  pub ends_with : String → String → Bool
  pub load : UploadJob → Bytes → String → String → S → Option (S × IngestReport)

abbrev pub is_finished : JobStatus → Bool
is_finished queued = false
is_finished processing = false
is_finished done = true
is_finished failed = true
is_finished duplicate = true

abbrev pub is_done : JobStatus → Bool
is_done done = true
is_done _ = false
