-- ===== src/Api/Queue/Loads.antt =====
-- The loads of api/ingest_queue.py by the engine of pipeline/ingest.py, on the store in memory.
use data_effi.Prelude.{ℕ, String, Bool, Option, none, some, List, refl}
use data_effi.Pipeline.Rows.{Engine}
use data_effi.Pipeline.Profiles.{SourceProfile}
use data_effi.Pipeline.MemoryStore.{MemoryStore}
use data_effi.Pipeline.Readers.Bytes.{Bytes}
use data_effi.Pipeline.Readers.Tables.{
  Libraries, Reading, table, unsupported, empty_file, read_tabular,
}
use data_effi.Pipeline.Engine.Upload.{Upload, Table, already_loaded_report}
use data_effi.Pipeline.Engine.Loading.{ingest}
use data_effi.Pipeline.Engine.Repeat.{ingest_twice}
use data_effi.Api.Queue.{UploadJob, Loader}
use data_effi.Api.Queue.Copies.{LoadsOnce}

-- `fresh` is the id that uuid4 gives, `digest` is content_hash, `platform` the platform of a
-- connection.
pub record Loads : Type 0 where
  pub engine : Engine
  pub libraries : Libraries
  pub known_profiles : List SourceProfile
  pub ends_with : String → String → Bool
  pub fresh : ℕ
  pub digest : Bytes → String
  pub platform : ℕ → String

abbrev pub readable : Reading → Option Table
readable (table t) = some (t.headers, t.rows)
readable unsupported = none
readable empty_file = none

-- the arguments of engine.ingest
unfoldable pub upload_of : Loads → UploadJob → Bytes → String → String → Upload
unfolding read_tabular
upload_of w job payload country currency = record {
  fresh = w.fresh;
  digest = w.digest payload;
  read = readable (read_tabular w.engine.runtime w.libraries payload (w.ends_with job.filename));
  source_name = job.filename;
  kind = job.kind;
  tenant_id = job.tenant_id;
  connection_id = job.connection_id;
  country_code = country;
  platform_code = w.platform job.connection_id;
  default_currency = currency;
  reprocess = job.reprocess;
}

unfoldable pub engine_loader : Loads → Loader MemoryStore
unfolding ingest upload_of
engine_loader w = record {
  runtime = w.engine.runtime;
  libraries = w.libraries;
  known_profiles = w.known_profiles;
  ends_with = w.ends_with;
  load = λ job payload country currency s.
      ingest w.engine w.known_profiles (upload_of w job payload country currency) s;
}

pub engine_loader-LoadsOnce : (w : Loads) → LoadsOnce (engine_loader w)
unfolding engine_loader upload_of
engine_loader-LoadsOnce w = record {
  once = λ job copy payload c k c' k' s t report loaded ht hc hr. (
    already_loaded_report (upload_of w copy payload c' k'),
    ingest_twice w.engine w.engine w.known_profiles w.known_profiles (upload_of w job payload c k)
        (upload_of w copy payload c' k') s t report loaded ht hc refl hr,
    refl,
  );
}
