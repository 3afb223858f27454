-- ===== src/Api/Queue/Taken.antt =====
-- The country of a job of api/ingest_queue.py does not depend on its being taken.
use data_effi.Prelude.{ℕ, none, some, ◌≡◌, refl, ap, or_else}
use data_effi.Pipeline.Readers.Bytes.{Bytes}
use data_effi.Pipeline.Readers.Tables.{Reading, table, unsupported, empty_file, read_tabular}
use data_effi.Api.Queue.{
  UploadJob, JobStatus, Desk, Loader, write_job, resolve, country_from_file, country_of_reading,
  in_country, told_country, named,
}

module _ {S : Type 0} (l : Loader S) where
  country_of_reading-taken :
      (copy : UploadJob) (now : ℕ) (reading : Reading)
      → country_of_reading l
          (record copy { status = JobStatus.processing; started_at = some now })
          reading
        ≡ country_of_reading l copy reading
  unfolding country_of_reading
  country_of_reading-taken copy now (table t) = refl
  country_of_reading-taken copy now unsupported = refl
  country_of_reading-taken copy now empty_file = refl

  pub resolve-taken :
      (copy : UploadJob) (id now : ℕ) (payload : Bytes) (d : Desk S)
      → let taken = record copy { status = JobStatus.processing; started_at = some now } in
        resolve l taken payload (write_job l id taken none none none d) ≡ resolve l copy payload d
  unfolding resolve write_job country_from_file
  resolve-taken copy id now payload d =
      ap
        (λ found.
          in_country d.currencies (
            told_country (or_else (named copy.connection_country) found) (d.active copy.tenant_id)))
        (country_of_reading-taken copy now
          (read_tabular l.runtime l.libraries payload (l.ends_with copy.filename)))
