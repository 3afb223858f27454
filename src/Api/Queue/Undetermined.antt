-- ===== src/Api/Queue/Undetermined.antt =====
-- A file of api/ingest_queue.py that does not say which country it is of.
use data_effi.Prelude.{ℕ, String, false, none, some, List, [], ◌∷◌, ◌≡◌, refl, ◌∙◌, length, ◌==◌}
use data_effi.Prelude.Equality.{nat_eq}
use data_effi.Dict.{lookup, lookup-insert_self}
use data_effi.Pipeline.Readers.Bytes.{Bytes}
use data_effi.Api.Queue.Taken.{resolve-taken}
use data_effi.Api.Queue.{
  UploadJob, JobStatus, JobError, Desk, Loader, unresolved, is_finished, write_job, fail,
  with_resolved, with_payload, with_job, resolve, take_job, process_upload, country_from_file,
  named, only_country,
}

-- The job failed for want of a country, and nothing is stored.
pub record IsRefused {S : Type 0} (now id : ℕ) (d e : Desk S) : Type 0 where
  pub job : UploadJob
  pub there : lookup id e.jobs ≡ some job
  pub status : job.status ≡ JobStatus.failed
  pub error : job.error ≡ some JobError.country_undetermined
  pub store : e.store ≡ d.store

only_country-none :
    (active : List String) → (length active == 1) ≡ false → only_country active ≡ none
only_country-none [] h = refl
only_country-none (c ∷ []) h = cc
only_country-none (c ∷ c' ∷ cs) h = refl

module _ {S : Type 0} (l : Loader S) where
  resolve-undetermined :
      (job : UploadJob) (payload : Bytes) (d : Desk S)
      → named job.connection_country ≡ none
      → country_from_file l job payload ≡ none
      → (length (d.active job.tenant_id) == 1) ≡ false
      → resolve l job payload d ≡ unresolved JobError.country_undetermined
  unfolding resolve
  resolve-undetermined job payload d hn hf ha =
      rw (hn, hf, only_country-none (d.active job.tenant_id) ha) refl

  fail-IsRefused :
      (now id : ℕ) (job : UploadJob) (d : Desk S)
      → IsRefused now id d (fail l now id job JobError.country_undetermined d)
  unfolding fail write_job
  fail-IsRefused now id job d =
      let failed_job = record job {
        status = JobStatus.failed;
        error = some JobError.country_undetermined;
        finished_at = some now;
      } in
      record {
        job = failed_job;
        there = lookup-insert_self id failed_job d.jobs;
        status = refl;
        error = refl;
        store = refl;
      }

  -- If an upload is not finished and its file can be read, its connection has no country, the file
  -- does not tell one, and the number of active countries of the workspace is not one, then
  -- processing it makes it failed for want of a country, and nothing is stored.
  pub process_upload-undetermined :
      (now id : ℕ) (job : UploadJob) (payload : Bytes) (d : Desk S)
      → lookup id d.jobs ≡ some job
      → is_finished job.status ≡ false
      → d.files job.storage_path ≡ some payload
      → named job.connection_country ≡ none
      → country_from_file l job payload ≡ none
      → (length (d.active job.tenant_id) == 1) ≡ false
      → IsRefused now id d (process_upload l now id d)
  unfolding process_upload with_job take_job with_payload with_resolved write_job
  process_upload-undetermined now id job payload d there not_yet hf hn hc ha =
      let taken = record job { status = JobStatus.processing; started_at = some now } in
      let started = write_job l id taken none none none d in
      let country : resolve l taken payload started ≡ unresolved JobError.country_undetermined =
        resolve-taken l job id now payload d ∙ resolve-undetermined job payload d hn hc ha in
      let refused = fail-IsRefused now id taken started in
      rw (there, not_yet, hf, country)
        (record {
          job = refused.job;
          there = refused.there;
          status = refused.status;
          error = refused.error;
          store = refused.store;
        })
