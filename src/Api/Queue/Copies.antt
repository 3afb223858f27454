-- ===== src/Api/Queue/Copies.antt =====
-- The second upload of one file, in api/ingest_queue.py.
use data_effi.Prelude.{ℕ, String, true, false, none, some, ◌≡◌, refl, ◌∙◌}
use data_effi.Prelude.Equality.{nat_eq}
use data_effi.Dict.{lookup, lookup-insert_self}
use data_effi.Pipeline.Models.{IngestReport}
use data_effi.Pipeline.Readers.Bytes.{Bytes}
use data_effi.Api.Queue.Taken.{resolve-taken}
use data_effi.Api.Queue.{
  UploadJob, JobStatus, Desk, Loader, resolved, is_finished, status_of, first_fault, write_job,
  settle_job, with_load, with_resolved, with_payload, with_job, resolve, take_job, process_upload,
}

-- What the queue relies on: bytes that were loaded are reported as already loaded.
pub record LoadsOnce {S : Type 0} (l : Loader S) : Type 0 where
  pub once :
      (job copy : UploadJob) (payload : Bytes) (c k c' k' : String) (s t : S)
      (report : IngestReport)
      → l.load job payload c k s ≡ some (t, report)
      → copy.tenant_id ≡ job.tenant_id
      → copy.connection_id ≡ job.connection_id
      → copy.reprocess ≡ false
      → (r : IngestReport) × (l.load copy payload c' k' t ≡ some (t, r)) × (r.already_loaded ≡ true)

module _ {S : Type 0} (l : Loader S) (loads : LoadsOnce l) where
  -- The second job is a duplicate, and nothing is stored for it.
  pub record IsDuplicate (id : ℕ) (d e : Desk S) : Type 0 where
    pub job : UploadJob
    pub there : lookup id e.jobs ≡ some job
    pub status : job.status ≡ JobStatus.duplicate
    pub store : e.store ≡ d.store

  settle_job-IsDuplicate :
      (now id : ℕ) (job : UploadJob) (country : String) (report : IngestReport) (d : Desk S)
      → report.already_loaded ≡ true
      → IsDuplicate id d (settle_job l now id job country d.store report d)
  unfolding settle_job write_job
  settle_job-IsDuplicate now id job country report d known =
      let settled = record job {
        status = status_of l report;
        batch_id = report.batch_id;
        content_hash = some report.content_hash;
        error = first_fault l report.errors;
        finished_at = some now;
      } in
      record {
        job = settled;
        there = lookup-insert_self id settled d.jobs;
        status = rw known refl;
        store = refl;
      }

  -- If loads report bytes that were loaded before as already loaded, and the store is as a load of
  -- a file left it, then processing another upload of the same bytes for the same tenant and
  -- connection, not finished, without reprocess and with a country, makes the upload a duplicate
  -- and leaves the store as it is.
  pub process_copy :
      (now id : ℕ) (job copy : UploadJob) (payload : Bytes) (c k c' k' : String) (s : S)
      (d : Desk S) (report : IngestReport)
      → l.load job payload c k s ≡ some (d.store, report)
      → lookup id d.jobs ≡ some copy
      → is_finished copy.status ≡ false
      → copy.tenant_id ≡ job.tenant_id
      → copy.connection_id ≡ job.connection_id
      → copy.reprocess ≡ false
      → d.files copy.storage_path ≡ some payload
      → resolve l copy payload d ≡ resolved c' k'
      → IsDuplicate id d (process_upload l now id d)
  unfolding process_upload with_job take_job with_payload with_resolved with_load write_job
  process_copy now id job copy payload c k c' k' s d report loaded there not_yet ht hc hr hf hres =
      let taken = record copy { status = JobStatus.processing; started_at = some now } in
      let started = write_job l id taken none none none d in
      let again = loads.once job taken payload c k c' k' s d.store report loaded ht hc hr in
      let country : resolve l taken payload started ≡ resolved c' k' =
        resolve-taken l copy id now payload d ∙ hres in
      let settled = settle_job-IsDuplicate now id taken c' again.0 started again.2 in
      rw (there, not_yet, hf, country, again.1)
        (record {
          job = settled.job;
          there = settled.there;
          status = settled.status;
          store = settled.store;
        })
