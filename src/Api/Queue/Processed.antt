-- ===== src/Api/Queue/Processed.antt =====
-- What becomes of a job of api/ingest_queue.py that is processed.
use data_effi.Prelude.{
  ℕ, String, true, false, Option, none, some, ◌≡◌, refl, ◌∙◌, ◌==◌, if◌then◌else◌, Bool-cases,
  Option-cases, inl, inr,
}
use data_effi.Prelude.Equality.{nat_eq}
use data_effi.Dict.{Dict, lookup, insert, lookup-insert, lookup-insert_self}
use data_effi.Pipeline.Models.{IngestReport}
use data_effi.Pipeline.Readers.Bytes.{Bytes}
use data_effi.Api.Queue.{
  UploadJob, JobStatus, JobError, Desk, Loader, Resolved, resolved, unresolved, is_finished,
  status_of, first_fault, write_job, fail, settle_job, with_load, with_resolved, with_payload,
  with_job, resolve, take_job, process_upload,
}

-- The job is finished at this moment, and the other jobs are as they were.
pub record IsProcessed {S : Type 0} (now id : ℕ) (d e : Desk S) : Type 0 where
  pub job : UploadJob
  pub there : lookup id e.jobs ≡ some job
  pub finished : is_finished job.status ≡ true
  pub at : job.finished_at ≡ some now
  pub others : (j : ℕ) → (id == j) ≡ false → lookup j e.jobs ≡ lookup j d.jobs

lookup-insert_other :
    (id j : ℕ) (job : UploadJob) (jobs : Dict ℕ UploadJob)
    → (id == j) ≡ false
    → lookup j (insert id job jobs) ≡ lookup j jobs
lookup-insert_other id j job jobs apart =
    let e : lookup j (insert id job jobs) ≡ (if id == j then some job else lookup j jobs) =
      lookup-insert id j job jobs in
    e ∙ (rw apart refl)

module _ {S : Type 0} (l : Loader S) where
  status_of-finished : (report : IngestReport) → is_finished (status_of l report) ≡ true
  status_of-finished report = elim (Bool-cases report.already_loaded) [
    | inl known ↦ rw known refl
    | inr new ↦ elim (Bool-cases (report.rows_failed == 0)) [
      | inl clean ↦ rw (new, clean) refl
      | inr some_failed ↦ rw (new, some_failed) refl
    ]
  ]

  fail-IsProcessed :
      (now id : ℕ) (job : UploadJob) (error : JobError) (d : Desk S)
      → IsProcessed now id d (fail l now id job error d)
  unfolding fail write_job
  fail-IsProcessed now id job error d =
      let failed_job = record job {
        status = JobStatus.failed;
        error = some error;
        finished_at = some now;
      } in
      record {
        job = failed_job;
        there = lookup-insert_self id failed_job d.jobs;
        finished = refl;
        at = refl;
        others = λ j apart. lookup-insert_other id j failed_job d.jobs apart;
      }

  settle_job-IsProcessed :
      (now id : ℕ) (job : UploadJob) (country : String) (store : S) (report : IngestReport)
      (d : Desk S)
      → IsProcessed now id d (settle_job l now id job country store report d)
  unfolding settle_job write_job
  settle_job-IsProcessed now id job country store report d =
      let settled = record job {
        status = status_of l report;
        batch_id = report.batch_id;
        content_hash = some report.content_hash;
        error = first_fault l report.errors;
        finished_at = some now;
      } in
      record {
        job = settled;
        there = lookup-insert_self id settled d.jobs;
        finished = status_of-finished report;
        at = refl;
        others = λ j apart. lookup-insert_other id j settled d.jobs apart;
      }

  with_load-IsProcessed :
      (now id : ℕ) (job : UploadJob) (country : String) (d : Desk S) (o : Option (S × IngestReport))
      → IsProcessed now id d (with_load l now id job country d o)
  unfolding with_load
  with_load-IsProcessed now id job country d none =
      fail-IsProcessed now id job JobError.interrupted d
  with_load-IsProcessed now id job country d (some (store, report)) =
      settle_job-IsProcessed now id job country store report d

  with_resolved-IsProcessed :
      (now id : ℕ) (job : UploadJob) (payload : Bytes) (d : Desk S) (c : Resolved)
      → IsProcessed now id d (with_resolved l now id job payload d c)
  unfolding with_resolved
  with_resolved-IsProcessed now id job payload d (unresolved error) =
      fail-IsProcessed now id job error d
  with_resolved-IsProcessed now id job payload d (resolved country currency) =
      with_load-IsProcessed now id job country d (l.load job payload country currency d.store)

  with_payload-IsProcessed :
      (now id : ℕ) (job : UploadJob) (d : Desk S) (o : Option Bytes)
      → IsProcessed now id d (with_payload l now id job d o)
  unfolding with_payload
  with_payload-IsProcessed now id job d none =
      fail-IsProcessed now id job JobError.unreadable_file d
  with_payload-IsProcessed now id job d (some payload) =
      let p = with_resolved-IsProcessed now id job payload d (resolve l job payload d) in
      record { job = p.job; there = p.there; finished = p.finished; at = p.at; others = p.others }

  -- If an upload is not finished, processing it ends with the upload done, failed or duplicate and
  -- finished at this moment, whatever the file, the country and the load are, and leaves the other
  -- uploads as they were.
  pub process_upload-IsProcessed :
      (now id : ℕ) (job : UploadJob) (d : Desk S)
      → lookup id d.jobs ≡ some job
      → is_finished job.status ≡ false
      → IsProcessed now id d (process_upload l now id d)
  unfolding process_upload with_job take_job write_job
  process_upload-IsProcessed now id job d there not_yet =
      let taken = record job { status = JobStatus.processing; started_at = some now } in
      let started = write_job l id taken none none none d in
      let p = with_payload-IsProcessed now id taken started (d.files job.storage_path) in
      rw (there, not_yet)
        (record {
          job = p.job;
          there = p.there;
          finished = p.finished;
          at = p.at;
          others = λ j apart. p.others j apart ∙ lookup-insert_other id j taken d.jobs apart;
        })

  idle :
      (now id : ℕ) (d : Desk S) (job : UploadJob)
      → lookup id d.jobs ≡ some job
      → is_finished job.status ≡ true
      → process_upload l now id d ≡ d
  unfolding process_upload with_job
  idle now id d job there closed = rw (there, closed) refl

  absent : (now id : ℕ) (d : Desk S) → lookup id d.jobs ≡ none → process_upload l now id d ≡ d
  unfolding process_upload with_job
  absent now id d missing = rw missing refl

  -- Processing an upload that was just processed, at any moment, changes nothing.
  pub process_upload_again :
      (now later id : ℕ) (d : Desk S)
      → process_upload l later id (process_upload l now id d) ≡ process_upload l now id d
  process_upload_again now later id d = elim (Option-cases (lookup id d.jobs)) [
    | inl missing ↦ rw (absent now id d missing) (absent later id d missing)
    | inr (job, there) ↦ elim (Bool-cases (is_finished job.status)) [
      | inl closed ↦ rw (idle now id d job there closed) (idle later id d job there closed)
      | inr not_yet ↦
          let p = process_upload-IsProcessed now id job d there not_yet in
          idle later id (process_upload l now id d) p.job p.there p.finished
    ]
  ]
