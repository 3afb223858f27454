-- ===== src/Api/Queue/Steps.antt =====
-- `_process`, `_fail` and `_announce` of api/ingest_queue.py.
use data_effi.Prelude.{
  ℕ, String, Option, none, some, List, [], ◌∷◌, ◌++◌, ◌==◌, if◌then◌else◌, str_eq,
}
use data_effi.Prelude.Equality.{nat_eq, string_eq}
use data_effi.Dict.{lookup, insert}
use data_effi.Pipeline.Models.{IngestReport, RowError}
use data_effi.Pipeline.Readers.Bytes.{Bytes}
use data_effi.Api.Queue.State.{
  JobStatus, JobError, UploadJob, QueueEvent, Desk, Loader, is_finished, is_done,
}
use data_effi.Api.Queue.Country.{Resolved, resolved, unresolved, resolve}

module _ {S : Type 0} (l : Loader S) where
  -- a job is written, and _announce says so
  unfoldable pub write_job :
      ℕ → UploadJob → Option String → Option ℕ → Option JobError → Desk S → Desk S
  unfolding insert
  write_job id job country batch_id error d = record d {
    jobs = insert id job d.jobs;
    events = d.events ++ QueueEvent.job_updated id job.status country batch_id error ∷ [];
  }

  -- _fail
  unfoldable pub fail : ℕ → ℕ → UploadJob → JobError → Desk S → Desk S
  unfolding write_job
  fail now id job error d =
      write_job id
        (record job { status = JobStatus.failed; error = some error; finished_at = some now }) none
        none (some error) d

  abbrev pub status_of : IngestReport → JobStatus
  status_of report =
      if report.already_loaded
      then JobStatus.duplicate
      else if report.rows_failed == 0
      then JobStatus.done
      else JobStatus.failed

  abbrev pub first_fault : List RowError → Option JobError
  first_fault [] = none
  first_fault (e ∷ es) = some (JobError.row_error e.fault)

  -- path.unlink(missing_ok=True)
  abbrev unlink : String → Desk S → Desk S
  unlink path d = record d { files = λ p. if str_eq p path then none else d.files p }

  abbrev announce_batch : JobStatus → UploadJob → Option ℕ → String → Desk S → Desk S
  announce_batch status job batch_id country d = record d {
    events =
        d.events
        ++ (if is_done status
            then QueueEvent.batch_finished job.tenant_id batch_id country ∷ []
            else []);
  }

  -- the end of the transaction of a load that returned
  unfoldable pub settle_job : ℕ → ℕ → UploadJob → String → S → IngestReport → Desk S → Desk S
  unfolding write_job
  settle_job now id job country store report d =
      let error = first_fault report.errors in
      let status = status_of report in
      let written =
        write_job id
          (record job {
            status = status;
            batch_id = report.batch_id;
            content_hash = some report.content_hash;
            error = error;
            finished_at = some now;
          })
          (some country) report.batch_id error (record d { store = store }) in
      announce_batch status job report.batch_id country written

  unfoldable pub with_load :
      ℕ → ℕ → UploadJob → String → Desk S → Option (S × IngestReport) → Desk S
  unfolding settle_job fail
  with_load now id job country d none = fail now id job JobError.interrupted d
  with_load now id job country d (some (store, report)) =
      settle_job now id job country store report d

  unfoldable pub with_resolved : ℕ → ℕ → UploadJob → Bytes → Desk S → Resolved → Desk S
  unfolding with_load fail
  with_resolved now id job payload d (unresolved error) = fail now id job error d
  with_resolved now id job payload d (resolved country currency) =
      with_load now id job country d (l.load job payload country currency d.store)

  -- what follows the reading of the file
  unfoldable pub with_payload : ℕ → ℕ → UploadJob → Desk S → Option Bytes → Desk S
  unfolding with_resolved resolve fail
  with_payload now id job d none = fail now id job JobError.unreadable_file d
  with_payload now id job d (some payload) =
      unlink job.storage_path (with_resolved now id job payload d (resolve l job payload d))

  -- the job is taken, and processed
  unfoldable pub take_job : ℕ → ℕ → UploadJob → Desk S → Desk S
  unfolding with_payload write_job
  take_job now id job d =
      let taken = record job { status = JobStatus.processing; started_at = some now } in
      with_payload now id taken (write_job id taken none none none d) (d.files job.storage_path)

  unfoldable pub with_job : ℕ → ℕ → Desk S → Option UploadJob → Desk S
  unfolding take_job
  with_job now id d none = d
  with_job now id d (some job) = if is_finished job.status then d else take_job now id job d

  -- _process
  unfoldable pub process_upload : ℕ → ℕ → Desk S → Desk S
  unfolding with_job lookup
  process_upload now id d = with_job now id d (lookup id d.jobs)

  -- the tasks that recover_pending submits, in their order
  unfoldable pub process_all : ℕ → List ℕ → Desk S → Desk S
  unfolding process_upload
  process_all now [] d = d
  process_all now (id ∷ ids) d = process_all now ids (process_upload now id d)
