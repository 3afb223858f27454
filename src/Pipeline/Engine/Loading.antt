-- ===== src/Pipeline/Engine/Loading.antt =====
-- The frame of `IngestEngine.ingest` in pipeline/ingest.py: the batch, the headers, the refusals.
use data_effi.Prelude.{
  String, Bool, not, ◌&&◌, ◌||◌, Option, none, some, List, [], is_empty, if◌then◌else◌, str_eq,
  length,
}
use data_effi.Pipeline.Models.{BatchKind, BatchContext, RowFault, IngestReport}
use data_effi.Pipeline.Normalize.Runtime.{Cell, Runtime}
use data_effi.Pipeline.Mapping.Headers.{HeaderState, build_header_map}
use data_effi.Pipeline.Rows.{Engine}
use data_effi.Pipeline.Profiles.{
  SourceProfile, detect_profile, build_profile_header_map, detect_country,
}
use data_effi.Pipeline.MemoryStore.{
  MemoryStore, batch_exists, register_batch, clear_batch_rows, finish_batch,
}
use data_effi.Pipeline.Engine.{Run, Job, flush, row_loop, and_then}
use data_effi.Pipeline.Engine.Upload.{
  Table, Upload, first_report, already_loaded_report, refused_report, code_of, mapped_fields,
  required, missing,
}

unfoldable pub header_state :
    Runtime → List String → BatchKind → Option SourceProfile → Option HeaderState
unfolding build_header_map build_profile_header_map
header_state r headers kind none = build_header_map r headers kind
header_state r headers kind (some p) = some (build_profile_header_map r headers p)

abbrev pub country_of :
    Runtime → List String → List (List (Option Cell)) → Option SourceProfile → Option String
unfolding detect_country
country_of r headers rows none = none
country_of r headers rows (some p) = detect_country r headers rows p

abbrev pub finished : BatchContext → Run → MemoryStore × IngestReport
unfolding finish_batch
finished ctx run = (finish_batch ctx run.report run.store, run.report)

abbrev pub start : MemoryStore → IngestReport → Run
start s report = record { store = s; report = report; shipments = []; movements = []; archive = [] }

unfoldable pub completed : BatchContext → Option Run → Option (MemoryStore × IngestReport)
unfolding finished
completed ctx none = none
completed ctx (some run) = some (finished ctx run)

-- the rows, and what is left of the last group
unfoldable pub process : Job → List (List (Option Cell)) → Run → Option (MemoryStore × IngestReport)
unfolding row_loop flush completed
process job rows run = completed job.ctx (and_then (row_loop job 1 rows run) (flush job.ctx))

-- a file that is refused as a whole
unfoldable pub refuse :
    Job → List (List (Option Cell)) → Run → RowFault → Option (MemoryStore × IngestReport)
unfolding finish_batch
refuse job rows run fault =
    let report = refused_report run.report fault (length rows) in
    some (finish_batch job.ctx report run.store, report)

unfoldable pub with_required :
    Job
    → List (List (Option Cell))
    → Run
    → Option (List String)
    → Option (MemoryStore × IngestReport)
unfolding missing process refuse
with_required job rows run none = none
with_required job rows run (some columns) =
    let absent = missing columns (mapped_fields job.profile job.header_map) in
    if is_empty absent
    then process job rows run
    else refuse job rows run (RowFault.missing_columns absent)

abbrev pub detected_run : Run → Option String → Run
detected_run run detected = record run {
  report = record run.report { detected_country_code = detected };
}

-- `if detected and detected != country_code.upper()`
unfoldable pub with_country :
    Job
    → List (List (Option Cell))
    → Run
    → String
    → Option String
    → Option (MemoryStore × IngestReport)
unfolding with_required refuse
with_country job rows run country none =
    with_required job rows (detected_run run none) (required job.profile job.kind)
with_country job rows run country (some detected) =
    if str_eq detected "" || str_eq detected country
    then with_required job rows (detected_run run (some detected)) (required job.profile job.kind)
    else refuse job rows (detected_run run (some detected))
        (RowFault.country_mismatch detected country)

-- the state before the first row
abbrev pub begun : Upload → BatchContext → MemoryStore → Run
begun u ctx s = start s (record (first_report u) { batch_id = some ctx.batch_id })

abbrev pub job_of :
    Engine → Upload → BatchContext → List String → Option SourceProfile → HeaderState → Job
job_of e u ctx headers profile s = record {
  engine = e;
  ctx = ctx;
  kind = u.kind;
  profile = profile;
  headers = headers;
  header_map = s.mapped;
  currency = u.default_currency;
}

abbrev pub mapped_run : Run → Option SourceProfile → HeaderState → Run
mapped_run run profile s = record run {
  report = record run.report { unmapped_columns = s.unmapped; profile_code = code_of profile };
}

unfoldable pub with_headers :
    Engine
    → Upload
    → BatchContext
    → Table
    → Option SourceProfile
    → Run
    → Option HeaderState
    → Option (MemoryStore × IngestReport)
unfolding with_country country_of
with_headers e u ctx (headers, rows) profile run none = none
with_headers e u ctx (headers, rows) profile run (some s) =
    with_country (job_of e u ctx headers profile s) rows (mapped_run run profile s)
      (e.runtime.upper u.country_code) (country_of e.runtime headers rows profile)

unfoldable pub with_table :
    Engine
    → List SourceProfile
    → Upload
    → BatchContext
    → Run
    → Option Table
    → Option (MemoryStore × IngestReport)
unfolding with_headers detect_profile header_state
with_table e profiles u ctx run none = none
with_table e profiles u ctx run (some (headers, rows)) =
    let profile = detect_profile e.runtime profiles headers u.kind in
    with_headers e u ctx (headers, rows) profile run (header_state e.runtime headers u.kind profile)

unfoldable pub cleared : Bool → BatchContext → MemoryStore → MemoryStore
unfolding clear_batch_rows
cleared reprocess ctx s = if reprocess then (clear_batch_rows ctx s).0 else s

-- None is BatchAlreadyExists, which is a load of the same bytes that came first.
unfoldable pub with_batch :
    Engine
    → List SourceProfile
    → Upload
    → MemoryStore
    → Option (MemoryStore × BatchContext)
    → Option (MemoryStore × IngestReport)
unfolding with_table cleared
with_batch e profiles u s none = some (s, already_loaded_report u)
with_batch e profiles u s (some (opened, ctx)) =
    with_table e profiles u ctx (begun u ctx (cleared u.reprocess ctx opened)) u.read

-- the call of `register_batch`
abbrev pub registered : Upload → MemoryStore → Option (MemoryStore × BatchContext)
registered u s =
    register_batch u.fresh u.tenant_id u.connection_id u.country_code u.platform_code u.kind
      u.digest u.reprocess s

unfoldable pub ingest :
    Engine → List SourceProfile → Upload → MemoryStore → Option (MemoryStore × IngestReport)
unfolding with_batch register_batch batch_exists
ingest e profiles u s =
    if not u.reprocess && batch_exists u.tenant_id u.connection_id u.digest s
    then some (s, already_loaded_report u)
    else with_batch e profiles u s (registered u s)
