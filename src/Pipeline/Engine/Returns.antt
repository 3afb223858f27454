-- ===== src/Pipeline/Engine/Returns.antt =====
-- `ingest` of pipeline/ingest.py returns a report for every file that can be read.
use data_effi.Prelude.{
  String, Bool, true, false, not, ◌&&◌, ◌||◌, Option, none, some, List, ◌≡◌, refl, arith,
  Bool-cases, Option-cases, inl, inr, is_some, is_empty, str_eq,
}
use data_effi.Pipeline.Models.{BatchContext, BatchKind, IngestReport, RowFault}
use data_effi.Pipeline.Normalize.Runtime.{Cell, Runtime}
use data_effi.Pipeline.Mapping.Columns.{columns_by_kind}
use data_effi.Pipeline.Mapping.Headers.Unique.{build_header_map-is_some}
use data_effi.Pipeline.Rows.{Engine}
use data_effi.Pipeline.Profiles.{SourceProfile, detect_profile}
use data_effi.Pipeline.MemoryStore.{MemoryStore, batch_exists, clear_batch_rows, finish_batch}
use data_effi.Pipeline.MemoryStore.Known.{IsKnown}
use data_effi.Pipeline.MemoryStore.Batches.{register_batch-store}
use data_effi.Pipeline.Engine.{Run, Job}
use data_effi.Pipeline.Engine.Total.{IsKnownRun, flush-returns, row_loop-returns}
use data_effi.Pipeline.Engine.Upload.{
  Table, Upload, missing, mapped_fields, required, already_loaded_report,
}
use data_effi.Pipeline.Engine.Loading.{
  ingest, registered, with_batch, with_table, with_headers, with_country, with_required, refuse,
  process, completed, cleared, detected_run, header_state, job_of, mapped_run, begun, country_of,
}

-- There is a result, and every guide of its store has a status of the ladder.
abbrev pub Returned : Option (MemoryStore × IngestReport) → Type 0
Returned o = (t : MemoryStore) × (report : IngestReport) × (o ≡ some (t, report)) × IsKnown t

process-returns :
    (job : Job) (rows : List (List (Option Cell))) (run : Run)
    → IsKnownRun run
    → Returned (process job rows run)
unfolding process completed finish_batch
process-returns job rows run h =
    let (looped, looping, known) = row_loop-returns job 1 rows run h in
    let (after, flushed, last) = flush-returns job.ctx looped known in
    (finish_batch job.ctx after.report after.store, after.report, rw (looping, flushed), last.0)

-- A kind with a table of columns.
abbrev pub has_columns : BatchKind → Bool
has_columns kind = is_some (columns_by_kind kind)

required-is_some :
    (profile : Option SourceProfile) (kind : BatchKind)
    → has_columns kind ≡ true
    → is_some (required profile kind) ≡ true
required-is_some profile kind h = ground arith

refuse-returns :
    (job : Job) (rows : List (List (Option Cell))) (run : Run) (fault : RowFault)
    → IsKnownRun run
    → Returned (refuse job rows run fault)
unfolding refuse finish_batch
refuse-returns job rows run fault h = (_, _, refl, h.0)

with_required-returns :
    (job : Job) (rows : List (List (Option Cell))) (run : Run) (columns : Option (List String))
    → is_some columns ≡ true
    → IsKnownRun run
    → Returned (with_required job rows run columns)
unfolding with_required
with_required-returns job rows run none there h = cc
with_required-returns job rows run (some columns) there h =
    elim (Bool-cases (is_empty (missing columns (mapped_fields job.profile job.header_map)))) [
      | inl complete ↦ rw complete (process-returns job rows run h)
      | inr lacking ↦ rw lacking (
          refuse-returns job rows run
            (RowFault.missing_columns (missing columns (mapped_fields job.profile job.header_map)))
            h)
    ]

with_country-returns :
    (job : Job) (rows : List (List (Option Cell))) (run : Run) (country : String)
    (d : Option String)
    → has_columns job.kind ≡ true
    → IsKnownRun run
    → Returned (with_country job rows run country d)
unfolding with_country
with_country-returns job rows run country none columns h =
    with_required-returns job rows (detected_run run none) (required job.profile job.kind)
      (required-is_some job.profile job.kind columns) h
with_country-returns job rows run country (some d) columns h =
    elim (Bool-cases (str_eq d "" || str_eq d country)) [
      | inl same ↦ rw same (
          with_required-returns job rows (detected_run run (some d)) (required job.profile job.kind)
            (required-is_some job.profile job.kind columns) h)
      | inr other ↦ rw other (
          refuse-returns job rows (detected_run run (some d)) (RowFault.country_mismatch d country)
            h)
    ]

header_state-is_some :
    (r : Runtime) (headers : List String) (kind : BatchKind) (profile : Option SourceProfile)
    → has_columns kind ≡ true
    → is_some (header_state r headers kind profile) ≡ true
unfolding header_state
header_state-is_some r headers kind none h = build_header_map-is_some r headers kind h
header_state-is_some r headers kind (some p) h = refl

with_table-returns :
    (e : Engine) (profiles : List SourceProfile) (u : Upload) (ctx : BatchContext) (run : Run)
    (table : Option Table)
    → is_some table ≡ true
    → has_columns u.kind ≡ true
    → IsKnownRun run
    → Returned (with_table e profiles u ctx run table)
unfolding with_table with_headers
with_table-returns e profiles u ctx run none readable columns h = cc
with_table-returns e profiles u ctx run (some (headers, rows)) readable columns h =
    let profile = detect_profile e.runtime profiles headers u.kind in
    elim (Option-cases (header_state e.runtime headers u.kind profile)) [
      | inl unknown ↦
          let there = header_state-is_some e.runtime headers u.kind profile columns in
          cc (unknown, there)
      | inr (s, known) ↦ rw known (
          with_country-returns (job_of e u ctx headers profile s) rows (mapped_run run profile s)
            (e.runtime.upper u.country_code) (country_of e.runtime headers rows profile) columns h)
    ]

cleared-IsKnown :
    (reprocess : Bool) (ctx : BatchContext) (s : MemoryStore)
    → IsKnown s
    → IsKnown (cleared reprocess ctx s)
unfolding cleared clear_batch_rows
cleared-IsKnown true ctx s h = h
cleared-IsKnown false ctx s h = h

with_batch-returns :
    (e : Engine) (profiles : List SourceProfile) (u : Upload) (s : MemoryStore)
    → is_some u.read ≡ true
    → has_columns u.kind ≡ true
    → IsKnown s
    → Returned (with_batch e profiles u s (registered u s))
unfolding with_batch
with_batch-returns e profiles u s readable columns h = elim (Option-cases (registered u s)) [
  | inl refused ↦ (s, already_loaded_report u, rw refused, h)
  | inr ((t, ctx), opened) ↦
      let (guides, payments) =
        register_batch-store u.fresh u.tenant_id u.connection_id u.country_code u.platform_code
          u.kind u.digest s t u.reprocess ctx opened in
      rw opened (
        with_table-returns e profiles u ctx (begun u ctx (cleared u.reprocess ctx t)) u.read
          readable columns (cleared-IsKnown u.reprocess ctx t (rw guides h), refl))
]

-- If the file can be read, its kind has a table of columns, and the status of every guide in the
-- store is in STATUS_CANON, then a load returns, and the statuses of the store that it leaves are
-- in STATUS_CANON again.
pub ingest-returns :
    (e : Engine) (profiles : List SourceProfile) (u : Upload) (s : MemoryStore)
    → is_some u.read ≡ true
    → has_columns u.kind ≡ true
    → IsKnown s
    → Returned (ingest e profiles u s)
unfolding ingest
ingest-returns e profiles u s readable columns h =
    elim (Bool-cases (not u.reprocess && batch_exists u.tenant_id u.connection_id u.digest s)) [
      | inl known ↦ (s, already_loaded_report u, rw known, h)
      | inr new ↦ rw new (with_batch-returns e profiles u s readable columns h)
    ]
