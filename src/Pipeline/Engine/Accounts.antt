-- ===== src/Pipeline/Engine/Accounts.antt =====
-- What a load of pipeline/ingest.py leaves: the rows that the report counts, and what the writes keep.
use data_effi.Prelude.{
  str_eq, ◌+◌, String, true, not, ◌&&◌, ◌||◌, Option, none, some, List, [], ◌≡◌, refl, ◌∙◌, arith,
  Bool-cases, Option-cases, inl, inr, ◌⊎◌, some_inj, is_empty, subst,
}
use data_effi.Pipeline.Models.{BatchContext, IngestReport, RowFault}
use data_effi.Pipeline.Normalize.Runtime.{Cell}
use data_effi.Pipeline.Rows.{Engine}
use data_effi.Pipeline.Profiles.{SourceProfile, detect_profile}
use data_effi.Pipeline.MemoryStore.{MemoryStore, finish_batch, batch_exists}
use data_effi.Pipeline.Engine.{Run, Job, flush, row_loop}
use data_effi.Pipeline.Engine.Flush.{
  settled_rows, row_loop-IsAccounted, flush-IsAccounted, flush-empties,
}
use data_effi.Pipeline.Engine.Keeps.{IsKept, flush-keeps, row_loop-keeps}
use data_effi.Pipeline.Engine.Upload.{Table, Upload, missing, mapped_fields}
use data_effi.Pipeline.Engine.Loading.{
  ingest, with_batch, with_table, with_headers, with_country, with_required, refuse, process,
  completed, cleared, detected_run, header_state, job_of, begun, registered, mapped_run, country_of,
}

-- What holds of the result, if there is one.
abbrev pub OnResult :
    (MemoryStore × IngestReport → Type 0) → Option (MemoryStore × IngestReport) → Type 0
OnResult Q none = Unit
OnResult Q (some q) = Q q

module _ (P : MemoryStore → Type 0) (kept : IsKept P)
    (by_finish : (ctx : BatchContext) (r : IngestReport) (s : MemoryStore)
      → P s
      → P (finish_batch ctx r s)) where
  abbrev pub Good : MemoryStore × IngestReport → Type 0
  Good q = P q.0 × (q.1.rows_total ≡ settled_rows q.1)

  -- The loop has not begun.
  record IsFresh (run : Run) : Type 0 where
    stored : P run.store
    total : run.report.rows_total ≡ 0
    unsettled : settled_rows run.report ≡ 0
    no_shipments : run.shipments ≡ []
    no_movements : run.movements ≡ []

  refuse-Good :
      (job : Job) (rows : List (List (Option Cell))) (run : Run) (fault : RowFault)
      → IsFresh run
      → OnResult Good (refuse job rows run fault)
  unfolding refuse
  refuse-Good job rows run fault f =
      (by_finish job.ctx _ run.store f.stored, omega (arith, f.unsettled))

  process-Good :
      (job : Job) (rows : List (List (Option Cell))) (run : Run)
      → IsFresh run
      → OnResult Good (process job rows run)
  unfolding process completed
  process-Good job rows run f = elim (Option-cases (row_loop job 1 rows run)) [
    | inl raised ↦ rw raised tt
    | inr (looped, looping) ↦ elim (Option-cases (flush job.ctx looped)) [
      | inl raised ↦ rw (looping, raised) tt
      | inr (after, flushed) ↦
          let (no_shipments, no_movements) = flush-empties job.ctx looped after flushed in
          let accounted = flush-IsAccounted job.ctx looped after flushed (
            row_loop-IsAccounted job 1 rows run looped looping
              (rw (f.no_shipments, f.no_movements) (omega (arith, f.total, f.unsettled)))) in
          rw (looping, flushed)
            (
              by_finish job.ctx after.report after.store (
                  flush-keeps P kept job.ctx looped after flushed
                    (row_loop-keeps P kept job 1 rows run looped looping f.stored)),
              (rw (no_shipments, no_movements) at accounted) ∙ omega arith,
            )
    ]
  ]

  with_required-Good :
      (job : Job) (rows : List (List (Option Cell))) (run : Run) (columns : Option (List String))
      → IsFresh run
      → OnResult Good (with_required job rows run columns)
  unfolding with_required
  with_required-Good job rows run none f = tt
  with_required-Good job rows run (some columns) f =
      let absent = missing columns (mapped_fields job.profile job.header_map) in
      elim (Bool-cases (is_empty absent)) [
        | inl complete ↦ rw complete (process-Good job rows run f)
        | inr lacking ↦ rw lacking (refuse-Good job rows run (RowFault.missing_columns absent) f)
      ]

  detected_run-IsFresh :
      (run : Run) (d : Option String) → IsFresh run → IsFresh (detected_run run d)
  detected_run-IsFresh run d f = record {
    stored = f.stored;
    total = f.total;
    unsettled = f.unsettled;
    no_shipments = f.no_shipments;
    no_movements = f.no_movements;
  }

  with_country-Good :
      (job : Job) (rows : List (List (Option Cell))) (run : Run) (country : String)
      (d : Option String)
      → IsFresh run
      → OnResult Good (with_country job rows run country d)
  unfolding with_country
  with_country-Good job rows run country none f =
      with_required-Good job rows (detected_run run none) _ (detected_run-IsFresh run none f)
  with_country-Good job rows run country (some d) f =
      let fresh = detected_run-IsFresh run (some d) f in
      elim (Bool-cases (str_eq d "" || str_eq d country)) [
        | inl same ↦ rw same (with_required-Good job rows (detected_run run (some d)) _ fresh)
        | inr other ↦ rw other (
            refuse-Good job rows (detected_run run (some d)) (RowFault.country_mismatch d country)
              fresh)
      ]

  with_table-Good :
      (e : Engine) (profiles : List SourceProfile) (u : Upload) (ctx : BatchContext) (run : Run)
      (table : Option Table)
      → IsFresh run
      → OnResult Good (with_table e profiles u ctx run table)
  unfolding with_table with_headers
  with_table-Good e profiles u ctx run none f = tt
  with_table-Good e profiles u ctx run (some (headers, rows)) f =
      let profile = detect_profile e.runtime profiles headers u.kind in
      elim (Option-cases (header_state e.runtime headers u.kind profile)) [
        | inl unknown ↦ rw unknown tt
        | inr (s, known) ↦ rw known (
            with_country-Good (job_of e u ctx headers profile s) rows (mapped_run run profile s)
              (e.runtime.upper u.country_code) (country_of e.runtime headers rows profile)
              (record {
                stored = f.stored;
                total = f.total;
                unsettled = f.unsettled;
                no_shipments = f.no_shipments;
                no_movements = f.no_movements;
              }))
      ]

  with_batch-Good :
      (e : Engine) (profiles : List SourceProfile) (u : Upload) (s : MemoryStore)
      (opened : Option (MemoryStore × BatchContext))
      → (opened ≡ none → P s)
      → ((t : MemoryStore) (ctx : BatchContext)
          → opened ≡ some (t, ctx)
          → P (cleared u.reprocess ctx t))
      → OnResult Good (with_batch e profiles u s opened)
  unfolding with_batch
  with_batch-Good e profiles u s none idle opens = (idle refl, omega arith)
  with_batch-Good e profiles u s (some (t, ctx)) idle opens =
      with_table-Good e profiles u ctx (begun u ctx (cleared u.reprocess ctx t)) u.read (record {
        stored = opens t ctx refl;
        total = refl;
        unsettled = omega arith;
        no_shipments = refl;
        no_movements = refl;
      })

  pub ingest-Good :
      (e : Engine) (profiles : List SourceProfile) (u : Upload) (s : MemoryStore)
      → ((batch_exists u.tenant_id u.connection_id u.digest s ≡ true) ⊎ (registered u s ≡ none)
          → P s)
      → ((t : MemoryStore) (ctx : BatchContext)
          → registered u s ≡ some (t, ctx)
          → P (cleared u.reprocess ctx t))
      → OnResult Good (ingest e profiles u s)
  unfolding ingest
  ingest-Good e profiles u s idle opens =
      elim (Bool-cases (not u.reprocess && batch_exists u.tenant_id u.connection_id u.digest s)) [
        | inl known ↦ rw known (idle (inl (ground arith)), omega arith)
        | inr new ↦
            rw new (with_batch-Good e profiles u s (registered u s) (λ h. idle (inr h)) opens)
      ]

-- The store may be anything: every load counts its rows.
kept_anything : IsKept (λ s. Unit)
kept_anything = record {
  by_shipment = λ ctx i s t u h p. tt;
  by_movement = λ ctx m s p. tt;
  by_rows = λ ctx rows s p. tt;
}

pub OnResult-some :
    (Q : MemoryStore × IngestReport → Type 0) (o : Option (MemoryStore × IngestReport))
    (q : MemoryStore × IngestReport)
    → o ≡ some q
    → OnResult Q o
    → Q q
OnResult-some Q none q h p = cc
OnResult-some Q (some r) q h p = subst Q (some_inj h) p

-- If a load returns, its report counts every row once: rows_total is the sum of the rows inserted,
-- updated, skipped and failed.
pub ingest-rows_total :
    (e : Engine) (profiles : List SourceProfile) (u : Upload) (s t : MemoryStore)
    (report : IngestReport)
    → ingest e profiles u s ≡ some (t, report)
    → report.rows_total
      ≡ report.rows_inserted + report.rows_updated + report.rows_skipped + report.rows_failed
ingest-rows_total e profiles u s t report h =
    (OnResult-some (Good (λ s. Unit) kept_anything (λ ctx r s p. tt)) (ingest e profiles u s)
      (t, report) h
      (ingest-Good (λ s. Unit) kept_anything (λ ctx r s p. tt) e profiles u s (λ h. tt)
        (λ t ctx h. tt))).1
