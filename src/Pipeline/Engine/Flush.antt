-- ===== src/Pipeline/Engine/Flush.antt =====
-- What the rows of a file leave in the report: every row is counted once, and what holds of the store
-- through its methods holds after a file.
use data_effi.Prelude.{
  ℕ, suc, ◌+◌, ◌%◌, String, Bool, true, false, Option, none, some, List, [], ◌∷◌, foldl, length,
  length-append, ◌==◌, ◌≡◌, refl, ◌∙◌, arith, Bool-cases, Option-cases, inl, inr, some_inj,
  is_empty, subst,
}
use data_effi.Dict.{Dict}
use data_effi.Pipeline.Models.{
  ShipmentInput, MovementInput, BatchContext, UpsertResult, IngestReport, SanityIssue,
}
use data_effi.Pipeline.Normalize.Runtime.{Cell}
use data_effi.Pipeline.Rows.{Verdict, Fields}
use data_effi.Pipeline.MemoryStore.{MemoryStore, upsert_shipments, upsert_movements}
use data_effi.Pipeline.Engine.{is_shipments, counted, flush_rows, transformed, or_mapped}
use data_effi.Pipeline.Readers.{record_of}
use data_effi.Pipeline.MemoryStore.Groups.{upsert_shipments-length, upsert_movements-length}
use data_effi.Pipeline.Engine.{
  Run, Job, tally, flushed_shipments, flush_movements, flush_archive, flush_rest, flush,
  take_shipment, take_movement, failed, handle, archive_row, archived, read_row, flush_if, row_loop,
}

-- the rows that the report has an outcome for
abbrev pub settled_rows : IngestReport → ℕ
settled_rows r = r.rows_inserted + r.rows_updated + r.rows_skipped + r.rows_failed

-- Every row that was read has an outcome or waits for the store.
abbrev pub IsAccounted : Run → Type 0
IsAccounted run =
    run.report.rows_total ≡ settled_rows run.report + length run.shipments + length run.movements

tally-settled_rows :
    (r : IngestReport) (u : UpsertResult) → settled_rows (tally r u) ≡ suc (settled_rows r)
unfolding tally
tally-settled_rows r u = ground arith

tally-rows_total : (r : IngestReport) (u : UpsertResult) → (tally r u).rows_total ≡ r.rows_total
unfolding tally
tally-rows_total r u = ground arith

tallied :
    (r : IngestReport) (us : List UpsertResult)
    → (settled_rows (foldl tally r us) ≡ settled_rows r + length us)
      × ((foldl tally r us).rows_total ≡ r.rows_total)
tallied r [] = (omega arith, refl)
tallied r (u ∷ us) =
    let (settled, total) = tallied (tally r u) us in
    (omega (arith, settled, tally-settled_rows r u), total ∙ tally-rows_total r u)

-- The two ways in which a flush ends.
pub flush-some :
    (ctx : BatchContext) (run after : Run)
    → flush ctx run ≡ some after
    → (t : MemoryStore) × (us : List UpsertResult) × (upsert_shipments ctx run.shipments run.store
        ≡ some (t, us))
      × (flush_archive ctx (
            flush_movements ctx
              (record run { store = t; report = foldl tally run.report us; shipments = [] }))
          ≡ after)
unfolding flush flushed_shipments flush_rest
flush-some ctx run after h = elim (Option-cases (upsert_shipments ctx run.shipments run.store)) [
  | inl raised ↦ cc (rw raised at h)
  | inr ((t, us), written) ↦ (t, us, written, some_inj (rw written at h))
]

flush_movements-IsAccounted :
    (ctx : BatchContext) (run : Run) → IsAccounted run → IsAccounted (flush_movements ctx run)
unfolding flush_movements
flush_movements-IsAccounted ctx run h =
    let us = (upsert_movements ctx run.movements run.store).1 in
    let (settled, total) = tallied run.report us in
    omega (arith, settled, total, h, upsert_movements-length ctx run.movements run.store)

flush_archive-IsAccounted :
    (ctx : BatchContext) (run : Run) → IsAccounted run → IsAccounted (flush_archive ctx run)
unfolding flush_archive
flush_archive-IsAccounted ctx run h = elim (Bool-cases (is_empty run.archive)) [
  | inl nothing ↦ rw nothing h
  | inr something ↦ rw something h
]

pub flush-IsAccounted :
    (ctx : BatchContext) (run after : Run)
    → flush ctx run ≡ some after
    → IsAccounted run
    → IsAccounted after
flush-IsAccounted ctx run after h accounted =
    let (t, us, written, ends) = flush-some ctx run after h in
    let (settled, total) = tallied run.report us in
    subst IsAccounted ends (
      flush_archive-IsAccounted ctx _ (
        flush_movements-IsAccounted ctx
          (record run { store = t; report = foldl tally run.report us; shipments = [] })
          (omega (
            arith,
            settled,
            total,
            accounted,
            upsert_shipments-length ctx run.shipments run.store t us written,
          ))))

-- A flush leaves nothing waiting.
pub flush-empties :
    (ctx : BatchContext) (run after : Run)
    → flush ctx run ≡ some after
    → (after.shipments ≡ []) × (after.movements ≡ [])
unfolding flush_archive flush_movements
flush-empties ctx run after h =
    let (t, us, written, ends) = flush-some ctx run after h in
    subst (λ (x : Run). (x.shipments ≡ []) × (x.movements ≡ [])) ends
      (elim (Bool-cases (is_empty run.archive)) [
        | inl nothing ↦ rw nothing (refl, refl)
        | inr something ↦ rw something (refl, refl)
      ])

-- A row that is read but not yet handled.
abbrev IsOneShort : Run → Type 0
IsOneShort run =
    run.report.rows_total
    ≡ suc (settled_rows run.report + length run.shipments + length run.movements)

take_shipment-IsAccounted :
    (run : Run) (row : ℕ) (q : List SanityIssue × Verdict ShipmentInput)
    → IsOneShort run
    → IsAccounted (take_shipment run row q)
unfolding take_shipment failed
take_shipment-IsAccounted run row (issues, Verdict.accepted i) h =
    omega (arith, h, length-append run.shipments (i ∷ []))
take_shipment-IsAccounted run row (issues, Verdict.refused fault) h = omega (arith, h)

take_movement-IsAccounted :
    (run : Run) (row : ℕ) (q : List SanityIssue × Verdict MovementInput)
    → IsOneShort run
    → IsAccounted (take_movement run row q)
unfolding take_movement failed
take_movement-IsAccounted run row (issues, Verdict.accepted m) h =
    omega (arith, h, length-append run.movements (m ∷ []))
take_movement-IsAccounted run row (issues, Verdict.refused fault) h = omega (arith, h)

handle-IsAccounted :
    (job : Job) (run : Run) (row : ℕ) (fields : Option Fields)
    → IsOneShort run
    → IsAccounted (handle job run row fields)
unfolding handle failed
handle-IsAccounted job run row none h = omega (arith, h)
handle-IsAccounted job run row (some fields) h = elim (Bool-cases (is_shipments job.kind)) [
  | inl guides ↦ rw guides (take_shipment-IsAccounted run row _ h)
  | inr payments ↦ rw payments (take_movement-IsAccounted run row _ h)
]

archive_row-IsAccounted :
    (job : Job) (run : Run) (row : ℕ) (fields : Fields) (raw : Dict String (Option String))
    → IsAccounted run
    → IsAccounted (archive_row job run row fields raw)
unfolding archive_row archived
archive_row-IsAccounted job run row fields raw h = elim (Bool-cases job.engine.archive_rows) [
  | inl kept ↦ rw kept h
  | inr dropped ↦ rw dropped h
]

read_row-IsAccounted :
    (job : Job) (run : Run) (row : ℕ) (q : Fields × Dict String (Option String))
    → IsAccounted run
    → IsAccounted (read_row job run row q)
unfolding read_row
read_row-IsAccounted job run row (mapped, raw) h =
    archive_row-IsAccounted job _ row (or_mapped mapped (transformed job.profile mapped)) raw
      (handle-IsAccounted job (counted run) row (transformed job.profile mapped) (omega (arith, h)))

flush_if-IsAccounted :
    (now : Bool) (ctx : BatchContext) (run after : Run)
    → flush_if now ctx run ≡ some after
    → IsAccounted run
    → IsAccounted after
unfolding flush_if
flush_if-IsAccounted true ctx run after h accounted = flush-IsAccounted ctx run after h accounted
flush_if-IsAccounted false ctx run after h accounted = subst IsAccounted (some_inj h) accounted

pub row_loop-IsAccounted :
    (job : Job) (row : ℕ) (rows : List (List (Option Cell))) (run after : Run)
    → row_loop job row rows run ≡ some after
    → IsAccounted run
    → IsAccounted after
unfolding row_loop
row_loop-IsAccounted job row [] run after h accounted = subst IsAccounted (some_inj h) accounted
row_loop-IsAccounted job row (cells ∷ rows) run after h accounted =
    let read =
      read_row job run row (record_of job.engine.runtime job.headers job.header_map cells) in
    elim (Option-cases (flush_if (row % flush_rows == 0) job.ctx read)) [
      | inl raised ↦ cc (rw raised at h)
      | inr (next, written) ↦ row_loop-IsAccounted job (suc row) rows next after (rw written at h) (
          flush_if-IsAccounted (row % flush_rows == 0) job.ctx read next written (
            read_row-IsAccounted job run row
              (record_of job.engine.runtime job.headers job.header_map cells) accounted))
    ]
