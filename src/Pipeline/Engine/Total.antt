-- ===== src/Pipeline/Engine/Total.antt =====
-- That `ingest` of pipeline/ingest.py returns: no row of a readable file raises out of the loop.
use data_effi.Prelude.{
  ℕ, suc, ◌%◌, String, Bool, true, false, Option, none, some, List, [], ◌∷◌, foldl, ◌==◌, ◌≡◌, refl,
  arith, Bool-cases, inl, inr, is_empty, all, all-append,
}
use data_effi.Prelude.Equality.{nat_eq, string_eq, pair_eq}
use data_effi.Dict.{Dict}
use data_effi.Pipeline.Models.{ShipmentInput, MovementInput, BatchContext, SanityIssue}
use data_effi.Pipeline.Merge.Known.{is_known}
use data_effi.Pipeline.Normalize.Runtime.{Cell}
use data_effi.Pipeline.Readers.{record_of}
use data_effi.Pipeline.Rows.{Verdict, Fields}
use data_effi.Pipeline.Rows.Guide.{handle_shipment_row}
use data_effi.Pipeline.Rows.Accepted.{handle_shipment_row-IsSound}
use data_effi.Pipeline.MemoryStore.{save_source_rows}
use data_effi.Pipeline.MemoryStore.Groups.{upsert_movements-keeps}
use data_effi.Pipeline.MemoryStore.Movements.{upsert_movement-shipments}
use data_effi.Pipeline.MemoryStore.Known.{IsKnown, upsert_shipments-returns}
use data_effi.Pipeline.Engine.{
  Run, Job, tally, flushed_shipments, flush_rest, flush_movements, flush_archive, flush,
  take_shipment, take_movement, failed, handle, archive_row, archived, read_row, flush_if, row_loop,
  counted, transformed, or_mapped, flush_rows, is_shipments,
}

-- Every guide, in the store or waiting for it, has a status of the ladder.
abbrev pub IsKnownRun : Run → Type 0
IsKnownRun run = IsKnown run.store × (all (λ i. is_known i.status_code) run.shipments ≡ true)

flush_movements-IsKnown :
    (ctx : BatchContext) (run : Run) → IsKnown run.store → IsKnown (flush_movements ctx run).store
unfolding flush_movements
flush_movements-IsKnown ctx run h =
    upsert_movements-keeps IsKnown ctx (λ m s known. rw (upsert_movement-shipments ctx m s) known)
      run.movements run.store h

flush_archive-IsKnown :
    (ctx : BatchContext) (run : Run) → IsKnownRun run → IsKnownRun (flush_archive ctx run)
unfolding flush_archive save_source_rows
flush_archive-IsKnown ctx run h = elim (Bool-cases (is_empty run.archive)) [
  | inl nothing ↦ rw nothing h
  | inr something ↦ rw something h
]

pub flush-returns :
    (ctx : BatchContext) (run : Run)
    → IsKnownRun run
    → (after : Run) × (flush ctx run ≡ some after) × IsKnownRun after
unfolding flush flushed_shipments flush_rest
flush-returns ctx run (known, waiting) =
    let (t, us, written, stored) =
      upsert_shipments-returns ctx run.shipments run.store waiting known in
    let mid = record run { store = t; report = foldl tally run.report us; shipments = [] } in
    (
      flush_archive ctx (flush_movements ctx mid),
      rw written,
      flush_archive-IsKnown ctx (flush_movements ctx mid)
          (flush_movements-IsKnown ctx mid stored, refl),
    )

accepted-is_known :
    (run : Run) (row : ℕ) (q : List SanityIssue × Verdict ShipmentInput)
    → ((issues : List SanityIssue) (i : ShipmentInput)
        → q ≡ (issues, Verdict.accepted i)
        → is_known i.status_code ≡ true)
    → IsKnownRun run
    → IsKnownRun (take_shipment run row q)
unfolding take_shipment failed
accepted-is_known run row (issues, Verdict.accepted i) sound h = (
  h.0,
  ground (
    arith,
    all-append (λ (j : ShipmentInput). is_known j.status_code) run.shipments (i ∷ []),
    sound issues i refl,
  ),
)
accepted-is_known run row (issues, Verdict.refused fault) sound h = h

take_movement-IsKnown :
    (run : Run) (row : ℕ) (q : List SanityIssue × Verdict MovementInput)
    → IsKnownRun run
    → IsKnownRun (take_movement run row q)
unfolding take_movement failed
take_movement-IsKnown run row (issues, Verdict.accepted m) h = h
take_movement-IsKnown run row (issues, Verdict.refused fault) h = h

handle-IsKnown :
    (job : Job) (run : Run) (row : ℕ) (fields : Option Fields)
    → IsKnownRun run
    → IsKnownRun (handle job run row fields)
unfolding handle failed
handle-IsKnown job run row none h = h
handle-IsKnown job run row (some fields) h = elim (Bool-cases (is_shipments job.kind)) [
  | inl guides ↦ rw guides (
      accepted-is_known run row (handle_shipment_row job.engine row fields job.currency)
        (λ issues i made.
          let sound =
            handle_shipment_row-IsSound job.engine row fields job.currency issues i made in
          rw sound.on_ladder)
        h)
  | inr payments ↦ rw payments (take_movement-IsKnown run row _ h)
]

archive_row-IsKnown :
    (job : Job) (run : Run) (row : ℕ) (fields : Fields) (raw : Dict String (Option String))
    → IsKnownRun run
    → IsKnownRun (archive_row job run row fields raw)
unfolding archive_row archived
archive_row-IsKnown job run row fields raw h = elim (Bool-cases job.engine.archive_rows) [
  | inl kept ↦ rw kept h
  | inr dropped ↦ rw dropped h
]

read_row-IsKnown :
    (job : Job) (run : Run) (row : ℕ) (q : Fields × Dict String (Option String))
    → IsKnownRun run
    → IsKnownRun (read_row job run row q)
unfolding read_row
read_row-IsKnown job run row (mapped, raw) h =
    archive_row-IsKnown job (handle job (counted run) row (transformed job.profile mapped)) row
      (or_mapped mapped (transformed job.profile mapped)) raw
      (handle-IsKnown job (counted run) row (transformed job.profile mapped) h)

flush_if-returns :
    (now : Bool) (ctx : BatchContext) (run : Run)
    → IsKnownRun run
    → (after : Run) × (flush_if now ctx run ≡ some after) × IsKnownRun after
unfolding flush_if
flush_if-returns true ctx run h = flush-returns ctx run h
flush_if-returns false ctx run h = (run, refl, h)

pub row_loop-returns :
    (job : Job) (row : ℕ) (rows : List (List (Option Cell))) (run : Run)
    → IsKnownRun run
    → (after : Run) × (row_loop job row rows run ≡ some after) × IsKnownRun after
unfolding row_loop
row_loop-returns job row [] run h = (run, refl, h)
row_loop-returns job row (cells ∷ rows) run h =
    let fields = record_of job.engine.runtime job.headers job.header_map cells in
    let read = read_row job run row fields in
    let (next, written, known) =
      flush_if-returns (row % flush_rows == 0) job.ctx read
        (read_row-IsKnown job run row fields h) in
    let (after, looped, last) = row_loop-returns job (suc row) rows next known in
    (after, rw written looped, last)
