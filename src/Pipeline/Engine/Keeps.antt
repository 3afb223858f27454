-- ===== src/Pipeline/Engine/Keeps.antt =====
-- What holds of the store through its methods holds of it through the rows of a file.
use data_effi.Prelude.{
  ◌∙◌, ℕ, suc, ◌%◌, String, Bool, true, false, Option, none, some, List, [], ◌∷◌, foldl, ◌==◌, ◌≡◌,
  refl, Bool-cases, Option-cases, inl, inr, some_inj, is_empty, subst,
}
use data_effi.Dict.{Dict}
use data_effi.Pipeline.Models.{
  ShipmentInput, MovementInput, BatchContext, UpsertResult, SanityIssue, SourceRow,
}
use data_effi.Pipeline.Normalize.Runtime.{Cell}
use data_effi.Pipeline.Readers.{record_of}
use data_effi.Pipeline.Rows.{Verdict, Fields}
use data_effi.Pipeline.MemoryStore.{MemoryStore, upsert_shipment, upsert_movement, save_source_rows}
use data_effi.Pipeline.MemoryStore.Groups.{upsert_shipments-keeps, upsert_movements-keeps}
use data_effi.Pipeline.Engine.{
  Run, Job, tally, flush_movements, flush_archive, flush, take_shipment, take_movement, handle,
  archive_row, archived, read_row, flush_if, row_loop, counted, transformed, or_mapped, flush_rows,
  is_shipments,
}
use data_effi.Pipeline.Engine.Flush.{flush-some}

take_shipment-store :
    (run : Run) (row : ℕ) (q : List SanityIssue × Verdict ShipmentInput)
    → (take_shipment run row q).store ≡ run.store
unfolding take_shipment
take_shipment-store run row (issues, Verdict.accepted i) = refl
take_shipment-store run row (issues, Verdict.refused fault) = refl

take_movement-store :
    (run : Run) (row : ℕ) (q : List SanityIssue × Verdict MovementInput)
    → (take_movement run row q).store ≡ run.store
unfolding take_movement
take_movement-store run row (issues, Verdict.accepted m) = refl
take_movement-store run row (issues, Verdict.refused fault) = refl

handle-store :
    (job : Job) (run : Run) (row : ℕ) (fields : Option Fields)
    → (handle job run row fields).store ≡ run.store
unfolding handle
handle-store job run row none = refl
handle-store job run row (some fields) = elim (Bool-cases (is_shipments job.kind)) [
  | inl guides ↦ rw guides (take_shipment-store run row _)
  | inr payments ↦ rw payments (take_movement-store run row _)
]

archive_row-store :
    (job : Job) (run : Run) (row : ℕ) (fields : Fields) (raw : Dict String (Option String))
    → (archive_row job run row fields raw).store ≡ run.store
unfolding archive_row archived
archive_row-store job run row fields raw = elim (Bool-cases job.engine.archive_rows) [
  | inl kept ↦ rw kept
  | inr dropped ↦ rw dropped
]

-- Reading a row leaves the store alone.
pub read_row-store :
    (job : Job) (run : Run) (row : ℕ) (q : Fields × Dict String (Option String))
    → (read_row job run row q).store ≡ run.store
unfolding read_row
read_row-store job run row (mapped, raw) =
    archive_row-store job (handle job (counted run) row (transformed job.profile mapped)) row
      (or_mapped mapped (transformed job.profile mapped)) raw
    ∙ handle-store job (counted run) row (transformed job.profile mapped)

-- What the writes of the engine keep.
pub record IsKept (P : MemoryStore → Type 0) : Type 0 where
  pub by_shipment :
      (ctx : BatchContext) (i : ShipmentInput) (s t : MemoryStore) (u : UpsertResult)
      → upsert_shipment ctx i s ≡ some (t, u)
      → P s
      → P t
  pub by_movement :
      (ctx : BatchContext) (m : MovementInput) (s : MemoryStore)
      → P s
      → P (upsert_movement ctx m s).0
  pub by_rows :
      (ctx : BatchContext) (rows : List SourceRow) (s : MemoryStore)
      → P s
      → P (save_source_rows ctx rows s).0

module _ (P : MemoryStore → Type 0) (kept : IsKept P) where
  flush_archive-keeps :
      (ctx : BatchContext) (run : Run) → P run.store → P (flush_archive ctx run).store
  unfolding flush_archive
  flush_archive-keeps ctx run p = elim (Bool-cases (is_empty run.archive)) [
    | inl nothing ↦ rw nothing p
    | inr something ↦ rw something (kept.by_rows ctx run.archive run.store p)
  ]

  flush_movements-keeps :
      (ctx : BatchContext) (run : Run) → P run.store → P (flush_movements ctx run).store
  unfolding flush_movements
  flush_movements-keeps ctx run p =
      upsert_movements-keeps P ctx (kept.by_movement ctx) run.movements run.store p

  pub flush-keeps :
      (ctx : BatchContext) (run after : Run)
      → flush ctx run ≡ some after
      → P run.store
      → P after.store
  flush-keeps ctx run after h p =
      let (t, us, written, ends) = flush-some ctx run after h in
      subst (λ (x : Run). P x.store) ends
        (flush_archive-keeps ctx _ (
          flush_movements-keeps ctx
            (record run { store = t; report = foldl tally run.report us; shipments = [] })
            (upsert_shipments-keeps P ctx (kept.by_shipment ctx) run.shipments run.store t us
              written p)))

  flush_if-keeps :
      (now : Bool) (ctx : BatchContext) (run after : Run)
      → flush_if now ctx run ≡ some after
      → P run.store
      → P after.store
  unfolding flush_if
  flush_if-keeps true ctx run after h p = flush-keeps ctx run after h p
  flush_if-keeps false ctx run after h p = subst (λ (x : Run). P x.store) (some_inj h) p

  pub row_loop-keeps :
      (job : Job) (row : ℕ) (rows : List (List (Option Cell))) (run after : Run)
      → row_loop job row rows run ≡ some after
      → P run.store
      → P after.store
  unfolding row_loop
  row_loop-keeps job row [] run after h p = subst (λ (x : Run). P x.store) (some_inj h) p
  row_loop-keeps job row (cells ∷ rows) run after h p =
      let fields = record_of job.engine.runtime job.headers job.header_map cells in
      let read = read_row job run row fields in
      elim (Option-cases (flush_if (row % flush_rows == 0) job.ctx read)) [
        | inl raised ↦ cc (rw raised at h)
        | inr (next, written) ↦ row_loop-keeps job (suc row) rows next after (rw written at h) (
            flush_if-keeps (row % flush_rows == 0) job.ctx read next written
              (rw (read_row-store job run row fields) p))
      ]
