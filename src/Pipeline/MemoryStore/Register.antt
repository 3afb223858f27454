-- ===== src/Pipeline/MemoryStore/Register.antt =====
-- The batches of `MemoryStore` of pipeline/ingest.py.
use data_effi.Prelude.{
  ℕ, ◌-◌, String, Bool, true, not, Option, none, some, List, [], ◌∷◌, ◌++◌, length, ◌==◌,
  if◌then◌else◌,
}
use data_effi.Prelude.Equality.{nat_eq, string_eq, pair_eq}
use data_effi.Dict.{Dict, lookup, insert, has_key}
use data_effi.Pipeline.Models.{BatchKind, SourceRow, BatchContext, IngestReport}
use data_effi.Pipeline.MemoryStore.State.{MovementRecord, BatchKey, MemoryStore}

unfoldable pub batch_exists : ℕ → ℕ → String → MemoryStore → Bool
batch_exists tenant_id connection_id content_hash s =
    has_key (tenant_id, (connection_id, content_hash)) s.batches

-- the movements whose batch is not the given one
abbrev pub outside_batch : ℕ → MovementRecord → Bool
outside_batch b m = elim m.batch_id [ none ↦ true | some c ↦ not (c == b) ]

unfoldable pub keep_outside :
    ℕ → Dict (ℕ × String) MovementRecord → Dict (ℕ × String) MovementRecord
keep_outside b [] = []
keep_outside b ((k, m) ∷ d) =
    let rest = keep_outside b d in if outside_batch b m then (k, m) ∷ rest else rest

unfoldable pub clear_batch_rows : BatchContext → MemoryStore → MemoryStore × ℕ
unfolding keep_outside
clear_batch_rows ctx s =
    let kept = keep_outside ctx.batch_id s.movements in
    (record s { movements = kept }, length s.movements - length kept)

unfoldable pub open_batch :
    BatchKey
    → BatchContext
    → Bool
    → MemoryStore
    → Option BatchContext
    → Option (MemoryStore × BatchContext)
open_batch key ctx reprocess s (some found) = if reprocess then some (s, found) else none
open_batch key ctx reprocess s none = some (record s { batches = insert key ctx s.batches }, ctx)

-- None is the exception BatchAlreadyExists.
unfoldable pub register_batch :
    (fresh : ℕ) (tenant_id connection_id : ℕ) (country_code platform_code : String)
    → BatchKind
    → String
    → Bool
    → MemoryStore
    → Option (MemoryStore × BatchContext)
unfolding open_batch
register_batch fresh tenant_id connection_id country_code platform_code kind content_hash reprocess
      s =
    let key : BatchKey = (tenant_id, (connection_id, content_hash)) in
    let ctx : BatchContext = record {
      batch_id = fresh;
      tenant_id = tenant_id;
      connection_id = connection_id;
      country_code = country_code;
      platform_code = platform_code;
      kind = kind;
    } in
    open_batch key ctx reprocess s (lookup key s.batches)

unfoldable pub finish_batch : BatchContext → IngestReport → MemoryStore → MemoryStore
finish_batch ctx report s = record s { batch_reports = insert ctx.batch_id report s.batch_reports }

abbrev pub rows_of : Option (List SourceRow) → List SourceRow
rows_of none = []
rows_of (some rows) = rows

unfoldable pub save_source_rows : BatchContext → List SourceRow → MemoryStore → MemoryStore × ℕ
save_source_rows ctx rows s = (
  record s {
    source_rows =
        insert ctx.batch_id (rows_of (lookup ctx.batch_id s.source_rows) ++ rows) s.source_rows;
  },
  length rows,
)
