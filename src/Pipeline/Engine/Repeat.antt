-- ===== src/Pipeline/Engine/Repeat.antt =====
-- The same bytes, loaded twice: `ingest` of pipeline/ingest.py refuses the second load.
use data_effi.Prelude.{
  ℕ, String, Bool, true, false, none, some, List, ◌≡◌, refl, ◌∙◌, ap, arith, Bool-cases, inl, inr,
  ◌⊎◌, not, ◌&&◌,
}
use data_effi.Prelude.Equality.{nat_eq, string_eq, pair_eq}
use data_effi.Pipeline.Models.{ShipmentInput, BatchContext, UpsertResult, IngestReport}
use data_effi.Pipeline.Merge.{ShipmentRecord, MergeOutcome, changed}
use data_effi.Pipeline.Rows.{Engine}
use data_effi.Pipeline.Profiles.{SourceProfile}
use data_effi.Pipeline.MemoryStore.{
  MemoryStore, batch_exists, upsert_shipment, upsert_movement, update_shipment, relink_waiting,
  save_source_rows, finish_batch, clear_batch_rows,
}
use data_effi.Pipeline.MemoryStore.Shipments.{upsert_shipment-cases}
use data_effi.Pipeline.MemoryStore.Movements.{upsert_movement-batches}
use data_effi.Pipeline.MemoryStore.Batches.{register_batch-exists, register_batch_once}
use data_effi.Pipeline.Engine.Keeps.{IsKept}
use data_effi.Pipeline.Engine.Accounts.{OnResult-some, Good, ingest-Good}
use data_effi.Pipeline.Engine.Upload.{Upload, already_loaded_report}
use data_effi.Pipeline.Engine.Loading.{ingest, registered, cleared}

update_shipment-batches :
    (ctx : BatchContext) (i : ShipmentInput) (e : ShipmentRecord) (s : MemoryStore)
    (o : MergeOutcome)
    → (update_shipment ctx i e s o).0.batches ≡ s.batches
update_shipment-batches ctx i e s o = elim (Bool-cases (changed o)) [
  | inl moved ↦ rw moved
  | inr still ↦ rw still
]

-- No write of a row touches the table of batches.
upsert_shipment-batches :
    (ctx : BatchContext) (i : ShipmentInput) (s t : MemoryStore) (u : UpsertResult)
    → upsert_shipment ctx i s ≡ some (t, u)
    → t.batches ≡ s.batches
unfolding relink_waiting
upsert_shipment-batches ctx i s t u h = elim (upsert_shipment-cases ctx i s (t, u) h) [
  | inl (absent, made) ↦ ap (λ (q : MemoryStore × UpsertResult). q.0.batches) made
  | inr (e, o, found, merged, made) ↦
      ap (λ (q : MemoryStore × UpsertResult). q.0.batches) made
      ∙ update_shipment-batches ctx i e s o
]

module _ (tenant connection : ℕ) (digest : String) where
  abbrev IsLoaded : MemoryStore → Type 0
  IsLoaded s = batch_exists tenant connection digest s ≡ true

  same_batches : (s t : MemoryStore) → t.batches ≡ s.batches → IsLoaded s → IsLoaded t
  unfolding batch_exists
  same_batches s t same h = rw same h

  kept-IsLoaded : IsKept IsLoaded
  unfolding save_source_rows
  kept-IsLoaded = record {
    by_shipment = λ ctx i s t u h. same_batches s t (upsert_shipment-batches ctx i s t u h);
    by_movement =
        λ ctx m s. same_batches s (upsert_movement ctx m s).0 (upsert_movement-batches ctx m s);
    by_rows = λ ctx rows s. same_batches s (save_source_rows ctx rows s).0 refl;
  }

  finish-IsLoaded :
      (ctx : BatchContext) (r : IngestReport) (s : MemoryStore)
      → IsLoaded s
      → IsLoaded (finish_batch ctx r s)
  unfolding finish_batch
  finish-IsLoaded ctx r s = same_batches s (finish_batch ctx r s) refl

  cleared-IsLoaded :
      (reprocess : Bool) (ctx : BatchContext) (s : MemoryStore)
      → IsLoaded s
      → IsLoaded (cleared reprocess ctx s)
  unfolding cleared clear_batch_rows
  cleared-IsLoaded true ctx s h = same_batches s (clear_batch_rows ctx s).0 refl h
  cleared-IsLoaded false ctx s h = h

-- Both refusals mean that the file is there, and opening its batch puts it there.
idle :
    (u : Upload) (s : MemoryStore)
    → (batch_exists u.tenant_id u.connection_id u.digest s ≡ true) ⊎ (registered u s ≡ none)
    → IsLoaded u.tenant_id u.connection_id u.digest s
idle u s (inl known) = known
idle u s (inr refused) =
    register_batch-exists u.fresh u.tenant_id u.connection_id u.country_code u.platform_code u.kind
      u.digest s u.reprocess refused

opens :
    (u : Upload) (s t : MemoryStore) (ctx : BatchContext)
    → registered u s ≡ some (t, ctx)
    → IsLoaded u.tenant_id u.connection_id u.digest (cleared u.reprocess ctx t)
opens u s t ctx h =
    cleared-IsLoaded u.tenant_id u.connection_id u.digest u.reprocess ctx t
      (register_batch_once u.fresh u.tenant_id u.connection_id u.country_code u.platform_code u.kind
        u.digest s t u.reprocess ctx h).0

-- If a load returns, then a load of the same bytes for the same tenant and connection without
-- reprocess, by whatever engine, is reported as already loaded and leaves the store as it is.
pub ingest_twice :
    (e f : Engine) (profiles others : List SourceProfile) (u v : Upload) (s t : MemoryStore)
    (report : IngestReport)
    → ingest e profiles u s ≡ some (t, report)
    → v.tenant_id ≡ u.tenant_id
    → v.connection_id ≡ u.connection_id
    → v.digest ≡ u.digest
    → v.reprocess ≡ false
    → ingest f others v t ≡ some (t, already_loaded_report v)
unfolding ingest
ingest_twice e f profiles others u v s t report h same_tenant same_connection same_digest once =
    let loaded =
      (OnResult-some
        (Good (IsLoaded u.tenant_id u.connection_id u.digest)
          (kept-IsLoaded u.tenant_id u.connection_id u.digest)
          (finish-IsLoaded u.tenant_id u.connection_id u.digest))
        (ingest e profiles u s) (t, report) h
        (ingest-Good (IsLoaded u.tenant_id u.connection_id u.digest)
          (kept-IsLoaded u.tenant_id u.connection_id u.digest)
          (finish-IsLoaded u.tenant_id u.connection_id u.digest) e profiles u s (λ h. idle u s h)
          (λ opened ctx registered. opens u s opened ctx registered))).0 in
    let here : batch_exists v.tenant_id v.connection_id v.digest t ≡ true =
      rw (same_tenant, same_connection, same_digest) loaded in
    let test : (not v.reprocess && batch_exists v.tenant_id v.connection_id v.digest t) ≡ true =
      ground arith in
    rw test
