-- ===== src/Pipeline/Engine/Consistent.antt =====
-- What `IngestEngine.ingest` of pipeline/ingest.py does to the store's links.
use data_effi.Prelude.{Bool, true, false, some, List, ◌≡◌}
use data_effi.Pipeline.Models.{BatchContext, IngestReport}
use data_effi.Pipeline.Rows.{Engine}
use data_effi.Pipeline.Profiles.{SourceProfile}
use data_effi.Pipeline.MemoryStore.{MemoryStore, save_source_rows, finish_batch}
use data_effi.Pipeline.MemoryStore.Invariant.{IsConsistent, upsert_shipment-IsConsistent}
use data_effi.Pipeline.MemoryStore.Invariant.Payments.{upsert_movement-IsConsistent}
use data_effi.Pipeline.MemoryStore.Batches.{
  clear_batch_rows-IsConsistent, register_batch-store, opened-IsConsistent,
}
use data_effi.Pipeline.Engine.Keeps.{IsKept}
use data_effi.Pipeline.Engine.Upload.{Upload}
use data_effi.Pipeline.Engine.Loading.{ingest, cleared}
use data_effi.Pipeline.Engine.Accounts.{OnResult-some, Good, ingest-Good}

-- The consistency of the store is kept by the writes of the engine.
kept-IsConsistent : IsKept IsConsistent
unfolding save_source_rows
kept-IsConsistent = record {
  by_shipment = λ ctx i s t u. upsert_shipment-IsConsistent ctx i s t u;
  by_movement = λ ctx m s. upsert_movement-IsConsistent ctx m s;
  by_rows = λ ctx rows s c. record {
    shipments_keyed = c.shipments_keyed;
    movements_keyed = c.movements_keyed;
    links_exist = c.links_exist;
    not_waiting = c.not_waiting;
  };
}

finish-IsConsistent :
    (ctx : BatchContext) (r : IngestReport) (s : MemoryStore)
    → IsConsistent s
    → IsConsistent (finish_batch ctx r s)
unfolding finish_batch
finish-IsConsistent ctx r s c = record {
  shipments_keyed = c.shipments_keyed;
  movements_keyed = c.movements_keyed;
  links_exist = c.links_exist;
  not_waiting = c.not_waiting;
}

cleared-IsConsistent :
    (reprocess : Bool) (ctx : BatchContext) (s : MemoryStore)
    → IsConsistent s
    → IsConsistent (cleared reprocess ctx s)
unfolding cleared
cleared-IsConsistent true ctx s c = clear_batch_rows-IsConsistent ctx s c
cleared-IsConsistent false ctx s c = c

-- If a load of a file returns, on whichever branch, it keeps the store consistent.
pub ingest-IsConsistent :
    (e : Engine) (profiles : List SourceProfile) (u : Upload) (s t : MemoryStore)
    (report : IngestReport)
    → ingest e profiles u s ≡ some (t, report)
    → IsConsistent s
    → IsConsistent t
ingest-IsConsistent e profiles u s t report h c =
    (OnResult-some (Good IsConsistent kept-IsConsistent finish-IsConsistent) (ingest e profiles u s)
      (t, report) h
      (ingest-Good IsConsistent kept-IsConsistent finish-IsConsistent e profiles u s (λ h. c)
        (λ opened ctx registered.
          let (guides, payments) =
            register_batch-store u.fresh u.tenant_id u.connection_id u.country_code u.platform_code
              u.kind u.digest s opened u.reprocess ctx registered in
          cleared-IsConsistent u.reprocess ctx opened
            (opened-IsConsistent s opened guides payments c)))).0
