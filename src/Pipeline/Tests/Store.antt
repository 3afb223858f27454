-- ===== src/Pipeline/Tests/Store.antt =====
-- The store of pipeline/ingest.py at concrete rows.
use data_effi.Prelude.{true, false, some, none, [], ◌≡◌, refl}
use data_effi.Prelude.Equality.{nat_eq, string_eq, pair_eq}
use data_effi.Dict.{lookup, insert, map_values, find_key}
use data_effi.Pipeline.Mapping.Status.{CanonStatus, canon}
use data_effi.Pipeline.Models.{RowOutcome, UpsertResult}
use data_effi.Pipeline.MemoryStore.{
  MemoryStore, empty_store, upsert_shipment, upsert_movement, relink_orphans, relink_waiting,
  BatchKey, new_movement, new_record, by_carrier_number, find_shipment,
}
use data_effi.Pipeline.MemoryStore.Shipments.{inserted, upsert_shipment_again}
use data_effi.Pipeline.MemoryStore.Movements.{upsert_movement_again}
use data_effi.Pipeline.MemoryStore.Invariant.{
  IsConsistent, empty_store-IsConsistent, upsert_shipment-IsConsistent,
}
use data_effi.Pipeline.MemoryStore.Invariant.Payments.{upsert_movement-IsConsistent}
use data_effi.Pipeline.Tests.{row, context, payment}

-- the store after the payment, which comes before its guide
abbrev paid : MemoryStore
paid = (upsert_movement context payment empty_store).0

-- and after the guide, which takes the waiting payment
abbrev loaded : MemoryStore × UpsertResult
loaded = inserted context row paid

is_loaded : upsert_shipment context row paid ≡ some loaded
unfolding upsert_shipment upsert_movement lookup relink_waiting
is_loaded = refl

links_payment :
    lookup (7, "k1") loaded.0.movements
    ≡ some (record (new_movement context payment none) { shipment_id = some "G1" })
unfolding upsert_movement lookup relink_waiting map_values insert find_shipment find_key
links_payment = refl

abbrev delivered : CanonStatus
delivered = record {
  code = "delivered";
  label = "Entregada";
  sort_order = 60;
  is_terminal = true;
  is_delivered = true;
  is_returned = false;
  bucket = "delivered";
}

is_delivered : canon row.status_code ≡ some delivered
unfolding canon lookup
is_delivered = refl

upsert_shipment_again_example :
    upsert_shipment context row loaded.0
    ≡ some
        (loaded.0, record { outcome = RowOutcome.skipped; entity_key = "G1"; discrepancies = [] })
upsert_shipment_again_example =
    upsert_shipment_again context row paid loaded.0 loaded.1 delivered is_delivered is_loaded

upsert_movement_again_example :
    upsert_movement context payment paid
    ≡ (paid, record { outcome = RowOutcome.skipped; entity_key = "R1"; discrepancies = [] })
upsert_movement_again_example = upsert_movement_again context payment empty_store

upsert_movement-IsConsistent_example : IsConsistent paid
upsert_movement-IsConsistent_example =
    upsert_movement-IsConsistent context payment empty_store empty_store-IsConsistent

upsert_shipment-IsConsistent_example : IsConsistent loaded.0
upsert_shipment-IsConsistent_example =
    upsert_shipment-IsConsistent context row paid loaded.0 loaded.1 is_loaded
      (upsert_movement-IsConsistent context payment empty_store empty_store-IsConsistent)

-- A guide that arrives by another way than `upsert_shipment`, so the payment is still waiting.
abbrev waiting : MemoryStore
waiting = record paid { shipments = insert (7, "G1") (new_record context row) [] }

links_one : (relink_orphans none waiting).1 ≡ 1
unfolding relink_orphans upsert_movement lookup insert by_carrier_number find_shipment find_key
links_one = refl

abbrev batch_key : BatchKey
batch_key = (1, (7, "d1"))

abbrev opened : MemoryStore
opened = record empty_store { batches = insert batch_key context [] }
