-- ===== src/Pipeline/MemoryStore/Many.antt =====
-- `upsert_shipments` and `upsert_movements` of `MemoryStore` of pipeline/ingest.py.
use data_effi.Prelude.{Option, none, some, List, [], ◌∷◌}
use data_effi.Prelude.Equality.{nat_eq, string_eq, pair_eq}
use data_effi.Pipeline.Models.{ShipmentInput, MovementInput, BatchContext, UpsertResult}
use data_effi.Pipeline.MemoryStore.State.{MemoryStore}
use data_effi.Pipeline.MemoryStore.Guides.{upsert_shipment}
use data_effi.Pipeline.MemoryStore.Payments.{upsert_movement}

abbrev pub with_first :
    UpsertResult
    → Option (MemoryStore × List UpsertResult)
    → Option (MemoryStore × List UpsertResult)
with_first r none = none
with_first r (some (s, rs)) = some (s, r ∷ rs)

abbrev pub then_rest :
    Option (MemoryStore × UpsertResult)
    → (MemoryStore → Option (MemoryStore × List UpsertResult))
    → Option (MemoryStore × List UpsertResult)
then_rest none rest = none
then_rest (some (s, r)) rest = with_first r (rest s)

unfoldable pub upsert_shipments :
    BatchContext → List ShipmentInput → MemoryStore → Option (MemoryStore × List UpsertResult)
upsert_shipments ctx [] s = some (s, [])
upsert_shipments ctx (i ∷ is) s = then_rest (upsert_shipment ctx i s) (upsert_shipments ctx is)

unfoldable pub upsert_movements :
    BatchContext → List MovementInput → MemoryStore → MemoryStore × List UpsertResult
upsert_movements ctx [] s = (s, [])
upsert_movements ctx (m ∷ ms) s =
    let (s', r) = upsert_movement ctx m s in let (t, rs) = upsert_movements ctx ms s' in (t, r ∷ rs)
