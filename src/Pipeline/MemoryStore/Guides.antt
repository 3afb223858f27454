-- ===== src/Pipeline/MemoryStore/Guides.antt =====
-- The guides of `MemoryStore` of pipeline/ingest.py: `upsert_shipment` and `_relink_orphans`.
use data_effi.Prelude.{
  ℕ, String, Bool, false, not, ◌&&◌, ◌||◌, Option, none, some, List, [], ◌++◌, map, is_some,
  is_blank, str_eq, ◌==◌, if◌then◌else◌,
}
use data_effi.Prelude.Equality.{nat_eq, string_eq, pair_eq}
use data_effi.Dict.{lookup, insert, map_values}
use data_effi.Pipeline.Models.{
  Value, RowOutcome, ShipmentInput, BatchContext, Discrepancy, UpsertResult,
}
use data_effi.Pipeline.Merge.{ShipmentRecord, MergeOutcome, changed, merge_shipment, apply_merge}
use data_effi.Pipeline.MemoryStore.State.{MovementRecord, MemoryStore}

-- The carrier's number of a guide: a text, or None.
abbrev pub as_text : Option Value → Option String
as_text (some (Value.text t)) = some t
as_text _ = none

abbrev pub carrier_number : ShipmentRecord → Option String
carrier_number r = as_text (r.attr "carrier_tracking_number")

-- `movement.tracking_number_raw in keys`, for the guide's number and the carrier's, if it has one
abbrev pub cites : String → Option String → Option String → Bool
cites tracking carrier none = false
cites tracking none (some raw) = str_eq raw tracking
cites tracking (some number) (some raw) =
    str_eq raw tracking || not (is_blank number) && str_eq raw number

abbrev pub link_waiting : ℕ → String → Option String → ℕ × String → MovementRecord → MovementRecord
link_waiting connection tracking carrier key m =
    if key.0 == connection
      && not (is_some m.shipment_id)
      && cites tracking carrier m.tracking_number_raw
    then record m { shipment_id = some tracking }
    else m

-- `_relink_orphans`: attach waiting movements to a guide that just arrived.
unfoldable pub relink_waiting : BatchContext → String → Option String → MemoryStore → MemoryStore
relink_waiting ctx tracking carrier s = record s {
  movements = map_values (link_waiting ctx.connection_id tracking carrier) s.movements;
}

-- the record of a guide that is seen for the first time
abbrev pub new_record : BatchContext → ShipmentInput → ShipmentRecord
new_record ctx i = record {
  tracking_number = i.tracking_number;
  connection_id = ctx.connection_id;
  tenant_id = ctx.tenant_id;
  country_code = ctx.country_code;
  status_code = i.status_code;
  status_raw = i.status_raw;
  last_status_at = i.last_status_at;
  attr = i.attr;
  money = i.money;
  first_batch_id = some ctx.batch_id;
  last_batch_id = some ctx.batch_id;
}

abbrev pub result : RowOutcome → String → List Discrepancy → UpsertResult
result outcome key ds = record { outcome = outcome; entity_key = key; discrepancies = ds }

-- the branch of a guide that is there
abbrev pub update_shipment :
    BatchContext
    → ShipmentInput
    → ShipmentRecord
    → MemoryStore
    → MergeOutcome
    → MemoryStore × UpsertResult
update_shipment ctx i existing s o =
    let noted = record s {
      discrepancies = s.discrepancies ++ map (λ d. (ctx.batch_id, d)) o.discrepancies;
    } in
    if changed o
    then (
      record noted {
        shipments =
            insert (ctx.connection_id, i.tracking_number)
              (apply_merge existing (record o { last_batch_id = some ctx.batch_id })) s.shipments;
      },
      result RowOutcome.updated i.tracking_number o.discrepancies,
    )
    else (noted, result RowOutcome.skipped i.tracking_number o.discrepancies)

unfoldable pub merge_into :
    BatchContext
    → ShipmentInput
    → ShipmentRecord
    → MemoryStore
    → Option MergeOutcome
    → Option (MemoryStore × UpsertResult)
merge_into ctx i existing s none = none
merge_into ctx i existing s (some o) = some (update_shipment ctx i existing s o)

unfoldable pub store_shipment :
    BatchContext
    → ShipmentInput
    → Option ShipmentRecord
    → MemoryStore
    → Option (MemoryStore × UpsertResult)
unfolding relink_waiting merge_into
store_shipment ctx i none s = some (
  relink_waiting ctx i.tracking_number (as_text (i.attr "carrier_tracking_number")) (record s {
    shipments = insert (ctx.connection_id, i.tracking_number) (new_record ctx i) s.shipments;
  }),
  result RowOutcome.inserted i.tracking_number [],
)
store_shipment ctx i (some existing) s = merge_into ctx i existing s (merge_shipment existing i)

-- None is the KeyError of an unknown status.
unfoldable pub upsert_shipment :
    BatchContext → ShipmentInput → MemoryStore → Option (MemoryStore × UpsertResult)
unfolding store_shipment
upsert_shipment ctx i s =
    store_shipment ctx i (lookup (ctx.connection_id, i.tracking_number) s.shipments) s
