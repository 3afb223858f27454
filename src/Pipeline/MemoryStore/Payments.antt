-- ===== src/Pipeline/MemoryStore/Payments.antt =====
-- The movements of `MemoryStore` of pipeline/ingest.py: `upsert_movement`.
use data_effi.Prelude.{
  ℕ, String, Bool, false, not, ◌&&◌, ◌||◌, Option, none, some, List, [], ◌∷◌, ◌++◌, map, is_some,
  is_blank, str_eq, ◌==◌, if◌then◌else◌, take,
}
use data_effi.Prelude.Equality.{nat_eq, string_eq, pair_eq}
use data_effi.Dict.{Dict, lookup, insert, has_key, find_key}
use data_effi.Decimal.{decimal_eq}
use data_effi.Pipeline.Models.{
  RowOutcome, MovementInput, BatchContext, Discrepancy, Entity, UpsertResult,
}
use data_effi.Pipeline.Merge.{ShipmentRecord}
use data_effi.Pipeline.MemoryStore.State.{MovementRecord, MemoryStore}
use data_effi.Pipeline.MemoryStore.Guides.{carrier_number, result}

-- `external_ref or dedupe_key[:12]`
abbrev pub entity_key_of : MovementInput → String
entity_key_of m = elim m.external_ref [
  | none ↦ take 12 m.dedupe_key
  | some ref ↦ if is_blank ref then take 12 m.dedupe_key else ref
]

abbrev pub is_number : Option String → String → Bool
is_number none raw = false
is_number (some number) raw = str_eq number raw

abbrev pub has_carrier_number : ShipmentRecord → String → Bool
has_carrier_number r raw = is_number (carrier_number r) raw

-- The guide that a movement cites: by the guide's own number, else by the carrier's.
unfoldable pub find_shipment : ℕ → Option String → Dict (ℕ × String) ShipmentRecord → Option String
find_shipment connection none d = none
find_shipment connection (some raw) d =
    if is_blank raw
    then none
    else if has_key (connection, raw) d
    then some raw
    else elim (find_key (λ k r. k.0 == connection && has_carrier_number r raw) d) [
      | none ↦ none
      | some k ↦ some k.1
    ]

-- `if shipment_id and …`: a tracking number is a text, and may be empty
abbrev pub truthy : Option String → Bool
truthy none = false
truthy (some s) = not (is_blank s)

abbrev pub new_movement : BatchContext → MovementInput → Option String → MovementRecord
new_movement ctx m shipment_id = record {
  dedupe_key = m.dedupe_key;
  connection_id = ctx.connection_id;
  tenant_id = ctx.tenant_id;
  country_code = ctx.country_code;
  movement_type_code = m.movement_type_code;
  movement_date = m.movement_date;
  amount = m.amount;
  currency_code = m.currency_code;
  tracking_number_raw = m.tracking_number_raw;
  external_ref = m.external_ref;
  description = m.description;
  shipment_id = shipment_id;
  batch_id = some ctx.batch_id;
}

-- the movement after its amount and its link are brought up to date
abbrev pub settle : MovementInput → MovementRecord → Option String → MovementRecord
settle m existing shipment_id = record existing {
  amount = if not (decimal_eq existing.amount m.amount) then m.amount else existing.amount;
  shipment_id =
      if truthy shipment_id && not (is_some existing.shipment_id)
      then shipment_id
      else existing.shipment_id;
}

-- the branch of a movement that is there: a new amount wins, and a missing link is filled
abbrev pub update_movement :
    BatchContext
    → MovementInput
    → MovementRecord
    → Option String
    → MemoryStore
    → MemoryStore × UpsertResult
update_movement ctx m existing shipment_id s =
    let repriced = not (decimal_eq existing.amount m.amount) in
    let linked = truthy shipment_id && not (is_some existing.shipment_id) in
    let ds : List Discrepancy =
      if repriced
      then (record {
        entity = Entity.movement;
        entity_key = entity_key_of m;
        field_name = "amount";
        old_value = existing.amount;
        new_value = m.amount;
      })
        ∷ []
      else [] in
    (
      record s {
        movements =
            if repriced || linked
            then insert (ctx.connection_id, m.dedupe_key) (settle m existing shipment_id)
                s.movements
            else s.movements;
        discrepancies = s.discrepancies ++ map (λ d. (ctx.batch_id, d)) ds;
      },
      result (if repriced || linked then RowOutcome.updated else RowOutcome.skipped)
          (entity_key_of m) ds,
    )

unfoldable pub store_movement :
    BatchContext
    → MovementInput
    → Option String
    → Option MovementRecord
    → MemoryStore
    → MemoryStore × UpsertResult
store_movement ctx m shipment_id none s = (
  record s {
    movements =
        insert (ctx.connection_id, m.dedupe_key) (new_movement ctx m shipment_id) s.movements;
  },
  result RowOutcome.inserted (entity_key_of m) [],
)
store_movement ctx m shipment_id (some existing) s = update_movement ctx m existing shipment_id s

unfoldable pub upsert_movement :
    BatchContext → MovementInput → MemoryStore → MemoryStore × UpsertResult
unfolding store_movement
upsert_movement ctx m s =
    store_movement ctx m (find_shipment ctx.connection_id m.tracking_number_raw s.shipments)
      (lookup (ctx.connection_id, m.dedupe_key) s.movements) s
