-- ===== src/Pipeline/MemoryStore/Invariant/Payments.antt =====
-- `upsert_movement` keeps the consistency of the store.
use data_effi.Prelude.{
  ℕ, String, true, false, not, ◌&&◌, ◌||◌, Option, none, some, List, is_some, is_blank, ◌≡◌, refl,
  arith, Bool-cases, Option-cases, inl, inr, subst, ==_iff, ◌==◌,
}
use data_effi.Prelude.Equality.{nat_eq, string_eq, pair_eq}
use data_effi.Decimal.{decimal_eq}
use data_effi.Dict.{Dict, find_key, lookup, insert, has_key, All-lookup, All-insert, find_key-found}
use data_effi.Pipeline.Models.{Discrepancy, MovementInput, BatchContext}
use data_effi.Pipeline.Merge.{ShipmentRecord}
use data_effi.Pipeline.MemoryStore.{
  MemoryStore, MovementRecord, upsert_movement, find_shipment, has_carrier_number, truthy,
  new_movement, settle, update_movement,
}
use data_effi.Pipeline.MemoryStore.Invariant.{IsConsistent, MovementKeyed, LinkExists, NotWaiting}

module _ (connection : ℕ) (d : Dict (ℕ × String) ShipmentRecord) where
  by_carrier_found :
      (k : ℕ × String) (t : String)
      → has_key k d ≡ true
      → k.0 ≡ connection
      → k.1 ≡ t
      → has_key (connection, t) d ≡ true
  by_carrier_found k t there same_connection same_number =
      subst (λ (c : ℕ). has_key (c, t) d ≡ true) same_connection
        (subst (λ (n : String). has_key (k.0, n) d ≡ true) same_number there)

  -- The guide that a movement is linked to is there, under the movement's connection.
  find_shipment-exists :
      (raw : Option String) (t : String)
      → find_shipment connection raw d ≡ some t
      → has_key (connection, t) d ≡ true
  unfolding find_shipment
  find_shipment-exists none t h = cc
  find_shipment-exists (some raw) t h =
      elim (Option-cases (find_key (λ k r. k.0 == connection && has_carrier_number r raw) d)) [
        | inl nowhere ↦ ground arith
        | inr (k, found) ↦
            let (there, (r, passes)) =
              find_key-found (λ k r. k.0 == connection && has_carrier_number r raw) d k found in
            ground (arith, by_carrier_found k t there, ==_iff k.0 connection)
      ]

  -- Where none is found, there is none under the number that is cited.
  find_shipment-none :
      (raw : String)
      → find_shipment connection (some raw) d ≡ none
      → is_blank raw ≡ false
      → has_key (connection, raw) d ≡ false
  unfolding find_shipment
  find_shipment-none raw h b = ground arith

module _ (ctx : BatchContext) (m : MovementInput) where
  abbrev movement_key : ℕ × String
  movement_key = (ctx.connection_id, m.dedupe_key)

  -- Writing a good movement under its key keeps the store consistent.
  put_movement-IsConsistent :
      (s : MemoryStore) (x : MovementRecord)
      → MovementKeyed movement_key x
      → LinkExists s.shipments movement_key x
      → NotWaiting s.shipments movement_key x
      → IsConsistent s
      → IsConsistent (record s { movements = insert movement_key x s.movements })
  put_movement-IsConsistent s x keyed linked free c = record {
    shipments_keyed = c.shipments_keyed;
    movements_keyed = All-insert MovementKeyed s.movements movement_key x c.movements_keyed keyed;
    links_exist =
        All-insert (LinkExists s.shipments) s.movements movement_key x c.links_exist linked;
    not_waiting = All-insert (NotWaiting s.shipments) s.movements movement_key x c.not_waiting free;
  }

  -- So does a longer list of discrepancies.
  noted-IsConsistent :
      (s : MemoryStore) (ds : List (ℕ × Discrepancy))
      → IsConsistent s
      → IsConsistent (record s { discrepancies = ds })
  noted-IsConsistent s ds c = record {
    shipments_keyed = c.shipments_keyed;
    movements_keyed = c.movements_keyed;
    links_exist = c.links_exist;
    not_waiting = c.not_waiting;
  }

  new_movement-NotWaiting :
      (s : MemoryStore)
      → NotWaiting s.shipments movement_key
          (new_movement ctx m (find_shipment ctx.connection_id m.tracking_number_raw s.shipments))
  new_movement-NotWaiting s t unlinked cites solid =
      find_shipment-none ctx.connection_id s.shipments t (rw cites at unlinked) solid

  settle-LinkExists :
      (s : MemoryStore) (x : MovementRecord)
      → LinkExists s.shipments movement_key x
      → LinkExists s.shipments movement_key
          (settle m x (find_shipment ctx.connection_id m.tracking_number_raw s.shipments))
  settle-LinkExists s x h t linked =
      ground
        (arith, h t, find_shipment-exists ctx.connection_id s.shipments m.tracking_number_raw t)

  settle-NotWaiting :
      (s : MemoryStore) (x : MovementRecord) (f : Option String)
      → NotWaiting s.shipments movement_key x
      → NotWaiting s.shipments movement_key (settle m x f)
  settle-NotWaiting s x f h t free cites solid = ground (arith, h t)

  update_movement-IsConsistent :
      (s : MemoryStore) (x : MovementRecord)
      → lookup movement_key s.movements ≡ some x
      → IsConsistent s
      → IsConsistent
          (update_movement ctx m x
            (find_shipment ctx.connection_id m.tracking_number_raw s.shipments)
            s).0
  update_movement-IsConsistent s x found c =
      let f = find_shipment ctx.connection_id m.tracking_number_raw s.shipments in
      let keyed = All-lookup MovementKeyed s.movements movement_key x c.movements_keyed found in
      let linked =
        All-lookup (LinkExists s.shipments) s.movements movement_key x c.links_exist found in
      let free =
        All-lookup (NotWaiting s.shipments) s.movements movement_key x c.not_waiting found in
      elim (Bool-cases
        (not (decimal_eq x.amount m.amount) || truthy f && not (is_some x.shipment_id))) [
          | inl moved ↦ rw moved (
              noted-IsConsistent
                (record s { movements = insert movement_key (settle m x f) s.movements }) _
                (put_movement-IsConsistent s (settle m x f) keyed (settle-LinkExists s x linked)
                  (settle-NotWaiting s x f free) c))
          | inr still ↦ rw still (noted-IsConsistent s _ c)
        ]

  -- upsert_movement keeps the store consistent, whether the movement is new or is there already.
  pub upsert_movement-IsConsistent :
      (s : MemoryStore) → IsConsistent s → IsConsistent (upsert_movement ctx m s).0
  unfolding upsert_movement
  upsert_movement-IsConsistent s c = elim (Option-cases (lookup movement_key s.movements)) [
    | inl absent ↦
        let f = find_shipment ctx.connection_id m.tracking_number_raw s.shipments in
        rw absent (
          put_movement-IsConsistent s (new_movement ctx m f) (refl, refl)
            (find_shipment-exists ctx.connection_id s.shipments m.tracking_number_raw)
            (new_movement-NotWaiting s) c)
    | inr (x, found) ↦ rw found (update_movement-IsConsistent s x found c)
  ]
