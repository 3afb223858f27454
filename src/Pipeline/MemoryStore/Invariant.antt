-- ===== src/Pipeline/MemoryStore/Invariant.antt =====
-- The consistency of the store, which every method keeps.
pub mod Payments
use data_effi.Prelude.{
  ℕ, String, true, false, not, ◌&&◌, ◌||◌, Option, none, some, List, is_some, is_blank, ◌≡◌, refl,
  sym, ◌∙◌, arith, Bool-cases, Option-cases, inl, inr, subst, str_eq_iff, ==_iff, ◌==◌,
}
use data_effi.Prelude.Equality.{nat_eq, string_eq, pair_eq, same}
use data_effi.Decimal.{decimal_eq}
use data_effi.Dict.{
  Dict, find_key, lookup, insert, has_key, lookup-insert, All, All-lookup, All-insert,
  All-map_values, All-mono, has_key-insert_known, find_key-found,
}
use data_effi.Pipeline.Models.{
  Discrepancy, ShipmentInput, MovementInput, BatchContext, UpsertResult,
}
use data_effi.Pipeline.Merge.{ShipmentRecord, MergeOutcome, changed, apply_merge}
use data_effi.Pipeline.Merge.Fields.{apply_merge-eq-replaced}
use data_effi.Pipeline.MemoryStore.{
  MemoryStore, MovementRecord, empty_store, new_record, as_text, upsert_shipment, upsert_movement,
  find_shipment, has_carrier_number, truthy, new_movement, settle, update_movement, update_shipment,
  relink_waiting, link_waiting,
}
use data_effi.Pipeline.MemoryStore.Shipments.{inserted, upsert_shipment-cases}

-- A guide and a movement stand under their own connection and number.
abbrev pub ShipmentKeyed : ℕ × String → ShipmentRecord → Type 0
ShipmentKeyed k r = (r.connection_id ≡ k.0) × (r.tracking_number ≡ k.1)

abbrev pub MovementKeyed : ℕ × String → MovementRecord → Type 0
MovementKeyed k m = (m.connection_id ≡ k.0) × (m.dedupe_key ≡ k.1)

-- A link leads to a guide of the same connection that is there.
abbrev pub LinkExists : Dict (ℕ × String) ShipmentRecord → ℕ × String → MovementRecord → Type 0
LinkExists d k m = (t : String) → m.shipment_id ≡ some t → has_key (k.0, t) d ≡ true

-- A movement without a link cites no guide that is there by its own number.
abbrev pub NotWaiting : Dict (ℕ × String) ShipmentRecord → ℕ × String → MovementRecord → Type 0
NotWaiting d k m =
    (t : String)
    → m.shipment_id ≡ none
    → m.tracking_number_raw ≡ some t
    → is_blank t ≡ false
    → has_key (k.0, t) d ≡ false

pub record IsConsistent (s : MemoryStore) : Type 0 where
  pub shipments_keyed : All ShipmentKeyed s.shipments
  pub movements_keyed : All MovementKeyed s.movements
  pub links_exist : All (LinkExists s.shipments) s.movements
  pub not_waiting : All (NotWaiting s.shipments) s.movements

pub empty_store-IsConsistent : IsConsistent empty_store
empty_store-IsConsistent = record {
  shipments_keyed = tt;
  movements_keyed = tt;
  links_exist = tt;
  not_waiting = tt;
}

-- A key that is there stays when another is written.
has_key-insert :
    (k j : ℕ × String) (r : ShipmentRecord) (d : Dict (ℕ × String) ShipmentRecord)
    → has_key j (insert k r d) ≡ (same k j || has_key j d)
has_key-insert k j r d = ground (arith, lookup-insert k j r d)

module _ (ctx : BatchContext) (i : ShipmentInput) where
  abbrev key : ℕ × String
  key = (ctx.connection_id, i.tracking_number)

  -- What linking the waiting movements does to one of them.
  abbrev link : ℕ × String → MovementRecord → MovementRecord
  link =
      link_waiting ctx.connection_id i.tracking_number (as_text (i.attr "carrier_tracking_number"))

  link-MovementKeyed :
      (k : ℕ × String) (m : MovementRecord) → MovementKeyed k m → MovementKeyed k (link k m)
  link-MovementKeyed k m h = ground arith

  link-LinkExists :
      (d : Dict (ℕ × String) ShipmentRecord) (k : ℕ × String) (m : MovementRecord)
      → LinkExists d k m
      → LinkExists (insert key (new_record ctx i) d) k (link k m)
  link-LinkExists d k m h t linked = ground (
    arith,
    has_key-insert key (k.0, t) (new_record ctx i) d,
    h t,
    ==_iff k.0 ctx.connection_id,
    ==_iff ctx.connection_id k.0,
    str_eq_iff i.tracking_number t,
  )

  link-NotWaiting :
      (d : Dict (ℕ × String) ShipmentRecord) (k : ℕ × String) (m : MovementRecord)
      → NotWaiting d k m
      → NotWaiting (insert key (new_record ctx i) d) k (link k m)
  link-NotWaiting d k m h t free cited named = ground (
    arith,
    has_key-insert key (k.0, t) (new_record ctx i) d,
    h t,
    ==_iff k.0 ctx.connection_id,
    ==_iff ctx.connection_id k.0,
    str_eq_iff i.tracking_number t,
    str_eq_iff t i.tracking_number,
  )

  update_shipment-IsConsistent :
      (s : MemoryStore) (e : ShipmentRecord) (o : MergeOutcome)
      → lookup key s.shipments ≡ some e
      → IsConsistent s
      → IsConsistent (update_shipment ctx i e s o).0
  update_shipment-IsConsistent s e o found c = elim (Bool-cases (changed o)) [
    | inl moved ↦
        let old = All-lookup ShipmentKeyed s.shipments key e c.shipments_keyed found in
        let x = apply_merge e (record o { last_batch_id = some ctx.batch_id }) in
        let there : has_key key s.shipments ≡ true = rw found in
        rw moved (record {
          shipments_keyed =
              All-insert ShipmentKeyed s.shipments key x c.shipments_keyed
                (rw apply_merge-eq-replaced old);
          movements_keyed = c.movements_keyed;
          links_exist =
              All-mono (LinkExists s.shipments) (LinkExists (insert key x s.shipments)) s.movements
                (λ k m h t l. has_key-insert_known key (k.0, t) x s.shipments there ∙ h t l)
                c.links_exist;
          not_waiting =
              All-mono (NotWaiting s.shipments) (NotWaiting (insert key x s.shipments)) s.movements
                (λ k m h t f r b. has_key-insert_known key (k.0, t) x s.shipments there ∙ h t f r b)
                c.not_waiting;
        })
    | inr still ↦ rw still (record {
      shipments_keyed = c.shipments_keyed;
      movements_keyed = c.movements_keyed;
      links_exist = c.links_exist;
      not_waiting = c.not_waiting;
    })
  ]

  inserted-IsConsistent :
      (s : MemoryStore)
      → lookup key s.shipments ≡ none
      → IsConsistent s
      → IsConsistent (inserted ctx i s).0
  unfolding relink_waiting
  inserted-IsConsistent s absent c = record {
    shipments_keyed =
        All-insert ShipmentKeyed s.shipments key (new_record ctx i) c.shipments_keyed (refl, refl);
    movements_keyed =
        All-map_values MovementKeyed MovementKeyed _ s.movements link-MovementKeyed
          c.movements_keyed;
    links_exist =
        All-map_values (LinkExists s.shipments) _ _ s.movements (link-LinkExists s.shipments)
          c.links_exist;
    not_waiting =
        All-map_values (NotWaiting s.shipments) _ _ s.movements (link-NotWaiting s.shipments)
          c.not_waiting;
  }

  -- If upsert_shipment returns, it keeps the store consistent: guides and movements stand under
  -- their own connection and number, a link leads to a guide of the connection that is there, and
  -- no movement without a link cites the own number of a guide that is there.
  pub upsert_shipment-IsConsistent :
      (s t : MemoryStore) (r : UpsertResult)
      → upsert_shipment ctx i s ≡ some (t, r)
      → IsConsistent s
      → IsConsistent t
  upsert_shipment-IsConsistent s t r h c = elim (upsert_shipment-cases ctx i s (t, r) h) [
    | inl (absent, made) ↦
        subst (λ (q : MemoryStore × UpsertResult). IsConsistent q.0) (sym made)
          (inserted-IsConsistent s absent c)
    | inr (e, o, found, merged, made) ↦
        subst (λ (q : MemoryStore × UpsertResult). IsConsistent q.0) (sym made)
          (update_shipment-IsConsistent s e o found c)
  ]
