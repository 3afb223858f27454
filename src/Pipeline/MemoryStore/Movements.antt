-- ===== src/Pipeline/MemoryStore/Movements.antt =====
-- `upsert_movement`: a movement that is loaded again is neither added nor counted twice.
use mathlib.Core.List.{append-nil}
use data_effi.Prelude.{
  ℕ, String, true, false, not, ◌&&◌, ◌||◌, Option, none, some, [], is_some, ◌≡◌, refl, arith,
  Bool-cases, Option-cases, inl, inr,
}
use data_effi.Prelude.Equality.{nat_eq, string_eq, pair_eq}
use data_effi.Dict.{lookup, lookup-insert_self}
use data_effi.Decimal.{decimal_eq, decimal_eq_refl}
use data_effi.Pipeline.Models.{RowOutcome, MovementInput, BatchContext, UpsertResult}
use data_effi.Pipeline.MemoryStore.{
  MemoryStore, MovementRecord, result, truthy, find_shipment, update_movement, new_movement, settle,
  upsert_movement, entity_key_of,
}

module _ (ctx : BatchContext) (m : MovementInput) where
  abbrev skipped : UpsertResult
  skipped = result RowOutcome.skipped (entity_key_of m) []

  -- A record that has the amount and the link already is left alone.
  update_settled :
      (x : MovementRecord) (f : Option String) (s : MemoryStore)
      → decimal_eq x.amount m.amount ≡ true
      → (truthy f && not (is_some x.shipment_id)) ≡ false
      → update_movement ctx m x f s ≡ (s, skipped)
  update_settled x f s p q = rw (p, q) (rw append-nil)

  truthy-is_some : (f : Option String) → (truthy f && not (is_some f)) ≡ false
  truthy-is_some none = refl
  truthy-is_some (some t) = ground arith

  abbrev key : ℕ × String
  key = (ctx.connection_id, m.dedupe_key)

  -- The record that `upsert_movement` leaves under the movement's key.
  abbrev Settled : Option String → MovementRecord → Type 0
  Settled f x =
      (decimal_eq x.amount m.amount ≡ true) × ((truthy f && not (is_some x.shipment_id)) ≡ false)

  settle-Settled : (x : MovementRecord) (f : Option String) → Settled f (settle m x f)
  settle-Settled x f = (priced, linked)
    where
      priced : decimal_eq (settle m x f).amount m.amount ≡ true
      priced = elim (Bool-cases (decimal_eq x.amount m.amount)) [
        | inl p ↦ rw p p
        | inr p ↦ rw p (decimal_eq_refl m.amount)
      ]

      linked : (truthy f && not (is_some (settle m x f).shipment_id)) ≡ false
      linked = elim (Bool-cases (truthy f && not (is_some x.shipment_id))) [
        | inl q ↦ rw q (truthy-is_some f)
        | inr q ↦ rw q q
      ]

  update_movement-Settled :
      (x : MovementRecord) (f : Option String) (s : MemoryStore)
      → lookup key s.movements ≡ some x
      → (y : MovementRecord) × (lookup key (update_movement ctx m x f s).0.movements ≡ some y)
        × Settled f y
  update_movement-Settled x f s found =
      elim (Bool-cases
        (not (decimal_eq x.amount m.amount) || truthy f && not (is_some x.shipment_id))) [
          | inl moved ↦ (
            settle m x f,
            rw moved (lookup-insert_self key (settle m x f) s.movements),
            settle-Settled x f,
          )
          | inr still ↦ (x, rw still found, ground arith)
        ]

  upsert_movement-Settled :
      (s : MemoryStore)
      → let f = find_shipment ctx.connection_id m.tracking_number_raw s.shipments in
        (y : MovementRecord) × (lookup key (upsert_movement ctx m s).0.movements ≡ some y)
        × Settled f y
  unfolding upsert_movement
  upsert_movement-Settled s =
      let f = find_shipment ctx.connection_id m.tracking_number_raw s.shipments in
      elim (Option-cases (lookup key s.movements)) [
        | inl absent ↦ (
          new_movement ctx m f,
          rw absent (lookup-insert_self key (new_movement ctx m f) s.movements),
          (decimal_eq_refl m.amount, truthy-is_some f),
        )
        | inr (x, found) ↦ rw found (update_movement-Settled x f s found)
      ]

  pub upsert_movement-shipments :
      (s : MemoryStore) → (upsert_movement ctx m s).0.shipments ≡ s.shipments
  unfolding upsert_movement
  upsert_movement-shipments s = elim (Option-cases (lookup key s.movements)) [
    | inl absent ↦ rw absent
    | inr (x, found) ↦ rw found
  ]

  -- Neither the guides nor the batches are touched.
  pub upsert_movement-batches : (s : MemoryStore) → (upsert_movement ctx m s).0.batches ≡ s.batches
  unfolding upsert_movement
  upsert_movement-batches s = elim (Option-cases (lookup key s.movements)) [
    | inl absent ↦ rw absent
    | inr (x, found) ↦ rw found
  ]

  -- Upserting the same movement right after it was upserted is skipped without a discrepancy and
  -- leaves the store as it is.
  pub upsert_movement_again :
      (s : MemoryStore)
      → let s' = (upsert_movement ctx m s).0 in upsert_movement ctx m s' ≡ (s', skipped)
  unfolding upsert_movement
  upsert_movement_again s =
      let (y, found, now) = upsert_movement-Settled s in
      rw (upsert_movement-shipments s, found)
        (update_settled y (find_shipment ctx.connection_id m.tracking_number_raw s.shipments)
          (upsert_movement ctx m s).0 now.0 now.1)
