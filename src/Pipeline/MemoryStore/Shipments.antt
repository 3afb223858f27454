-- ===== src/Pipeline/MemoryStore/Shipments.antt =====
-- `upsert_shipment`: a guide that is loaded again changes nothing.
use mathlib.Core.List.{append-nil}
use data_effi.Prelude.{
  ℕ, String, false, Option, none, some, [], ◌≡◌, refl, sym, ◌∙◌, ap, arith, Bool-cases,
  Option-cases, inl, inr, ◌⊎◌, some_inj, subst,
}
use data_effi.Prelude.Equality.{nat_eq, string_eq, pair_eq}
use data_effi.Dict.{lookup, insert, lookup-insert_self}
use data_effi.Decimal.{Decimal, decimal_eq_refl}
use data_effi.Pipeline.Mapping.Status.{CanonStatus, canon}
use data_effi.Pipeline.Models.{
  Value, value_eq_refl, RowOutcome, ShipmentInput, BatchContext, UpsertResult,
}
use data_effi.Pipeline.Merge.{
  ShipmentRecord, MergeOutcome, changed, newer, may_advance, merge_shipment, apply_merge, replaced,
}
use data_effi.Pipeline.Merge.Loops.{gap, refreshed, revalued}
use data_effi.Pipeline.Merge.Fields.{apply_merge-eq-replaced}
use data_effi.Pipeline.Merge.Idempotence.{IsSettled, apply_merge-IsSettled, merge_settled}
use data_effi.Pipeline.MemoryStore.{
  MemoryStore, result, update_shipment, new_record, as_text, upsert_shipment, relink_waiting,
}

gap_self : (v : Option Value) → gap v v ≡ none
gap_self none = refl
gap_self (some v) = refl

refreshed_self : (v : Option Value) → refreshed v v ≡ none
refreshed_self none = refl
refreshed_self (some v) = rw value_eq_refl

revalued_self : (v : Option Decimal) → revalued v v ≡ none
revalued_self none = refl
revalued_self (some v) = rw decimal_eq_refl

newer_self : (t : Option ℕ) → newer t t ≡ none
unfolding newer
newer_self none = refl
newer_self (some t) = ground arith

-- A new record is settled for the row that it was made of.
new_record-IsSettled :
    (ctx : BatchContext) (i : ShipmentInput) (p : CanonStatus)
    → canon i.status_code ≡ some p
    → IsSettled (new_record ctx i) i
unfolding may_advance
new_record-IsSettled ctx i p hp = record {
  current = p;
  proposed = p;
  has_current = hp;
  has_proposed = hp;
  stays = ground arith;
  seen = newer_self i.last_status_at;
  statics = λ n m. gap_self (i.attr n);
  progress = λ n m. refreshed_self (i.attr n);
  money = λ n m. revalued_self (i.money n);
}

-- The merge does not look at the batch that a record came from.
batch-IsSettled :
    (e : ShipmentRecord) (i : ShipmentInput) (b : Option ℕ)
    → IsSettled e i
    → IsSettled (record e { last_batch_id = b }) i
batch-IsSettled e i b s = record {
  current = s.current;
  proposed = s.proposed;
  has_current = s.has_current;
  has_proposed = s.has_proposed;
  stays = s.stays;
  seen = s.seen;
  statics = s.statics;
  progress = s.progress;
  money = s.money;
}

module _ (ctx : BatchContext) (i : ShipmentInput) where
  abbrev skipped : UpsertResult
  skipped = result RowOutcome.skipped i.tracking_number []

  abbrev key : ℕ × String
  key = (ctx.connection_id, i.tracking_number)

  abbrev pub inserted : MemoryStore → MemoryStore × UpsertResult
  inserted s = (
    relink_waiting ctx i.tracking_number (as_text (i.attr "carrier_tracking_number"))
        (record s { shipments = insert key (new_record ctx i) s.shipments }),
    result RowOutcome.inserted i.tracking_number [],
  )

  -- The two ways in which `upsert_shipment` returns.
  pub upsert_shipment-cases :
      (s : MemoryStore) (q : MemoryStore × UpsertResult)
      → upsert_shipment ctx i s ≡ some q
      → ((lookup key s.shipments ≡ none) × (q ≡ inserted s))
        ⊎ ((e : ShipmentRecord) × (o : MergeOutcome) × (lookup key s.shipments ≡ some e)
            × (merge_shipment e i ≡ some o)
            × (q ≡ update_shipment ctx i e s o))
  unfolding upsert_shipment
  upsert_shipment-cases s q h = elim (Option-cases (lookup key s.shipments)) [
    | inl absent ↦
        let made : upsert_shipment ctx i s ≡ some (inserted s) = rw absent in
        inl (absent, some_inj (sym h ∙ made))
    | inr (e, found) ↦ elim (Option-cases (merge_shipment e i)) [
      | inl unknown ↦
          let made : upsert_shipment ctx i s ≡ none = rw (found, unknown) in cc (sym h ∙ made)
      | inr (o, merged) ↦
          let made : upsert_shipment ctx i s ≡ some (update_shipment ctx i e s o) =
            rw (found, merged) in
          inr (e, o, found, merged, some_inj (sym h ∙ made))
    ]
  ]

  -- A guide whose record is settled for the row is skipped.
  upsert_settled :
      (s : MemoryStore) (e : ShipmentRecord)
      → lookup key s.shipments ≡ some e
      → IsSettled e i
      → upsert_shipment ctx i s ≡ some (s, skipped)
  unfolding upsert_shipment changed
  upsert_settled s e found settled = rw found (rw (merge_settled e i settled) (rw append-nil))

  IsSettled-after :
      (e : ShipmentRecord) (o : MergeOutcome)
      → merge_shipment e i ≡ some o
      → IsSettled (apply_merge e (record o { last_batch_id = some ctx.batch_id })) i
  IsSettled-after e o merged =
      let base : IsSettled (replaced e o) i =
        subst (λ (x : ShipmentRecord). IsSettled x i) (apply_merge-eq-replaced e o)
          (apply_merge-IsSettled e i merged) in
      subst (λ (x : ShipmentRecord). IsSettled x i)
        (sym (apply_merge-eq-replaced e (record o { last_batch_id = some ctx.batch_id })))
        (batch-IsSettled (replaced e o) i (some ctx.batch_id) base)

  unmoved : (e : ShipmentRecord) (o : MergeOutcome) → changed o ≡ false → apply_merge e o ≡ e
  unfolding apply_merge
  unmoved e o still = rw still

  update_shipment-IsSettled :
      (s : MemoryStore) (e : ShipmentRecord) (o : MergeOutcome)
      → lookup key s.shipments ≡ some e
      → merge_shipment e i ≡ some o
      → (x : ShipmentRecord) × (lookup key (update_shipment ctx i e s o).0.shipments ≡ some x)
        × IsSettled x i
  unfolding apply_merge relink_waiting
  update_shipment-IsSettled s e o found merged = elim (Bool-cases (changed o)) [
    | inl moved ↦
        let x = apply_merge e (record o { last_batch_id = some ctx.batch_id }) in
        (x, rw moved (lookup-insert_self key x s.shipments), IsSettled-after e o merged)
    | inr still ↦ (
      e,
      rw still found,
      subst (λ (x : ShipmentRecord). IsSettled x i) (unmoved e o still)
          (apply_merge-IsSettled e i merged),
    )
  ]

  -- What `upsert_shipment` leaves under the guide's key is settled for the row.
  upsert_shipment-IsSettled :
      (s t : MemoryStore) (r : UpsertResult) (p : CanonStatus)
      → canon i.status_code ≡ some p
      → upsert_shipment ctx i s ≡ some (t, r)
      → (e : ShipmentRecord) × (lookup key t.shipments ≡ some e) × IsSettled e i
  unfolding relink_waiting
  upsert_shipment-IsSettled s t r p hp h = elim (upsert_shipment-cases s (t, r) h) [
    | inl (absent, made) ↦ (
      new_record ctx i,
      ap (λ (q : MemoryStore × UpsertResult). lookup key q.0.shipments) made
          ∙ lookup-insert_self key (new_record ctx i) s.shipments,
      new_record-IsSettled ctx i p hp,
    )
    | inr (e, o, found, merged, made) ↦
        let (x, kept, settled) = update_shipment-IsSettled s e o found merged in
        (x, ap (λ (q : MemoryStore × UpsertResult). lookup key q.0.shipments) made ∙ kept, settled)
  ]

  -- If upsert_shipment returns for a row whose status is in STATUS_CANON, then upserting the same
  -- row again is skipped without a discrepancy and leaves the store as it is.
  pub upsert_shipment_again :
      (s t : MemoryStore) (r : UpsertResult) (p : CanonStatus)
      → canon i.status_code ≡ some p
      → upsert_shipment ctx i s ≡ some (t, r)
      → upsert_shipment ctx i t ≡ some (t, skipped)
  upsert_shipment_again s t r p hp h =
      let (e, found, settled) = upsert_shipment-IsSettled s t r p hp h in
      upsert_settled t e found settled
