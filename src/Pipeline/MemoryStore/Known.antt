-- ===== src/Pipeline/MemoryStore/Known.antt =====
-- Writing guides of known statuses never raises.
use data_effi.Prelude.{
  ℕ, String, true, some, List, [], ◌∷◌, ◌≡◌, refl, sym, arith, Bool-cases, Option-cases, inl, inr,
  all, subst,
}
use data_effi.Prelude.Equality.{nat_eq, string_eq, pair_eq}
use data_effi.Dict.{lookup, All, All-lookup, All-insert}
use data_effi.Pipeline.Models.{ShipmentInput, BatchContext, UpsertResult}
use data_effi.Pipeline.Merge.{ShipmentRecord, MergeOutcome, merge_shipment, changed, apply_merge}
use data_effi.Pipeline.Merge.Known.{is_known, merge_shipment-returns, apply_merge-is_known}
use data_effi.Pipeline.MemoryStore.{
  MemoryStore, upsert_shipment, upsert_shipments, update_shipment, new_record, relink_waiting,
  store_shipment, merge_into,
}
use data_effi.Pipeline.MemoryStore.Shipments.{upsert_shipment-cases, inserted}

-- The status of every stored guide is on the ladder.
abbrev pub IsKnown : MemoryStore → Type 0
IsKnown s = All (λ k r. is_known r.status_code ≡ true) s.shipments

module _ (ctx : BatchContext) (i : ShipmentInput) where
  abbrev key : ℕ × String
  key = (ctx.connection_id, i.tracking_number)

  upsert_shipment-returns :
      (s : MemoryStore)
      → is_known i.status_code ≡ true
      → IsKnown s
      → (q : MemoryStore × UpsertResult) × (upsert_shipment ctx i s ≡ some q)
  unfolding upsert_shipment store_shipment merge_into
  upsert_shipment-returns s known h = elim (Option-cases (lookup key s.shipments)) [
    | inl absent ↦ (inserted ctx i s, rw absent)
    | inr (e, found) ↦
        let (o, merged) =
          merge_shipment-returns e i
            (All-lookup (λ k r. is_known r.status_code ≡ true) s.shipments key e h found) known in
        (update_shipment ctx i e s o, rw (found, merged))
  ]

  update_shipment-IsKnown :
      (s : MemoryStore) (e : ShipmentRecord) (o : MergeOutcome)
      → merge_shipment e i ≡ some o
      → IsKnown s
      → IsKnown (update_shipment ctx i e s o).0
  update_shipment-IsKnown s e o merged h = elim (Bool-cases (changed o)) [
    | inl moved ↦ rw moved (
        All-insert (λ k r. is_known r.status_code ≡ true) s.shipments key
          (apply_merge e (record o { last_batch_id = some ctx.batch_id })) h
          (apply_merge-is_known e i o (some ctx.batch_id) merged))
    | inr still ↦ rw still h
  ]

  upsert_shipment-IsKnown :
      (s t : MemoryStore) (u : UpsertResult)
      → upsert_shipment ctx i s ≡ some (t, u)
      → is_known i.status_code ≡ true
      → IsKnown s
      → IsKnown t
  unfolding relink_waiting
  upsert_shipment-IsKnown s t u h known all_known = elim (upsert_shipment-cases ctx i s (t, u) h) [
    | inl (absent, made) ↦
        subst (λ (q : MemoryStore × UpsertResult). IsKnown q.0) (sym made)
          (All-insert (λ k r. is_known r.status_code ≡ true) s.shipments key (new_record ctx i)
            all_known known)
    | inr (e, o, found, merged, made) ↦
        subst (λ (q : MemoryStore × UpsertResult). IsKnown q.0) (sym made)
          (update_shipment-IsKnown s e o merged all_known)
  ]

-- A group of guides of known statuses is written, and leaves a store of known statuses.
pub upsert_shipments-returns :
    (ctx : BatchContext) (is : List ShipmentInput) (s : MemoryStore)
    → all (λ i. is_known i.status_code) is ≡ true
    → IsKnown s
    → (t : MemoryStore) × (us : List UpsertResult) × (upsert_shipments ctx is s ≡ some (t, us))
      × IsKnown t
unfolding upsert_shipments
upsert_shipments-returns ctx [] s known h = (s, [], refl, h)
upsert_shipments-returns ctx (i ∷ is) s known h =
    let first_known : is_known i.status_code ≡ true = ground arith in
    let ((s1, u), first) = upsert_shipment-returns ctx i s first_known h in
    let (t, us, later, last) =
      upsert_shipments-returns ctx is s1 (ground arith)
        (upsert_shipment-IsKnown ctx i s s1 u first first_known h) in
    (t, u ∷ us, rw (first, later), last)
