-- ===== src/Pipeline/Merge/Known.antt =====
-- A merge of known statuses returns, and leaves a known status.
use data_effi.Prelude.{
  Bool, true, Option, some, ◌≡◌, Bool-cases, Option-cases, inl, inr, is_some, String, ℕ,
}
use data_effi.Pipeline.Mapping.Status.{canon}
use data_effi.Pipeline.Models.{ShipmentInput}
use data_effi.Pipeline.Merge.{
  ShipmentRecord, MergeOutcome, merge_shipment, merge_found, merge_known, apply_merge,
}
use data_effi.Pipeline.Merge.Fields.{advances, apply_merge-eq-replaced}
use data_effi.Pipeline.Merge.Status.{merge-status}

abbrev pub is_known : String → Bool
is_known code = is_some (canon code)

pub merge_shipment-returns :
    (e : ShipmentRecord) (i : ShipmentInput)
    → is_known e.status_code ≡ true
    → is_known i.status_code ≡ true
    → (o : MergeOutcome) × (merge_shipment e i ≡ some o)
unfolding merge_shipment merge_found
merge_shipment-returns e i he hi = elim (Option-cases (canon e.status_code)) [
  | inl absent ↦ cc (absent, he)
  | inr (c, hc) ↦ elim (Option-cases (canon i.status_code)) [
    | inl absent ↦ cc (absent, hi)
    | inr (p, hp) ↦ (merge_known c p e i, rw (hc, hp))
  ]
]

pub apply_merge-is_known :
    (e : ShipmentRecord) (i : ShipmentInput) (o : MergeOutcome) (b : Option ℕ)
    → merge_shipment e i ≡ some o
    → is_known (apply_merge e (record o { last_batch_id = b })).status_code ≡ true
apply_merge-is_known e i o b h =
    let (c, p, hc, hp, code, raw) = merge-status e i h in
    let same : (apply_merge e (record o { last_batch_id = b })).status_code
        ≡ (apply_merge e o).status_code =
      rw (apply_merge-eq-replaced, apply_merge-eq-replaced) in
    elim (Bool-cases (advances c p e i)) [
      | inl up ↦ rw (same, code, up) (rw hp)
      | inr stay ↦ rw (same, code, stay) (rw hc)
    ]
