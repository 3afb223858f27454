-- ===== src/Pipeline/MemoryStore/Orphans.antt =====
-- `relink_orphans` of `MemoryStore` of pipeline/ingest.py.
use data_effi.Prelude.{
  ℕ, ◌+◌, String, Bool, true, not, ◌||◌, Option, none, some, [], ◌∷◌, foldl, is_some, is_blank,
  ◌==◌, if◌then◌else◌,
}
use data_effi.Prelude.Equality.{nat_eq, string_eq, pair_eq}
use data_effi.Dict.{Dict, lookup, insert, has_key}
use data_effi.Pipeline.Merge.{ShipmentRecord}
use data_effi.Pipeline.MemoryStore.State.{MovementRecord, MemoryStore}
use data_effi.Pipeline.MemoryStore.Guides.{carrier_number}

-- the guides by the carrier's number; a later one takes the place of an earlier one
abbrev pub index_under :
    ℕ × String → Option String → Dict (ℕ × String) String → Dict (ℕ × String) String
index_under k none d = d
index_under k (some number) d = if is_blank number then d else insert (k.0, number) k.1 d

abbrev pub by_carrier_step :
    Dict (ℕ × String) String → (ℕ × String) × ShipmentRecord → Dict (ℕ × String) String
by_carrier_step d (k, r) = index_under k (carrier_number r) d

unfoldable pub by_carrier_number : Dict (ℕ × String) ShipmentRecord → Dict (ℕ × String) String
by_carrier_number shipments = foldl by_carrier_step [] shipments

abbrev pub is_tenant : Option ℕ → ℕ → Bool
is_tenant none tenant = true
is_tenant (some t) tenant = tenant == t

-- The guide that the loop of `relink_orphans` links a movement to.
abbrev pub orphan_target :
    Option ℕ → Dict (ℕ × String) ShipmentRecord → ℕ × String → MovementRecord → Option String
orphan_target tenant shipments k m = elim m.tracking_number_raw [
  | none ↦ none
  | some raw ↦
      if is_some m.shipment_id || is_blank raw || not (is_tenant tenant m.tenant_id)
      then none
      else if has_key (k.0, raw) shipments
      then some raw
      else lookup (k.0, raw) (by_carrier_number shipments)
]

abbrev pub linked_to : MovementRecord → Option String → MovementRecord
linked_to m none = m
linked_to m (some t) = record m { shipment_id = some t }

abbrev pub one_if : Bool → ℕ
one_if b = if b then 1 else 0

-- the loop, with the count of the movements that it links
unfoldable pub relink_loop :
    (ℕ × String → MovementRecord → Option String)
    → Dict (ℕ × String) MovementRecord
    → Dict (ℕ × String) MovementRecord × ℕ
relink_loop target [] = ([], 0)
relink_loop target ((k, m) ∷ d) =
    let (rest, linked) = relink_loop target d in
    ((k, linked_to m (target k m)) ∷ rest, one_if (is_some (target k m)) + linked)

unfoldable pub relink_orphans : Option ℕ → MemoryStore → MemoryStore × ℕ
unfolding relink_loop
relink_orphans tenant s =
    let (movements, linked) = relink_loop (orphan_target tenant s.shipments) s.movements in
    (record s { movements = movements }, linked)
