-- ===== src/Pipeline/MemoryStore/Relinking.antt =====
-- `relink_orphans`: what it links, what it leaves, and that a second run finds nothing.
pub mod Complete
pub mod Consistent
use data_effi.Prelude.{
  ℕ, ◌+◌, String, true, false, not, Option, none, some, [], ◌∷◌, is_some, is_blank, ◌≡◌, refl, sym,
  ◌∙◌, arith, Bool-cases, Option-cases, inl, inr, subst, str_eq_iff, foldl,
}
use data_effi.Prelude.Equality.{nat_eq, string_eq, pair_eq, same_refl}
use data_effi.Dict.{
  Dict, lookup, insert, has_key, lookup-insert, lookup-insert_self, All, All-lookup, All-insert,
  All-mono,
}
use data_effi.Pipeline.Merge.{ShipmentRecord}
use data_effi.Pipeline.MemoryStore.{
  MemoryStore, MovementRecord, index_under, is_number, carrier_number, by_carrier_number,
  by_carrier_step, has_carrier_number, orphan_target, linked_to, one_if, relink_loop,
  relink_orphans,
}
use data_effi.Pipeline.MemoryStore.Invariant.{IsConsistent, MovementKeyed, LinkExists, NotWaiting}

-- How many movements have no link.
abbrev pub orphans : Dict (ℕ × String) MovementRecord → ℕ
orphans [] = 0
orphans ((k, m) ∷ d) = one_if (not (is_some m.shipment_id)) + orphans d

module _ (tenant : Option ℕ) (d : Dict (ℕ × String) ShipmentRecord) where
  abbrev pub target : ℕ × String → MovementRecord → Option String
  target = orphan_target tenant d

  -- Only a movement without a link is linked.
  target-orphan :
      (k : ℕ × String) (m : MovementRecord) (t : String)
      → target k m ≡ some t
      → m.shipment_id ≡ none
  target-orphan k m t h = ground arith

  target-linked :
      (k : ℕ × String) (m : MovementRecord) (t : String)
      → target k (record m { shipment_id = some t }) ≡ none
  target-linked k m t = ground arith

  one_link :
      (k : ℕ × String) (m : MovementRecord)
      → one_if (not (is_some (linked_to m (target k m)).shipment_id))
          + one_if (is_some (target k m))
        ≡ one_if (not (is_some m.shipment_id))
  one_link k m = elim (Option-cases (target k m)) [
    | inl left_alone ↦ rw left_alone (omega arith)
    | inr (t, linked) ↦ rw (linked, target-orphan k m t linked)
  ]

  -- A movement that was linked is not linked again.
  pub target_again :
      (k : ℕ × String) (m : MovementRecord) → target k (linked_to m (target k m)) ≡ none
  target_again k m = elim (Option-cases (target k m)) [
    | inl left_alone ↦ rw left_alone left_alone
    | inr (t, linked) ↦ rw linked (target-linked k m t)
  ]

  relink_loop_again :
      (ms : Dict (ℕ × String) MovementRecord)
      → relink_loop target (relink_loop target ms).0 ≡ ((relink_loop target ms).0, 0)
  unfolding relink_loop
  relink_loop_again [] = refl
  relink_loop_again ((k, m) ∷ ms) = rw (target_again k m) (rw (relink_loop_again ms))

  orphans-relink_loop :
      (ms : Dict (ℕ × String) MovementRecord)
      → orphans (relink_loop target ms).0 + (relink_loop target ms).1 ≡ orphans ms
  unfolding relink_loop
  orphans-relink_loop [] = refl
  orphans-relink_loop ((k, m) ∷ ms) = omega (arith, one_link k m, orphans-relink_loop ms)

-- A second run of relink_orphans for the same tenant links nothing and changes nothing.
pub relink_orphans_again :
    (tenant : Option ℕ) (s : MemoryStore)
    → let t = (relink_orphans tenant s).0 in relink_orphans tenant t ≡ (t, 0)
unfolding relink_orphans
relink_orphans_again tenant s = rw (relink_loop_again tenant s.shipments s.movements)

-- The count that relink_orphans returns is the number of movements that got a link by it.
pub relink_orphans_count :
    (tenant : Option ℕ) (s : MemoryStore)
    → orphans (relink_orphans tenant s).0.movements + (relink_orphans tenant s).1
      ≡ orphans s.movements
unfolding relink_orphans
relink_orphans_count tenant s = orphans-relink_loop tenant s.shipments s.movements
