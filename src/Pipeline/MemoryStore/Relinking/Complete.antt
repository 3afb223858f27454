-- ===== src/Pipeline/MemoryStore/Relinking/Complete.antt =====
-- After `relink_orphans` nothing is left to link.
use data_effi.Prelude.{
  ℕ, String, true, false, Option, none, some, [], ◌∷◌, is_blank, ◌≡◌, sym, arith, Bool-cases, inl,
  inr, subst, str_eq_iff, foldl,
}
use data_effi.Prelude.Equality.{nat_eq, string_eq, pair_eq}
use data_effi.Dict.{
  Dict, lookup, insert, has_key, lookup-insert, lookup-insert_self, All, All-lookup,
}
use data_effi.Pipeline.Merge.{ShipmentRecord}
use data_effi.Pipeline.MemoryStore.{
  MemoryStore, MovementRecord, index_under, is_number, carrier_number, by_carrier_number,
  by_carrier_step, has_carrier_number, linked_to, relink_loop, relink_orphans,
}
use data_effi.Pipeline.MemoryStore.Relinking.{target, target_again}

-- The index by the carrier's number has every guide with one, and only guides that are there.
has_key_mono :
    (j k : ℕ × String) (t : String) (d : Dict (ℕ × String) String)
    → has_key j d ≡ true
    → has_key j (insert k t d) ≡ true
has_key_mono j k t d h = ground (arith, lookup-insert k j t d)

index_under-has_key :
    (acc : Dict (ℕ × String) String) (k j : ℕ × String) (number : Option String)
    → has_key j acc ≡ true
    → has_key j (index_under k number acc) ≡ true
index_under-has_key acc k j none h = h
index_under-has_key acc k j (some n) h = ground (arith, has_key_mono j (k.0, n) k.1 acc h)

index_under_self :
    (acc : Dict (ℕ × String) String) (k : ℕ × String) (number : Option String) (raw : String)
    → is_number number raw ≡ true
    → is_blank raw ≡ false
    → has_key (k.0, raw) (index_under k number acc) ≡ true
index_under_self acc k none raw h b = cc
index_under_self acc k (some n) raw h b =
    subst (λ (x : String). has_key (k.0, x) (index_under k (some n) acc) ≡ true)
      ((str_eq_iff n raw).0 h)
      (rw (subst (λ (x : String). is_blank x ≡ false) (sym ((str_eq_iff n raw).0 h)) b)
        (rw (lookup-insert_self (k.0, n) k.1 acc)))

fold-has_key :
    (d : Dict (ℕ × String) ShipmentRecord) (acc : Dict (ℕ × String) String) (j : ℕ × String)
    → has_key j acc ≡ true
    → has_key j (foldl by_carrier_step acc d) ≡ true
fold-has_key [] acc j h = h
fold-has_key ((k, r) ∷ d) acc j h =
    fold-has_key d (index_under k (carrier_number r) acc) j
      (index_under-has_key acc k j (carrier_number r) h)

fold_indexes :
    (d : Dict (ℕ × String) ShipmentRecord) (acc : Dict (ℕ × String) String) (raw : String)
    → is_blank raw ≡ false
    → All
        (λ k r.
          has_carrier_number r raw ≡ true → has_key (k.0, raw) (foldl by_carrier_step acc d) ≡ true)
        d
fold_indexes [] acc raw b = tt
fold_indexes ((k, r) ∷ d) acc raw b = (
  λ h.
      fold-has_key d (index_under k (carrier_number r) acc) (k.0, raw)
        (index_under_self acc k (carrier_number r) raw h b),
  fold_indexes d (index_under k (carrier_number r) acc) raw b,
)

-- A movement that is still without a link cites no guide of its connection, neither by the guide's
-- own number nor by the carrier's.
abbrev pub CitesNothing : Dict (ℕ × String) ShipmentRecord → ℕ × String → MovementRecord → Type 0
CitesNothing d k m =
    (raw : String)
    → m.shipment_id ≡ none
    → m.tracking_number_raw ≡ some raw
    → is_blank raw ≡ false
    → (has_key (k.0, raw) d ≡ false)
      × ((t : String) (r : ShipmentRecord)
          → lookup (k.0, t) d ≡ some r
          → has_carrier_number r raw ≡ false)

target-none :
    (d : Dict (ℕ × String) ShipmentRecord) (k : ℕ × String) (m : MovementRecord) (raw : String)
    → target none d k m ≡ none
    → m.shipment_id ≡ none
    → m.tracking_number_raw ≡ some raw
    → is_blank raw ≡ false
    → (has_key (k.0, raw) d ≡ false) × (lookup (k.0, raw) (by_carrier_number d) ≡ none)
target-none d k m raw h free cites solid = ground arith

untargeted :
    (d : Dict (ℕ × String) ShipmentRecord) (k : ℕ × String) (m : MovementRecord)
    → target none d k m ≡ none
    → CitesNothing d k m
unfolding by_carrier_number
untargeted d k m h raw free cites solid =
    let (no_guide, no_number) = target-none d k m raw h free cites solid in
    (
      no_guide,
      λ t r found. elim (Bool-cases (has_carrier_number r raw)) [
        | inl cited ↦
            let indexed =
              All-lookup
                (λ (j : ℕ × String) (x : ShipmentRecord).
                  has_carrier_number x raw ≡ true
                  → has_key (j.0, raw) (foldl by_carrier_step [] d) ≡ true)
                d (k.0, t) r (fold_indexes d [] raw solid) found cited in
            cc (indexed)
        | inr other ↦ other
      ],
    )

-- After relink_orphans over all tenants, a movement that is still without a link cites no guide of
-- its connection, neither by the guide's number nor by the carrier's.
pub relink_orphans_complete :
    (s : MemoryStore)
    → let t = (relink_orphans none s).0 in All (CitesNothing t.shipments) t.movements
unfolding relink_orphans
relink_orphans_complete s = all_linked s.movements
  where
    all_linked :
        (ms : Dict (ℕ × String) MovementRecord)
        → All (CitesNothing s.shipments) (relink_loop (target none s.shipments) ms).0
    all_linked [] = tt
    all_linked ((k, m) ∷ ms) = (
      untargeted s.shipments k (linked_to m (target none s.shipments k m))
          (target_again none s.shipments k m),
      all_linked ms,
    )
