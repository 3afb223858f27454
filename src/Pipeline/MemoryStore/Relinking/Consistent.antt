-- ===== src/Pipeline/MemoryStore/Relinking/Consistent.antt =====
-- `relink_orphans` keeps the consistency of the store.
use data_effi.Prelude.{
  ℕ, String, true, Option, none, some, [], ◌∷◌, is_blank, ◌≡◌, ◌∙◌, arith, Bool-cases, Option-cases,
  inl, inr, subst, foldl,
}
use data_effi.Prelude.Equality.{nat_eq, string_eq, pair_eq, same_refl}
use data_effi.Dict.{Dict, lookup, has_key, All, All-lookup, All-insert, All-mono}
use data_effi.Pipeline.Merge.{ShipmentRecord}
use data_effi.Pipeline.MemoryStore.{
  MemoryStore, MovementRecord, index_under, carrier_number, by_carrier_number, by_carrier_step,
  linked_to, relink_loop, relink_orphans,
}
use data_effi.Pipeline.MemoryStore.Invariant.{IsConsistent, MovementKeyed, LinkExists, NotWaiting}
use data_effi.Pipeline.MemoryStore.Relinking.{target}

-- Every entry of the index leads to a guide that is there.
abbrev Leads : Dict (ℕ × String) ShipmentRecord → ℕ × String → String → Type 0
Leads d j t = has_key (j.0, t) d ≡ true

fold-Leads :
    (d rest : Dict (ℕ × String) ShipmentRecord) (acc : Dict (ℕ × String) String)
    → All (λ k r. has_key k d ≡ true) rest
    → All (Leads d) acc
    → All (Leads d) (foldl by_carrier_step acc rest)
fold-Leads d [] acc there h = h
fold-Leads d ((k, r) ∷ rest) acc there h = fold-Leads d rest _ there.1 (one (carrier_number r))
  where
    one : (number : Option String) → All (Leads d) (index_under k number acc)
    one none = h
    one (some n) = elim (Bool-cases (is_blank n)) [
      | inl blank ↦ rw blank h
      | inr solid ↦ rw solid (All-insert (Leads d) acc (k.0, n) k.1 h there.0)
    ]

All-has_key : (d : Dict (ℕ × String) ShipmentRecord) → All (λ k r. has_key k d ≡ true) d
unfolding lookup
All-has_key [] = tt
All-has_key ((k, r) ∷ d) = (
  rw (same_refl k),
  All-mono (λ j x. has_key j d ≡ true) (λ j x. has_key j ((k, r) ∷ d) ≡ true) d
      (λ j x h. ground arith) (All-has_key d),
)

module _ (tenant : Option ℕ) (d : Dict (ℕ × String) ShipmentRecord) where
  target-exists :
      (k : ℕ × String) (m : MovementRecord) (t : String)
      → target tenant d k m ≡ some t
      → has_key (k.0, t) d ≡ true
  unfolding by_carrier_number
  target-exists k m t h = elim (Option-cases m.tracking_number_raw) [
    | inl uncited ↦ ground arith
    | inr (raw, cited) ↦ elim (Bool-cases (has_key (k.0, raw) d)) [
      | inl there ↦
          let same_number : raw ≡ t = ground arith in
          subst (λ (x : String). has_key (k.0, x) d ≡ true) same_number there
      | inr not_there ↦
          let indexed : lookup (k.0, raw) (foldl by_carrier_step [] d) ≡ some t = ground arith in
          All-lookup (Leads d) (foldl by_carrier_step [] d) (k.0, raw) t
            (fold-Leads d d [] (All-has_key d) tt) indexed
    ]
  ]

  relink_loop-All :
      (P : ℕ × String → MovementRecord → Type 0)
      → ((k : ℕ × String) (m : MovementRecord) → P k m → P k (linked_to m (target tenant d k m)))
      → (ms : Dict (ℕ × String) MovementRecord) → All P ms
      → All P (relink_loop (target tenant d) ms).0
  unfolding relink_loop
  relink_loop-All P step [] h = tt
  relink_loop-All P step ((k, m) ∷ ms) h = (step k m h.0, relink_loop-All P step ms h.1)

  linked_to-LinkExists :
      (k : ℕ × String) (m : MovementRecord)
      → LinkExists d k m
      → LinkExists d k (linked_to m (target tenant d k m))
  linked_to-LinkExists k m h t = elim (Option-cases (target tenant d k m)) [
    | inl left_alone ↦ rw left_alone (h t)
    | inr (u, linked) ↦ rw linked λ same. target-exists k m t (linked ∙ same)
  ]

  linked_to-NotWaiting :
      (k : ℕ × String) (m : MovementRecord)
      → NotWaiting d k m
      → NotWaiting d k (linked_to m (target tenant d k m))
  linked_to-NotWaiting k m h t = elim (Option-cases (target tenant d k m)) [
    | inl left_alone ↦ rw left_alone (h t)
    | inr (u, linked) ↦ rw linked λ free. cc
  ]

  linked_to-MovementKeyed :
      (k : ℕ × String) (m : MovementRecord)
      → MovementKeyed k m
      → MovementKeyed k (linked_to m (target tenant d k m))
  linked_to-MovementKeyed k m h = elim (Option-cases (target tenant d k m)) [
    | inl left_alone ↦ rw left_alone h
    | inr (u, linked) ↦ rw linked h
  ]

-- relink_orphans keeps the store consistent: every link that it makes leads to a guide of the
-- movement's connection that is there.
pub relink_orphans-IsConsistent :
    (tenant : Option ℕ) (s : MemoryStore)
    → IsConsistent s
    → IsConsistent (relink_orphans tenant s).0
unfolding relink_orphans
relink_orphans-IsConsistent tenant s c = record {
  shipments_keyed = c.shipments_keyed;
  movements_keyed =
      relink_loop-All tenant s.shipments MovementKeyed (linked_to-MovementKeyed tenant s.shipments)
        s.movements c.movements_keyed;
  links_exist =
      relink_loop-All tenant s.shipments (LinkExists s.shipments)
        (linked_to-LinkExists tenant s.shipments) s.movements c.links_exist;
  not_waiting =
      relink_loop-All tenant s.shipments (NotWaiting s.shipments)
        (linked_to-NotWaiting tenant s.shipments) s.movements c.not_waiting;
}
