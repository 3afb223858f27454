-- ===== src/Pipeline/MemoryStore/Batches.antt =====
-- The life of a batch in the store: registered once, reopened only on request, and cleared whole.
use data_effi.Prelude.{
  ℕ, ◌+◌, ◌≤◌, String, Bool, true, false, Option, none, some, [], ◌∷◌, length, ◌≡◌, refl, sym,
  arith, Bool-cases, Option-cases, inl, inr, some_inj, ◌≢◌, ◌⊎◌, ◌∙◌, ==_iff, subst,
}
use data_effi.Prelude.Equality.{nat_eq, string_eq, pair_eq, same}
use data_effi.Dict.{Dict, lookup, insert, lookup-insert_self, All}
use data_effi.Pipeline.Models.{BatchKind, BatchContext}
use data_effi.Pipeline.MemoryStore.{
  MemoryStore, MovementRecord, BatchKey, batch_exists, register_batch, open_batch, clear_batch_rows,
  keep_outside, outside_batch,
}
use data_effi.Pipeline.MemoryStore.Invariant.{IsConsistent, MovementKeyed, LinkExists, NotWaiting}

module _ (fresh tenant_id connection_id : ℕ) (country_code platform_code : String)
    (kind : BatchKind) (content_hash : String) where
  abbrev register : Bool → MemoryStore → Option (MemoryStore × BatchContext)
  register =
      register_batch fresh tenant_id connection_id country_code platform_code kind content_hash

  abbrev key : BatchKey
  key = (tenant_id, (connection_id, content_hash))

  abbrev fresh_context : BatchContext
  fresh_context = record {
    batch_id = fresh;
    tenant_id = tenant_id;
    connection_id = connection_id;
    country_code = country_code;
    platform_code = platform_code;
    kind = kind;
  }

  -- The file is there, another load of it is refused, and reprocessing reopens its batch.
  abbrev pub Registered : MemoryStore → BatchContext → Type 0
  Registered t ctx =
      (batch_exists tenant_id connection_id content_hash t ≡ true)
      × (register false t ≡ none)
      × (register true t ≡ some (t, ctx))

  -- If register_batch returns a batch for a file, then batch_exists finds the file, registering it
  -- again is refused, and registering it with reprocess returns the same batch and leaves the
  -- store as it is.
  pub register_batch_once :
      (s t : MemoryStore) (reprocess : Bool) (ctx : BatchContext)
      → register reprocess s ≡ some (t, ctx)
      → Registered t ctx
  unfolding register_batch batch_exists open_batch
  register_batch_once s t reprocess ctx h = elim (Option-cases (lookup key s.batches)) [
    | inl absent ↦
        let made : register reprocess s
            ≡ some (record s { batches = insert key fresh_context s.batches }, fresh_context) =
          rw absent in
        let same_pair = some_inj (sym h ∙ made) in
        subst (λ (q : MemoryStore × BatchContext). Registered q.0 q.1) (sym same_pair)
          (rw (lookup-insert_self key fresh_context s.batches) (refl, refl, refl))
    | inr (c, old) ↦ elim (Bool-cases reprocess) [
      | inl again ↦
          let made : register reprocess s ≡ some (s, c) = rw (old, again) in
          let same_pair = some_inj (sym h ∙ made) in
          subst (λ (q : MemoryStore × BatchContext). Registered q.0 q.1) (sym same_pair)
            (rw old (refl, refl, refl))
      | inr refused ↦ ground arith
    ]
  ]

  -- It is refused only where the file is there.
  pub register_batch-exists :
      (s : MemoryStore) (reprocess : Bool)
      → register reprocess s ≡ none
      → batch_exists tenant_id connection_id content_hash s ≡ true
  unfolding register_batch open_batch batch_exists
  register_batch-exists s reprocess h = elim (Option-cases (lookup key s.batches)) [
    | inl absent ↦ cc (rw absent at h)
    | inr (c, old) ↦ rw old
  ]

  -- Opening a batch leaves the guides and the movements alone.
  pub register_batch-store :
      (s t : MemoryStore) (reprocess : Bool) (ctx : BatchContext)
      → register reprocess s ≡ some (t, ctx)
      → (t.shipments ≡ s.shipments) × (t.movements ≡ s.movements)
  unfolding register_batch open_batch
  register_batch-store s t reprocess ctx h = elim (Option-cases (lookup key s.batches)) [
    | inl absent ↦
        let same_pair = some_inj (rw absent at h) in
        subst
          (λ (q : MemoryStore × BatchContext).
            (q.0.shipments ≡ s.shipments) × (q.0.movements ≡ s.movements))
          same_pair (refl, refl)
    | inr (c, old) ↦ elim (Bool-cases reprocess) [
      | inl again ↦
          let same_pair = some_inj (rw (old, again) at h) in
          subst
            (λ (q : MemoryStore × BatchContext).
              (q.0.shipments ≡ s.shipments) × (q.0.movements ≡ s.movements))
            same_pair (refl, refl)
      | inr refused ↦ cc (rw (old, refused) at h)
    ]
  ]

-- The entry stands in the table.
abbrev pub Holds : ℕ × String → MovementRecord → Dict (ℕ × String) MovementRecord → Type 0
Holds k m [] = ⊥
Holds k m ((j, x) ∷ d) = ((j ≡ k) × (x ≡ m)) ⊎ Holds k m d

module _ (b : ℕ) where
  outside_batch-true : (m : MovementRecord) → outside_batch b m ≡ true → m.batch_id ≢ some b
  outside_batch-true m h same = ground (arith, ==_iff b b)

  keep_outside-none :
      (d : Dict (ℕ × String) MovementRecord) → All (λ k m. m.batch_id ≢ some b) (keep_outside b d)
  unfolding keep_outside
  keep_outside-none [] = tt
  keep_outside-none ((k, m) ∷ d) = elim (Bool-cases (outside_batch b m)) [
    | inl out ↦ rw out (outside_batch-true m out, keep_outside-none d)
    | inr in_batch ↦ rw in_batch (keep_outside-none d)
  ]

  keep_outside-All :
      (P : ℕ × String → MovementRecord → Type 0) (d : Dict (ℕ × String) MovementRecord)
      → All P d
      → All P (keep_outside b d)
  unfolding keep_outside
  keep_outside-All P [] h = tt
  keep_outside-All P ((k, m) ∷ d) h = elim (Bool-cases (outside_batch b m)) [
    | inl out ↦ rw out (h.0, keep_outside-All P d h.1)
    | inr in_batch ↦ rw in_batch (keep_outside-All P d h.1)
  ]

  outside_batch-false : (m : MovementRecord) → m.batch_id ≢ some b → outside_batch b m ≡ true
  outside_batch-false m other = elim (Option-cases m.batch_id) [
    | inl no_batch ↦ rw no_batch
    | inr (c, of_batch) ↦ ground (arith, ==_iff c b)
  ]

  keep_outside-Holds :
      (k : ℕ × String) (m : MovementRecord)
      → m.batch_id ≢ some b
      → (d : Dict (ℕ × String) MovementRecord) → Holds k m d
      → Holds k m (keep_outside b d)
  unfolding keep_outside
  keep_outside-Holds k m other [] h = h
  keep_outside-Holds k m other ((j, x) ∷ d) h = elim (Bool-cases (outside_batch b x)) [
    | inl out ↦
        rw out
          (elim h [ inl here ↦ inl here | inr there ↦ inr (keep_outside-Holds k m other d there) ])
    | inr in_batch ↦ rw in_batch (elim h [
      | inl here ↦ let kept = outside_batch-false x (rw here.1 other) in cc (kept, in_batch)
      | inr there ↦ keep_outside-Holds k m other d there
    ])
  ]

  length-keep_outside :
      (d : Dict (ℕ × String) MovementRecord) → length (keep_outside b d) ≤ length d
  unfolding keep_outside
  length-keep_outside [] = omega arith
  length-keep_outside ((k, m) ∷ d) = ground (arith, length-keep_outside d)

-- After clear_batch_rows no movement of the batch is left, every movement of another batch stays,
-- the guides are left alone, and the count is the number of movements that went.
pub clear_batch_rows_lem :
    (ctx : BatchContext) (s : MemoryStore)
    → let (t, removed) = clear_batch_rows ctx s in
      All (λ k m. m.batch_id ≢ some ctx.batch_id) t.movements
      × ((k : ℕ × String) (m : MovementRecord)
          → m.batch_id ≢ some ctx.batch_id
          → Holds k m s.movements
          → Holds k m t.movements)
      × (t.shipments ≡ s.shipments)
      × (removed + length t.movements ≡ length s.movements)
unfolding clear_batch_rows
clear_batch_rows_lem ctx s = (
  keep_outside-none ctx.batch_id s.movements,
  λ k m other. keep_outside-Holds ctx.batch_id k m other s.movements,
  refl,
  omega (arith, length-keep_outside ctx.batch_id s.movements),
)

-- clear_batch_rows keeps the store consistent.
pub clear_batch_rows-IsConsistent :
    (ctx : BatchContext) (s : MemoryStore)
    → IsConsistent s
    → IsConsistent (clear_batch_rows ctx s).0
unfolding clear_batch_rows
clear_batch_rows-IsConsistent ctx s c = record {
  shipments_keyed = c.shipments_keyed;
  movements_keyed = keep_outside-All ctx.batch_id MovementKeyed s.movements c.movements_keyed;
  links_exist = keep_outside-All ctx.batch_id (LinkExists s.shipments) s.movements c.links_exist;
  not_waiting = keep_outside-All ctx.batch_id (NotWaiting s.shipments) s.movements c.not_waiting;
}

-- So does opening one.
pub opened-IsConsistent :
    (s t : MemoryStore)
    → t.shipments ≡ s.shipments
    → t.movements ≡ s.movements
    → IsConsistent s
    → IsConsistent t
opened-IsConsistent s t guides payments c = record {
  shipments_keyed = rw guides c.shipments_keyed;
  movements_keyed = rw payments c.movements_keyed;
  links_exist = rw (guides, payments) c.links_exist;
  not_waiting = rw (guides, payments) c.not_waiting;
}
