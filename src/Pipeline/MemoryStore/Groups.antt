-- ===== src/Pipeline/MemoryStore/Groups.antt =====
-- The groups of rows that the engine writes: `upsert_shipments` and `upsert_movements`.
use data_effi.Prelude.{
  suc, some, List, [], ◌∷◌, length, ◌≡◌, refl, sym, ◌∙◌, ap, Option-cases, inl, inr, some_inj,
  subst,
}
use data_effi.Pipeline.Models.{ShipmentInput, MovementInput, BatchContext, UpsertResult}
use data_effi.Pipeline.MemoryStore.{
  MemoryStore, upsert_shipment, upsert_movement, upsert_shipments, upsert_movements,
}

-- The two steps of a group that returns.
pub upsert_shipments-cons :
    (ctx : BatchContext) (i : ShipmentInput) (is : List ShipmentInput)
    → (s t : MemoryStore) (us : List UpsertResult) → upsert_shipments ctx (i ∷ is) s ≡ some (t, us)
    → (s1 : MemoryStore) × (u : UpsertResult) × (rest : List UpsertResult) × (upsert_shipment ctx i
          s
        ≡ some (s1, u))
      × (upsert_shipments ctx is s1 ≡ some (t, rest))
      × (us ≡ u ∷ rest)
unfolding upsert_shipments
upsert_shipments-cons ctx i is s t us h = elim (Option-cases (upsert_shipment ctx i s)) [
  | inl raised ↦ cc (rw raised at h)
  | inr ((s1, u), first) ↦ elim (Option-cases (upsert_shipments ctx is s1)) [
    | inl raised ↦ cc (rw (first, raised) at h)
    | inr ((t', rest), later) ↦
        let same : (t', u ∷ rest) ≡ (t, us) = some_inj (rw (first, later) at h) in
        (
          s1,
          u,
          rest,
          first,
          later
              ∙ ap (λ (x : MemoryStore). some (x, rest))
                  (ap (λ (q : MemoryStore × List UpsertResult). q.0) same),
          sym (ap (λ (q : MemoryStore × List UpsertResult). q.1) same),
        )
  ]
]

pub upsert_shipments-length :
    (ctx : BatchContext) (is : List ShipmentInput) (s t : MemoryStore) (us : List UpsertResult)
    → upsert_shipments ctx is s ≡ some (t, us)
    → length us ≡ length is
unfolding upsert_shipments
upsert_shipments-length ctx [] s t us h =
    sym (ap (λ (q : MemoryStore × List UpsertResult). length q.1) (some_inj h))
upsert_shipments-length ctx (i ∷ is) s t us h =
    let (s1, u, rest, first, later, same) = upsert_shipments-cons ctx i is s t us h in
    rw same (ap suc (upsert_shipments-length ctx is s1 t rest later))

pub upsert_movements-length :
    (ctx : BatchContext) (ms : List MovementInput) (s : MemoryStore)
    → length (upsert_movements ctx ms s).1 ≡ length ms
unfolding upsert_movements
upsert_movements-length ctx [] s = refl
upsert_movements-length ctx (m ∷ ms) s =
    ap suc (upsert_movements-length ctx ms (upsert_movement ctx m s).0)

-- What every single write keeps, a group keeps.
module _ (P : MemoryStore → Type 0) (ctx : BatchContext) where
  pub upsert_shipments-keeps :
      ((i : ShipmentInput) (s t : MemoryStore) (u : UpsertResult)
        → upsert_shipment ctx i s ≡ some (t, u)
        → P s
        → P t)
      → (is : List ShipmentInput) (s t : MemoryStore) (us : List UpsertResult)
      → upsert_shipments ctx is s ≡ some (t, us)
      → P s
      → P t
  unfolding upsert_shipments
  upsert_shipments-keeps step [] s t us h p =
      subst P (ap (λ (q : MemoryStore × List UpsertResult). q.0) (some_inj h)) p
  upsert_shipments-keeps step (i ∷ is) s t us h p =
      let (s1, u, rest, first, later, same) = upsert_shipments-cons ctx i is s t us h in
      upsert_shipments-keeps step is s1 t rest later (step i s s1 u first p)

  pub upsert_movements-keeps :
      ((m : MovementInput) (s : MemoryStore) → P s → P (upsert_movement ctx m s).0)
      → (ms : List MovementInput) (s : MemoryStore) → P s
      → P (upsert_movements ctx ms s).0
  unfolding upsert_movements
  upsert_movements-keeps step [] s p = p
  upsert_movements-keeps step (m ∷ ms) s p =
      upsert_movements-keeps step ms (upsert_movement ctx m s).0 (step m s p)
