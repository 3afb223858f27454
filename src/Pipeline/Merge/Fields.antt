-- ===== src/Pipeline/Merge/Fields.antt =====
-- What `apply_merge` leaves in each field of a shipment that is sighted again.
use data_effi.Prelude.{
  any-append, String, Bool, true, false, not, Option, none, some, List, [], ◌∷◌, or_else, mentions,
  any, all-mentions, str_eq, str_eq_iff, if◌then◌else◌, ◌≡◌, refl, ◌∙◌, arith, is_empty, Bool-cases,
  inl, inr, ◌&&◌,
}
use data_effi.Dict.{lookup}
use data_effi.Decimal.{Decimal, decimal_eq, decimal_eq_refl}
use data_effi.Pipeline.Mapping.Status.{CanonStatus, canon, is_terminal_exception}
use data_effi.Pipeline.Models.{
  Value, value_eq, value_eq_refl, ShipmentInput, Discrepancy, static_fields, progress_fields,
  money_fields,
}
use data_effi.Pipeline.Merge.{
  ShipmentRecord, MergeOutcome, changed, may_advance, status_step, sighting_step, newer,
  merge_known, replaced, apply_merge, merge_shipment, merge_found,
}
use data_effi.Pipeline.Merge.Loops.{
  gather, lookup-gather, gap_at, refreshed, refreshed_at, revalued, revalued_at, clash, clashes,
  field_steps_lem,
}

is_empty→nil {ℓ} : {A : Type ℓ} (xs : List A) → is_empty xs ≡ true → xs ≡ []
is_empty→nil [] h = refl
is_empty→nil (x ∷ xs) h = cc

unchanged-empty :
    (o : MergeOutcome)
    → changed o ≡ false
    → (o.status ≡ none)
      × (o.last_status_at ≡ none)
      × (o.attrs ≡ [])
      × (o.money ≡ [])
      × (o.last_batch_id ≡ none)
unfolding changed
unchanged-empty o h = ground (arith, is_empty→nil o.attrs, is_empty→nil o.money)

-- An outcome without updates replaces nothing.
pub apply_merge-eq-replaced :
    (e : ShipmentRecord) (o : MergeOutcome) → apply_merge e o ≡ replaced e o
unfolding apply_merge lookup
apply_merge-eq-replaced e o = elim (Bool-cases (changed o)) [
  | inl yes_changed ↦ rw yes_changed
  | inr no_change ↦
      let (p, q, r, s, t) = unchanged-empty o no_change in rw (no_change, p, q, r, s, t)
]

module _ (current proposed : CanonStatus) (e : ShipmentRecord) (i : ShipmentInput) where
  abbrev pub advances : Bool
  advances = may_advance current proposed (is_terminal_exception e.status_code i.status_code)

  -- Everything that one merge writes, in closed form.
  abbrev pub merged : MergeOutcome
  merged = record {
    status = if advances then some (i.status_code, i.status_raw) else none;
    last_status_at = or_else (newer e.last_status_at i.last_status_at) none;
    attrs = gather (refreshed_at e i) progress_fields (gather (gap_at e i) static_fields []);
    money = gather (revalued_at e i) money_fields [];
    last_batch_id = none;
    discrepancies = clashes e i money_fields;
    status_advanced = advances;
  }

  pub merge_known_lem : merge_known current proposed e i ≡ merged
  unfolding merge_known status_step sighting_step
  merge_known_lem = elim (Bool-cases advances) [
    | inl up ↦ rw (field_steps_lem, up)
    | inr stay ↦ rw (field_steps_lem, stay)
  ]

-- A merge that raises nothing has found both statuses.
pub merge_shipment-known :
    (e : ShipmentRecord) (i : ShipmentInput) {o : MergeOutcome}
    → merge_shipment e i ≡ some o
    → (current proposed : CanonStatus) × (canon e.status_code ≡ some current)
      × (canon i.status_code ≡ some proposed)
      × (o ≡ merged current proposed e i)
unfolding merge_shipment merge_found
merge_shipment-known e i {o} h =
    let (c, p, hc, hp, ho) = found in (c, p, hc, hp, ho ∙ merge_known_lem c p e i)
  where
    found :
        (c p : CanonStatus) × (canon e.status_code ≡ some c)
        × (canon i.status_code ≡ some p)
        × (o ≡ merge_known c p e i)
    found = ground arith

-- No name is in two of the lists, so each field has one rule.
static-progress :
    (n : String) → mentions static_fields n ≡ true → mentions progress_fields n ≡ false
static-progress n h =
    ground (
      arith,
      all-mentions (λ (k : String). not (mentions progress_fields k)) static_fields n refl h,
    )

-- `after` is `new` up to the given equality, or the old value where there is no new one.
abbrev pub HoldsNewest : {V : Type 0} → (V → V → Bool) → Option V → Option V → Option V → Type 0
HoldsNewest eq old none after = after ≡ old
HoldsNewest {V} eq old (some new) after = (w : V) × (after ≡ some w) × (eq w new ≡ true)

refreshed-newest :
    (old new : Option Value)
    → HoldsNewest value_eq old new (or_else (or_else (refreshed new old) none) old)
refreshed-newest old none = refl
refreshed-newest none (some v) = (v, refl, value_eq_refl v)
refreshed-newest (some w) (some v) = elim (Bool-cases (value_eq w v)) [
  | inl equal ↦ (w, rw equal, equal)
  | inr differs ↦ (v, rw differs, value_eq_refl v)
]

revalued-newest :
    (old new : Option Decimal)
    → HoldsNewest decimal_eq old new (or_else (or_else (revalued new old) none) old)
revalued-newest old none = refl
revalued-newest none (some v) = (v, refl, decimal_eq_refl v)
revalued-newest (some w) (some v) = elim (Bool-cases (decimal_eq w v)) [
  | inl equal ↦ (w, rw equal, equal)
  | inr differs ↦ (v, rw differs, decimal_eq_refl v)
]

abbrev pub names_field : String → Discrepancy → Bool
names_field n d = str_eq d.field_name n

abbrev pub contradicts : Option Decimal → Option Decimal → Bool
contradicts (some old) (some new) = not (decimal_eq old new)
contradicts _ _ = false

any-clash :
    (key m n : String) (new old : Option Decimal)
    → any (names_field n) (clash key m new old) ≡ (str_eq m n && contradicts old new)
any-clash key m n none none = ground arith
any-clash key m n none (some o) = ground arith
any-clash key m n (some v) none = ground arith
any-clash key m n (some v) (some o) = ground arith

any-clashes :
    (e : ShipmentRecord) (i : ShipmentInput) (n : String) (ns : List String)
    → any (names_field n) (clashes e i ns) ≡ (mentions ns n && contradicts (e.money n) (i.money n))
any-clashes e i n [] = refl
any-clashes e i n (m ∷ ns) =
    rw any-append (rw any-clash (ground (arith, any-clashes e i n ns, str_eq_iff m n)))

progress-static :
    (n : String) → mentions progress_fields n ≡ true → mentions static_fields n ≡ false
progress-static n h = elim (Bool-cases (mentions static_fields n)) [
  | inl both ↦ cc (static-progress n both)
  | inr only ↦ only
]

module _ (e : ShipmentRecord) (i : ShipmentInput) {o : MergeOutcome}
    (h : merge_shipment e i ≡ some o) where
  -- If merge_shipment returns, then after apply_merge a static field holds the value that it had,
  -- and the incoming one only where it had none.
  pub static_fills_gaps :
      (n : String)
      → mentions static_fields n ≡ true
      → (apply_merge e o).attr n ≡ or_else (e.attr n) (i.attr n)
  unfolding lookup
  static_fills_gaps n member =
      let (c, p, hc, hp, ho) = merge_shipment-known e i h in
      rw (apply_merge-eq-replaced, ho)
        (rw (lookup-gather, lookup-gather, static-progress n member, member) (ground arith))

  -- If merge_shipment returns, then after apply_merge a progress field holds a value equal to the
  -- incoming one, and its old value where the row has none.
  pub progress_newest_wins :
      (n : String)
      → mentions progress_fields n ≡ true
      → HoldsNewest value_eq (e.attr n) (i.attr n) ((apply_merge e o).attr n)
  unfolding lookup
  progress_newest_wins n member =
      let (c, p, hc, hp, ho) = merge_shipment-known e i h in
      rw (apply_merge-eq-replaced, ho)
        (rw (lookup-gather, lookup-gather, progress-static n member, member)
          (refreshed-newest (e.attr n) (i.attr n)))

  -- If merge_shipment returns, then after apply_merge a money field holds a value equal to the
  -- incoming one, and its old value where the row has none.
  pub money_newest_wins :
      (n : String)
      → mentions money_fields n ≡ true
      → HoldsNewest decimal_eq (e.money n) (i.money n) ((apply_merge e o).money n)
  unfolding lookup
  money_newest_wins n member =
      let (c, p, hc, hp, ho) = merge_shipment-known e i h in
      rw (apply_merge-eq-replaced, ho)
        (rw (lookup-gather, member) (revalued-newest (e.money n) (i.money n)))

  -- If merge_shipment returns, then a money field is named by one of its discrepancies exactly if
  -- the record and the row both have a value and the two differ.
  pub discrepancy_exact :
      (n : String)
      → mentions money_fields n ≡ true
      → any (names_field n) o.discrepancies ≡ contradicts (e.money n) (i.money n)
  discrepancy_exact n member =
      let (c, p, hc, hp, ho) = merge_shipment-known e i h in
      rw ho (rw (any-clashes e i n money_fields) (rw member))
