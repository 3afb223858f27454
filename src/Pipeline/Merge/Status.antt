-- ===== src/Pipeline/Merge/Status.antt =====
-- The status ladder under merges: a status only moves forward, and a final one is frozen.
use data_effi.Prelude.{
  ℕ, String, true, false, Option, none, some, str_eq_iff, ◌≡◌, refl, ◌≤◌, ◌<◌, arith, Bool-cases,
  ◌⊎◌, inl, inr, if◌then◌else◌, ◌≢◌, ◌∙◌, ap, sym,
}
use data_effi.Prelude.Equality.{string_eq}
use data_effi.Dict.{lookup}
use data_effi.Pipeline.Mapping.Status.{CanonStatus, canon, is_terminal_exception}
use data_effi.Pipeline.Models.{ShipmentInput}
use data_effi.Pipeline.Merge.{
  ShipmentRecord, MergeOutcome, may_advance, apply_merge, merge_shipment,
}
use data_effi.Pipeline.Merge.Fields.{advances, apply_merge-eq-replaced, merge_shipment-known}

-- The place of a status on the ladder, 0 for a code that is not on it.
abbrev rank_of : Option CanonStatus → ℕ
rank_of none = 0
rank_of (some s) = s.sort_order

abbrev pub rank : String → ℕ
rank code = rank_of (canon code)

-- What the test of the status step tells.
may_advance-true :
    (c p : CanonStatus) (old new : String)
    → may_advance c p (is_terminal_exception old new) ≡ true
    → ((c.is_terminal ≡ false) ⊎ ((old ≡ "lost") × (new ≡ "compensated")))
      × (c.sort_order < p.sort_order)
unfolding may_advance is_terminal_exception
may_advance-true c p old new h = ground (arith, str_eq_iff old "lost", str_eq_iff new "compensated")

-- The moves that the ladder allows.
pub data StatusStep (s t : String) : Type 0 where
  hold : s ≡ t → StatusStep s t
  forward :
      (current : CanonStatus)
      → canon s ≡ some current
      → current.is_terminal ≡ false
      → rank s < rank t
      → StatusStep s t
  compensate : s ≡ "lost" → t ≡ "compensated" → StatusStep s t

-- The status after a merge, by the test of the status step.
pub merge-status :
    (e : ShipmentRecord) (i : ShipmentInput) {o : MergeOutcome}
    → merge_shipment e i ≡ some o
    → (c p : CanonStatus) × (canon e.status_code ≡ some c)
      × (canon i.status_code ≡ some p)
      × ((apply_merge e o).status_code
          ≡ (if advances c p e i then i.status_code else e.status_code))
      × ((apply_merge e o).status_raw ≡ (if advances c p e i then i.status_raw else e.status_raw))
merge-status e i {o} h =
    let (c, p, hc, hp, ho) = merge_shipment-known e i h in
    elim (Bool-cases (advances c p e i)) [
      | inl up ↦
          (c, p, hc, hp, rw (apply_merge-eq-replaced, ho, up), rw (apply_merge-eq-replaced, ho, up))
      | inr stay ↦ (
        c,
        p,
        hc,
        hp,
        rw (apply_merge-eq-replaced, ho, stay),
        rw (apply_merge-eq-replaced, ho, stay),
      )
    ]

-- If merge_shipment returns, then apply_merge makes a move that the ladder of statuses allows: it
-- holds the status, it goes to a higher rank from a status that is not terminal, or it goes from
-- lost to compensated.
pub merge-StatusStep :
    (e : ShipmentRecord) (i : ShipmentInput) {o : MergeOutcome}
    → merge_shipment e i ≡ some o
    → StatusStep e.status_code (apply_merge e o).status_code
unfolding may_advance is_terminal_exception
merge-StatusStep e i h =
    let (c, p, hc, hp, code, raw) = merge-status e i h in
    elim (Bool-cases (advances c p e i)) [
      | inl up ↦
          let (reason, less) = may_advance-true c p e.status_code i.status_code up in
          rw (code, up)
            (elim reason [
              | inl open_status ↦
                  forward c hc open_status (omega (arith, ap rank_of hc, ap rank_of hp))
              | inr (lost, paid) ↦ compensate lost paid
            ])
      | inr stay ↦ hold (rw (code, stay))
    ]

-- The records that a stored guide goes through as its number is sighted again and again.
pub data Sightings (e : ShipmentRecord) : ShipmentRecord → Type 0 where
  first : Sightings e e
  again :
      {f g : ShipmentRecord}
      → Sightings e f
      → (i : ShipmentInput) (o : MergeOutcome) → merge_shipment f i ≡ some o
      → g ≡ apply_merge f o
      → Sightings e g

StatusStep-rank : {s t : String} → StatusStep s t → rank s ≤ rank t
unfolding canon lookup
StatusStep-rank (hold same) = rw same (omega arith)
StatusStep-rank (forward c hc open_status less) = omega arith
StatusStep-rank (compensate lost paid) = rw (lost, paid) (omega arith)

StatusStep-frozen :
    {s t : String} {c : CanonStatus}
    → canon s ≡ some c
    → c.is_terminal ≡ true
    → s ≢ "lost"
    → StatusStep s t
    → t ≡ s
StatusStep-frozen hc final alive (hold same) = sym same
StatusStep-frozen hc final alive (forward c h open_status less) = ground arith
StatusStep-frozen hc final alive (compensate lost paid) = absurd (alive lost)

-- Whatever rows merge_shipment and apply_merge take in for a guide, and in whatever order, the
-- rank of its status in STATUS_CANON never goes down.
pub status_never_regresses :
    (e f : ShipmentRecord) → Sightings e f → rank e.status_code ≤ rank f.status_code
status_never_regresses e f first = omega arith
status_never_regresses e g (again {f} before i o h same) =
    rw same
      (omega (arith, status_never_regresses e f before, StatusStep-rank (merge-StatusStep f i h)))

-- A guide whose status is terminal in STATUS_CANON, and is not lost, keeps that status through
-- every later merge.
pub final_status_is_frozen :
    (e f : ShipmentRecord) (c : CanonStatus)
    → canon e.status_code ≡ some c
    → c.is_terminal ≡ true
    → e.status_code ≢ "lost"
    → Sightings e f
    → f.status_code ≡ e.status_code
final_status_is_frozen e f c hc final alive first = refl
final_status_is_frozen e g c hc final alive (again {f} before i o h same) =
    let kept = final_status_is_frozen e f c hc final alive before in
    rw same
      (StatusStep-frozen {c = c} (rw kept hc) final (rw kept alive) (merge-StatusStep f i h) ∙ kept)
