-- ===== src/Pipeline/Merge/Idempotence.antt =====
-- Merging the same row once more changes nothing.
use data_effi.Prelude.{
  ℕ, String, true, false, Option, none, some, List, [], ◌∷◌, or_else, mentions, ◌≡◌, refl, ◌∙◌, ap,
  arith, Bool-cases, inl, inr, str_eq_refl,
}
use data_effi.Decimal.{Decimal, decimal_eq}
use data_effi.Pipeline.Mapping.Status.{CanonStatus, canon}
use data_effi.Pipeline.Models.{
  Value, value_eq, ShipmentInput, static_fields, progress_fields, money_fields,
}
use data_effi.Pipeline.Merge.{
  ShipmentRecord, MergeOutcome, empty_outcome, newer, may_advance, apply_merge, merge_shipment,
  merge_found,
}
use data_effi.Pipeline.Merge.Loops.{
  gap, gap_at, refreshed, refreshed_at, revalued, revalued_at, clash, clashes, gather_idle,
}
use data_effi.Pipeline.Merge.Status.{merge-status}
use data_effi.Pipeline.Merge.Fields.{
  advances, merged, merge_known_lem, apply_merge-eq-replaced, merge_shipment-known, HoldsNewest,
  static_fills_gaps, progress_newest_wins, money_newest_wins,
}

newer_again : (a b : Option ℕ) → newer (or_else (or_else (newer a b) none) a) b ≡ none
unfolding newer
newer_again a none = refl
newer_again none (some t) = ground arith
newer_again (some s) (some t) = ground arith

gap_again : (old new : Option Value) → gap new (or_else old new) ≡ none
gap_again old none = refl
gap_again none (some v) = refl
gap_again (some w) (some v) = refl

-- A value that is equal to the incoming one is not written again.
refreshed_again :
    (old new after : Option Value) → HoldsNewest value_eq old new after → refreshed new after ≡ none
refreshed_again old none after h = refl
refreshed_again old (some v) after (w, is_w, equal) = rw (is_w, equal)

revalued_again :
    (old new after : Option Decimal)
    → HoldsNewest decimal_eq old new after
    → revalued new after ≡ none
revalued_again old none after h = refl
revalued_again old (some v) after (w, is_w, equal) = rw (is_w, equal)

-- What is not written again is not recorded again.
clash_again :
    (key name : String) (new old : Option Decimal)
    → revalued new old ≡ none
    → clash key name new old ≡ []
clash_again key name none old h = refl
clash_again key name (some v) none h = refl
clash_again key name (some v) (some w) h = ground arith

clashes_idle :
    (e : ShipmentRecord) (i : ShipmentInput) (ns : List String)
    → ((n : String) → mentions ns n ≡ true → revalued_at e i n ≡ none)
    → clashes e i ns ≡ []
clashes_idle e i [] h = refl
clashes_idle e i (n ∷ ns) h =
    rw
      (clash_again e.tracking_number n (i.money n) (e.money n)
        (h n (ground (arith, str_eq_refl n))))
      (clashes_idle e i ns (λ k p. h k (ground arith)))

-- A record that has everything that a row could bring.
pub record IsSettled (e : ShipmentRecord) (i : ShipmentInput) : Type 0 where
  pub current : CanonStatus
  pub proposed : CanonStatus
  pub has_current : canon e.status_code ≡ some current
  pub has_proposed : canon i.status_code ≡ some proposed
  pub stays : advances current proposed e i ≡ false
  pub seen : newer e.last_status_at i.last_status_at ≡ none
  pub statics : (n : String) → mentions static_fields n ≡ true → gap_at e i n ≡ none
  pub progress : (n : String) → mentions progress_fields n ≡ true → refreshed_at e i n ≡ none
  pub money : (n : String) → mentions money_fields n ≡ true → revalued_at e i n ≡ none

-- Such a row is merged without an update and without a discrepancy.
pub merge_settled :
    (e : ShipmentRecord) (i : ShipmentInput)
    → IsSettled e i
    → merge_shipment e i ≡ some empty_outcome
unfolding merge_shipment merge_found
merge_settled e i s =
    rw (s.has_current, s.has_proposed) (ap some (merge_known_lem s.current s.proposed e i ∙ quiet))
  where
    quiet : merged s.current s.proposed e i ≡ empty_outcome
    quiet = rw (
      s.stays,
      s.seen,
      gather_idle (gap_at e i) static_fields [] s.statics,
      gather_idle (refreshed_at e i) progress_fields [] s.progress,
      gather_idle (revalued_at e i) money_fields [] s.money,
      clashes_idle e i money_fields s.money,
    )

module _ (e : ShipmentRecord) (i : ShipmentInput) {o : MergeOutcome}
    (h : merge_shipment e i ≡ some o) where
  abbrev after : ShipmentRecord
  after = apply_merge e o

  status_again :
      (c p : CanonStatus) × (canon after.status_code ≡ some c)
      × (canon i.status_code ≡ some p)
      × (advances c p after i ≡ false)
  unfolding may_advance
  status_again =
      let (c, p, hc, hp, code, raw) = merge-status e i h in
      elim (Bool-cases (advances c p e i)) [
        | inl up ↦ (p, p, rw (code, up) hp, hp, ground arith)
        | inr stay ↦ (
          c,
          p,
          rw (code, stay) hc,
          hp,
          let same : after.status_code ≡ e.status_code = rw (code, stay) in rw same stay,
        )
      ]

  -- After a merge the record is settled for the row that was merged.
  pub apply_merge-IsSettled : IsSettled after i
  apply_merge-IsSettled =
      let (c, p, hc, hp, stays) = status_again in
      let (_, _, _, _, ho) = merge_shipment-known e i h in
      record {
        current = c;
        proposed = p;
        has_current = hc;
        has_proposed = hp;
        stays = stays;
        seen = rw (apply_merge-eq-replaced, ho) (newer_again e.last_status_at i.last_status_at);
        statics = λ n m. rw (static_fills_gaps e i h n m) (gap_again (e.attr n) (i.attr n));
        progress = λ n m.
            refreshed_again (e.attr n) (i.attr n) (after.attr n) (progress_newest_wins e i h n m);
        money = λ n m.
            revalued_again (e.money n) (i.money n) (after.money n) (money_newest_wins e i h n m);
      }

  -- If merge_shipment returns an outcome for a row, then merging the same row into the record that
  -- apply_merge gives for it is an outcome without an update and without a discrepancy.
  pub merge_again : merge_shipment after i ≡ some empty_outcome
  merge_again = merge_settled after i apply_merge-IsSettled
