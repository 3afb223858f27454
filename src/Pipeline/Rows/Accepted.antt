-- ===== src/Pipeline/Rows/Accepted.antt =====
-- Which rows the handlers of pipeline/ingest.py accept, and what an accepted row is like.
use data_effi.Prelude.{
  ℕ, ◌≤◌, ◌<◌, ◌≡◌, refl, ap, String, Bool, true, false, not, ◌&&◌, Option, none, some, List, [],
  ◌∷◌, any, ltb, is_some, arith, Bool-cases, Option-cases, inl, inr, subst, str_eq,
}
use data_effi.Prelude.Int.{ℤ, pos, pos_part}
use data_effi.Prelude.Equality.{string_eq}
use data_effi.Dict.{lookup}
use data_effi.Decimal.{Decimal, decimal_abs, is_negative}
use data_effi.Pipeline.Mapping.Status.{CanonStatus, canon}
use data_effi.Pipeline.Mapping.Resolve.{resolve_status}
use data_effi.Pipeline.Mapping.Resolve.Ladder.{resolve_status-ladder}
use data_effi.Pipeline.Models.{ShipmentInput, MovementInput, SanityIssue, BatchContext}
use data_effi.Pipeline.Normalize.Money.{parse_decimal, parse_int}
use data_effi.Pipeline.Normalize.Dates.{parse_date}
use data_effi.Pipeline.Normalize.Keys.{normalize_tracking}
use data_effi.Pipeline.Checks.{check_movement, is_error, date_in, count_in, negative_amount}
use data_effi.Pipeline.Checks.Blocking.{is_future, check_movement-is_error, check_shipment-is_error}
use data_effi.Pipeline.Rows.{Engine, Fields, get, Verdict, blocking, judged, abs_or_none}
use data_effi.Pipeline.Rows.Guide.{
  handle_shipment_row, shipment_of, tracked, dated, with_checks, attributes, amounts_of,
  amount_names, found_amount, at_least_one,
}
use data_effi.Pipeline.Rows.Payment.{handle_movement_row, movement_of, valued}

abbrev pub is_accepted {ℓ} : {A : Type ℓ} → Verdict A → Bool
is_accepted (Verdict.accepted a) = true
is_accepted (Verdict.refused f) = false

-- An issue blocks exactly if one is an error.
is_some-blocking : (is : List SanityIssue) → is_some (blocking is) ≡ any is_error is
unfolding blocking
is_some-blocking [] = refl
is_some-blocking (i ∷ is) = ground (arith, is_some-blocking is)

is_accepted-judged {ℓ} :
    {A : Type ℓ} (a : A) (is : List SanityIssue)
    → is_accepted (judged a (blocking is)) ≡ not (any is_error is)
is_accepted-judged a is = ground (arith, is_some-blocking is)

judged-accepted {ℓ} :
    {A : Type ℓ} {a b : A} (o : Option SanityIssue) → judged a o ≡ Verdict.accepted b → a ≡ b
judged-accepted none h = cc
judged-accepted (some i) h = cc

judged_passed {ℓ} :
    {A : Type ℓ} (a b : A) (is : List SanityIssue)
    → judged a (blocking is) ≡ Verdict.accepted b
    → any is_error is ≡ false
judged_passed a b is h =
    let ok : is_accepted (judged a (blocking is)) ≡ true = rw h in
    ground (arith, is_accepted-judged a is)

-- A movement for the store: a magnitude, on a day that has come.
pub record IsMagnitude (today : ℕ) (m : MovementInput) : Type 0 where
  pub magnitude : is_negative m.amount ≡ false
  pub on_time : m.movement_date ≤ today

module _ (e : Engine) (ctx : BatchContext) (row : ℕ) (mapped : Fields) (currency : String) where
  movement_date-is_future :
      (amount : Decimal)
      → ltb e.today (movement_of e ctx row mapped currency amount).movement_date
        ≡ is_future e.today (parse_date e.runtime (get mapped "movement_date"))
  unfolding movement_of
  movement_date-is_future amount =
      elim (Option-cases (parse_date e.runtime (get mapped "movement_date"))) [
        | inl undated ↦ rw undated (ground arith)
        | inr (d, on) ↦ rw on
      ]

  -- A movement's row is accepted exactly if its amount can be read and its date, if it can be
  -- read, is not after today.
  pub handle_movement_row-accepts :
      is_accepted (handle_movement_row e ctx row mapped currency).1 ≡ (
        is_some (parse_decimal e.runtime (get mapped "amount"))
        && not (is_future e.today (parse_date e.runtime (get mapped "movement_date"))))
  unfolding handle_movement_row valued
  handle_movement_row-accepts =
      elim (Option-cases (parse_decimal e.runtime (get mapped "amount"))) [
        | inl unreadable ↦ rw unreadable
        | inr (amount, read) ↦
            rw read
              (rw (is_accepted-judged, check_movement-is_error, movement_date-is_future amount))
      ]

  movement_of-amount :
      (amount : Decimal) → is_negative (movement_of e ctx row mapped currency amount).amount ≡ false
  unfolding movement_of decimal_abs
  movement_of-amount amount = ground arith

  -- An accepted movement has an amount that is not negative and a date that is not after today.
  pub handle_movement_row-IsMagnitude :
      (issues : List SanityIssue) (m : MovementInput)
      → handle_movement_row e ctx row mapped currency ≡ (issues, Verdict.accepted m)
      → IsMagnitude e.today m
  unfolding handle_movement_row valued
  handle_movement_row-IsMagnitude issues m h =
      elim (Option-cases (parse_decimal e.runtime (get mapped "amount"))) [
        | inl unreadable ↦ cc (rw unreadable at h)
        | inr (amount, read) ↦
            let made = movement_of e ctx row mapped currency amount in
            let verdict =
              ap (λ (q : List SanityIssue × Verdict MovementInput). q.1) (rw read at h) in
            let same_input : made ≡ m =
              judged-accepted (blocking (check_movement made e.today)) verdict in
            let passed : any is_error (check_movement made e.today) ≡ false =
              judged_passed made m (check_movement made e.today) verdict in
            subst (IsMagnitude e.today) same_input (record {
              magnitude = movement_of-amount amount;
              on_time = ground (arith, check_movement-is_error made e.today);
            })
      ]

-- A magnitude is not negative.
abs_or_none-negative : (o : Option Decimal) → negative_amount (abs_or_none o) ≡ false
unfolding abs_or_none decimal_abs
abs_or_none-negative none = refl
abs_or_none-negative (some d) = ground arith

-- The input that a row becomes: a status of the ladder, at least one piece, and no amount that
-- is negative.
pub record IsSound (i : ShipmentInput) : Type 0 where
  pub status : CanonStatus
  pub on_ladder : canon i.status_code ≡ some status
  pub pieces : (n : ℤ) × (count_in (i.attr "quantity") ≡ some n) × (0 < pos_part n)
  pub magnitudes : (name : String) → negative_amount (i.money name) ≡ false

at_least_one-pos : (o : Option ℤ) → 0 < pos_part (at_least_one o)
at_least_one-pos none = omega arith
at_least_one-pos (some n) = ground arith

module _ (e : Engine) (row : ℕ) (mapped : Fields) (currency : String) where
  amounts-negative :
      (ns : List String) (n : String)
      → negative_amount (found_amount (lookup n (amounts_of e row mapped currency ns))) ≡ false
  unfolding lookup amounts_of
  amounts-negative [] n = refl
  amounts-negative (m ∷ ns) n = elim (Bool-cases (str_eq m n)) [
    | inl here ↦ rw here (abs_or_none-negative (parse_decimal e.runtime (get mapped m)))
    | inr later ↦ rw later (amounts-negative ns n)
  ]

  pub shipment_of-IsSound :
      (tracking : String) (created : ℕ)
      → IsSound (shipment_of e row mapped currency tracking created)
  unfolding shipment_of lookup attributes
  shipment_of-IsSound tracking created =
      elim (Option-cases (canon (resolve_status e.runtime (get mapped "status_raw")).0)) [
        | inl unknown ↦
            let known = resolve_status-ladder e.runtime (get mapped "status_raw") in
            cc (unknown, known)
        | inr (status, known) ↦ record {
          status = status;
          on_ladder = known;
          pieces = (
            at_least_one (parse_int e.runtime (get mapped "quantity") (some (pos 1))),
            refl,
            at_least_one-pos (parse_int e.runtime (get mapped "quantity") (some (pos 1))),
          );
          magnitudes = λ name. amounts-negative amount_names name;
        }
      ]

  shipment_of-created :
      (tracking : String) (created : ℕ)
      → date_in ((shipment_of e row mapped currency tracking created).attr "created_date")
        ≡ some created
  unfolding shipment_of lookup attributes
  shipment_of-created tracking created = refl

  -- A guide's row is accepted exactly if its tracking number and its creation date can be read and
  -- the date is not after today; the checks on the amounts never refuse it.
  pub handle_shipment_row-accepts : is_accepted (handle_shipment_row e row mapped currency).1 ≡ (
      is_some (normalize_tracking e.runtime (get mapped "tracking_number"))
      && is_some (parse_date e.runtime (get mapped "created_date"))
      && not (is_future e.today (parse_date e.runtime (get mapped "created_date"))))
  unfolding handle_shipment_row tracked dated with_checks
  handle_shipment_row-accepts =
      elim (Option-cases (normalize_tracking e.runtime (get mapped "tracking_number"))) [
        | inl no_number ↦ rw no_number
        | inr (tracking, numbered) ↦
            elim (Option-cases (parse_date e.runtime (get mapped "created_date"))) [
              | inl undated ↦ rw (numbered, undated)
              | inr (created, on) ↦
                  let i = shipment_of e row mapped currency tracking created in
                  let sound = shipment_of-IsSound tracking created in
                  let (issues, passed, errors) =
                    check_shipment-is_error i e.today sound.status sound.on_ladder in
                  rw (numbered, on)
                    (rw passed (
                      rw
                        (
                          is_accepted-judged,
                          errors,
                          shipment_of-created tracking created,
                          sound.magnitudes "declared_value",
                        )
                        (ground arith)))
            ]
      ]

  -- An accepted guide has a status of STATUS_CANON, a quantity of at least one, and no amount that
  -- is negative.
  pub handle_shipment_row-IsSound :
      (issues : List SanityIssue) (i : ShipmentInput)
      → handle_shipment_row e row mapped currency ≡ (issues, Verdict.accepted i)
      → IsSound i
  unfolding handle_shipment_row tracked dated with_checks
  handle_shipment_row-IsSound issues i h =
      elim (Option-cases (normalize_tracking e.runtime (get mapped "tracking_number"))) [
        | inl no_number ↦ cc (rw no_number at h)
        | inr (tracking, numbered) ↦
            elim (Option-cases (parse_date e.runtime (get mapped "created_date"))) [
              | inl undated ↦ cc (rw (numbered, undated) at h)
              | inr (created, on) ↦
                  let made = shipment_of e row mapped currency tracking created in
                  let sound = shipment_of-IsSound tracking created in
                  let (found_issues, passed, errors) =
                    check_shipment-is_error made e.today sound.status sound.on_ladder in
                  let same_input : made ≡ i = judged-accepted (blocking found_issues) (
                    ap (λ (q : List SanityIssue × Verdict ShipmentInput). q.1)
                      (rw passed at (rw (numbered, on) at h))) in
                  subst IsSound same_input sound
            ]
      ]
