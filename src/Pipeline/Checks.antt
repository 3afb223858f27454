-- ===== src/Pipeline/Checks.antt =====
-- The sanity checks of pipeline/ingest.py: `check_shipment` and `check_movement`.
pub mod Blocking
use data_effi.Prelude.{
  ℕ, ◌+◌, ◌-◌, ◌/◌, String, Bool, true, false, not, ◌&&◌, ◌||◌, Option, none, some, List, [], ◌∷◌,
  ◌++◌, ltb, is_some, is_blank, if◌then◌else◌, take,
}
use data_effi.Prelude.Int.{ℤ, pos_part}
use data_effi.Decimal.{Decimal, decimal_lt, is_positive, is_negative, is_zero, three_halves_of}
use data_effi.Pipeline.Mapping.Status.{CanonStatus, canon}
use data_effi.Pipeline.Models.{Value, ShipmentInput, MovementInput, SanityIssue, Severity}
use data_effi.Pipeline.Normalize.Dates.{date_of}

-- MAX_BACKDATE_DAYS
abbrev pub max_backdate_days : ℕ
max_backdate_days = 1095

abbrev issue : ℕ → String → String → Severity → SanityIssue
issue row key code severity = record {
  row_number = row;
  entity_key = key;
  code = code;
  severity = severity;
}

-- an issue where the test holds
abbrev pub issue_if : Bool → SanityIssue → List SanityIssue
issue_if test i = if test then i ∷ [] else []

-- the fields that the checks read by name
abbrev pub date_in : Option Value → Option ℕ
date_in (some (Value.date d)) = some d
date_in _ = none

abbrev pub timestamp_in : Option Value → Option ℕ
timestamp_in (some (Value.timestamp t)) = some t
timestamp_in _ = none

abbrev pub count_in : Option Value → Option ℤ
count_in (some (Value.count n)) = some n
count_in _ = none

-- the two tests on the creation date, which every input has
abbrev pub created_issues : ℕ → String → ℕ → Option ℕ → List SanityIssue
created_issues row key today none = []
created_issues row key today (some created) =
    if ltb today created
    then issue row key "future_created_date" Severity.error ∷ []
    else issue_if (ltb max_backdate_days (today - created))
        (issue row key "very_old_created_date" Severity.warning)

abbrev delivered_early : Option ℕ → Option ℕ → Bool
delivered_early (some created) (some delivered) = ltb (date_of delivered) created
delivered_early _ _ = false

abbrev not_positive_count : Option ℤ → Bool
not_positive_count (some n) = not (ltb 0 (pos_part n))
not_positive_count none = false

abbrev pub negative_amount : Option Decimal → Bool
negative_amount (some d) = is_negative d
negative_amount none = false

-- `(value or 0) <= 0`
abbrev no_value : Option Decimal → Bool
no_value (some d) = not (is_positive d)
no_value none = true

-- COD_OVERCOLLECT_FACTOR is 1.5
abbrev overcollected : Option Decimal → Option Decimal → Bool
overcollected (some collected) (some declared) =
    is_positive declared && decimal_lt (three_halves_of declared) collected
overcollected _ _ = false

-- the tests that a status decides
unfoldable pub status_issues : ShipmentInput → CanonStatus → List SanityIssue
unfolding decimal_lt
status_issues i status =
    issue_if (status.is_delivered && not (is_some (timestamp_in (i.attr "delivered_at"))))
      (issue i.source_row_number i.tracking_number "delivered_without_date" Severity.warning)
    ++ issue_if (not_positive_count (count_in (i.attr "quantity")))
        (issue i.source_row_number i.tracking_number "invalid_quantity" Severity.warning)
    ++ issue_if (negative_amount (i.money "declared_value"))
        (issue i.source_row_number i.tracking_number "negative_declared_value" Severity.error)
    ++ issue_if (status.is_delivered && no_value (i.money "declared_value"))
        (issue i.source_row_number i.tracking_number "delivered_without_value" Severity.warning)
    ++ issue_if (overcollected (i.money "cod_collected") (i.money "declared_value"))
        (issue i.source_row_number i.tracking_number "overcollected" Severity.warning)

-- the body, once the status is found
unfoldable pub issues_of : ShipmentInput → ℕ → CanonStatus → List SanityIssue
unfolding status_issues
issues_of i today status =
    created_issues i.source_row_number i.tracking_number today (date_in (i.attr "created_date"))
    ++ issue_if
        (delivered_early (date_in (i.attr "created_date")) (timestamp_in (i.attr "delivered_at")))
        (issue i.source_row_number i.tracking_number "delivered_before_created" Severity.warning)
    ++ status_issues i status

checked : ShipmentInput → ℕ → Option CanonStatus → Option (List SanityIssue)
unfolding issues_of
checked i today none = none
checked i today (some status) = some (issues_of i today status)

-- None is the KeyError of an unknown status.
unfoldable pub check_shipment : ShipmentInput → ℕ → Option (List SanityIssue)
unfolding checked
check_shipment i today = checked i today (canon i.status_code)

-- `external_ref or dedupe_key[:12]`
abbrev pub movement_key : MovementInput → String
movement_key m = elim m.external_ref [
  | none ↦ take 12 m.dedupe_key
  | some ref ↦ if is_blank ref then take 12 m.dedupe_key else ref
]

abbrev no_text : Option String → Bool
no_text none = true
no_text (some s) = is_blank s

unfoldable pub check_movement : MovementInput → ℕ → List SanityIssue
check_movement m today =
    issue_if (is_zero m.amount)
      (issue m.source_row_number (movement_key m) "zero_amount" Severity.warning)
    ++ issue_if (ltb today m.movement_date)
        (issue m.source_row_number (movement_key m) "future_movement_date" Severity.error)
    ++ issue_if (no_text m.tracking_number_raw)
        (issue m.source_row_number (movement_key m) "movement_without_guide" Severity.warning)

abbrev pub is_error : SanityIssue → Bool
is_error i = elim i.severity [ Severity.error ↦ true | Severity.warning ↦ false ]
