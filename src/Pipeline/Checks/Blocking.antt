-- ===== src/Pipeline/Checks/Blocking.antt =====
-- Which rows the sanity checks of pipeline/ingest.py reject.
use data_effi.Prelude.{
  any-append, ℕ, ◌≡◌, refl, String, Bool, false, ◌&&◌, ◌||◌, Option, none, some, List, ltb, any,
  arith,
}
use data_effi.Pipeline.Mapping.Status.{CanonStatus, canon}
use data_effi.Pipeline.Models.{ShipmentInput, MovementInput, SanityIssue}
use data_effi.Pipeline.Checks.{
  issue_if, date_in, created_issues, issues_of, negative_amount, status_issues, checked,
  check_shipment, check_movement, is_error,
}

any-issue_if :
    (p : SanityIssue → Bool) (test : Bool) (i : SanityIssue)
    → any p (issue_if test i) ≡ (test && p i)
any-issue_if p test i = ground arith

-- the date is later than today
abbrev pub is_future : ℕ → Option ℕ → Bool
is_future today none = false
is_future today (some d) = ltb today d

created-is_error :
    (row : ℕ) (key : String) (today : ℕ) (created : Option ℕ)
    → any is_error (created_issues row key today created) ≡ is_future today created
created-is_error row key today none = refl
created-is_error row key today (some d) = ground arith

-- check_movement has an issue of severity error exactly if the movement's date is after today.
pub check_movement-is_error :
    (m : MovementInput) (today : ℕ)
    → any is_error (check_movement m today) ≡ ltb today m.movement_date
unfolding check_movement
check_movement-is_error m today =
    rw (any-append, any-issue_if) (rw (any-append, any-issue_if) (ground arith))

status-is_error :
    (i : ShipmentInput) (status : CanonStatus)
    → any is_error (status_issues i status) ≡ negative_amount (i.money "declared_value")
unfolding status_issues
status-is_error i status =
    rw (any-append, any-issue_if)
      (rw (any-append, any-issue_if)
        (rw (any-append, any-issue_if)
          (rw (any-append, any-issue_if) (rw any-issue_if (ground arith)))))

-- For a guide whose status is in STATUS_CANON, check_shipment returns, and it has an issue of
-- severity error exactly if the creation date is after today or the declared value is negative.
pub check_shipment-is_error :
    (i : ShipmentInput) (today : ℕ) (status : CanonStatus)
    → canon i.status_code ≡ some status
    → (issues : List SanityIssue) × (check_shipment i today ≡ some issues)
      × (any is_error issues ≡ (
          is_future today (date_in (i.attr "created_date"))
          || negative_amount (i.money "declared_value")))
unfolding check_shipment checked issues_of
check_shipment-is_error i today status known = (
  issues_of i today status,
  rw known,
  rw any-append
      (rw any-append (rw (created-is_error, any-issue_if, status-is_error) (ground arith))),
)
