-- ===== src/Api/Billing/Changes.antt =====
-- The changes of a subscription in api/billing.py.
use data_effi.Prelude.{ℕ, ◌+◌, ◌*◌, String, Bool, false, Option, none, some, if◌then◌else◌, or_else}
use data_effi.Prelude.Equality.{nat_eq, string_eq}
use data_effi.Dict.{lookup, insert}
use data_effi.Api.Billing.Reading.{
  Status, Plan, Subscription, Tables, SubscriptionState, microseconds_per_day, subscription_state,
}

-- WHERE code = … AND is_active
is_offered : Option Plan → Bool
is_offered none = false
is_offered (some plan) = plan.is_active

unfoldable pub offers : Tables → String → Bool
unfolding lookup is_offered
offers t code = is_offered (lookup code t.plans)

update_row : Option Subscription → ℕ → (Subscription → Subscription) → Tables → Tables
unfolding insert
update_row none org change t = t
update_row (some row) org change t = record t {
  subscriptions = insert org (change row) t.subscriptions;
}

-- UPDATE core.org_subscription SET … WHERE org_id = …
unfoldable pub update : ℕ → (Subscription → Subscription) → Tables → Tables
unfolding update_row lookup
update org change t = update_row (lookup org t.subscriptions) org change t

abbrev pub pending_unless_active : Status → Status
pending_unless_active Status.active = Status.active
pending_unless_active _ = Status.pending

abbrev pub choosing : ℕ → String → Subscription → Subscription
choosing now code row = record row {
  requested_plan_code = some code;
  requested_at = some now;
  status = pending_unless_active row.status;
  updated_at = now;
}

-- the row is made if it is not there, then changed, then read
unfoldable pub change_row :
    ℕ
    → ℕ
    → (Subscription → Subscription)
    → Option (Tables × SubscriptionState)
    → Option (Tables × SubscriptionState)
unfolding update subscription_state
change_row now org change none = none
change_row now org change (some (t, seen)) = subscription_state now org (update org change t)

unfoldable pub choose_plan : ℕ → ℕ → String → Tables → Option (Tables × SubscriptionState)
unfolding offers change_row subscription_state
choose_plan now org code t =
    if offers t code
    then change_row now org (choosing now code) (subscription_state now org t)
    else none

abbrev pub period : ℕ → Option ℕ → Option ℕ
period now none = none
period now (some months) = some (now + 30 * months * microseconds_per_day)

abbrev pub activating :
    ℕ → String → Option ℕ → Option ℕ → Option String → Subscription → Subscription
activating now code months activated_by notes row = record row {
  status = Status.active;
  plan_code = some code;
  requested_plan_code = none;
  current_period_end = period now months;
  activated_at = some now;
  activated_by = activated_by;
  notes = or_else notes row.notes;
  updated_at = now;
}

unfoldable pub activate_plan :
    ℕ
    → ℕ
    → String
    → Option ℕ
    → Option ℕ
    → Option String
    → Tables
    → Option (Tables × SubscriptionState)
unfolding offers change_row subscription_state
activate_plan now org code months activated_by notes t =
    if offers t code
    then change_row now org (activating now code months activated_by notes)
        (subscription_state now org t)
    else none

unfoldable pub expire_subscription : ℕ → ℕ → Option String → Tables → Tables
unfolding update
expire_subscription now org notes t =
    update org
      (λ row. record row {
        status = Status.expired;
        notes = or_else notes row.notes;
        updated_at = now;
      })
      t
