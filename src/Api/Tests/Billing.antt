-- ===== src/Api/Tests/Billing.antt =====
-- api/billing.py at an organisation in its free month that chooses a plan.
use data_effi.Prelude.{
  ℕ, ◌-◌, ◌*◌, ◌+◌, ◌/◌, ◌≤◌, ◌<◌, ◌≢◌, true, false, none, some, [], ◌∷◌, ◌≡◌, refl, arith, ltb,
}
use data_effi.Prelude.Equality.{nat_eq, string_eq}
use data_effi.Dict.{lookup, insert}
use data_effi.Api.Billing.{
  Status, Plan, Subscription, Tables, SubscriptionState, state_of, start_trial, choose_plan,
  choosing, offers,
}
use data_effi.Api.Billing.Standing.{
  ensured, row_at, subscription_state_lem, subscription_state-deadline, deadline,
}
use data_effi.Api.Billing.Choosing.{choose_plan-door, choose_plan-reopens, after, door}
use data_effi.Api.Billing.Unpaid.{Step, Steps}
use data_effi.Api.Billing.Access.{Access, guard_subscription, unpaid_is_refused}

abbrev master : Plan
master = record {
  name = "Master";
  price_usd = none;
  max_tenants = some 1;
  is_custom = false;
  sort_order = 1;
  is_active = true;
}

abbrev free_month : Subscription
free_month = record {
  status = Status.trial;
  plan_code = none;
  requested_plan_code = none;
  requested_at = none;
  trial_ends_at = 2000000;
  current_period_end = none;
  activated_at = none;
  activated_by = none;
  notes = none;
  updated_at = 0;
}

abbrev tables : Tables
tables = record {
  plans = ("master", master) ∷ [];
  subscriptions = (5, free_month) ∷ (6, record free_month { status = Status.expired }) ∷ [];
  active_tenants = λ org. 1;
}

chose :
    choose_plan 10 5 "master" tables
    ≡ some
        ((after 10 5 (choosing 10 "master") tables).0, (after 10 5 (choosing 10 "master") tables).1)
unfolding choose_plan offers lookup insert state_of ensured start_trial
chose = refl

open_still : (state_of 10 (ensured 10 5 tables) 5 (row_at 10 5 tables)).status ≢ Status.expired
unfolding state_of lookup
open_still = λ e. cc

choose_plan-door_example :
    (door (after 10 5 (choosing 10 "master") tables).1
      ≡ door (state_of 10 (ensured 10 5 tables) 5 (row_at 10 5 tables)))
    × ((after 10 5 (choosing 10 "master") tables).1.plan_code
        ≡ (state_of 10 (ensured 10 5 tables) 5 (row_at 10 5 tables)).plan_code)
choose_plan-door_example =
    choose_plan-door 10 5 "master" tables (ensured 10 5 tables)
      ((after 10 5 (choosing 10 "master") tables).0)
      (state_of 10 (ensured 10 5 tables) 5 (row_at 10 5 tables))
      ((after 10 5 (choosing 10 "master") tables).1) (subscription_state_lem 10 5 tables) open_still
      chose

master_offered : offers tables "master" ≡ true
unfolding offers lookup
master_offered = refl

closed_there : lookup 6 tables.subscriptions ≡ some (record free_month { status = Status.expired })
unfolding lookup
closed_there = refl

choose_plan-reopens_example :
    ((state_of 10 tables 6 (record free_month { status = Status.expired })).blocked ≡ true)
    × (u : Tables) × (s : SubscriptionState) × (choose_plan 10 6 "master" tables ≡ some (u, s))
    × (s.blocked ≡ ltb 2000000 10)
choose_plan-reopens_example =
    choose_plan-reopens 10 6 "master" tables (record free_month { status = Status.expired })
      master_offered closed_there refl

trial_deadline :
    deadline
      (state_of 10 (ensured 10 5 tables) 5 (row_at 10 5 tables)).status
      (state_of 10 (ensured 10 5 tables) 5 (row_at 10 5 tables)).trial_ends_at
      (state_of 10 (ensured 10 5 tables) 5 (row_at 10 5 tables)).current_period_end
    ≡ some 2000000
unfolding state_of lookup
trial_deadline = refl

subscription_state-deadline_example :
    ((state_of 10 (ensured 10 5 tables) 5 (row_at 10 5 tables)).blocked ≡ ltb 2000000 10)
    × (days : ℕ) × ((state_of 10 (ensured 10 5 tables) 5 (row_at 10 5 tables)).days_left
        ≡ some days)
    × ((2000000 - 10) / 1000000 ≤ days * 86400)
    × (days * 86400 < (2000000 - 10) / 1000000 + 86400)
subscription_state-deadline_example =
    subscription_state-deadline 10 5 2000000 tables (ensured 10 5 tables)
      (state_of 10 (ensured 10 5 tables) 5 (row_at 10 5 tables))
      (subscription_state_lem 10 5 tables) trial_deadline

there : lookup 5 tables.subscriptions ≡ some free_month
unfolding lookup
there = refl

not_active : Status.trial ≢ Status.active
not_active = λ e. cc

chosen_only : Steps 5 tables ((after 10 5 (choosing 10 "master") tables).0)
chosen_only = Steps.more Steps.done (Step.choose 10 5 "master" _ chose)

unpaid_is_refused_example :
    guard_subscription 2000001 (some 5) (some 9) ((after 10 5 (choosing 10 "master") tables).0)
    ≡ some
        (ensured 2000001 5 ((after 10 5 (choosing 10 "master") tables).0), Access.payment_required)
unpaid_is_refused_example =
    unpaid_is_refused 5 2000001 (some 9) tables ((after 10 5 (choosing 10 "master") tables).0)
      free_month there not_active chosen_only (omega arith)
