-- ===== src/Api/Billing/Reading.antt =====
-- The tables of api/billing.py, and what it reads from them.
use data_effi.Prelude.{ℕ, ◌+◌, ◌-◌, ◌*◌, ◌/◌, String, Bool, true, false, Option, none, some, ltb}
use data_effi.Prelude.Equality.{nat_eq, string_eq}
use data_effi.Decimal.{Decimal}
use data_effi.Dict.{Dict, lookup, insert}

pub data Status : Type 0 where
  trial pending active expired : Status

-- core.plan
pub record Plan : Type 0 where
  pub name : String
  pub price_usd : Option Decimal
  pub max_tenants : Option ℕ
  pub is_custom : Bool
  pub sort_order : ℕ
  pub is_active : Bool

-- core.org_subscription
pub record Subscription : Type 0 where
  pub status : Status
  pub plan_code : Option String
  pub requested_plan_code : Option String
  pub requested_at : Option ℕ
  pub trial_ends_at : ℕ
  pub current_period_end : Option ℕ
  pub activated_at : Option ℕ
  pub activated_by : Option ℕ
  pub notes : Option String
  pub updated_at : ℕ

-- The tables that billing reads; `active_tenants` counts the active companies of an organisation.
pub record Tables : Type 0 where
  pub plans : Dict String Plan
  pub subscriptions : Dict ℕ Subscription
  pub active_tenants : ℕ → ℕ

abbrev pub microseconds_per_day : ℕ
microseconds_per_day = 86400 * 1000000

-- TRIAL_DAYS and TRIAL_MAX_TENANTS
abbrev pub trial_days : ℕ
trial_days = 30

abbrev trial_max_tenants : ℕ
trial_max_tenants = 1

pub data Message : Type 0 where
  plan_ended trial_ended_pending trial_ended : Message
  trial_left : ℕ → Message
  chosen : Option String → ℕ → Message
  plan_active : Option String → Message

-- SubscriptionState
pub record SubscriptionState : Type 0 where
  pub status : Status
  pub plan_code : Option String
  pub plan_name : Option String
  pub requested_plan_code : Option String
  pub requested_plan_name : Option String
  pub trial_ends_at : ℕ
  pub current_period_end : Option ℕ
  pub days_left : Option ℕ
  pub max_tenants : Option ℕ
  pub tenants_used : ℕ
  pub blocked : Bool
  pub message : Message

abbrev pub new_trial : ℕ → ℕ → Subscription
new_trial now days = record {
  status = Status.trial;
  plan_code = none;
  requested_plan_code = none;
  requested_at = none;
  trial_ends_at = now + days * microseconds_per_day;
  current_period_end = none;
  activated_at = none;
  activated_by = none;
  notes = none;
  updated_at = now;
}

-- INSERT … ON CONFLICT (org_id) DO NOTHING
insert_if_absent : Option Subscription → ℕ → Subscription → Tables → Tables
unfolding insert
insert_if_absent none org row t = record t { subscriptions = insert org row t.subscriptions }
insert_if_absent (some old) org row t = t

unfoldable pub start_trial : ℕ → ℕ → ℕ → Tables → Tables
unfolding insert_if_absent lookup
start_trial now org days t =
    insert_if_absent (lookup org t.subscriptions) org (new_trial now days) t

-- `int` cuts the seconds, and the division is rounded up; a moment that has passed has none left
unfoldable pub days_until : ℕ → ℕ → ℕ
days_until now moment = ((moment - now) / 1000000 + 86399) / 86400

-- LEFT JOIN core.plan
unfoldable pub plan_of : Tables → Option String → Option Plan
unfolding lookup
plan_of t none = none
plan_of t (some code) = lookup code t.plans

abbrev name_of : Option Plan → Option String
name_of none = none
name_of (some plan) = some plan.name

abbrev pub limit_of : Option Plan → Option ℕ
limit_of none = none
limit_of (some plan) = plan.max_tenants

abbrev pub ends_before : Option ℕ → ℕ → Bool
ends_before none now = false
ends_before (some moment) now = ltb moment now

unfoldable pub days_of : ℕ → Option ℕ → Option ℕ
unfolding days_until
days_of now none = none
days_of now (some moment) = some (days_until now moment)

-- whether the door is closed, the days left, and how many companies there may be
unfoldable pub standing : Status → ℕ → ℕ → Option ℕ → Option ℕ → Bool × Option ℕ × Option ℕ
unfolding days_until
standing Status.active now trial_end period_end plan_max =
    (ends_before period_end now, days_of now period_end, plan_max)
standing Status.expired now trial_end period_end plan_max = (true, some 0, some trial_max_tenants)
standing Status.trial now trial_end period_end plan_max =
    (ltb trial_end now, some (days_until now trial_end), some trial_max_tenants)
standing Status.pending now trial_end period_end plan_max =
    (ltb trial_end now, some (days_until now trial_end), some trial_max_tenants)

abbrev days_or_zero : Option ℕ → ℕ
days_or_zero none = 0
days_or_zero (some n) = n

message_of : Bool → Status → Option ℕ → Option String → Option String → Message
message_of true Status.active days plan requested = Message.plan_ended
message_of true Status.pending days plan requested = Message.trial_ended_pending
message_of true Status.trial days plan requested = Message.trial_ended
message_of true Status.expired days plan requested = Message.trial_ended
message_of false Status.trial days plan requested = Message.trial_left (days_or_zero days)
message_of false Status.pending days plan requested = Message.chosen requested (days_or_zero days)
message_of false Status.active days plan requested = Message.plan_active plan
message_of false Status.expired days plan requested = Message.plan_active plan

-- what the row says
unfoldable pub state_of : ℕ → Tables → ℕ → Subscription → SubscriptionState
unfolding standing message_of plan_of
state_of now t org row =
    let plan = plan_of t row.plan_code in
    let requested = plan_of t row.requested_plan_code in
    let (blocked, days_left, max_tenants) =
      standing row.status now row.trial_ends_at row.current_period_end (limit_of plan) in
    record {
      status = row.status;
      plan_code = row.plan_code;
      plan_name = name_of plan;
      requested_plan_code = row.requested_plan_code;
      requested_plan_name = name_of requested;
      trial_ends_at = row.trial_ends_at;
      current_period_end = row.current_period_end;
      days_left = days_left;
      max_tenants = max_tenants;
      tenants_used = t.active_tenants org;
      blocked = blocked;
      message = message_of blocked row.status days_left (name_of plan) (name_of requested);
    }

-- the second call, after `start_trial`; None stands for a call that would go on without end
unfoldable pub read_again :
    ℕ → ℕ → Tables → Option Subscription → Option (Tables × SubscriptionState)
unfolding state_of
read_again now org t none = none
read_again now org t (some row) = some (t, state_of now t org row)

unfoldable pub read_or_start :
    ℕ → ℕ → Tables → Option Subscription → Option (Tables × SubscriptionState)
unfolding state_of read_again start_trial lookup
read_or_start now org t (some row) = some (t, state_of now t org row)
read_or_start now org t none =
    let started = start_trial now org trial_days t in
    read_again now org started (lookup org started.subscriptions)

unfoldable pub subscription_state : ℕ → ℕ → Tables → Option (Tables × SubscriptionState)
unfolding read_or_start lookup
subscription_state now org t = read_or_start now org t (lookup org t.subscriptions)
