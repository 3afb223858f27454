-- ===== src/Api/Billing/Standing.antt =====
-- What `subscription_state` of api/billing.py answers, and when.
use data_effi.Prelude.{
  ℕ, ◌+◌, ◌-◌, ◌*◌, ◌/◌, ◌<◌, ◌≤◌, Option, none, some, ◌≡◌, sym, ◌∙◌, ap, arith, Option-cases, inl,
  inr, ltb, some_inj, none_ne_some,
}
use data_effi.Prelude.Equality.{nat_eq, string_eq}
use data_effi.Dict.{lookup, lookup-insert_self}
use data_effi.Api.Billing.{
  days_of, Status, Subscription, Tables, SubscriptionState, new_trial, trial_days, start_trial,
  state_of, subscription_state, read_or_start, read_again, days_until, standing,
  microseconds_per_day, plan_of, limit_of,
}

-- The row that a read finds, or makes.
abbrev pub row_or_trial : ℕ → Option Subscription → Subscription
row_or_trial now none = new_trial now trial_days
row_or_trial now (some row) = row

abbrev pub row_at : ℕ → ℕ → Tables → Subscription
row_at now org t = row_or_trial now (lookup org t.subscriptions)

-- The tables after a read.
unfoldable pub ensured : ℕ → ℕ → Tables → Tables
ensured now org t = start_trial now org trial_days t

pub ensured-row :
    (now org : ℕ) (t : Tables)
    → lookup org (ensured now org t).subscriptions ≡ some (row_at now org t)
unfolding ensured start_trial
ensured-row now org t = elim (Option-cases (lookup org t.subscriptions)) [
  | inl absent ↦ rw absent (lookup-insert_self org (new_trial now trial_days) t.subscriptions)
  | inr (row, there) ↦ rw there there
]

ensured-there :
    (now org : ℕ) (t : Tables) (row : Subscription)
    → lookup org t.subscriptions ≡ some row
    → ensured now org t ≡ t
unfolding ensured start_trial
ensured-there now org t row there = rw there

pub row_at-there :
    (now org : ℕ) (t : Tables) (row : Subscription)
    → lookup org t.subscriptions ≡ some row
    → row_at now org t ≡ row
row_at-there now org t row there = rw there

pub ensured-plans : (now org : ℕ) (t : Tables) → (ensured now org t).plans ≡ t.plans
unfolding ensured start_trial
ensured-plans now org t = elim (Option-cases (lookup org t.subscriptions)) [
  | inl absent ↦ rw absent
  | inr (row, there) ↦ rw there
]

pub subscription_state_lem :
    (now org : ℕ) (t : Tables)
    → subscription_state now org t
      ≡ some (ensured now org t, state_of now (ensured now org t) org (row_at now org t))
unfolding subscription_state ensured read_or_start read_again
subscription_state_lem now org t = elim (Option-cases (lookup org t.subscriptions)) [
  | inl absent ↦
      ap (read_or_start now org t) absent
      ∙ ap (read_again now org (ensured now org t)) (ensured-row now org t)
  | inr (row, there) ↦
      ap (read_or_start now org t) there
      ∙ ap
          (λ (q : Tables × Subscription).
            let x : Option (Tables × SubscriptionState) = some (q.0, state_of now q.0 org q.1) in x)
          (λ i.
            (sym (ensured-there now org t row there) i, sym (row_at-there now org t row there) i))
]

-- the seconds that are left fit in the days, and in no fewer days
pub days_until_bounds :
    (now moment : ℕ)
    → ((moment - now) / 1000000 ≤ days_until now moment * 86400)
      × (days_until now moment * 86400 < (moment - now) / 1000000 + 86400)
unfolding days_until
days_until_bounds now moment = omega arith

pub days_until_trial : (now days : ℕ) → days_until now (now + days * microseconds_per_day) ≡ days
unfolding days_until
days_until_trial now days = omega arith

-- The moment that closes the door.
abbrev pub deadline : Status → ℕ → Option ℕ → Option ℕ
deadline Status.active trial_end period_end = period_end
deadline Status.expired trial_end period_end = none
deadline Status.trial trial_end period_end = some trial_end
deadline Status.pending trial_end period_end = some trial_end

standing-deadline :
    (status : Status) (now trial_end : ℕ) (period_end plan_max : Option ℕ) (moment : ℕ)
    → deadline status trial_end period_end ≡ some moment
    → ((standing status now trial_end period_end plan_max).0 ≡ ltb moment now)
      × ((standing status now trial_end period_end plan_max).1 ≡ some (days_until now moment))
unfolding standing days_of
standing-deadline Status.active now e none m moment h = absurd (none_ne_some h)
standing-deadline Status.active now e (some p) m moment h =
    let same : p ≡ moment = some_inj h in
    (ap (λ (x : ℕ). ltb x now) same, ap (λ (x : ℕ). some (days_until now x)) same)
standing-deadline Status.expired now e p m moment h = absurd (none_ne_some h)
standing-deadline Status.trial now e p m moment h =
    let same : e ≡ moment = some_inj h in
    (ap (λ (x : ℕ). ltb x now) same, ap (λ (x : ℕ). some (days_until now x)) same)
standing-deadline Status.pending now e p m moment h =
    let same : e ≡ moment = some_inj h in
    (ap (λ (x : ℕ). ltb x now) same, ap (λ (x : ℕ). some (days_until now x)) same)

-- If a subscription has a deadline, which is the end of the period of an active one and the end of
-- the free month of one in trial or pending, then it is blocked exactly if the deadline is past,
-- and the days left are the least number of whole days that hold the whole seconds up to the
-- deadline.
pub subscription_state-deadline :
    (now org moment : ℕ) (t v : Tables) (s : SubscriptionState)
    → subscription_state now org t ≡ some (v, s)
    → deadline s.status s.trial_ends_at s.current_period_end ≡ some moment
    → (s.blocked ≡ ltb moment now)
      × (days : ℕ) × (s.days_left ≡ some days)
      × ((moment - now) / 1000000 ≤ days * 86400)
      × (days * 86400 < (moment - now) / 1000000 + 86400)
unfolding state_of
subscription_state-deadline now org moment t v s h ends =
    let u = ensured now org t in
    let row = row_at now org t in
    let read : state_of now u org row ≡ s =
      ap (λ (q : Tables × SubscriptionState). q.1)
        (some_inj (sym (subscription_state_lem now org t) ∙ h)) in
    let same =
      ap (λ (x : SubscriptionState). deadline x.status x.trial_ends_at x.current_period_end) read in
    let (closes, counts) =
      standing-deadline row.status now row.trial_ends_at row.current_period_end
        (limit_of (plan_of u row.plan_code)) moment (same ∙ ends) in
    (
      sym (ap (λ (x : SubscriptionState). x.blocked) read) ∙ closes,
      days_until now moment,
      sym (ap (λ (x : SubscriptionState). x.days_left) read) ∙ counts,
      (days_until_bounds now moment).0,
      (days_until_bounds now moment).1,
    )
