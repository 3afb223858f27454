-- ===== src/Api/Billing/Choosing.antt =====
-- What `choose_plan` and `activate_plan` of api/billing.py do to an organisation.
use data_effi.Prelude.{
  ℕ, String, Bool, true, Option, none, some, ◌≡◌, ◌≢◌, refl, sym, ◌∙◌, ap, Option-cases, inl, inr,
  ltb, Bool-cases, some_inj, none_ne_some,
}
use data_effi.Prelude.Equality.{nat_eq, string_eq}
use data_effi.Dict.{lookup, lookup-insert_self}
use data_effi.Api.Billing.{
  Status, Plan, Subscription, Tables, SubscriptionState, state_of, subscription_state, update,
  standing, plan_of, limit_of, offers, change_row, choose_plan, choosing, pending_unless_active,
}
use data_effi.Api.Billing.Standing.{
  row_at, row_at-there, ensured, ensured-row, subscription_state_lem,
}

pub update-row :
    (org : ℕ) (change : Subscription → Subscription) (t : Tables) (row : Subscription)
    → lookup org t.subscriptions ≡ some row
    → lookup org (update org change t).subscriptions ≡ some (change row)
unfolding update
update-row org change t row there = rw there (lookup-insert_self org (change row) t.subscriptions)

pub update-plans :
    (org : ℕ) (change : Subscription → Subscription) (t : Tables)
    → (update org change t).plans ≡ t.plans
unfolding update
update-plans org change t = elim (Option-cases (lookup org t.subscriptions)) [
  | inl absent ↦ rw absent
  | inr (row, there) ↦ rw there
]

-- A read of a row that is there.
pub subscription_state-there :
    (now org : ℕ) (t : Tables) (row : Subscription)
    → lookup org t.subscriptions ≡ some row
    → subscription_state now org t ≡ some (t, state_of now t org row)
unfolding subscription_state
subscription_state-there now org t row there = rw there

-- What a change leaves, and what is read after it.
abbrev pub after : ℕ → ℕ → (Subscription → Subscription) → Tables → Tables × SubscriptionState
after now org change t =
    let changed = update org change (ensured now org t) in
    (changed, state_of now changed org (change (row_at now org t)))

pub change_row_lem :
    (now org : ℕ) (change : Subscription → Subscription) (t : Tables)
    → change_row now org change (subscription_state now org t) ≡ some (after now org change t)
unfolding change_row
change_row_lem now org change t =
    ap (change_row now org change) (subscription_state_lem now org t)
    ∙ subscription_state-there now org (update org change (ensured now org t))
        (change (row_at now org t))
        (update-row org change (ensured now org t) (row_at now org t) (ensured-row now org t))

pub plan_of-plans :
    (t u : Tables) (code : Option String) → u.plans ≡ t.plans → plan_of u code ≡ plan_of t code
unfolding plan_of
plan_of-plans t u none h = refl
plan_of-plans t u (some code) h = ap (lookup code) h

standing-pending :
    (status : Status) (now trial_end : ℕ) (period_end plan_max : Option ℕ)
    → status ≢ Status.expired
    → standing (pending_unless_active status) now trial_end period_end plan_max
      ≡ standing status now trial_end period_end plan_max
unfolding standing
standing-pending Status.trial now e p m h = refl
standing-pending Status.pending now e p m h = refl
standing-pending Status.active now e p m h = refl
standing-pending Status.expired now e p m h = absurd (h refl)

-- What is open to an organisation: whether it is blocked, its days and its companies.
abbrev pub door : SubscriptionState → Bool × Option ℕ × Option ℕ
door s = (s.blocked, s.days_left, s.max_tenants)

door-choosing :
    (now org : ℕ) (code : String) (t u : Tables) (row : Subscription)
    → u.plans ≡ t.plans
    → row.status ≢ Status.expired
    → door (state_of now u org (choosing now code row)) ≡ door (state_of now t org row)
unfolding state_of
door-choosing now org code t u row same h =
    ap
      (λ (plan : Option Plan).
        standing (pending_unless_active row.status) now row.trial_ends_at row.current_period_end
          (limit_of plan))
      (plan_of-plans t u row.plan_code same)
    ∙ standing-pending row.status now row.trial_ends_at row.current_period_end
        (limit_of (plan_of t row.plan_code)) h

pub chosen :
    (now org : ℕ) (code : String) (t u : Tables) (s : SubscriptionState)
    → choose_plan now org code t ≡ some (u, s)
    → after now org (choosing now code) t ≡ (u, s)
unfolding choose_plan
chosen now org code t u s h = elim (Bool-cases (offers t code)) [
  | inl offered ↦ some_inj (sym (change_row_lem now org (choosing now code) t) ∙ (rw offered at h))
  | inr refused ↦ absurd (none_ne_some (rw refused at h))
]

pub read_lem :
    (now org : ℕ) (t v : Tables) (s : SubscriptionState)
    → subscription_state now org t ≡ some (v, s)
    → state_of now (ensured now org t) org (row_at now org t) ≡ s
read_lem now org t v s h =
    ap (λ (q : Tables × SubscriptionState). q.1)
      (some_inj (sym (subscription_state_lem now org t) ∙ h))

-- If the subscription is not expired, a choice of a plan that returns leaves the organisation as
-- it was: blocked or not, with the same days left, the same number of companies and the same plan.
pub choose_plan-door :
    (now org : ℕ) (code : String) (t v u : Tables) (before s : SubscriptionState)
    → subscription_state now org t ≡ some (v, before)
    → before.status ≢ Status.expired
    → choose_plan now org code t ≡ some (u, s)
    → (door s ≡ door before) × (s.plan_code ≡ before.plan_code)
unfolding state_of
choose_plan-door now org code t v u before s h standing k =
    let read = read_lem now org t v before h in
    let made = ap (λ (q : Tables × SubscriptionState). q.1) (chosen now org code t u s k) in
    let row = row_at now org t in
    let open_row : row.status ≢ Status.expired =
      λ e. standing (sym (ap (λ (x : SubscriptionState). x.status) read) ∙ e) in
    (
      sym (ap door made)
          ∙ door-choosing now org code (ensured now org t)
              (update org (choosing now code) (ensured now org t)) row
              (update-plans org (choosing now code) (ensured now org t)) open_row
          ∙ ap door read,
      sym (ap (λ (x : SubscriptionState). x.plan_code) made)
          ∙ ap (λ (x : SubscriptionState). x.plan_code) read,
    )

-- If the subscription of an organisation is expired, so that it is blocked, a choice of a plan
-- that is offered returns, and the organisation is then blocked only if its free month is over.
pub choose_plan-reopens :
    (now org : ℕ) (code : String) (t : Tables) (row : Subscription)
    → offers t code ≡ true
    → lookup org t.subscriptions ≡ some row
    → row.status ≡ Status.expired
    → ((state_of now t org row).blocked ≡ true)
      × (u : Tables) × (s : SubscriptionState) × (choose_plan now org code t ≡ some (u, s))
      × (s.blocked ≡ ltb row.trial_ends_at now)
unfolding choose_plan state_of standing
choose_plan-reopens now org code t row offered there closed =
    let result = after now org (choosing now code) t in
    let blocked_as = λ (status : Status).
      (standing (pending_unless_active status) now row.trial_ends_at row.current_period_end
        (limit_of (plan_of result.0 row.plan_code))).0 in
    (
      ap
          (λ (status : Status).
            (standing status now row.trial_ends_at row.current_period_end
              (limit_of (plan_of t row.plan_code))).0)
          closed,
      result.0,
      result.1,
      rw offered (change_row_lem now org (choosing now code) t),
      ap (λ (x : Subscription). (state_of now result.0 org (choosing now code x)).blocked)
            (row_at-there now org t row there)
          ∙ ap blocked_as closed,
    )
