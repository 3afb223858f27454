-- ===== src/Api/Billing/Unpaid.antt =====
-- An organisation whose plan nobody activates, in api/billing.py.
use data_effi.Prelude.{
  ℕ, ◌<◌, String, true, false, Option, some, ◌≡◌, ◌≢◌, refl, sym, ◌∙◌, ap, arith, Option-cases,
  Bool-cases, inl, inr, lt→ltb, if◌then◌else◌, some_inj, none_ne_some, ◌==◌, ==_iff, subst,
}
use data_effi.Prelude.Equality.{nat_eq, string_eq}
use data_effi.Dict.{lookup, insert, lookup-insert}
use data_effi.Api.Billing.{
  Status, Subscription, Tables, SubscriptionState, state_of, new_trial, trial_days,
  subscription_state, update, standing, choose_plan, choosing, activate_plan, activating,
  expire_subscription, start_trial, pending_unless_active, plan_of, limit_of,
}
use data_effi.Api.Billing.Standing.{ensured, subscription_state_lem}
use data_effi.Api.Billing.Choosing.{update-row, subscription_state-there, chosen}
use data_effi.Api.Billing.Activating.{activated}

-- What happens to the tables: an organisation is read, chooses, or is closed, at any moment and as
-- often as may be, and any organisation but `org` is activated.
pub data Step (org : ℕ) : Tables → Tables → Type 0 where
  read :
      {t u : Tables} (now other : ℕ) (s : SubscriptionState)
      → subscription_state now other t ≡ some (u, s)
      → Step org t u
  choose :
      {t u : Tables} (now other : ℕ) (code : String) (s : SubscriptionState)
      → choose_plan now other code t ≡ some (u, s)
      → Step org t u
  close :
      {t u : Tables} (now other : ℕ) (notes : Option String)
      → expire_subscription now other notes t ≡ u
      → Step org t u
  activate :
      {t u : Tables} (now other : ℕ) (code : String) (months activated_by : Option ℕ)
      (notes : Option String) (s : SubscriptionState)
      → (other == org) ≡ false
      → activate_plan now other code months activated_by notes t ≡ some (u, s)
      → Step org t u

pub data Steps (org : ℕ) : Tables → Tables → Type 0 where
  done : {t : Tables} → Steps org t t
  more : {t u v : Tables} → Steps org t u → Step org u v → Steps org t v

-- The organisation has no plan, and its free month ends at the given moment.
pub record IsUnpaid (org ends : ℕ) (t : Tables) : Type 0 where
  pub row : Subscription
  pub there : lookup org t.subscriptions ≡ some row
  pub not_active : row.status ≢ Status.active
  pub ends_at : row.trial_ends_at ≡ ends

update-other :
    (org other : ℕ) (change : Subscription → Subscription) (t : Tables)
    → (other == org) ≡ false
    → lookup org (update other change t).subscriptions ≡ lookup org t.subscriptions
unfolding update
update-other org other change t apart = elim (Option-cases (lookup other t.subscriptions)) [
  | inl absent ↦ rw absent
  | inr (row, there) ↦
      rw there (ground (arith, lookup-insert other org (change row) t.subscriptions))
]

ensured-kept :
    (now org other : ℕ) (t : Tables) (row : Subscription)
    → lookup org t.subscriptions ≡ some row
    → lookup org (ensured now other t).subscriptions ≡ some row
unfolding ensured start_trial
ensured-kept now org other t row there = elim (Option-cases (lookup other t.subscriptions)) [
  | inl absent ↦ rw absent (elim (Bool-cases (other == org)) [
    | inl equal ↦
        let same_org : other ≡ org = (==_iff other org).0 equal in
        absurd
          (none_ne_some (sym absent ∙ ap (λ (o : ℕ). lookup o t.subscriptions) same_org ∙ there))
    | inr apart ↦
        let e : lookup org (insert other (new_trial now trial_days) t.subscriptions) ≡ (
            if other == org then some (new_trial now trial_days) else lookup org t.subscriptions) =
          lookup-insert other org (new_trial now trial_days) t.subscriptions in
        e ∙ (rw apart there)
  ])
  | inr (other_row, present) ↦ rw present there
]

ensured-IsUnpaid :
    {org ends : ℕ} {t : Tables} (now other : ℕ)
    → IsUnpaid org ends t
    → IsUnpaid org ends (ensured now other t)
ensured-IsUnpaid {org} {ends} {t} now other p = record {
  row = p.row;
  there = ensured-kept now org other t p.row p.there;
  not_active = p.not_active;
  ends_at = p.ends_at;
}

-- A change of a row that activates nothing and leaves the end of the free month.
record IsHarmless (change : Subscription → Subscription) : Type 0 where
  activates_nothing :
      (row : Subscription) → row.status ≢ Status.active → (change row).status ≢ Status.active
  same_end : (row : Subscription) → (change row).trial_ends_at ≡ row.trial_ends_at

update-IsUnpaid :
    {org ends : ℕ} {t : Tables} (other : ℕ) (change : Subscription → Subscription)
    → IsHarmless change
    → IsUnpaid org ends t
    → IsUnpaid org ends (update other change t)
update-IsUnpaid {org} {ends} {t} other change harmless p = elim (Bool-cases (other == org)) [
  | inl equal ↦
      let same_org : org ≡ other = sym ((==_iff other org).0 equal) in
      record {
        row = change p.row;
        there =
            subst (λ (o : ℕ). lookup org (update o change t).subscriptions ≡ some (change p.row))
              same_org (update-row org change t p.row p.there);
        not_active = harmless.activates_nothing p.row p.not_active;
        ends_at = harmless.same_end p.row ∙ p.ends_at;
      }
  | inr apart ↦ record {
    row = p.row;
    there = update-other org other change t apart ∙ p.there;
    not_active = p.not_active;
    ends_at = p.ends_at;
  }
]

pending-not_active : (s : Status) → s ≢ Status.active → pending_unless_active s ≢ Status.active
pending-not_active Status.active h = λ e. h e
pending-not_active Status.trial h = λ e. cc
pending-not_active Status.pending h = λ e. cc
pending-not_active Status.expired h = λ e. cc

choosing-IsHarmless : (now : ℕ) (code : String) → IsHarmless (choosing now code)
choosing-IsHarmless now code = record {
  activates_nothing = λ row. pending-not_active row.status;
  same_end = λ row. refl;
}

first_of : {p q : Tables × SubscriptionState} → p ≡ q → p.0 ≡ q.0
first_of e = ap (λ (q : Tables × SubscriptionState). q.0) e

Step-IsUnpaid :
    {org ends : ℕ} {t u : Tables} → Step org t u → IsUnpaid org ends t → IsUnpaid org ends u
unfolding expire_subscription
Step-IsUnpaid {org} {ends} {t} {u} (read now other s h) p =
    subst (IsUnpaid org ends) (first_of (some_inj (sym (subscription_state_lem now other t) ∙ h)))
      (ensured-IsUnpaid now other p)
Step-IsUnpaid {org} {ends} {t} {u} (choose now other code s h) p =
    subst (IsUnpaid org ends) (first_of (chosen now other code t u s h)) (
      update-IsUnpaid other (choosing now code) (choosing-IsHarmless now code)
        (ensured-IsUnpaid now other p))
Step-IsUnpaid {org} {ends} {t} {u} (close now other notes h) p = subst (IsUnpaid org ends) h (
    update-IsUnpaid other _
      (record { activates_nothing = λ row not_active e. cc; same_end = λ row. refl }) p)
Step-IsUnpaid {org} {ends} {t} {u} (activate now other code months activated_by notes s apart h) p =
    let ready = ensured-IsUnpaid now other p in
    subst (IsUnpaid org ends)
      (first_of (activated now other code months activated_by notes t u s h))
      (record {
        row = ready.row;
        there =
            update-other org other (activating now code months activated_by notes)
              (ensured now other t) apart
            ∙ ready.there;
        not_active = ready.not_active;
        ends_at = ready.ends_at;
      })

Steps-IsUnpaid :
    {org ends : ℕ} {t u : Tables} → Steps org t u → IsUnpaid org ends t → IsUnpaid org ends u
Steps-IsUnpaid done p = p
Steps-IsUnpaid (more steps step) p = Step-IsUnpaid step (Steps-IsUnpaid steps p)

standing-over :
    (status : Status) (now ends : ℕ) (period_end plan_max : Option ℕ)
    → status ≢ Status.active
    → ends < now
    → (standing status now ends period_end plan_max).0 ≡ true
unfolding standing
standing-over Status.trial now ends p m h over = lt→ltb ends now over
standing-over Status.pending now ends p m h over = lt→ltb ends now over
standing-over Status.expired now ends p m h over = refl
standing-over Status.active now ends p m h over = absurd (h refl)

-- Nobody gets past the free month without an activation.
pub unpaid_is_blocked :
    (org now : ℕ) (t u v : Tables) (row : Subscription) (s : SubscriptionState)
    → lookup org t.subscriptions ≡ some row
    → row.status ≢ Status.active
    → Steps org t u
    → row.trial_ends_at < now
    → subscription_state now org u ≡ some (v, s)
    → s.blocked ≡ true
unfolding state_of
unpaid_is_blocked org now t u v row s there not_active steps over h =
    let p =
      Steps-IsUnpaid steps
        (record { row = row; there = there; not_active = not_active; ends_at = refl }) in
    let seen = subscription_state-there now org u p.row p.there in
    let ended : p.row.trial_ends_at < now = subst (λ (e : ℕ). e < now) (sym p.ends_at) over in
    ap (λ (q : Tables × SubscriptionState). q.1.blocked) (some_inj (sym h ∙ seen))
    ∙ standing-over p.row.status now p.row.trial_ends_at p.row.current_period_end
        (limit_of (plan_of u p.row.plan_code)) p.not_active ended
