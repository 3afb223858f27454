-- ===== src/Api/Billing/Activating.antt =====
-- What `activate_plan` of api/billing.py opens.
use data_effi.Prelude.{
  ℕ, String, Option, some, ◌≡◌, sym, ◌∙◌, inl, inr, Bool-cases, some_inj, none_ne_some,
}
use data_effi.Prelude.Equality.{nat_eq, string_eq}
use data_effi.Api.Billing.{Tables, SubscriptionState, offers, activate_plan, activating}
use data_effi.Api.Billing.Choosing.{after, change_row_lem}

pub activated :
    (now org : ℕ) (code : String) (months activated_by : Option ℕ) (notes : Option String)
    (t u : Tables) (s : SubscriptionState)
    → activate_plan now org code months activated_by notes t ≡ some (u, s)
    → after now org (activating now code months activated_by notes) t ≡ (u, s)
unfolding activate_plan
activated now org code months activated_by notes t u s h = elim (Bool-cases (offers t code)) [
  | inl offered ↦ some_inj (
      sym (change_row_lem now org (activating now code months activated_by notes) t)
      ∙ (rw offered at h))
  | inr refused ↦ absurd (none_ne_some (rw refused at h))
]
