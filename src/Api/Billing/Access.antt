-- ===== src/Api/Billing/Access.antt =====
-- What a subscription opens: `_guard_subscription` of api/deps.py, the limit on companies of
-- api/routers/org.py, and the lists that api/billing.py shows.
use Prim.Native.String.{◌++◌}
use data_effi.Prelude.{
  ℕ, String, Bool, true, Option, none, some, List, [], ◌∷◌, if◌then◌else◌, leb, ltb, ◌≡◌, ◌≢◌, ◌<◌,
  ap, ◌∙◌, is_blank,
}
use data_effi.Prelude.Equality.{nat_eq, string_eq}
use data_effi.Dict.{Dict, lookup}
use data_effi.Pipeline.Normalize.Runtime.{Runtime}
use data_effi.Pipeline.Normalize.Text.{filter}
use data_effi.Api.Billing.{
  Status, Plan, Subscription, Tables, SubscriptionState, subscription_state,
}
use data_effi.Api.Billing.Standing.{subscription_state_lem, ensured}
use data_effi.Api.Billing.Unpaid.{Steps, unpaid_is_blocked}

pub data Access : Type 0 where
  granted payment_required : Access

-- the organisation that owns the company, or else the person's
unfoldable pub payer : Option ℕ → Option ℕ → Option ℕ
payer (some owner) person = some owner
payer none person = person

abbrev gate : Option (Tables × SubscriptionState) → Option (Tables × Access)
gate none = none
gate (some (t, s)) = some (t, if s.blocked then Access.payment_required else Access.granted)

guard_payer : ℕ → Option ℕ → Tables → Option (Tables × Access)
unfolding subscription_state
guard_payer now none t = some (t, Access.granted)
guard_payer now (some org) t = gate (subscription_state now org t)

-- _guard_subscription
unfoldable pub guard_subscription : ℕ → Option ℕ → Option ℕ → Tables → Option (Tables × Access)
unfolding guard_payer payer
guard_subscription now owner person t = guard_payer now (payer owner person) t

-- the test of create_company
unfoldable pub may_add_company : SubscriptionState → Bool
may_add_company s = elim s.max_tenants [ none ↦ true | some n ↦ ltb s.tenants_used n ]

-- sorted by sort_order, equal ones as they stand
place_plan : String × Plan → List (String × Plan) → List (String × Plan)
place_plan p [] = p ∷ []
place_plan p (q ∷ plans) =
    let rest = place_plan p plans in
    if leb p.1.sort_order q.1.sort_order then p ∷ q ∷ plans else q ∷ rest

offered_plans : Dict String Plan → List (String × Plan)
unfolding place_plan
offered_plans [] = []
offered_plans (p ∷ plans) =
    let rest = offered_plans plans in if p.1.is_active then place_plan p rest else rest

unfoldable pub list_plans : Tables → List (String × Plan)
unfolding offered_plans
list_plans t = offered_plans t.plans

wanting : Option String → String
wanting none = ""
wanting (some org) = if is_blank org then "" else " para " ++ org

whatsapp_link : (String → String) → String → Option String → Option String
unfolding wanting
whatsapp_link quote digits org =
    if is_blank digits
    then none
    else some (
        "https://wa.me/"
        ++ digits
        ++ "?text="
        ++ quote ("Hola, quiero un plan a la medida de Master Data" ++ wanting org ++ "."))

-- `quote` is urllib's
unfoldable pub advisor_whatsapp_url :
    Runtime → (String → String) → Option String → Option String → Option String
unfolding whatsapp_link filter
advisor_whatsapp_url r quote none org = none
advisor_whatsapp_url r quote (some number) org =
    whatsapp_link quote (filter r.is_digit_like number) org

-- If the subscription of an organisation is not active, and then any sequence of reads, choices,
-- closures and activations of other organisations happens, the data of the organisation's
-- companies is refused to everybody once its free month is over.
pub unpaid_is_refused :
    (org now : ℕ) (person : Option ℕ) (t u : Tables) (row : Subscription)
    → lookup org t.subscriptions ≡ some row
    → row.status ≢ Status.active
    → Steps org t u
    → row.trial_ends_at < now
    → guard_subscription now (some org) person u ≡ some (ensured now org u, Access.payment_required)
unfolding guard_subscription
unpaid_is_refused org now person t u row there not_active steps over =
    let read = subscription_state_lem now org u in
    let closed = unpaid_is_blocked org now t u _ row _ there not_active steps over read in
    ap gate read
    ∙ ap
        (λ (b : Bool).
          let x : Option (Tables × Access) =
            some (ensured now org u, if b then Access.payment_required else Access.granted) in
          x)
        closed
