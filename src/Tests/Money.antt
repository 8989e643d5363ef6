-- ===== src/Tests/Money.antt =====
-- Examples for billing and the limits.
use recommendation_engine.Base.{
  ℕ, ◌≤◌, ◌+◌, ◌/◌, ◌≡◌, refl, String, true, false, Option, none, some, List, [], ◌∷◌, length,
}
use recommendation_engine.Base.Dict.{lookup}
use recommendation_engine.Base.Result.{Result, ok}
use recommendation_engine.Billing.{Plan, Tenant, is_complimentary, entitled_plan}
use recommendation_engine.Billing.Checkout.{Client, Kept, checkout_url, checkout_url-Kept}
use recommendation_engine.Billing.Webhooks.{
  Field, Subscription, Event, Outcome, Store, StripeError, is_ours, apply_subscription,
  subscription_of, sync, tenant_for, handle,
}
use recommendation_engine.Billing.Webhooks.Delivery.{
  settled, step, deliver, handle-once, deliver-any_order, handle-replaces_subscription,
}
use recommendation_engine.Limits.{
  Key, items, requests, demo_session, demo_day, count_of, or_setting, hit, consume_items,
}
use recommendation_engine.Limits.Quota.{Reserved, HitAnswer, consume_items-Reserved, hit-bounds}
use recommendation_engine.Limits.Demo.{Counted, consume_demo, consume_demo-Counted}
use recommendation_engine.Limits.Capacity.{
  ensure_item_capacity, upload, ensure_item_capacity-upload,
}

-- A workspace on Pro by the subscription "sub_new".
abbrev shop : Tenant
shop = record {
  id = "shop";
  plan = Plan.pro;
  stripe_customer_id = some "cus_1";
  stripe_subscription_id = some "sub_new";
  subscription_status = some "active";
  current_period_end = some 900;
  cancel_at_period_end = false;
  comp_pro_since = none;
  comp_pro_until = none;
  max_items = none;
  monthly_query_limit = none;
  rate_limit_rpm = none;
  email_verified = true;
}

abbrev prices : List String
prices = "price_pro" ∷ []

abbrev as_id : String → Option String
as_id s = some s

-- The workspace's earlier subscription, which was cancelled, and its present one.
abbrev subscription : String → String → ℕ → Subscription
subscription id status created = record {
  id = some id;
  status = some status;
  cancel_at_period_end = false;
  items = record { price_id = some "price_pro"; current_period_end = some 900 } ∷ [];
  current_period_end = none;
  customer = Field.plain "cus_1";
  tenant_id = some "shop";
  created = created;
}

abbrev retrieve : String → Result StripeError Subscription
retrieve id = ok (subscription id "canceled" 10)

abbrev event : String → String → Event
event id kind = record {
  id = id;
  kind = kind;
  object = record {
    id = Field.plain "sub_old";
    mode = none;
    subscription = Field.absent;
    parent_subscription = Field.absent;
  };
}

abbrev before : Store
before = record { tenants = ("shop", shop) ∷ []; events = [] }

abbrev deleted : Event
deleted = event "evt_1" "customer.subscription.deleted"

abbrev updated : Event
updated = event "evt_2" "customer.subscription.updated"

abbrev after : Store
after = record {
  tenants = ("shop", apply_subscription shop (subscription "sub_old" "canceled" 10)) ∷ [];
  events = ("evt_1", Outcome.synced) ∷ [];
}

handled : handle prices as_id retrieve deleted before ≡ ok (after, Outcome.synced)
unfolding handle subscription_of sync tenant_for is_ours
handled = refl

handle-once_example : handle prices as_id retrieve deleted after ≡ ok (after, Outcome.duplicate)
handle-once_example =
    handle-once prices as_id retrieve retrieve deleted before after Outcome.synced handled

about : (id : String) → subscription_of (event id "customer.subscription.deleted") ≡ some "sub_old"
unfolding subscription_of
about id = refl

about_updated : subscription_of updated ≡ some "sub_old"
unfolding subscription_of
about_updated = refl

deliver-any_order_example :
    (deliver prices as_id retrieve (deleted ∷ updated ∷ deleted ∷ []) before).tenants
    ≡ settled prices as_id (subscription "sub_old" "canceled" 10) before.tenants
deliver-any_order_example =
    deliver-any_order prices as_id retrieve "sub_old" (subscription "sub_old" "canceled" 10) refl
      deleted (updated ∷ deleted ∷ []) before (refl, tt) refl
      (about "evt_1", (about_updated, (about "evt_1", tt)))

ours : (s : String) → is_ours prices (subscription "sub_old" s 10) ≡ true
unfolding is_ours
ours s = refl

not_complimentary : is_complimentary 100 shop ≡ false
unfolding is_complimentary
not_complimentary = refl

handle-replaces_subscription_example :
    (t : Tenant) × (lookup "shop" (step prices as_id retrieve deleted before).tenants ≡ some t)
    × (t.stripe_subscription_id ≡ some "sub_old")
    × (entitled_plan 100 t ≡ Plan.free)
handle-replaces_subscription_example =
    handle-replaces_subscription prices as_id retrieve "sub_old"
      (subscription "sub_old" "canceled" 10) refl deleted before "shop" "shop" shop 100 refl
      (about "evt_1") (ours "canceled") refl refl refl refl not_complimentary

-- The customer's subscriptions as Stripe lists them.
abbrev listed : String → List Subscription
listed c = subscription "sub_old" "canceled" 10 ∷ subscription "sub_new" "active" 20 ∷ []

-- Every counter stands at 7.
abbrev sevens : Key → Option ℕ
sevens k = some 7

consume_items-Reserved_example :
    Reserved 5
      (or_setting (some 10) 100)
      sevens
      (items "shop" 3)
      (consume_items 100 "shop" 5 (some 10) 3 (record { counters = sevens; outages = [] }))
consume_items-Reserved_example = consume_items-Reserved 100 "shop" 5 (some 10) 3 sevens

hit-bounds_example :
    let out = hit "key" 7 125 (record { counters = sevens; outages = [] }) in
    (count_of (out.1.counters (requests "key" (125 / 60))) ≡ 7 + 1) × HitAnswer 7 7 out.0
hit-bounds_example = hit-bounds "key" 7 125 sevens

consume_demo-Counted_example :
    Counted 20 500 (demo_session "s") (demo_day "shop" 3) 1 sevens (
      consume_demo 20 500 "s" "shop" 3 1
        (record { counters = sevens; outages = false ∷ true ∷ [] }))
consume_demo-Counted_example =
    consume_demo-Counted 20 500 "s" "shop" 3 1
      (record { counters = sevens; outages = false ∷ true ∷ [] })

fits : ensure_item_capacity (some 3) ("a" ∷ "b" ∷ []) ("b" ∷ "c" ∷ "c" ∷ []) ≡ ok tt
unfolding ensure_item_capacity
fits = refl

ensure_item_capacity-upload_example : length (upload ("a" ∷ "b" ∷ []) ("b" ∷ "c" ∷ "c" ∷ [])) ≤ 3
ensure_item_capacity-upload_example =
    ensure_item_capacity-upload 3 ("a" ∷ "b" ∷ []) ("b" ∷ "c" ∷ "c" ∷ []) (refl, (refl, tt)) fits

abbrev no_counters : Key → Option ℕ
no_counters k = none

-- A Stripe that has no page to offer.
abbrev stripe : Client
stripe = record {
  create_customer = λ t email. ok "cus_9";
  create_checkout = λ customer price. ok none;
  create_portal = λ customer. ok "portal";
}

checkout_url-Kept_example :
    Kept shop (checkout_url true (some stripe) (some "price_pro") shop "ann@shop")
checkout_url-Kept_example =
    checkout_url-Kept true (some stripe) (some "price_pro") shop "ann@shop" "cus_1" refl refl
