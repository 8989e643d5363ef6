-- ===== src/Billing/Checkout.antt =====
-- services/billing/stripe_billing.py: the pages of Stripe to subscribe and to manage a subscription.
-- Beside the URL or the error comes the workspace as it is stored then: a new customer is committed
-- before the page is asked for.
use recommendation_engine.Base.{
  ◌≡◌, refl, inl, inr, String, Bool, true, false, Option, none, some, str_eq, Bool-cases,
  if◌then◌else◌,
}
use recommendation_engine.Base.Result.{Result, ok, err, ◌>>=◌}
use recommendation_engine.Billing.{Plan, Tenant, is_paid}

pub data CheckoutError : Type 0 where
  not_enabled not_configured already_pro no_price stripe_failed no_page no_account : CheckoutError

-- The calls of Stripe: a customer for a workspace and an address, a checkout page (perhaps without a
-- URL) for a customer and a price, a portal page for a customer.
pub record Client : Type 0 where
  pub create_customer : Tenant → String → Result CheckoutError String
  pub create_checkout : String → String → Result CheckoutError (Option String)
  pub create_portal : String → Result CheckoutError String

pub data Interval : Type 0 where
  month year : Interval

-- `price_for`, for the two settings
abbrev pub price_for : Option String → Option String → Interval → Option String
price_for monthly yearly month = monthly
price_for monthly yearly year = yearly

-- `_require`
require : Bool → Option Client → Result CheckoutError Client
require false client = err CheckoutError.not_enabled
require true none = err CheckoutError.not_configured
require true (some c) = ok c

-- `if tenant.stripe_customer_id`
known_customer : Option String → Option String
known_customer none = none
known_customer (some c) = if str_eq c "" then none else some c

created : Tenant → Result CheckoutError String → Result CheckoutError String × Tenant
created t (err e) = (err e, t)
created t (ok c) = (ok c, record t { stripe_customer_id = some c })

customer_from : Client → Tenant → String → Option String → Result CheckoutError String × Tenant
unfolding created
customer_from client t email (some c) = (ok c, t)
customer_from client t email none = created t (client.create_customer t email)

-- `_customer`
pub customer_of : Client → Tenant → String → Result CheckoutError String × Tenant
unfolding customer_from known_customer
customer_of client t email = customer_from client t email (known_customer t.stripe_customer_id)

page_of : Option String → Result CheckoutError String
page_of none = err CheckoutError.no_page
page_of (some url) = if str_eq url "" then err CheckoutError.no_page else ok url

page : Client → String → Result CheckoutError String × Tenant → Result CheckoutError String × Tenant
unfolding page_of
page client price (customer, t) = (customer >>= λ c. client.create_checkout c price >>= page_of, t)

abbrev is_subscribed : Plan → Option String → Bool
is_subscribed Plan.free status = false
is_subscribed Plan.pro status = is_paid status

priced : Client → Tenant → String → Option String → Result CheckoutError String × Tenant
unfolding page
priced client t email none = (err CheckoutError.no_price, t)
priced client t email (some price) = page client price (customer_of client t email)

opened :
    Result CheckoutError Client
    → Tenant
    → String
    → Option String
    → Result CheckoutError String × Tenant
unfolding priced
opened (err e) t email price = (err e, t)
opened (ok client) t email price =
    let rest = priced client t email price in
    if is_subscribed t.plan t.subscription_status then (err CheckoutError.already_pro, t) else rest

-- `checkout_url`, for `settings.BILLING_ENABLED` and the price of the interval
unfoldable pub checkout_url :
    Bool → Option Client → Option String → Tenant → String → Result CheckoutError String × Tenant
unfolding opened require
checkout_url enabled client price t email = opened (require enabled client) t email price

portal : Client → Option String → Result CheckoutError String
portal client none = err CheckoutError.no_account
portal client (some c) = client.create_portal c

-- `portal_url`
unfoldable pub portal_url : Bool → Option Client → Tenant → Result CheckoutError String
unfolding require portal known_customer
portal_url enabled client t =
    require enabled client >>= λ c. portal c (known_customer t.stripe_customer_id)

-- What is stored of a workspace that has a customer.
abbrev pub Kept : Tenant → Result CheckoutError String × Tenant → Type 0
Kept t out = out.1 ≡ t

customer_of-Kept :
    (client : Client) (t : Tenant) (email c : String)
    → t.stripe_customer_id ≡ some c
    → str_eq c "" ≡ false
    → Kept t (customer_of client t email)
unfolding customer_of
customer_of-Kept client t email c h n = rw (h, known_customer) (rw n refl)

-- For a workspace that is a customer of Stripe, asking for a checkout page changes nothing that
-- is stored, however it ends.
pub checkout_url-Kept :
    (enabled : Bool) (client : Option Client) (price : Option String) (t : Tenant)
    (email c : String)
    → t.stripe_customer_id ≡ some c
    → str_eq c "" ≡ false
    → Kept t (checkout_url enabled client price t email)
unfolding checkout_url
checkout_url-Kept false client price t email c h n = refl
checkout_url-Kept true none price t email c h n = refl
checkout_url-Kept true (some client) price t email c h n =
    elim (Bool-cases (is_subscribed t.plan t.subscription_status)) [
      | inl e ↦ rw e refl
      | inr e ↦ rw e (by_price price)
    ]
  where
    by_price : (price : Option String) → Kept t (priced client t email price)
    by_price none = refl
    by_price (some p) = customer_of-Kept client t email c h n
