-- ===== src/Billing/Webhooks.antt =====
-- services/billing/webhooks.py: copying the state of Stripe's subscriptions onto the workspaces. An
-- object of the Stripe API is modelled by the fields that are read of it, each of them optional.
mod Laws
pub mod Delivery
pub mod Choice
use recommendation_engine.Base.{
  ℕ, ◌+◌, ◌≡◌, String, Bool, true, false, ◌&&◌, ◌||◌, Option, none, some, List, [], ◌∷◌, ltb, leb,
  max, if◌then◌else◌, or_else, any_of, keep, str_eq,
}
use recommendation_engine.Base.Dict.{Dict, lookup, put, member}
use recommendation_engine.Base.Result.{Result, ok, err, ◌>>=◌}
use recommendation_engine.Billing.{Plan, Tenant}

-- A field of a Stripe object: missing, a text, or an object (an expanded reference).
pub data Field : Type 0 where
  absent expanded : Field
  plain : String → Field

pub record SubscriptionItem : Type 0 where
  pub price_id : Option String
  pub current_period_end : Option ℕ

pub record Subscription : Type 0 where
  pub id : Option String
  pub status : Option String
  pub cancel_at_period_end : Bool
  pub items : List SubscriptionItem
  pub current_period_end : Option ℕ
  pub customer : Field
  pub tenant_id : Option String
  pub created : ℕ

-- What is read of the object an event is about.
pub record EventObject : Type 0 where
  pub id : Field
  pub mode : Option String
  pub subscription : Field
  pub parent_subscription : Field

pub record Event : Type 0 where
  pub id : String
  pub kind : String
  pub object : EventObject

pub data Outcome : Type 0 where
  duplicate ignored synced not_ours : Outcome

-- The rows of the two tables: `tenants` by id, and the outcome of each handled event by id.
pub record Store : Type 0 where
  pub tenants : Dict Tenant
  pub events : Dict Outcome

-- `_get(item, "price")["id"] in pro_prices()`
is_pro_item : List String → SubscriptionItem → Bool
is_pro_item prices i = elim i.price_id [ none ↦ false | some p ↦ member p prices ]

unfoldable pub is_ours : List String → Subscription → Bool
unfolding is_pro_item
is_ours prices s = any_of (is_pro_item prices) s.items

-- `max((e for e in ends if e), default=...)`
max_end : List SubscriptionItem → Option ℕ
max_end [] = none
max_end (i ∷ is) =
    let rest = max_end is in
    elim i.current_period_end [
      | none ↦ rest
      | some e ↦ if ltb 0 e then elim rest [ none ↦ some e | some r ↦ some (max e r) ] else rest
    ]

-- `datetime.fromtimestamp(end, UTC) if end else None`
some_time : Option ℕ → Option ℕ
some_time none = none
some_time (some e) = if ltb 0 e then some e else none

-- `if isinstance(customer, str) and not tenant.stripe_customer_id`
customer_after : Field → Option String → Option String
customer_after (Field.plain c) none = some c
customer_after (Field.plain c) (some known) = if str_eq known "" then some c else some known
customer_after Field.absent known = known
customer_after Field.expanded known = known

unfoldable pub apply_subscription : Tenant → Subscription → Tenant
unfolding max_end some_time customer_after
apply_subscription t s = record t {
  plan = Plan.pro;
  stripe_subscription_id = s.id;
  subscription_status = s.status;
  cancel_at_period_end = s.cancel_at_period_end;
  current_period_end = some_time (or_else (max_end s.items) s.current_period_end);
  stripe_customer_id = customer_after s.customer t.stripe_customer_id;
}

-- `SUBSCRIPTION_EVENTS` and `INVOICE_EVENTS`
abbrev subscription_events : List String
subscription_events =
    "customer.subscription.created" ∷ "customer.subscription.updated"
    ∷ "customer.subscription.deleted" ∷ "customer.subscription.paused"
    ∷ "customer.subscription.resumed" ∷ []

abbrev invoice_events : List String
invoice_events = "invoice.paid" ∷ "invoice.payment_failed" ∷ []

-- `a or b`
or_field : Field → Field → Field
or_field Field.absent b = b
or_field Field.expanded b = Field.expanded
or_field (Field.plain t) b = if str_eq t "" then b else Field.plain t

is_mode : Option String → Bool
is_mode none = false
is_mode (some m) = str_eq m "subscription"

found_in : String → EventObject → Field
unfolding or_field is_mode
found_in kind o =
    if str_eq kind "checkout.session.completed" && is_mode o.mode
    then o.subscription
    else if member kind subscription_events
    then o.id
    else if member kind invoice_events
    then or_field o.parent_subscription o.subscription
    else Field.absent

-- `_subscription_of`; the empty text is false in `if subscription_id`
text_of : Field → Option String
text_of Field.absent = none
text_of Field.expanded = none
text_of (Field.plain t) = if str_eq t "" then none else some t

unfoldable pub subscription_of : Event → Option String
unfolding found_in text_of
subscription_of e = text_of (found_in e.kind e.object)

-- `Tenant.stripe_customer_id == customer`
abbrev pub is_customer : String → Option String → Bool
is_customer c none = false
is_customer c (some known) = str_eq known c

pub by_customer : String → Dict Tenant → Option (String × Tenant)
by_customer c [] = none
by_customer c ((k, t) ∷ d) =
    let rest = by_customer c d in if is_customer c t.stripe_customer_id then some (k, t) else rest

of_customer : Field → Dict Tenant → Option (String × Tenant)
unfolding by_customer
of_customer Field.absent d = none
of_customer Field.expanded d = none
of_customer (Field.plain c) d = by_customer c d

with_key : String → Option Tenant → Option (String × Tenant)
with_key k none = none
with_key k (some t) = some (k, t)

in_table : Option String → Dict Tenant → Option (String × Tenant)
unfolding with_key
in_table none d = none
in_table (some k) d = with_key k (lookup k d)

-- `uuid.UUID(tenant_id)` raises ValueError on what is no id; `parse_uuid` is that call.
by_metadata : (String → Option String) → Option String → Dict Tenant → Option (String × Tenant)
unfolding in_table
by_metadata parse_uuid none d = none
by_metadata parse_uuid (some t) d = in_table (parse_uuid t) d

-- `_tenant_for`
unfoldable pub tenant_for :
    (String → Option String) → Subscription → Dict Tenant → Option (String × Tenant)
unfolding of_customer by_metadata
tenant_for parse_uuid s d =
    or_else (by_metadata parse_uuid s.tenant_id d) (of_customer s.customer d)

applied : Subscription → Dict Tenant → Option (String × Tenant) → Option (Dict Tenant)
applied s d none = none
applied s d (some (k, t)) = some (put k (apply_subscription t s) d)

-- `sync_subscription` for the subscription that Stripe returned
unfoldable pub sync :
    List String → (String → Option String) → Subscription → Dict Tenant → Option (Dict Tenant)
unfolding applied
sync prices parse_uuid s d =
    let found = applied s d (tenant_for parse_uuid s d) in if is_ours prices s then found else none

pub data StripeError : Type 0 where
  unavailable : StripeError

module _ (prices : List String) (parse_uuid : String → Option String)
    (retrieve : String → Result StripeError Subscription) where
  abbrev pub recorded : String → Outcome → Dict Tenant → Store → Store × Outcome
  recorded event outcome d w =
      (record { tenants = d; events = put event outcome w.events }, outcome)

  abbrev pub saved : String → Option (Dict Tenant) → Store → Store × Outcome
  saved event none w = recorded event Outcome.not_ours w.tenants w
  saved event (some d) w = recorded event Outcome.synced d w

  fresh : Event → Option String → Store → Result StripeError (Store × Outcome)
  fresh e none w = ok (recorded e.id Outcome.ignored w.tenants w)
  fresh e (some id) w = retrieve id >>= λ s. ok (saved e.id (sync prices parse_uuid s w.tenants) w)

  seen : Event → Option Outcome → Store → Result StripeError (Store × Outcome)
  unfolding fresh
  seen e (some o) w = ok (w, Outcome.duplicate)
  seen e none w = fresh e (subscription_of e) w

  -- `SubscriptionSync.handle`; an error leaves the store as it was, since nothing is committed.
  unfoldable pub handle : Event → Store → Result StripeError (Store × Outcome)
  unfolding seen
  handle e w = seen e (lookup e.id w.events) w

-- `_PREFERENCE.index(status)`, the number of preferences for another status
preferences : List String
preferences = "active" ∷ "trialing" ∷ "past_due" ∷ "unpaid" ∷ "incomplete" ∷ "paused" ∷ []

index_in : String → List String → ℕ
index_in s [] = 0
index_in s (p ∷ ps) = let rest = index_in s ps in if str_eq p s then 0 else rest + 1

unfoldable pub status_order : Option String → ℕ
unfolding preferences index_in
status_order none = 6
status_order (some s) = index_in s preferences

-- `rank(a) <= rank(b)`: the better status, of equal ones the newer subscription
abbrev pub preferred : Subscription → Subscription → Bool
preferred a b =
    ltb (status_order a.status) (status_order b.status)
    || (leb (status_order a.status) (status_order b.status) && leb b.created a.created)

-- `min(ours, key=rank)`: the first of the best
pub best_from : Subscription → List Subscription → Subscription
best_from best [] = best
best_from best (s ∷ l) = best_from (if preferred best s then best else s) l

chosen : List Subscription → Tenant → Tenant
unfolding best_from
chosen [] t = t
chosen (s ∷ l) t = apply_subscription t (best_from s l)

-- `sync_customer`, for the subscriptions that Stripe lists for a customer id
synced_customer : List String → (String → List Subscription) → Option String → Tenant → Tenant
unfolding chosen
synced_customer prices listed none t = t
synced_customer prices listed (some c) t =
    if str_eq c "" then t else chosen (keep (is_ours prices) (listed c)) t

unfoldable pub sync_customer : List String → (String → List Subscription) → Tenant → Tenant
unfolding synced_customer
sync_customer prices listed t = synced_customer prices listed t.stripe_customer_id t
