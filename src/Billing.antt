-- ===== src/Billing.antt =====
-- services/billing: what each plan allows and which plan a workspace is entitled to (plans.py), with
-- the columns of models/tenant.py that decide it. Times are seconds since the epoch.
pub mod Webhooks
pub mod Plans
pub mod Checkout
use recommendation_engine.Base.{
  ℕ, ◌+◌, ◌≡◌, String, Bool, true, false, Option, none, some, List, [], ◌∷◌, ltb, if◌then◌else◌,
  or_else,
}
use recommendation_engine.Base.Dict.{member}
use recommendation_engine.Base.Result.{Result, ok, err, raise_if}

pub data Plan : Type 0 where
  free pro : Plan

-- The columns of a workspace that billing and the limits read.
pub record Tenant : Type 0 where
  pub id : String
  pub plan : Plan
  pub stripe_customer_id : Option String
  pub stripe_subscription_id : Option String
  pub subscription_status : Option String
  pub current_period_end : Option ℕ
  pub cancel_at_period_end : Bool
  pub comp_pro_since : Option ℕ
  pub comp_pro_until : Option ℕ
  pub max_items : Option ℕ
  pub monthly_query_limit : Option ℕ
  pub rate_limit_rpm : Option ℕ
  pub email_verified : Bool

-- A cap of `none` is no cap.
pub record Allowance : Type 0 where
  pub max_items : Option ℕ
  pub monthly_queries : Option ℕ
  pub rate_limit_rpm : Option ℕ
  pub llm_features : Bool

-- `PAID_STATUSES`
abbrev pub paid_statuses : List String
paid_statuses = "active" ∷ "trialing" ∷ "past_due" ∷ []

-- `subscription_status in PAID_STATUSES`
abbrev pub is_paid : Option String → Bool
is_paid none = false
is_paid (some s) = member s paid_statuses

-- `PLANS`
abbrev pub plans : Plan → Allowance
plans Plan.free = record {
  max_items = some 1000;
  monthly_queries = some 5000;
  rate_limit_rpm = none;
  llm_features = false;
}
plans Plan.pro = record {
  max_items = some 50000;
  monthly_queries = some 100000;
  rate_limit_rpm = none;
  llm_features = true;
}

abbrev pub unlimited : Allowance
unlimited = record {
  max_items = none;
  monthly_queries = none;
  rate_limit_rpm = none;
  llm_features = true;
}

abbrev until_after : ℕ → Option ℕ → Bool
until_after now none = true
until_after now (some until) = ltb now until

abbrev complimentary : ℕ → Option ℕ → Option ℕ → Bool
complimentary now none until = false
complimentary now (some since) until = until_after now until

unfoldable pub is_complimentary : ℕ → Tenant → Bool
is_complimentary now t = complimentary now t.comp_pro_since t.comp_pro_until

abbrev pub paid_plan : Plan → Option String → Plan
paid_plan Plan.free status = Plan.free
paid_plan Plan.pro status = if is_paid status then Plan.pro else Plan.free

unfoldable pub entitled_plan : ℕ → Tenant → Plan
entitled_plan now t =
    if is_complimentary now t then Plan.pro else paid_plan t.plan t.subscription_status

-- `allowance`, for `settings.BILLING_ENABLED`
unfoldable pub allowance : Bool → ℕ → Tenant → Allowance
allowance enabled now t =
    let base = if enabled then plans (entitled_plan now t) else unlimited in
    record {
      max_items = or_else t.max_items base.max_items;
      monthly_queries = or_else t.monthly_query_limit base.monthly_queries;
      rate_limit_rpm = or_else t.rate_limit_rpm base.rate_limit_rpm;
      llm_features = base.llm_features;
    }

pub data PlanRequiredError : Type 0 where
  upgrade : String → PlanRequiredError

unfoldable pub require_llm_features :
    Bool → ℕ → Tenant → String → Result PlanRequiredError (Unit {0})
require_llm_features enabled now t feature =
    if (allowance enabled now t).llm_features
    then ok tt
    else err (PlanRequiredError.upgrade feature)
