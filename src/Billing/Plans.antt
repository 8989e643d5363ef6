-- ===== src/Billing/Plans.antt =====
-- What `entitled_plan`, `allowance` and `require_llm_features` promise.
use recommendation_engine.Base.{
  ℕ, ◌≡◌, refl, String, Bool, true, false, not, ◌||◌, ◌&&◌, arith, if◌then◌else◌,
}
use recommendation_engine.Base.Result.{Result, ok, err}
use recommendation_engine.Billing.{
  Plan, Tenant, is_paid, is_complimentary, entitled_plan, allowance, PlanRequiredError,
  require_llm_features, plans, unlimited, paid_plan,
}

abbrev pub is_pro : Plan → Bool
is_pro Plan.free = false
is_pro Plan.pro = true

-- Pro is in force exactly for a complimentary workspace and for one that is on Pro and whose
-- subscription is active, trialing or past due.
pub entitled_plan-paid :
    (now : ℕ) (t : Tenant)
    → is_pro (entitled_plan now t)
      ≡ (is_complimentary now t || (is_pro t.plan && is_paid t.subscription_status))
unfolding entitled_plan
entitled_plan-paid now t = paid t.plan
  where
    paid :
        (p : Plan)
        → is_pro (if is_complimentary now t then Plan.pro else paid_plan p t.subscription_status)
          ≡ (is_complimentary now t || (is_pro p && is_paid t.subscription_status))
    paid Plan.free = ground arith
    paid Plan.pro = ground arith

abbrev let_pass : Result PlanRequiredError (Unit {0})
let_pass = ok tt

let_through :
    (feature : String) (enabled : Bool) (p : Plan)
    → (if (if enabled then plans p else unlimited).llm_features
        then let_pass
        else err (PlanRequiredError.upgrade feature))
      ≡ (if not enabled || is_pro p then let_pass else err (PlanRequiredError.upgrade feature))
let_through feature false p = refl
let_through feature true Plan.free = refl
let_through feature true Plan.pro = refl

-- With billing on, a request for an LLM feature is let through exactly where Pro is in force, and
-- else asks for an upgrade; with billing off it always is let through. An admin's limits on the
-- workspace do not matter.
pub require_llm_features-entitled :
    (enabled : Bool) (now : ℕ) (t : Tenant) (feature : String)
    → require_llm_features enabled now t feature ≡ (
        if not enabled || is_pro (entitled_plan now t)
        then ok tt
        else err (PlanRequiredError.upgrade feature))
unfolding require_llm_features allowance
require_llm_features-entitled enabled now t feature =
    let_through feature enabled (entitled_plan now t)
