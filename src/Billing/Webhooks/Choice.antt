-- ===== src/Billing/Webhooks/Choice.antt =====
-- Which of a customer's subscriptions `sync_customer` copies.
use recommendation_engine.Base.{◌≡◌, true, List, ◌∷◌, All, In}
use recommendation_engine.Billing.Webhooks.{Subscription, preferred}

-- One of a list that none of the list is to be preferred to.
abbrev pub IsBest : Subscription → List Subscription → Type 0
IsBest b l = In b l × All (λ s. preferred b s ≡ true) l

abbrev BestOf : Subscription → List Subscription → Subscription → Type 0
BestOf best l b = (preferred b best ≡ true) × All (λ s. preferred b s ≡ true) l × In b (best ∷ l)
