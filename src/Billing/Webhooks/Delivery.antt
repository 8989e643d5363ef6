-- ===== src/Billing/Webhooks/Delivery.antt =====
-- What the Stripe webhooks promise however often and in whatever order events are delivered.
use mathlib.Core.Path.{subst}
use recommendation_engine.Base.{
  ℕ, ◌≡◌, refl, sym, ap, ◌∙◌, inl, inr, String, true, false, Option, none, some, List, [], ◌∷◌,
  arith, eq_iff, All, Bool-cases, Option-cases,
}
use recommendation_engine.Base.Dict.{Dict, lookup, put, keys, Distinct, lookup-put}
use recommendation_engine.Base.Result.{Result, ok, err, Result-cases}
use recommendation_engine.Billing.{Plan, Tenant, is_paid, is_complimentary, entitled_plan}
use recommendation_engine.Billing.Webhooks.{
  Subscription, Event, Outcome, Store, StripeError, is_ours, apply_subscription, subscription_of,
  tenant_for, by_metadata, in_table, with_key, applied, sync, handle, saved, recorded, fresh, seen,
}
use recommendation_engine.Billing.Webhooks.Laws.{
  tenant_for-put, apply_subscription-twice, put-twice,
}

some_eq : (a b : Dict Tenant) → some a ≡ some b → a ≡ b
some_eq a b e = ap (λ o. elim o [ none ↦ a | some x ↦ x ]) e

abbrev returned : Store × Outcome → Result StripeError (Store × Outcome)
returned p = ok p

ok-pair : (p q : Store × Outcome) → returned p ≡ returned q → (p.0 ≡ q.0) × (p.1 ≡ q.1)
ok-pair p q e = (
  ap (λ o. elim o [ ok r ↦ r.0 | err x ↦ p.0 ]) e,
  ap (λ o. elim o [ ok r ↦ r.1 | err x ↦ p.1 ]) e,
)

-- Syncing a subscription a second time changes nothing.
sync-twice :
    (prices : List String) (parse_uuid : String → Option String) (s : Subscription)
    (d after : Dict Tenant)
    → Distinct (keys d)
    → sync prices parse_uuid s d ≡ some after
    → sync prices parse_uuid s after ≡ some after
unfolding sync
sync-twice prices parse_uuid s d after u e = elim (Bool-cases (is_ours prices s)) [
  | inr n ↦ absurd (ground (arith, n, e))
  | inl o ↦ elim (Option-cases (tenant_for parse_uuid s d)) [
    | inl n ↦ absurd (ground (arith, n, o, e))
    | inr ((k, t), f) ↦
        let v = apply_subscription t s in
        let g : put k v d ≡ after = some_eq (put k v d) after (ground (arith, f, o, e)) in
        let h : sync prices parse_uuid s (put k v d) ≡ some (put k v d) =
          rw (o, tenant_for-put parse_uuid k t s d u f)
            (rw (apply_subscription-twice t s) (rw (put-twice k v d) refl)) in
        subst (λ a. sync prices parse_uuid s a ≡ some a) g h
  ]
]

module _ (prices : List String) (parse_uuid : String → Option String) where
  module _ (retrieve : String → Result StripeError Subscription) where
    events-saved :
        (k : String) (r : Option (Dict Tenant)) (w after : Store) (o : Outcome)
        → returned (saved prices parse_uuid retrieve k r w) ≡ returned (after, o)
        → lookup k after.events ≡ some o
    events-saved k none w after o h =
        let (p, q) = ok-pair (saved prices parse_uuid retrieve k none w) (after, o) h in
        subst (λ (x : Store). lookup k x.events ≡ some o) p
          (rw (lookup-put k k Outcome.not_ours w.events, (eq_iff k k).1 refl) (ap some q))
    events-saved k (some d) w after o h =
        let (p, q) = ok-pair (saved prices parse_uuid retrieve k (some d) w) (after, o) h in
        subst (λ (x : Store). lookup k x.events ≡ some o) p
          (rw (lookup-put k k Outcome.synced w.events, (eq_iff k k).1 refl) (ap some q))

    fresh-recorded :
        (e : Event) (sub : Option String) (w after : Store) (o : Outcome)
        → fresh prices parse_uuid retrieve e sub w ≡ ok (after, o)
        → lookup e.id after.events ≡ some o
    unfolding fresh
    fresh-recorded e none w after o h =
        let (p, q) =
          ok-pair (recorded prices parse_uuid retrieve e.id Outcome.ignored w.tenants w) (after, o)
            h in
        subst (λ (x : Store). lookup e.id x.events ≡ some o) p
          (rw (lookup-put e.id e.id Outcome.ignored w.events, (eq_iff e.id e.id).1 refl)
            (ap some q))
    fresh-recorded e (some id) w after o h = elim (Result-cases (retrieve id)) [
      | inl (s, r) ↦
          events-saved e.id (sync prices parse_uuid s w.tenants) w after o (ground (arith, r, h))
      | inr (x, r) ↦ absurd (ground (arith, r, h))
    ]

  -- An event is applied once: delivered again, whatever Stripe then says of its subscription, it is
  -- found to be a duplicate and changes nothing.
  pub handle-once :
      (retrieve later : String → Result StripeError Subscription) (e : Event) (w after : Store)
      (o : Outcome)
      → handle prices parse_uuid retrieve e w ≡ ok (after, o)
      → handle prices parse_uuid later e after ≡ ok (after, Outcome.duplicate)
  unfolding handle seen
  handle-once retrieve later e w after o h = elim (Option-cases (lookup e.id w.events)) [
    | inl n ↦
        rw (fresh-recorded retrieve e (subscription_of e) w after o (ground (arith, n, h))) refl
    | inr (x, f) ↦
        let (p, q) = ok-pair (w, Outcome.duplicate) (after, o) (ground (arith, f, h)) in
        subst (λ (v : Store). handle prices parse_uuid later e v ≡ ok (v, Outcome.duplicate)) p
          (rw f refl)
  ]

-- The tenants after one sync of a subscription, which may have no workspace.
abbrev pub settled :
    List String → (String → Option String) → Subscription → Dict Tenant → Dict Tenant
settled prices parse_uuid s d = elim (sync prices parse_uuid s d) [ none ↦ d | some after ↦ after ]

-- The store after the delivery of one event: an event that failed leaves it, for Stripe to retry.
abbrev pub step :
    List String
    → (String → Option String)
    → (String → Result StripeError Subscription)
    → Event
    → Store
    → Store
step prices parse_uuid retrieve e w = elim (handle prices parse_uuid retrieve e w) [
  | ok r ↦ r.0
  | err x ↦ w
]

-- The store after the delivery of events one after the other.
abbrev pub deliver :
    List String
    → (String → Option String)
    → (String → Result StripeError Subscription)
    → List Event
    → Store
    → Store
deliver prices parse_uuid retrieve [] w = w
deliver prices parse_uuid retrieve (e ∷ es) w =
    deliver prices parse_uuid retrieve es (step prices parse_uuid retrieve e w)

status_id : (t : Tenant) (s : Subscription) → (apply_subscription t s).stripe_subscription_id ≡ s.id
unfolding apply_subscription
status_id t s = refl

lapsed :
    (now : ℕ) (t : Tenant) (s : Subscription)
    → is_paid s.status ≡ false
    → is_complimentary now t ≡ false
    → entitled_plan now (apply_subscription t s) ≡ Plan.free
unfolding entitled_plan is_complimentary apply_subscription
lapsed now t s f c = rw (f, c) refl

module _ (prices : List String) (parse_uuid : String → Option String)
    (retrieve : String → Result StripeError Subscription) (id : String) (s : Subscription)
    (found : retrieve id ≡ ok s) where
  settled-twice :
      (d : Dict Tenant)
      → Distinct (keys d)
      → settled prices parse_uuid s (settled prices parse_uuid s d) ≡ settled prices parse_uuid s d
  settled-twice d u = elim (Option-cases (sync prices parse_uuid s d)) [
    | inl n ↦
        let g : settled prices parse_uuid s d ≡ d = rw (n, settled) refl in
        ap (settled prices parse_uuid s) g
    | inr (a, e) ↦ rw (e, settled) (rw (sync-twice prices parse_uuid s d a u e, settled) refl)
  ]

  tenants-saved :
      (k : String) (w : Store)
      → (saved prices parse_uuid retrieve k (sync prices parse_uuid s w.tenants) w).0.tenants
        ≡ settled prices parse_uuid s w.tenants
  tenants-saved k w = elim (Option-cases (sync prices parse_uuid s w.tenants)) [
    | inl n ↦ rw (n, settled) refl
    | inr (a, e) ↦ rw (e, settled) refl
  ]

  -- A new event about the subscription syncs it, a repeated one does nothing.
  tenants-step :
      (e : Event) (w : Store)
      → subscription_of e ≡ some id
      → (lookup e.id w.events ≡ none)
      → (step prices parse_uuid retrieve e w).tenants ≡ settled prices parse_uuid s w.tenants
  unfolding handle seen fresh
  tenants-step e w h n = rw (n, step) (rw (h, found) (tenants-saved e.id w))

  step-settled :
      (e : Event) (w : Store)
      → subscription_of e ≡ some id
      → settled prices parse_uuid s w.tenants ≡ w.tenants
      → (step prices parse_uuid retrieve e w).tenants ≡ w.tenants
  unfolding handle seen
  step-settled e w h f = elim (Option-cases (lookup e.id w.events)) [
    | inl n ↦ tenants-step e w h n ∙ f
    | inr (o, n) ↦ rw (n, step) refl
  ]

  deliver-settled :
      (es : List Event) (w : Store)
      → All (λ (e : Event). subscription_of e ≡ some id) es
      → settled prices parse_uuid s w.tenants ≡ w.tenants
      → (deliver prices parse_uuid retrieve es w).tenants ≡ w.tenants
  deliver-settled [] w h f = refl
  deliver-settled (e ∷ es) w h f =
      let g = step-settled e w h.0 f in
      deliver-settled es (step prices parse_uuid retrieve e w) h.1
        (ap (settled prices parse_uuid s) g ∙ f ∙ sym g)
      ∙ g

  -- Events about one subscription, the first of them new, leave the workspaces, whose ids are
  -- distinct, as one sync of that subscription's state at Stripe does: in whatever order they
  -- come, of whatever kind they are and however often they are repeated.
  pub deliver-any_order :
      (e : Event) (es : List Event) (w : Store)
      → Distinct (keys w.tenants)
      → lookup e.id w.events ≡ none
      → All (λ (e : Event). subscription_of e ≡ some id) (e ∷ es)
      → (deliver prices parse_uuid retrieve (e ∷ es) w).tenants
        ≡ settled prices parse_uuid s w.tenants
  deliver-any_order e es w u n h =
      let g = tenants-step e w h.0 n in
      deliver-settled es (step prices parse_uuid retrieve e w) h.1
        (ap (settled prices parse_uuid s) g ∙ settled-twice w.tenants u ∙ sym g)
      ∙ g

  -- A new event about a subscription of this app that is not paid, and whose metadata names a
  -- workspace, takes that workspace off Pro, unless Pro is complimentary: also where the
  -- workspace is on Pro by another subscription, which is paid.
  pub handle-replaces_subscription :
      (e : Event) (w : Store) (k m : String) (t : Tenant) (now : ℕ)
      → lookup e.id w.events ≡ none
      → subscription_of e ≡ some id
      → is_ours prices s ≡ true
      → s.tenant_id ≡ some m
      → parse_uuid m ≡ some k
      → lookup k w.tenants ≡ some t
      → is_paid s.status ≡ false
      → is_complimentary now t ≡ false
      → (after : Tenant) × (lookup k (step prices parse_uuid retrieve e w).tenants ≡ some after)
        × (after.stripe_subscription_id ≡ s.id)
        × (entitled_plan now after ≡ Plan.free)
  unfolding sync applied tenant_for by_metadata in_table with_key
  handle-replaces_subscription e w k m t now n h o a p l f c =
      let b : by_metadata parse_uuid s.tenant_id w.tenants ≡ some (k, t) =
        rw a (rw p (rw l refl)) in
      (
        apply_subscription t s,
        rw (tenants-step e w h n) (
            rw (o, b, settled)
              (rw (lookup-put k k (apply_subscription t s) w.tenants, (eq_iff k k).1 refl) refl)),
        status_id t s,
        lapsed now t s f c,
      )
