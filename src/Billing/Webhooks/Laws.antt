-- ===== src/Billing/Webhooks/Laws.antt =====
-- The workspace of a subscription, before and after the subscription is copied onto it.
use mathlib.Core.Path.{subst}
use recommendation_engine.Base.{
  ◌≡◌, refl, sym, ap, inl, inr, String, true, false, Option, none, some, List, [], ◌∷◌, arith,
  str_eq, eq_iff, Bool-cases, Option-cases,
}
use recommendation_engine.Base.Dict.{Dict, lookup, put, keys, member, Distinct, lookup-put}
use recommendation_engine.Billing.{Tenant}
use recommendation_engine.Billing.Webhooks.{
  Field, Subscription, apply_subscription, customer_after, is_customer, by_customer, in_table,
  by_metadata, of_customer, tenant_for,
}

customer_after-twice :
    (c : Field) (known : Option String)
    → customer_after c (customer_after c known) ≡ customer_after c known
unfolding customer_after
customer_after-twice (Field.plain c) none = ground arith
customer_after-twice (Field.plain c) (some known) = ground arith
customer_after-twice Field.absent known = refl
customer_after-twice Field.expanded known = refl

pub apply_subscription-twice :
    (t : Tenant) (s : Subscription)
    → apply_subscription (apply_subscription t s) s ≡ apply_subscription t s
unfolding apply_subscription
apply_subscription-twice t s = rw (customer_after-twice s.customer t.stripe_customer_id) refl

is_customer-after :
    (c : String) (known : Option String)
    → is_customer c known ≡ true
    → is_customer c (customer_after (Field.plain c) known) ≡ true
unfolding customer_after
is_customer-after c none h = absurd (cc)
is_customer-after c (some known) h = ground (arith, eq_iff known c, eq_iff c c)

pub some-pair : (p q : String × Tenant) → some p ≡ some q → (p.0 ≡ q.0) × (p.1 ≡ q.1)
some-pair p q e = (
  ap (λ o. elim o [ none ↦ p.0 | some r ↦ r.0 ]) e,
  ap (λ o. elim o [ none ↦ p.1 | some r ↦ r.1 ]) e,
)

not_first :
    (j k : String) (ks : List String)
    → member j ks ≡ false
    → member k ks ≡ true
    → str_eq j k ≡ false
not_first j k ks u m = ground (arith, eq_iff j k)

by_customer-put :
    (c k : String) (t v : Tenant) (d : Dict Tenant)
    → Distinct (keys d)
    → by_customer c d ≡ some (k, t)
    → (is_customer c t.stripe_customer_id ≡ true → is_customer c v.stripe_customer_id ≡ true)
    → (is_customer c t.stripe_customer_id ≡ true)
      × (member k (keys d) ≡ true)
      × (by_customer c (put k v d) ≡ some (k, v))
unfolding by_customer
by_customer-put c k t v [] u e h = absurd (cc)
by_customer-put c k t v ((j, w) ∷ d) u e h =
    elim (Bool-cases (is_customer c w.stripe_customer_id)) [
      | inl f ↦
          let (p, q) = some-pair (j, w) (k, t) (ground (arith, f, e)) in
          let g : is_customer c t.stripe_customer_id ≡ true =
            subst (λ (x : Tenant). is_customer c x.stripe_customer_id ≡ true) q f in
          let s : str_eq j k ≡ true = (eq_iff j k).1 p in
          (g, rw s refl, rw s (rw (h g) (rw p refl)))
      | inr f ↦
          let rest = by_customer-put c k t v d u.1 (ground arith) h in
          let s : str_eq j k ≡ false = not_first j k (keys d) u.0 rest.1 in
          (rest.0, rw (s, rest.1) refl, rw (s, f) rest.2)
    ]

pub put-twice : {V : Type 0} (k : String) (v : V) (d : Dict V) → put k v (put k v d) ≡ put k v d
put-twice k v [] = ground (arith, eq_iff k k)
put-twice k v ((j, w) ∷ d) = ground (arith, eq_iff j k, put-twice k v d)

lookup-none : (i : String) (d : Dict Tenant) → lookup i d ≡ none → member i (keys d) ≡ false
lookup-none i [] e = refl
lookup-none i ((j, w) ∷ d) e = ground (arith, lookup-none i d)

lookup-some :
    (i : String) (x : Tenant) (d : Dict Tenant) → lookup i d ≡ some x → member i (keys d) ≡ true
lookup-some i x [] e = absurd (cc)
lookup-some i x ((j, w) ∷ d) e = ground (arith, lookup-some i x d)

in_table-put :
    (o : Option String) (k : String) (t v : Tenant) (d : Dict Tenant)
    → in_table o d ≡ some (k, t)
    → (in_table o (put k v d) ≡ some (k, v)) × (member k (keys d) ≡ true)
unfolding in_table
in_table-put none k t v d e = absurd (cc)
in_table-put (some i) k t v d e = elim (Option-cases (lookup i d)) [
  | inl n ↦ absurd (ground (arith, n, e))
  | inr (x, l) ↦
      let p : i ≡ k = (some-pair (i, x) (k, t) (ground (arith, l, e))).0 in
      (rw (sym p, lookup-put i i v d, (eq_iff i i).1 refl) refl, rw (sym p) (lookup-some i x d l))
]

not_key :
    (k i : String) (ks : List String)
    → member k ks ≡ true
    → member i ks ≡ false
    → str_eq k i ≡ false
not_key k i ks m n = ground (arith, eq_iff k i)

in_table-none :
    (o : Option String) (k : String) (v : Tenant) (d : Dict Tenant)
    → member k (keys d) ≡ true
    → in_table o d ≡ none
    → in_table o (put k v d) ≡ none
unfolding in_table
in_table-none none k v d m e = refl
in_table-none (some i) k v d m e = elim (Option-cases (lookup i d)) [
  | inl n ↦
      let f : str_eq k i ≡ false = not_key k i (keys d) m (lookup-none i d n) in
      rw (lookup-put k i v d, f, n) refl
  | inr (x, l) ↦ absurd (ground (arith, l, e))
]

by_metadata-put :
    (parse_uuid : String → Option String) (m : Option String) (k : String) (t v : Tenant)
    (d : Dict Tenant)
    → by_metadata parse_uuid m d ≡ some (k, t)
    → (by_metadata parse_uuid m (put k v d) ≡ some (k, v)) × (member k (keys d) ≡ true)
unfolding by_metadata
by_metadata-put parse_uuid none k t v d e = absurd (cc)
by_metadata-put parse_uuid (some m) k t v d e = in_table-put (parse_uuid m) k t v d e

by_metadata-none :
    (parse_uuid : String → Option String) (m : Option String) (k : String) (v : Tenant)
    (d : Dict Tenant)
    → member k (keys d) ≡ true
    → by_metadata parse_uuid m d ≡ none
    → by_metadata parse_uuid m (put k v d) ≡ none
unfolding by_metadata
by_metadata-none parse_uuid none k v d m e = refl
by_metadata-none parse_uuid (some i) k v d m e = in_table-none (parse_uuid i) k v d m e

of_customer-put :
    (c : Field) (k : String) (t : Tenant) (s : Subscription) (d : Dict Tenant)
    → s.customer ≡ c
    → Distinct (keys d)
    → of_customer c d ≡ some (k, t)
    → (of_customer c (put k (apply_subscription t s) d) ≡ some (k, apply_subscription t s))
      × (member k (keys d) ≡ true)
unfolding of_customer apply_subscription
of_customer-put Field.absent k t s d f u e = absurd (cc)
of_customer-put Field.expanded k t s d f u e = absurd (cc)
of_customer-put (Field.plain c) k t s d f u e =
    let r =
      by_customer-put c k t (apply_subscription t s) d u e
        (λ h. rw f (is_customer-after c t.stripe_customer_id h)) in
    (r.2, r.1)

-- Where the workspace of a subscription was found, it is found again after the update.
pub tenant_for-put :
    (parse_uuid : String → Option String) (k : String) (t : Tenant) (s : Subscription)
    (d : Dict Tenant)
    → Distinct (keys d)
    → tenant_for parse_uuid s d ≡ some (k, t)
    → tenant_for parse_uuid s (put k (apply_subscription t s) d) ≡ some (k, apply_subscription t s)
unfolding tenant_for
tenant_for-put parse_uuid k t s d u e = elim (Option-cases (by_metadata parse_uuid s.tenant_id d)) [
  | inl n ↦
      let r = of_customer-put s.customer k t s d refl u (ground (arith, n, e)) in
      rw (by_metadata-none parse_uuid s.tenant_id k (apply_subscription t s) d r.1 n) r.0
  | inr (x, m) ↦
      let g : by_metadata parse_uuid s.tenant_id d ≡ some (k, t) = ground (arith, m, e) in
      rw ((by_metadata-put parse_uuid s.tenant_id k t (apply_subscription t s) d g).0) refl
]
