-- ===== src/Engine/Results.antt =====
-- cache.py: the result cache. A failure of Redis counts as a miss, and a write that fails is dropped.
use mathlib.Core.Option.{none-ne-some, some-injective}
use recommendation_engine.Base.{
  ℕ, ◌+◌, ◌*◌, ◌≡◌, refl, ap, inl, inr, arith, true, Bool-cases, String, not, Option, none, some,
  List, ltb, if◌then◌else◌,
}
use recommendation_engine.Base.Dict.{lookup, put}
use recommendation_engine.Limits.{next_fails, later}
use recommendation_engine.Ranking.Format.{Ranked}
use recommendation_engine.Engine.{Cache, KeyParts}
use Prim.Native.String.{◌++◌ as text_append}

abbrev pub cache_ttl_seconds : ℕ
cache_ttl_seconds = 5 * 60

module _ {N : Type 0} where
  -- `RecommendationCache.key`
  pub key : (KeyParts N → String) → String → KeyParts N → String
  key digest tenant_id parts =
      text_append "rec:" (text_append tenant_id (text_append ":" (digest parts)))

  -- An entry that has not expired.
  alive : ℕ → Option (ℕ × List (Ranked N)) → Option (List (Ranked N))
  alive now none = none
  alive now (some (expires, results)) = if ltb now expires then some results else none

  -- `get`
  unfoldable pub get : ℕ → String → Cache N → Option (List (Ranked N)) × Cache N
  unfolding alive
  get now k c = if not c.connected then (none, c) else (
    if next_fails c.outages then none else alive now (lookup k c.entries),
    record c { outages = later c.outages },
  )

  -- `set`
  unfoldable pub set : ℕ → String → List (Ranked N) → Cache N → Cache N
  set now k results c =
      if not c.connected
      then c
      else if next_fails c.outages
      then record c { outages = later c.outages }
      else record c {
        entries = put k (now + cache_ttl_seconds, results) c.entries;
        outages = later c.outages;
      }

  -- What the cache holds under a key: an entry that has not expired.
  abbrev pub Held : ℕ → String → Cache N → List (Ranked N) → Type 0
  Held now k c results =
      (expires : ℕ) × (lookup k c.entries ≡ some (expires, results)) × (ltb now expires ≡ true)

  alive-some :
      (now : ℕ) (o : Option (ℕ × List (Ranked N))) (results : List (Ranked N))
      → alive now o ≡ some results
      → (expires : ℕ) × (o ≡ some (expires, results)) × (ltb now expires ≡ true)
  unfolding alive
  alive-some now none results h = absurd (none-ne-some results h)
  alive-some now (some (expires, found)) results h = elim (Bool-cases (ltb now expires)) [
    | inl e ↦
        let same : some found ≡ some results = rw e at h in
        (expires, ap (λ r. some (expires, r)) (some-injective found results same), e)
    | inr e ↦ absurd (none-ne-some results (rw e at h))
  ]

  pub get-Held :
      (now : ℕ) (k : String) (c : Cache N) (results : List (Ranked N))
      → (get now k c).0 ≡ some results
      → Held now k c results
  unfolding get
  get-Held now k c results h = elim (Bool-cases c.connected) [
    | inl e ↦ elim (Bool-cases (next_fails c.outages)) [
      | inl f ↦ absurd (none-ne-some results (ground (arith, e, f, h)))
      | inr f ↦ alive-some now (lookup k c.entries) results (ground (arith, e, f, h))
    ]
    | inr e ↦ absurd (none-ne-some results (ground (arith, e, h)))
  ]

  pub entries-get : (now : ℕ) (k : String) (c : Cache N) → (get now k c).1.entries ≡ c.entries
  unfolding get
  entries-get now k c = elim (Bool-cases c.connected) [ inl e ↦ rw e refl | inr e ↦ rw e refl ]
