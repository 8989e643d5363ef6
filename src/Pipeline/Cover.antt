-- ===== src/Pipeline/Cover.antt =====
-- Which items `_embed` covers: each has a vector or an error by the time it returns.
use recommendation_engine.Base.{
  ◌≡◌, ◌⊎◌, inl, inr, String, true, none, some, List, [], ◌∷◌, arith, is_some, eq_iff, All,
}
use recommendation_engine.Base.Dict.{Dict, lookup, put, lookup-put}
use recommendation_engine.Base.Result.{Result, ok, err}
use recommendation_engine.Pipeline.{
  Item, EmbedError, PipelineError, Services, Embedded, zip_strict, after_one, embed_each,
  one_by_one, embedded_by, embed,
}

module _ {V W : Type 0} (svc : Services V W) where
  -- Which of the items have a vector or an error by the time `_embed` returns.
  abbrev pub Covered : List (Item V) → Embedded W → Type 0
  Covered items e =
      All (λ i. (is_some (lookup i.id e.vectors) ≡ true) ⊎ (is_some (lookup i.id e.errors) ≡ true))
        items

  abbrev Returned : (Embedded W → Type 0) → Embedded W → Type 0
  Returned P e = (e.raised ≡ none) → P e

  zip_strict-keeps :
      (k : String) (items : List (Item V)) (ws : List W) (d : Dict W)
      → is_some (lookup k d) ≡ true
      → (zip_strict svc items ws d).raised ≡ none
      → is_some (lookup k (zip_strict svc items ws d).vectors) ≡ true
  unfolding zip_strict
  zip_strict-keeps k [] [] d h r = h
  zip_strict-keeps k [] (w ∷ ws) d h r = absurd (cc)
  zip_strict-keeps k (i ∷ is) [] d h r = absurd (cc)
  zip_strict-keeps k (i ∷ is) (w ∷ ws) d h r =
      zip_strict-keeps k is ws (put i.id w d) (ground (arith, lookup-put i.id k w d)) r

  zip_strict-Covered :
      (items : List (Item V)) (ws : List W) (d : Dict W)
      → (zip_strict svc items ws d).raised ≡ none
      → Covered items (zip_strict svc items ws d)
  unfolding zip_strict
  zip_strict-Covered [] [] d r = tt
  zip_strict-Covered [] (w ∷ ws) d r = tt
  zip_strict-Covered (i ∷ is) [] d r = absurd (cc)
  zip_strict-Covered (i ∷ is) (w ∷ ws) d r = (
    inl (
        zip_strict-keeps i.id is ws (put i.id w d)
          (ground (arith, lookup-put i.id i.id w d, eq_iff i.id i.id)) r),
    zip_strict-Covered is ws (put i.id w d) r,
  )

  abbrev Known : String → Dict W → Dict String → Type 0
  Known k d e = (is_some (lookup k d) ≡ true) ⊎ (is_some (lookup k e) ≡ true)

  after_one-elim :
      (P : Embedded W → Type 0) (i : Item V) (r : Result EmbedError W)
      (rest : Dict W → Dict String → Embedded W) (d : Dict W) (e : Dict String)
      → ((w : W) → P (rest (put i.id w d) e))
      → ((m : String) → P (rest d (put i.id m e)))
      → P (record { vectors = d; errors = e; raised = some PipelineError.embedding_unavailable })
      → P (after_one svc i r rest d e)
  unfolding after_one
  after_one-elim P i (ok w) rest d e a b c = a w
  after_one-elim P i (err (EmbedError.rejected m)) rest d e a b c = b m
  after_one-elim P i (err EmbedError.unavailable) rest d e a b c = c

  Known-vector :
      (k j : String) (w : W) (d : Dict W) (e : Dict String) → Known k d e → Known k (put j w d) e
  Known-vector k j w d e (inl h) = inl (ground (arith, lookup-put j k w d))
  Known-vector k j w d e (inr h) = inr h

  Known-error :
      (k j m : String) (d : Dict W) (e : Dict String) → Known k d e → Known k d (put j m e)
  Known-error k j m d e (inl h) = inl h
  Known-error k j m d e (inr h) = inr (ground (arith, lookup-put j k m e))

  embed_each-keeps :
      (k : String) (items : List (Item V)) (d : Dict W) (e : Dict String)
      → Known k d e
      → Known k (embed_each svc items d e).vectors (embed_each svc items d e).errors
  unfolding embed_each
  embed_each-keeps k [] d e h = h
  embed_each-keeps k (i ∷ is) d e h =
      after_one-elim (λ (x : Embedded W). Known k x.vectors x.errors) i
        (svc.embed_text (svc.embedding_text i.raw_data)) (embed_each svc is) d e
        (λ w. embed_each-keeps k is (put i.id w d) e (Known-vector k i.id w d e h))
        (λ m. embed_each-keeps k is d (put i.id m e) (Known-error k i.id m d e h)) h

  embed_each-Covered :
      (items : List (Item V)) (d : Dict W) (e : Dict String)
      → (embed_each svc items d e).raised ≡ none
      → Covered items (embed_each svc items d e)
  unfolding embed_each
  embed_each-Covered [] d e = λ r. tt
  embed_each-Covered (i ∷ is) d e =
      after_one-elim (λ (x : Embedded W). x.raised ≡ none → Covered (i ∷ is) x) i
        (svc.embed_text (svc.embedding_text i.raw_data)) (embed_each svc is) d e
        (λ w r. (
          embed_each-keeps i.id is (put i.id w d) e
              (inl (ground (arith, lookup-put i.id i.id w d, eq_iff i.id i.id))),
          embed_each-Covered is (put i.id w d) e r,
        ))
        (λ m r. (
          embed_each-keeps i.id is d (put i.id m e)
              (inr (ground (arith, lookup-put i.id i.id m e, eq_iff i.id i.id))),
          embed_each-Covered is d (put i.id m e) r,
        ))
        (λ r. absurd (cc))

  one_by_one-Covered :
      (m : String) (items : List (Item V))
      → (one_by_one svc m items).raised ≡ none
      → Covered items (one_by_one svc m items)
  unfolding one_by_one
  one_by_one-Covered m [] r = tt
  one_by_one-Covered m (i ∷ []) r = (inr (ground (arith, eq_iff i.id i.id)), tt)
  one_by_one-Covered m (i ∷ j ∷ is) r = embed_each-Covered (i ∷ j ∷ is) [] [] r

  embedded_by-Covered :
      (items : List (Item V)) (b : Result EmbedError (List W))
      → (embedded_by svc items b).raised ≡ none
      → Covered items (embedded_by svc items b)
  unfolding embedded_by
  embedded_by-Covered items (ok ws) r = zip_strict-Covered items ws [] r
  embedded_by-Covered items (err (EmbedError.rejected m)) r = one_by_one-Covered m items r
  embedded_by-Covered items (err EmbedError.unavailable) r = absurd (cc)

  pub embed-Covered :
      (items : List (Item V)) → (embed svc items).raised ≡ none → Covered items (embed svc items)
  unfolding embed
  embed-Covered items r = embedded_by-Covered items _ r
