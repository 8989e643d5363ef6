-- ===== src/Ranking/Hybrid/Shares.antt =====
-- hybrid.py: the share of the best keyword score that an item gets.
use recommendation_engine.Base.{
  String, ◌≡◌, refl, sym, ◌∙◌, ◌⊎◌, inl, inr, true, false, Option, some, List, [], ◌∷◌, arith,
  str_eq, eq_iff, Bool-cases, All, All-map, In,
}
use recommendation_engine.Base.Number.{Num, lt, num_max, le_refl}
use recommendation_engine.Base.Dict.{Dict, lookup, put, lookup-put}
use recommendation_engine.Ranking.Hybrid.{KeywordMatch, best_score, boosts_from, boosts, boost_of}

module _ {N : Type 0} ⦃num : Num N⦄ where
  -- The best of the scores: that of a match, and none is above it.
  abbrev pub IsBest : List (KeywordMatch N) → N → Type 0
  IsBest km best =
      ((k : KeywordMatch N) × In k km × (k.score ≡ best))
      × All (λ (k : KeywordMatch N). num.le k.score best ≡ true) km

  -- No keyword match is about the item.
  abbrev pub IsOther : String → List (KeywordMatch N) → Type 0
  IsOther id km = All (λ (k : KeywordMatch N). str_eq k.pinecone_id id ≡ false) km

  -- The share of an item: zero for one without a keyword match, else its match's score over the best
  -- one, if that is above zero.
  abbrev pub IsShare : List (KeywordMatch N) → String → N → Type 0
  IsShare km id share =
      IsOther id km × (share ≡ num.zero)
      ⊎ (k : KeywordMatch N) × In k km
        × (k.pinecone_id ≡ id)
        × (best : N) × IsBest km best
        × ((lt num.zero best ≡ true) × (share ≡ num.div k.score best)
            ⊎ (lt num.zero best ≡ false) × (share ≡ num.zero))

  max-cases :
      (a b : N) → (num_max a b ≡ a) × (num.le b a ≡ true) ⊎ (num_max a b ≡ b) × (num.le a b ≡ true)
  max-cases a b = elim (Bool-cases (num.le b a)) [
    | inl e ↦ inl (rw e refl, e)
    | inr e ↦ inr (rw e refl, ground (arith, num.le_total a b, e))
  ]

  best_score-IsBest :
      (k : KeywordMatch N) (ks : List (KeywordMatch N)) → IsBest (k ∷ ks) (best_score (k ∷ ks))
  unfolding best_score
  best_score-IsBest k [] = ((k, inl refl, refl), (le_refl k.score, tt))
  best_score-IsBest k (j ∷ ks) =
      let ((m, i, e), above) = best_score-IsBest j ks in
      elim (max-cases k.score (best_score (j ∷ ks))) [
        | inl (same, h) ↦ (
          (k, inl refl, sym same),
          (
            rw same (le_refl k.score),
            All-map (λ (x : KeywordMatch N). num.le x.score (best_score (j ∷ ks)) ≡ true) _
                (λ x g. rw same (num.le_trans x.score _ k.score g h)) (j ∷ ks) above,
          ),
        )
        | inr (same, h) ↦ (
          (m, inr i, e ∙ sym same),
          (
            rw same h,
            All-map (λ (x : KeywordMatch N). num.le x.score (best_score (j ∷ ks)) ≡ true) _
                (λ x g. rw same g) (j ∷ ks) above,
          ),
        )
      ]

  -- What `boosts_from` puts under an id.
  abbrev Put : N → List (KeywordMatch N) → String → Option N → Option N → Type 0
  Put best km id before after =
      IsOther id km × (after ≡ before)
      ⊎ (k : KeywordMatch N) × In k km
        × (k.pinecone_id ≡ id)
        × (after ≡ some (num.div k.score best))

  boosts_from-Put :
      (best : N) (km : List (KeywordMatch N)) (id : String) (d : Dict N)
      → Put best km id (lookup id d) (lookup id (boosts_from best km d))
  unfolding boosts_from
  boosts_from-Put best [] id d = inl (tt, refl)
  boosts_from-Put best (k ∷ km) id d =
      let d2 = put k.pinecone_id (num.div k.score best) d in
      let step = lookup-put k.pinecone_id id (num.div k.score best) d in
      elim (boosts_from-Put best km id d2) [
        | inr (j, i, own, e) ↦ inr (j, inr i, own, e)
        | inl (others, e) ↦ elim (Bool-cases (str_eq k.pinecone_id id)) [
          | inl s ↦ inr (k, inl refl, (eq_iff k.pinecone_id id).0 s, e ∙ step ∙ rw s refl)
          | inr s ↦ inl ((s, others), e ∙ step ∙ rw s refl)
        ]
      ]

  of_match :
      (km : List (KeywordMatch N)) (id : String)
      → IsOther id km ⊎ (k : KeywordMatch N) × In k km × (k.pinecone_id ≡ id)
  of_match [] id = inl tt
  of_match (k ∷ km) id = elim (Bool-cases (str_eq k.pinecone_id id)) [
    | inl s ↦ inr (k, inl refl, (eq_iff k.pinecone_id id).0 s)
    | inr s ↦ elim (of_match km id) [
      | inl others ↦ inl (s, others)
      | inr (j, i, own) ↦ inr (j, inr i, own)
    ]
  ]

  In-IsBest :
      (km : List (KeywordMatch N)) (k : KeywordMatch N) → In k km → IsBest km (best_score km)
  In-IsBest [] k i = absurd i
  In-IsBest (j ∷ km) k i = best_score-IsBest j km

  pub boosts-IsShare :
      (km : List (KeywordMatch N)) (id : String) → IsShare km id (boost_of (lookup id (boosts km)))
  unfolding boosts
  boosts-IsShare km id = elim (Bool-cases (lt num.zero (best_score km))) [
    | inl p ↦ rw p (elim (boosts_from-Put (best_score km) km id []) [
      | inl (others, e) ↦ inl (others, rw e refl)
      | inr (k, i, own, e) ↦ inr (k, i, own, best_score km, In-IsBest km k i, inl (p, rw e refl))
    ])
    | inr p ↦ rw p (elim (of_match km id) [
      | inl others ↦ inl (others, refl)
      | inr (k, i, own) ↦ inr (k, i, own, best_score km, In-IsBest km k i, inr (p, refl))
    ])
  ]
