-- ===== src/Tests/Ranks.antt =====
-- Examples for the ranking stages.
use recommendation_engine.Base.{
  ℕ, ◌≡◌, refl, String, true, false, Option, none, some, List, [], ◌∷◌, map, Perm, All, take,
  str_eq, if◌then◌else◌,
}
use recommendation_engine.Base.Int.{pos}
use recommendation_engine.Base.Number.{Num, nat_num}
use recommendation_engine.Base.Dict.{Dict}
use recommendation_engine.Base.Result.{ok}
use recommendation_engine.Ranking.{Match, external_id, retrieval_score}
use recommendation_engine.Ranking.Hybrid.{KeywordMatch, fuse}
use recommendation_engine.Ranking.Hybrid.Laws.{IsFusion, fuse-IsFusion}
use recommendation_engine.Ranking.Feedback.{
  ItemStats, WorkspaceStats, Weights, with_ranking, ranking_score,
}
use recommendation_engine.Ranking.Feedback.{rerank as feedback_rerank}
use recommendation_engine.Ranking.Feedback.Laws.{rerank-unshown}
use recommendation_engine.Ranking.Llm.{Entry, Candidate, Verdict, Reply, rerank}
use recommendation_engine.Ranking.Llm.Verdicts.{IsSafe, rerank-IsSafe}
use recommendation_engine.Ranking.Format.{Ranked, format_results}
use recommendation_engine.Ranking.Format.Laws.{count_from, format_results-IsRanking}
use recommendation_engine.Ranking.Variant.{RankingVariant, assign_variant}

abbrev found : String → ℕ → Match ℕ
found id score = record {
  id = id;
  score = score;
  external = some id;
  metadata = [];
  retrieval = none;
  ranking = none;
  position = none;
  llm_score = none;
  llm_reason = none;
}

abbrev vector_matches : List (Match ℕ)
vector_matches = found "a" 9 ∷ found "b" 5 ∷ []

abbrev keyword_matches : List (KeywordMatch ℕ)
keyword_matches =
    record { external_id = "b"; pinecone_id = "b"; score = 4; metadata = [] }
    ∷ record { external_id = "c"; pinecone_id = "c"; score = 2; metadata = [] }
    ∷ []

abbrev vectors : Dict (List ℕ)
vectors = ("c", 1 ∷ 2 ∷ []) ∷ []

fuse-IsFusion_example :
    IsFusion vector_matches keyword_matches vectors
      (2 ∷ 1 ∷ [])
      10
      2
      (fuse vector_matches keyword_matches vectors (2 ∷ 1 ∷ []) 10 2)
fuse-IsFusion_example = fuse-IsFusion vector_matches keyword_matches vectors (2 ∷ 1 ∷ []) 10 2

-- Feedback on item "b" only.
abbrev stats : String → Option (ItemStats ℕ)
stats id =
    if str_eq id "b"
    then some
        (record { impressions = 6; clicks = 4; positives = 1; negatives = 0; conversions = 2 })
    else none

abbrev no_stats : String → Option (ItemStats ℕ)
no_stats _ = none

abbrev weights : Weights ℕ
weights = record { engagement = 3; conversion = 2; negative = 1; popularity = 1 }

abbrev prior : WorkspaceStats ℕ
prior = record {
  impressions = 6;
  engagement = 1;
  conversion = 0;
  negative = 0;
  max_impressions = 6;
}

feedback_rerank-unshown_example :
    (feedback_rerank no_stats vector_matches 2 weights prior
      ≡ take 2 (map (with_ranking no_stats weights prior) vector_matches))
    × All
        (λ m. ranking_score (with_ranking no_stats weights prior m) ≡ retrieval_score m)
        vector_matches
unfolding retrieval_score
feedback_rerank-unshown_example =
    rerank-unshown no_stats weights prior vector_matches 2
      ((λ t e. absurd (cc)), ((λ t e. absurd (cc)), tt)) ((refl, tt), (tt, tt))

abbrev whole : String → String
whole s = s

abbrev entries : List Entry
entries =
    record { number = some (pos 2); score = some (pos 12); reason = "best" }
    ∷ record { number = some (pos 2); score = some (pos 1); reason = "again" }
    ∷ record { number = some (pos 9); score = some (pos 5); reason = "unknown" }
    ∷ []

abbrev judged : List Candidate
judged = record { key = "a"; text = "A" } ∷ record { key = "b"; text = "B" } ∷ []

abbrev reply : Reply
reply = record { prompt_tokens = 40; completion_tokens = 9; content = ok (some entries) }

llm_rerank-IsSafe_example :
    IsSafe vector_matches (rerank whole true vector_matches judged none reply).0
llm_rerank-IsSafe_example =
    rerank-IsSafe whole true vector_matches judged none reply (λ vs e. absurd (cc))

abbrev verdicts : Dict Verdict
verdicts = ("b", record { score = 10; reason = "best" }) ∷ []

format_results-IsRanking_example :
    (map (λ (r : Ranked ℕ). r.rank) (format_results (λ s. s) (8, 6, 4) [] false [] vector_matches)
      ≡ count_from 1 vector_matches)
    × Perm
        (map
          (λ (r : Ranked ℕ). r.external_id)
          (format_results (λ s. s) (8, 6, 4) [] false [] vector_matches))
        (map (λ (m : Match ℕ). external_id m) vector_matches)
format_results-IsRanking_example =
    format_results-IsRanking (λ s. s) (8, 6, 4) [] false [] vector_matches

-- Shares in quarters.
abbrev quarters : Num ℕ
quarters = record nat_num { one = 4 }

in_control : assign_variant ⦃num = quarters⦄ true 2 (λ s. 1) 0 (some "u") ≡ RankingVariant.control
unfolding assign_variant
in_control = refl
