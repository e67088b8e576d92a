-- ===== src/Tests/Retrieval.antt =====
-- Concrete rankings, and an instance of each result on them.
use memory_os.Base.{
  ℕ, ◌+◌, ◌*◌, ◌-◌, ◌/◌, ◌≤◌, ◌≡◌, String, true, false, ◌||◌, not, some, List, [], ◌∷◌, keep,
  length, ltb, ◌==◌, Floats, arith,
}
use memory_os.Domain.{QueryIntent}
use memory_os.Retrieval.Diversity.{Candidate, mmr_select}
use memory_os.Retrieval.Diversity.Reference.{reference_rounds, mmr_select-eq-reference}
use memory_os.Retrieval.Diversity.Choice.{chosen_that, mmr_select-length}
use memory_os.Retrieval.Fusion.{get, reciprocal_rank_fusion}
use memory_os.Retrieval.Fusion.Sums.{reciprocal_rank_fusion-scores}
use memory_os.Retrieval.Routing.{RetrievalChannel, Findings, has_channel, select_retrieval_recipe}
use memory_os.Retrieval.Routing.Coverage.{serves, select_retrieval_recipe-channels}

-- Numbers in thousandths.
abbrev numbers : Floats
numbers = record {
  Float = ℕ;
  zero_float = 0;
  one_float = 1_000;
  plus = λ a b. a + b;
  minus = λ a b. a - b;
  times = λ a b. a * b / 1_000;
  over = λ a n. a / n;
  ratio = λ a b. a * 1_000 / b;
  lambda_relevance = 780;
  lambda_redundancy = 220;
  less = ltb;
}

abbrev candidate : ℕ → String → ℕ → Candidate numbers
candidate id title relevance = record {
  id = id;
  title = title;
  content = title;
  relevance = relevance;
}

abbrev candidates : List (Candidate numbers)
candidates = candidate 1 "tabs" 900 ∷ candidate 2 "tabs" 890 ∷ candidate 3 "spaces" 500 ∷ []

mmr_select-eq-reference_example :
    mmr_select numbers (λ s. s ∷ []) 2 candidates
    ≡ reference_rounds numbers (λ s. s ∷ []) 2 candidates []
mmr_select-eq-reference_example =
    mmr_select-eq-reference numbers (λ s. s ∷ []) 2 candidates (omega arith)

mmr_select-length_example :
    (length (mmr_select numbers (λ s. s ∷ []) 2 candidates) ≡ 2)
    × (chosen_that numbers
          (λ s. s ∷ [])
          (λ c. c.id == 1)
          (mmr_select numbers (λ s. s ∷ []) 2 candidates)
        ≤ length (keep (λ (c : Candidate numbers). c.id == 1) candidates))
mmr_select-length_example =
    mmr_select-length numbers (λ s. s ∷ []) 2 candidates (λ c. c.id == 1) (omega arith)

abbrev rankings : List (String × List ℕ)
rankings = ("fts", 4 ∷ 5 ∷ []) ∷ ("vector", 5 ∷ []) ∷ []

reciprocal_rank_fusion-scores_example :
    get ◌==◌ 5 (reciprocal_rank_fusion numbers [] 60 rankings).scores
    ≡ some (1_000 / 62 + 1_000 / 61)
unfolding get
reciprocal_rank_fusion-scores_example = reciprocal_rank_fusion-scores numbers [] 60 rankings 5

-- "What calls raise an exception": a relational signal and a word of the exact pattern.
abbrev findings : Findings
findings = record {
  exact_terms = [];
  exact_pattern = true;
  temporal_pattern = false;
  relational_pattern = true;
  question_count = 0;
  clause_breaks = 0;
}

select_retrieval_recipe-channels_example :
    let recipe = (select_retrieval_recipe QueryIntent.broad_search findings).recipe in
    (serves false false recipe ≡ true)
    × ((not true || has_channel RetrievalChannel.graph recipe) ≡ false)
select_retrieval_recipe-channels_example =
    select_retrieval_recipe-channels QueryIntent.broad_search findings
