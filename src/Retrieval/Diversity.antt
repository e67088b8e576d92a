-- ===== src/Retrieval/Diversity.antt =====
-- retrieval_v2/diversity.py: `mmr_select`. The words of a lowered text, by a regular expression, are an
-- argument; memories of the candidates have distinct identities. Scores are not rounded.
pub mod Reference
pub mod Choice
use memory_os.Base.{
  ℕ, ◌+◌, zero, suc, String, Bool, true, false, not, List, [], ◌∷◌, ◌++◌, any, keep, length, ◌==◌,
  str_eq, distinct, append_text, if◌then◌else◌, Floats,
}

module _ (f : Floats) where
  open f use {Float, zero_float, minus, times, ratio, lambda_relevance, lambda_redundancy, less}

  pub record Candidate : Type 0 where
    pub id : ℕ
    pub title : String
    pub content : String
    pub relevance : Float

  -- A candidate with its `mmr_score`.
  pub record Chosen : Type 0 where
    pub candidate : Candidate
    pub mmr_score : Float

  -- `max(a, b)`
  abbrev pub larger : Float → Float → Float
  larger a b = if less a b then b else a

  -- `max(x, *xs, key=score)`
  unfoldable pub best : (Candidate → Float) → Candidate → List Candidate → Candidate
  best score x [] = x
  best score x (y ∷ ys) = best score (if less (score x) (score y) then y else x) ys

  -- `remaining.remove(chosen)`
  unfoldable pub remove : Candidate → List Candidate → List Candidate
  remove c [] = []
  remove c (x ∷ xs) = let rest = x ∷ remove c xs in if x.id == c.id then xs else rest

  module _ (findall : String → List String) where
    -- `_tokens`, of title and content
    unfoldable pub tokens : Candidate → List String
    tokens c = distinct (findall (append_text c.title (append_text " " c.content)))

    -- `_similarity`, of two sets without repetitions
    unfoldable pub similarity : List String → List String → Float
    similarity left right =
        let common = length (keep (λ t. any (str_eq t) right) left) in
        let union = length left + length (keep (λ t. not (any (str_eq t) left)) right) in
        if union == 0 then zero_float else ratio common union

    abbrev pub similar : Candidate → Candidate → Float
    similar a b = similarity (tokens a) (tokens b)

    unfoldable pub score_with : Float → Candidate → Float
    score_with redundancy c =
        minus (times lambda_relevance c.relevance) (times lambda_redundancy redundancy)

    -- The loop that updates `max_redundancy` for the remaining items.
    unfoldable pub update_cache : Candidate → List Candidate → (ℕ → Float) → ℕ → Float
    update_cache chosen [] cache = cache
    update_cache chosen (x ∷ remaining) cache =
        update_cache chosen remaining
          (λ id. if id == x.id then larger (cache x.id) (similar x chosen) else cache id)

    -- The rounds left of the loop, of which there are `limit - len(selected)`.
    unfoldable pub select_rounds : ℕ → List Candidate → (ℕ → Float) → List Chosen
    unfolding update_cache score_with best remove
    select_rounds zero remaining cache = []
    select_rounds (suc rounds) [] cache = []
    select_rounds (suc rounds) (x ∷ xs) cache =
        let score = λ (c : Candidate). score_with (cache c.id) c in
        let chosen = best score x xs in
        let remaining = remove chosen (x ∷ xs) in
        record { candidate = chosen; mmr_score = score chosen }
        ∷ select_rounds rounds remaining (update_cache chosen remaining cache)

    unfoldable pub mmr_select : ℕ → List Candidate → List Chosen
    unfolding select_rounds
    mmr_select limit candidates = select_rounds limit candidates (λ id. zero_float)
