-- ===== src/Retrieval/Routing.antt =====
-- retrieval_v2/routing.py: the approved recipes and `select_retrieval_recipe`. What the regular
-- expressions find in a query is an argument. Of a decision its recipe, its basis and the flag of the
-- fallback are kept.
pub mod Coverage
use memory_os.Base.{
  ℕ, ◌+◌, String, Bool, true, false, ◌&&◌, ◌||◌, not, List, [], ◌∷◌, any, keep, length, ltb, leb,
  ◌==◌, is_empty, if◌then◌else◌,
}
use memory_os.Domain.{QueryIntent}

pub data RetrievalChannel : Type 0 where
  fts vector source_anchor graph temporal : RetrievalChannel

pub data RetrievalRoute : Type 0 where
  exact semantic relational temporal complex safe_fallback : RetrievalRoute

pub data DecisionBasis : Type 0 where
  explicit_signals planner_intent safe_fallback : DecisionBasis

pub record RetrievalRecipe : Type 0 where
  pub route : RetrievalRoute
  pub channels : List RetrievalChannel
  pub reranks : Bool
  pub diversifies : Bool

abbrev pub channel_code : RetrievalChannel → ℕ
channel_code RetrievalChannel.fts = 0
channel_code RetrievalChannel.vector = 1
channel_code RetrievalChannel.source_anchor = 2
channel_code RetrievalChannel.graph = 3
channel_code RetrievalChannel.temporal = 4

abbrev pub has_channel : RetrievalChannel → RetrievalRecipe → Bool
has_channel c r = any (λ d. channel_code d == channel_code c) r.channels

-- `APPROVED_RETRIEVAL_RECIPES`, by route; each has one.
unfoldable pub recipe_of : RetrievalRoute → RetrievalRecipe
recipe_of RetrievalRoute.safe_fallback = record {
  route = RetrievalRoute.safe_fallback;
  channels =
      RetrievalChannel.fts ∷ RetrievalChannel.vector ∷ RetrievalChannel.graph
      ∷ RetrievalChannel.temporal ∷ [];
  reranks = true;
  diversifies = true;
}
recipe_of RetrievalRoute.exact = record {
  route = RetrievalRoute.exact;
  channels = RetrievalChannel.fts ∷ RetrievalChannel.vector ∷ RetrievalChannel.source_anchor ∷ [];
  reranks = false;
  diversifies = false;
}
recipe_of RetrievalRoute.semantic = record {
  route = RetrievalRoute.semantic;
  channels = RetrievalChannel.fts ∷ RetrievalChannel.vector ∷ [];
  reranks = true;
  diversifies = true;
}
recipe_of RetrievalRoute.relational = record {
  route = RetrievalRoute.relational;
  channels = RetrievalChannel.fts ∷ RetrievalChannel.vector ∷ RetrievalChannel.graph ∷ [];
  reranks = true;
  diversifies = true;
}
recipe_of RetrievalRoute.temporal = record {
  route = RetrievalRoute.temporal;
  channels = RetrievalChannel.fts ∷ RetrievalChannel.vector ∷ RetrievalChannel.temporal ∷ [];
  reranks = true;
  diversifies = false;
}
recipe_of RetrievalRoute.complex = record {
  route = RetrievalRoute.complex;
  channels =
      RetrievalChannel.fts ∷ RetrievalChannel.vector ∷ RetrievalChannel.source_anchor
      ∷ RetrievalChannel.graph ∷ RetrievalChannel.temporal ∷ [];
  reranks = true;
  diversifies = true;
}

-- What the patterns find in the stripped query, and its counts of `?` and of breaks.
pub record Findings : Type 0 where
  pub exact_terms : List String
  pub exact_pattern : Bool
  pub temporal_pattern : Bool
  pub relational_pattern : Bool
  pub question_count : ℕ
  pub clause_breaks : ℕ

pub record RoutingDecision : Type 0 where
  pub recipe : RetrievalRecipe
  pub fallback_used : Bool
  pub decision_basis : DecisionBasis

abbrev pub is_broad : QueryIntent → Bool
is_broad QueryIntent.broad_search = true
is_broad _ = false

abbrev pub is_location : QueryIntent → Bool
is_location QueryIntent.implementation_location = true
is_location _ = false

abbrev pub is_as_of : QueryIntent → Bool
is_as_of QueryIntent.historical_as_of = true
is_as_of _ = false

abbrev pub is_why : QueryIntent → Bool
is_why QueryIntent.why_decision = true
is_why _ = false

abbrev pub has_exact : QueryIntent → Findings → Bool
has_exact intent f = not (is_empty f.exact_terms) || is_location intent

abbrev pub has_temporal : QueryIntent → Findings → Bool
has_temporal intent f = is_as_of intent || f.temporal_pattern

abbrev pub has_relational : QueryIntent → Findings → Bool
has_relational intent f = is_why intent || f.relational_pattern

abbrev pub count_true : Bool → ℕ
count_true b = if b then 1 else 0

-- `_clause_count`: `max(1, question_count, clause_breaks + 1)` is above one.
abbrev pub has_clauses : Findings → Bool
has_clauses f = ltb 1 f.question_count || ltb 1 (f.clause_breaks + 1)

-- The ladder of tests: whether the search is broad, has clauses, each of the three primary signals,
-- and the pattern of exact identifiers.
unfoldable pub choose_route :
    (broad clauses is_exact is_temporal is_relational pattern : Bool) → RetrievalRoute
choose_route broad clauses is_exact is_temporal is_relational pattern =
    let signals = count_true is_exact + count_true is_temporal + count_true is_relational in
    if broad && signals == 0
    then RetrievalRoute.safe_fallback
    else if clauses || ltb 1 signals
    then RetrievalRoute.complex
    else if is_temporal
    then RetrievalRoute.temporal
    else if is_exact || pattern
    then RetrievalRoute.exact
    else if is_relational
    then RetrievalRoute.relational
    else RetrievalRoute.semantic

abbrev by_pattern : Bool → DecisionBasis
by_pattern found = if found then DecisionBasis.explicit_signals else DecisionBasis.planner_intent

-- `decision_basis`, set in each branch
unfoldable pub basis_of : RetrievalRoute → Findings → DecisionBasis
basis_of RetrievalRoute.safe_fallback f = DecisionBasis.safe_fallback
basis_of RetrievalRoute.complex f = DecisionBasis.explicit_signals
basis_of RetrievalRoute.temporal f = by_pattern f.temporal_pattern
basis_of RetrievalRoute.exact f = by_pattern (not (is_empty f.exact_terms))
basis_of RetrievalRoute.relational f = by_pattern f.relational_pattern
basis_of RetrievalRoute.semantic f = DecisionBasis.planner_intent

abbrev is_fallback : RetrievalRoute → Bool
is_fallback RetrievalRoute.safe_fallback = true
is_fallback _ = false

unfoldable pub select_retrieval_recipe : QueryIntent → Findings → RoutingDecision
unfolding recipe_of choose_route basis_of
select_retrieval_recipe intent f =
    let route =
      choose_route (is_broad intent) (has_clauses f) (has_exact intent f) (has_temporal intent f)
        (has_relational intent f) f.exact_pattern in
    record {
      recipe = recipe_of route;
      fallback_used = is_fallback route;
      decision_basis = basis_of route f;
    }
