-- ===== src/Retrieval/Routing/Coverage.antt =====
-- retrieval_v2/routing.py: the router drops no channel that a signal of the query asks for.
use memory_os.Base.{◌≡◌, Bool, true, ◌&&◌, ◌||◌, not, any, arith}
use memory_os.Domain.{QueryIntent}
use memory_os.Retrieval.Routing.{
  RetrievalChannel, RetrievalRecipe, has_channel, recipe_of, Findings, is_broad, has_exact,
  has_temporal, has_relational, choose_route, has_clauses, select_retrieval_recipe,
}

-- The recipe has the two channels of every recipe, and those of the exact and temporal signals.
abbrev pub serves : (exact temporal : Bool) → RetrievalRecipe → Bool
serves e t r =
    has_channel RetrievalChannel.fts r
    && has_channel RetrievalChannel.vector r
    && (not e || has_channel RetrievalChannel.source_anchor r)
    && (not t || has_channel RetrievalChannel.temporal r)

served :
    (broad clauses e t r pattern : Bool)
    → let recipe = recipe_of (choose_route broad clauses e t r pattern) in
      (serves e t recipe ≡ true)
      × ((not r || has_channel RetrievalChannel.graph recipe)
          ≡ not (r && pattern && not (e || t || clauses)))
unfolding choose_route recipe_of any
served broad clauses e t r pattern = ground arith

-- The recipe of a query searches texts and vectors, the source anchors if the query has an exact
-- signal and the times if it has a temporal one. It searches the graph for a relational signal,
-- except exactly where the query is of one clause with no exact or temporal signal and the pattern
-- of exact identifiers matches: then the relational signal is dropped.
pub select_retrieval_recipe-channels :
    (intent : QueryIntent) (f : Findings)
    → let recipe = (select_retrieval_recipe intent f).recipe in
      (serves (has_exact intent f) (has_temporal intent f) recipe ≡ true)
      × ((not (has_relational intent f) || has_channel RetrievalChannel.graph recipe)
          ≡ not (
              has_relational intent f
              && f.exact_pattern
              && not (has_exact intent f || has_temporal intent f || has_clauses f)))
unfolding select_retrieval_recipe
select_retrieval_recipe-channels intent f =
    served (is_broad intent) (has_clauses f) (has_exact intent f) (has_temporal intent f)
      (has_relational intent f) f.exact_pattern
