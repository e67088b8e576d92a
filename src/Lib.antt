-- ===== src/Lib.antt =====
-- MemoryOS: the claims, entities, health and lifecycle of memories, the compilation of a context
-- under a token budget, the ranking of a retrieval, and the freshness of source anchors.
--
-- The program keeps memories (short texts with a scope, a status and a time of validity) and, for
-- each memory, the claims extracted from it: subject, predicate, object and polarity. Claims have a
-- history of versions in two times: valid time (when the fact holds) and transaction time (when the
-- service knew it). The engine takes calls of clients, one database session each, moves memories
-- through their statuses and has the truth service move their claims along; the truth service
-- resolves entities, compares claims and writes versions; the health service archives memories
-- that current truth does not need. A retrieval chooses a recipe of channels, fuses their rankings
-- and diversifies the result; the context compiler bundles the atoms of what was retrieved, selects
-- bundles under a budget of tokens, and delivers the text in full or as a delta to the snapshot of an
-- earlier call. Consolidation proposes one memory for a cluster of episodes. Anchors tie a memory to
-- code, and a refresh compares them with the repository.
--
-- The files and the code they model (paths from the repository's root):
--   Base, Base/*            lists, tables by key, optional values, results and loops that may raise
--   Domain                  memoryos/domain/schemas.py: the enumerations and the tests on them
--   Temporal                memoryos/temporal/intervals.py: _utc, as_of, is_known_at,
--                           intervals_overlap
--   Store                   memoryos/db/models.py: the rows of the tables, and the reads by key
--   Entities                memoryos/entities/resolver.py: resolve, merge, follow_redirect
--   Claims/Canonical        memoryos/entities/aliases.py and memoryos/claims/canonicalize.py: names
--   Claims/Extraction       memoryos/claims/canonicalize.py: validate_claim_candidates
--   Claims/Predicates       memoryos/claims/predicates.py: classify_claim_values and its table
--   Claims/Versioning       memoryos/claims/versioning.py: ClaimVersionStore
--   Claims/Truth/*          memoryos/claims/truth.py: Services (collaborators), Relations (conflicts),
--                           Ensure (extraction and search), Lifecycle and Activation (the calls of
--                           the engine), State (groups of current_truth)
--   Health                  memoryos/health/service.py: archive, restore, record_retrieval, evaluate
--   Engine, Engine/Calls    memoryos/engine/service.py: MemoryService, and memoryos/db/session.py
--   Context/Budget          memoryos/context/budget.py: plan and apply_safe_floor of BudgetPlanner
--   Context/Bundles         memoryos/context/budget.py: build_bundles
--   Context/Delta           memoryos/context/delta.py: plan_delta
--   Context/Snapshots       memoryos/context/delta.py: load_valid, create and cleanup_expired
--   Context/Renderers       memoryos/context/renderers.py: the texts of a context and of a delta
--   Context/Payload         memoryos/context/renderers.py and compiler.py: token accounting
--   Context/Compiler        memoryos/context/compiler.py: the selection of bundles in _build_msc
--   Context/Delivery        memoryos/context/compiler.py: the rest of _build_msc, and its whole
--   Retrieval/Diversity     memoryos/retrieval_v2/diversity.py: mmr_select
--   Retrieval/Fusion        memoryos/retrieval_v2/fusion.py: reciprocal_rank_fusion
--   Retrieval/Routing       memoryos/retrieval_v2/routing.py: select_retrieval_recipe
--   Freshness               memoryos/freshness/git_compare.py, and the states in anchors.py: refresh
--   Consolidation           memoryos/consolidation/cluster.py, and the clusters in proposer.py: propose
-- The child modules of these hold the lemmas and the results, named for what they are about:
-- Claims/Versioning/{Timeline, Transition, Visible, Latest, Others, Writes, Numbering},
-- Claims/Predicates/Relations, Claims/Truth/{Effects, Histories, Closing, Keeps},
-- Entities/{Redirects, Merge}, Health/{Archive, Events, Restore}, Engine/{Statuses, Timelines,
-- Knowledge, Keeps, Lifecycle}, Context/Budget/Floor, Context/Bundles/Complete,
-- Context/Delta/{Dictionary, Merge, Parts}, Context/Snapshots/Lasting,
-- Context/Payload/Accounting, Context/Compiler/Selection, Context/Delivery/Budgeted,
-- Retrieval/Diversity/{Reference, Choice}, Retrieval/Fusion/Sums, Retrieval/Routing/Coverage,
-- Freshness/{Comparison, Aggregate} and Consolidation/Grounded. Tests holds concrete runs.
--
-- How state and operations correspond. The database is a record of tables (Db), each a list of
-- rows with the columns that the modelled code reads; an operation takes it and returns it, or
-- raises an error as a value. A session keeps what its body wrote if the body returned and
-- nothing if it raised. A UUID is a number, and a new one is `next_id`; a time is the number of
-- microseconds since the first representable instant, in UTC; confidences of decisions are in
-- hundredths, scores in millionths; a quotient that the code rounds is exact before it is
-- rounded. Each call reads the clock once, as an argument `now`, where the code reads it at each
-- use. Each write is seen by the reads after it; the code's sessions do not flush by themselves
-- and call `flush` where that matters, with one exception: `_find_conflicts` of the code still
-- selects an active memory whose expiry in the same call is not flushed yet, so that its
-- conflicts may be more than those of the model. A Python dictionary by key is a list with one
-- entry for a key, at the place of the first and with the value of the last; of the atoms of a
-- delta with one section and memory, which the code sorts from a set, the order is that of the
-- dictionary.
--
-- Bounds. `follow_redirect` loops on fuel, one round more than there are entities, since each round
-- sees an entity not seen before; running out would be `runtime_error`. The accounting of a payload
-- runs for the 32 rounds of the code and raises as the code does. The rounds of `mmr_select` are its
-- limit. Every other loop is a recursion on a list.
--
-- What stands outside as an argument: the text functions of the standard library (normalisation,
-- regular expressions, slices, SHA-256, JSON, difflib), `exp` and `log`, floating-point numbers in the
-- rankings (a type with operations and no laws), the models that judge relationships and clusters, the
-- extraction of candidates from a text by regular expressions, the redaction of secrets, git with the
-- files of a repository, and the atoms of the retrieved memories.
-- Not modelled: the searches, filters and stages of a retrieval, the legacy context, the building of
-- atoms, the audit of a context, stored proposals, feedback, backup, the HTTP, command-line and protocol
-- front ends, metadata, evidence lists and serialised answers.
pub mod Base
pub mod Domain
pub mod Temporal
pub mod Store
pub mod Entities
pub mod Claims
pub mod Health
pub mod Engine
pub mod Context
pub mod Retrieval
pub mod Freshness
pub mod Consolidation
mod Tests
