-- ===== src/Consolidation.antt =====
-- consolidation/cluster.py and consolidation/proposer.py: episodes, their clusters, and the proposals
-- made of them, with a model as judge of a cluster. The rows of the query are an argument; payloads
-- and the texts of a proposal are left out. Times and spans are in microseconds.
pub mod Grounded
use memory_os.Base.{
  ℕ, zero, suc, ◌+◌, ◌*◌, ◌-◌, String, Bool, true, false, ◌&&◌, ◌||◌, not, Option, none, some, List,
  [], ◌∷◌, ◌++◌, map, keep, any, all, is_empty, length, ltb, ◌==◌, str_eq, if◌then◌else◌, sort_by,
  max_by, group_by,
}

pub record EpisodeClaim : Type 0 where
  pub claim_id : ℕ
  pub memory_id : ℕ
  pub subject_entity_id : ℕ
  pub predicate : String
  pub object_identity : String
  pub polarity : String
  pub source_ref : String
  pub captured_at : ℕ

-- `cluster_episodes`
unfoldable pub cluster_episodes : List EpisodeClaim → List ((ℕ × String) × List EpisodeClaim)
cluster_episodes =
    group_by (λ (a : ℕ × String) b. a.0 == b.0 && str_eq a.1 b.1)
      (λ row. (row.subject_entity_id, row.predicate))

-- `by_source[row.source_ref] = row.captured_at`, unless an earlier one is there.
unfoldable pub note_source : String → ℕ → List (String × ℕ) → List (String × ℕ)
note_source source at [] = (source, at) ∷ []
note_source source at ((ref, captured) ∷ noted) =
    let rest = note_source source at noted in
    if str_eq ref source
    then (ref, if ltb at captured then at else captured) ∷ noted
    else (ref, captured) ∷ rest

unfoldable pub first_captures : List EpisodeClaim → List (String × ℕ) → List (String × ℕ)
unfolding note_source
first_captures [] noted = noted
first_captures (row ∷ rows) noted =
    first_captures rows (note_source row.source_ref row.captured_at noted)

-- `moments[-1] - moments[0]`
unfoldable pub extent : List ℕ → ℕ
extent [] = 0
extent (first ∷ rest) = last first rest - first
  where
    last : ℕ → List ℕ → ℕ
    last m [] = m
    last m (n ∷ ns) = last n ns

-- `independent_source_span_days`
unfoldable pub independent_source_span : List EpisodeClaim → ℕ × ℕ
unfolding first_captures extent
independent_source_span rows =
    let moments = sort_by ltb (map (λ e. e.1) (first_captures rows [])) in
    (length moments, extent moments)

pub record Thresholds : Type 0 where
  pub minimum_sources : ℕ
  pub minimum_span_days : ℕ

abbrev pub day : ℕ
day = 86_400_000_000

-- `source_count < minimum_sources or span_days < minimum_span_days`
unfoldable pub is_thin : Thresholds → List EpisodeClaim → Bool
is_thin limits rows =
    let (sources, span) = independent_source_span rows in
    ltb sources limits.minimum_sources || ltb span (limits.minimum_span_days * day)

-- What a row asserts: its object and polarity.
abbrev pub assertion_of : EpisodeClaim → String × String
assertion_of row = (row.object_identity, row.polarity)

abbrev pub same_assertion : String × String → String × String → Bool
same_assertion a b = str_eq a.0 b.0 && str_eq a.1 b.1

-- `Counter(...).most_common(1)[0]`, of a cluster with a row.
unfoldable pub dominant_assertion : EpisodeClaim → List EpisodeClaim → String × String
dominant_assertion row rows = elim (group_by same_assertion assertion_of (row ∷ rows)) [
  | [] ↦ assertion_of row
  | g ∷ groups ↦ (max_by (λ (e : (String × String) × List EpisodeClaim). length e.1) g groups).0
]

abbrev pub asserts : String × String → EpisodeClaim → Bool
asserts dominant row = same_assertion (assertion_of row) dominant

pub data ClusterStatus : Type 0 where
  candidate contested : ClusterStatus

-- `classify_cluster`; `none` for "none".
unfoldable pub classify_cluster : Thresholds → List EpisodeClaim → Option ClusterStatus
unfolding dominant_assertion is_thin
classify_cluster limits [] = none
classify_cluster limits (row ∷ rows) =
    let dominant = dominant_assertion row rows in
    if is_thin limits (keep (asserts dominant) (row ∷ rows))
    then none
    else some (
        if any (λ r. not (asserts dominant r)) (row ∷ rows)
        then ClusterStatus.contested
        else ClusterStatus.candidate)

abbrev pub elem : ℕ → List ℕ → Bool
elem i = any (λ j. j == i)

-- `list(dict.fromkeys(ids))`
unfoldable pub unique : List ℕ → List ℕ
unique [] = []
unique (i ∷ ids) = i ∷ keep (λ j. not (j == i)) (unique ids)

-- The answer of a judge that the code reads.
pub record Judgement : Type 0 where
  pub abstains : Bool
  pub is_contested : Bool
  pub has_proposal : Bool
  pub supporting_memory_ids : List ℕ
  pub counterevidence_memory_ids : List ℕ

-- A judge answers, or raises `ProviderError`.
abbrev pub Judge : Type 0
Judge = List EpisodeClaim → Option Judgement

pub record Proposal : Type 0 where
  pub status : ClusterStatus
  pub source_memory_ids : List ℕ
  pub counterevidence_memory_ids : List ℕ
  pub from_model : Bool

module _ (limits : Thresholds) (dominant : String × String) (group : List EpisodeClaim) where
  -- `self.judge.judge` answered; the checks of `_judge_cluster` on the answer.
  unfoldable pub accept_judgement : Judgement → Option Proposal
  unfolding is_thin unique
  accept_judgement result =
      let supporting_rows =
        keep (λ r. elem r.memory_id (unique result.supporting_memory_ids)) group in
      let counters = unique (
        result.counterevidence_memory_ids
        ++ map (λ r. r.memory_id) (keep (λ r. not (asserts dominant r)) group)) in
      if result.abstains || not result.has_proposal
      then none
      else if not (
            all (λ i. any (λ r. r.memory_id == i) group)
              (result.supporting_memory_ids ++ result.counterevidence_memory_ids))
          || any (λ i. elem i result.counterevidence_memory_ids) result.supporting_memory_ids
      then none
      else if is_empty supporting_rows || not (all (asserts dominant) supporting_rows)
      then none
      else if is_thin limits supporting_rows
      then none
      else some (record {
        status =
            if not (is_empty counters) || result.is_contested
            then ClusterStatus.contested
            else ClusterStatus.candidate;
        source_memory_ids = unique result.supporting_memory_ids;
        counterevidence_memory_ids = counters;
        from_model = true;
      })

  -- `_judge_cluster`
  unfoldable pub judge_cluster : Option Judge → Option Proposal
  unfolding accept_judgement
  judge_cluster none = none
  judge_cluster (some judge) = elim (judge group) [
    | none ↦ none
    | some result ↦ accept_judgement result
  ]

  -- The proposal made without a judge.
  unfoldable pub extracted : Proposal
  unfolding unique
  extracted =
      let against = keep (λ r. not (asserts dominant r)) group in
      record {
        status = if is_empty against then ClusterStatus.candidate else ClusterStatus.contested;
        source_memory_ids = unique (map (λ r. r.memory_id) (keep (asserts dominant) group));
        counterevidence_memory_ids = unique (map (λ r. r.memory_id) against);
        from_model = false;
      }

-- The body of the loop of `propose`.
unfoldable pub propose_cluster : Thresholds → Option Judge → List EpisodeClaim → Option Proposal
unfolding dominant_assertion is_thin judge_cluster extracted
propose_cluster limits judge [] = none
propose_cluster limits judge (row ∷ rows) =
    let dominant = dominant_assertion row rows in
    if is_thin limits (keep (asserts dominant) (row ∷ rows))
    then none
    else elim (judge_cluster limits dominant (row ∷ rows) judge) [
      | some judged ↦ some judged
      | none ↦ some (extracted limits dominant (row ∷ rows))
    ]
