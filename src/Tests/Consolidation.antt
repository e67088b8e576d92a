-- ===== src/Tests/Consolidation.antt =====
-- consolidation/proposer.py: a cluster of two episodes and a judge that finds for both.
use memory_os.Base.{
  ◌+◌, String, true, false, some, List, [], ◌∷◌, ◌≡◌, refl, ℕ, any, all, keep, max_by, sort_by,
  insert_by, group_by,
}
use memory_os.Consolidation.{
  EpisodeClaim, Thresholds, Judge, Proposal, ClusterStatus, day, dominant_assertion,
  propose_cluster, independent_source_span,
}
use memory_os.Consolidation.Grounded.{IsGrounded, propose_cluster-IsGrounded}

abbrev episode : ℕ → String → ℕ → EpisodeClaim
episode id source at = record {
  claim_id = id + 10;
  memory_id = id;
  subject_entity_id = 3;
  predicate = "uses";
  object_identity = "sqlite";
  polarity = "positive";
  source_ref = source;
  captured_at = at;
}

abbrev limits : Thresholds
limits = record { minimum_sources = 2; minimum_span_days = 1 }

abbrev judge : Judge
judge group = some (record {
  abstains = false;
  is_contested = false;
  has_proposal = true;
  supporting_memory_ids = 2 ∷ 1 ∷ 2 ∷ [];
  counterevidence_memory_ids = [];
})

abbrev proposal : Proposal
proposal = record {
  status = ClusterStatus.candidate;
  source_memory_ids = 2 ∷ 1 ∷ [];
  counterevidence_memory_ids = [];
  from_model = true;
}

abbrev others : List EpisodeClaim
others = episode 2 "b.md" day ∷ []

proposed : propose_cluster limits (some judge) (episode 1 "a.md" 0 ∷ others) ≡ some proposal
unfolding propose_cluster independent_source_span any all keep max_by sort_by insert_by group_by
proposed = refl

propose_cluster-IsGrounded_example :
    IsGrounded limits
      (dominant_assertion (episode 1 "a.md" 0) others)
      (episode 1 "a.md" 0 ∷ others)
      proposal
propose_cluster-IsGrounded_example =
    propose_cluster-IsGrounded limits (some judge) (episode 1 "a.md" 0) others proposed
