-- ===== src/Tests/Freshness.antt =====
-- A concrete repository, and an instance of each result on it.
use memory_os.Base.{
  ◌≤◌, ◌≡◌, ◌↔◌, true, false, ◌&&◌, ◌||◌, not, none, some, [], ◌∷◌, All, Memᴰ, if◌then◌else◌,
}
use memory_os.Domain.{FreshnessState, ClaimStaleState}
use memory_os.Freshness.{
  SourceAnchor, Repository, Texts, classify_mutation, same_blob, compare_file, compare_anchor,
  apply_freshness_result, aggregate, severity, claim_state,
}
use memory_os.Freshness.Comparison.{
  has_symbol, is_equivalent, similarity, is_refound, is_shifted,
  compare_anchor-apply_freshness_result, compare_file-classify_mutation,
}
use memory_os.Freshness.Aggregate.{claim_state-aggregate}

abbrev texts : Texts
texts = record {
  hash = λ s. s;
  normalized = λ s. s;
  ratio = λ a b. 500;
  line_of = λ s e. some 12;
  breaks = λ s. 1;
}

-- The function moved down and changed.
abbrev repository : Repository
repository = record {
  context = some (record { head = "c2"; stable_key = "repo" });
  is_inside = λ p. true;
  is_file = λ p. true;
  diff = λ c. [];
  blob = λ p. "b2";
  source = λ p. "def f(): pass";
  locate_symbol = λ p s. some (record { excerpt = "def f(): pass"; line_start = 9; line_end = 9 });
}

abbrev anchor : SourceAnchor
anchor = record {
  repository_stable_key = "repo";
  commit_sha = "c1";
  path = "f.py";
  blob_sha = "b1";
  symbol_fqn = some "f";
  line_start = some 4;
  line_end = some 4;
  evidence_excerpt = "def f(): return 1";
  excerpt_hash = "h";
  freshness_state = FreshnessState.fresh;
  cached_head = some "c1";
  checked_at = some 3;
  observed_head = some "c1";
  observed_path = none;
  observed_line_start = some 4;
  observed_line_end = some 4;
  observed_excerpt_hash = none;
}

compare_anchor-apply_freshness_result_example :
    let r = compare_anchor texts repository anchor in
    let s = compare_anchor texts repository (apply_freshness_result texts 9 anchor r) in
    (s.state ≡ r.state)
    × (s.path ≡ r.path)
    × (s.head ≡ r.head)
    × (s.line_start ≡ r.line_start)
    × (s.line_end ≡ r.line_end)
compare_anchor-apply_freshness_result_example =
    compare_anchor-apply_freshness_result texts repository 9 anchor

compare_file-classify_mutation_example :
    (compare_file texts repository anchor "c2" "f.py").state ≡ (
      if not (same_blob texts repository anchor "f.py")
        && (is_refound texts repository anchor "f.py"
            || (is_equivalent texts repository anchor "f.py"
                && is_shifted texts repository anchor "f.py"))
      then FreshnessState.moved
      else classify_mutation true
          (same_blob texts repository anchor "f.py")
          false
          (has_symbol texts repository anchor "f.py")
          (is_equivalent texts repository anchor "f.py")
          (similarity texts repository anchor "f.py"))
compare_file-classify_mutation_example =
    compare_file-classify_mutation texts repository anchor "f.py" "c2"

claim_state-aggregate_example :
    ((claim_state (aggregate anchor []) ≡ ClaimStaleState.fresh)
      ↔ All (λ x. severity x.freshness_state ≤ 1) (anchor ∷ []))
    × ((claim_state (aggregate anchor []) ≡ ClaimStaleState.stale)
        ↔ ((x : SourceAnchor) × Memᴰ x (anchor ∷ []) × (4 ≤ severity x.freshness_state)))
claim_state-aggregate_example = claim_state-aggregate anchor []
