-- ===== src/Tests/Deltas.antt =====
-- Concrete budgets and deltas, and an instance of each result on them.
use memory_os.Base.{ℕ, ◌≡◌, refl, String, true, false, none, List, [], ◌∷◌, map, keep, any, length}
use memory_os.Base.{keep, any}
use memory_os.Context.Budget.{Limits, BudgetRequest, AtomShape}
use memory_os.Context.Budget.Floor.{apply_safe_floor-plan}
use memory_os.Context.Delta.{Item, plan_delta}
use memory_os.Context.Delta.Parts.{is_in_bundle, plan_delta-bundle}
use memory_os.Context.Delta.Merge.{apply_delta, has_content, apply_delta-plan_delta}
use memory_os.Domain.{
  TruthState, CompressionPolicy, TokenCounterKind, BudgetProfile, QueryIntent, is_exact,
}
use memory_os.Base.{◌≤◌, ◌+◌}
use memory_os.Tests.{program}

abbrev limits : Limits
limits = record { tiny = 100; small = 200; medium = 400; large = 800 }

abbrev soft_request : BudgetRequest
soft_request = record {
  hard_token_budget = false;
  budget_tokens = none;
  budget_profile = BudgetProfile.auto;
}

abbrev grounded : AtomShape
grounded = record {
  truth_state = TruthState.resolved;
  compression_policy = CompressionPolicy.source_grounded;
}

apply_safe_floor-plan_example :
    (250 ≤ 250)
    × (200 ≤ 250)
    × (false ≡ true → (is_exact TokenCounterKind.exact ≡ true) × ◌≡◌ {A = ℕ} 250 200)
    × (true ≡ false → ◌≡◌ {A = ℕ} 250 200)
unfolding program
apply_safe_floor-plan_example =
    apply_safe_floor-plan limits TokenCounterKind.exact soft_request QueryIntent.preference
      (grounded ∷ []) 1 250 refl refl

abbrev item : String → String → String → CompressionPolicy → Item
item memory_id sha bundle policy = record {
  ordinal = 0;
  memory_id = memory_id;
  section = "CURRENT DECISIONS";
  rendered_text = sha;
  atom_sha256 = sha;
  evidence_pointer_version = "";
  bundle_key = bundle;
  truth_state = TruthState.resolved;
  compression_policy = policy;
}

-- Two atoms of a bundle, one of them pinned, and one of another.
abbrev old_items : List Item
old_items =
    item "m1" "x" "b" CompressionPolicy.pinned
    ∷ item "m2" "y" "b" CompressionPolicy.compressible
    ∷ item "m3" "z" "c" CompressionPolicy.compressible
    ∷ []

-- The second atom of the bundle has changed.
abbrev new_items : List Item
new_items =
    item "m1" "x" "b" CompressionPolicy.pinned
    ∷ item "m2" "y2" "b" CompressionPolicy.compressible
    ∷ item "m3" "z" "c" CompressionPolicy.compressible
    ∷ []

plan_delta-bundle_example :
    length (keep (is_in_bundle "b") (plan_delta old_items new_items).added)
      + length (keep (is_in_bundle "b") (plan_delta old_items new_items).changed)
    ≡ 2
unfolding program
plan_delta-bundle_example = plan_delta-bundle old_items new_items "b" refl refl

apply_delta-plan_delta_example :
    any (has_content "m2|b" "y2" "") (apply_delta (plan_delta old_items new_items) old_items) ≡ true
unfolding program
apply_delta-plan_delta_example = apply_delta-plan_delta old_items new_items "m2|b" "y2" ""

unchanged_run : (plan_delta old_items new_items).unchanged_count ≡ 1
unfolding program
unchanged_run = refl

-- Two contested claims of one memory on the same subject and predicate.
abbrev colliding_items : List Item
colliding_items =
    record (item "m1" "x" "b" CompressionPolicy.pinned) { truth_state = TruthState.contested }
    ∷ record (item "m1" "y" "b" CompressionPolicy.pinned) { truth_state = TruthState.contested }
    ∷ []

-- Only the last of them is sent.
colliding_run : map (λ i. i.atom_sha256) (plan_delta [] colliding_items).added ≡ "y" ∷ []
unfolding program
colliding_run = refl
