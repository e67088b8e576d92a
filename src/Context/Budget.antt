-- ===== src/Context/Budget.antt =====
-- context/budget.py: `BudgetPlanner.plan`, `apply_safe_floor` and `_next_profile`. The profile's
-- name, the reasons and the policy hash of a decision are left out.
pub mod Floor
use memory_os.Base.{
  ℕ, ◌≤◌, Bool, true, false, ◌&&◌, ◌||◌, not, Option, none, some, List, any, leb, if◌then◌else◌,
  Result, ok, raise, require, ◌>>=◌, ◌>>◌, exact_tokenizer_required, insufficient_budget,
}
use memory_os.Domain.{
  BudgetProfile, QueryIntent, TokenCounterKind, CompressionPolicy, TruthState, is_exact,
  is_source_grounded,
}
use memory_os.Claims.Truth.State.{is_contested_state}

-- The token limit of each profile, from the settings.
pub record Limits : Type 0 where
  pub tiny : ℕ
  pub small : ℕ
  pub medium : ℕ
  pub large : ℕ

-- `self.limits[profile]`; AUTO is no key of it and never looked up.
abbrev pub limit_of : Limits → BudgetProfile → ℕ
limit_of l BudgetProfile.auto = 0
limit_of l BudgetProfile.tiny = l.tiny
limit_of l BudgetProfile.small = l.small
limit_of l BudgetProfile.medium = l.medium
limit_of l BudgetProfile.large = l.large

-- `AUTO_START`
abbrev pub auto_start : QueryIntent → BudgetProfile
auto_start QueryIntent.preference = BudgetProfile.tiny
auto_start QueryIntent.implementation_location = BudgetProfile.tiny
auto_start QueryIntent.current_decision = BudgetProfile.small
auto_start QueryIntent.constraint_lookup = BudgetProfile.small
auto_start QueryIntent.task_state = BudgetProfile.small
auto_start QueryIntent.why_decision = BudgetProfile.medium
auto_start QueryIntent.failure_history = BudgetProfile.medium
auto_start QueryIntent.historical_as_of = BudgetProfile.medium
auto_start QueryIntent.broad_search = BudgetProfile.medium

-- `_next_profile`, on the members of `PROFILE_ORDER`
abbrev pub next_profile : BudgetProfile → BudgetProfile
next_profile BudgetProfile.auto = BudgetProfile.auto
next_profile BudgetProfile.tiny = BudgetProfile.small
next_profile BudgetProfile.small = BudgetProfile.medium
next_profile BudgetProfile.medium = BudgetProfile.large
next_profile BudgetProfile.large = BudgetProfile.large

-- The fields of an atom that the plan reads.
pub record AtomShape : Type 0 where
  pub truth_state : TruthState
  pub compression_policy : CompressionPolicy

pub record BudgetRequest : Type 0 where
  pub hard_token_budget : Bool
  pub budget_tokens : Option ℕ
  pub budget_profile : BudgetProfile

pub record BudgetDecision : Type 0 where
  pub requested_tokens : Option ℕ
  pub effective_tokens : ℕ
  pub minimum_safe_tokens : ℕ
  pub floor_raised : Bool

abbrev new_decision : Option ℕ → ℕ → BudgetDecision
new_decision requested effective = record {
  requested_tokens = requested;
  effective_tokens = effective;
  minimum_safe_tokens = 0;
  floor_raised = false;
}

-- The profile that AUTO selects.
unfoldable pub auto_profile : QueryIntent → List AtomShape → ℕ → BudgetProfile
auto_profile intent atoms coverage_count =
    if any (λ a. is_contested_state a.truth_state) atoms
      || leb 3 coverage_count
      || any (λ a. is_source_grounded a.compression_policy) atoms
    then next_profile (auto_start intent)
    else auto_start intent

abbrev pub profile_tokens : Limits → BudgetProfile → QueryIntent → List AtomShape → ℕ → ℕ
profile_tokens l BudgetProfile.auto intent atoms coverage =
    limit_of l (auto_profile intent atoms coverage)
profile_tokens l profile intent atoms coverage = limit_of l profile

unfoldable pub plan :
    Limits
    → TokenCounterKind
    → BudgetRequest
    → QueryIntent
    → List AtomShape
    → ℕ
    → Result BudgetDecision
unfolding auto_profile
plan l kind request intent atoms coverage_count = do
  require (not (request.hard_token_budget && not (is_exact kind))) exact_tokenizer_required
  elim request.budget_tokens [
    | some tokens ↦ ok (new_decision (some tokens) tokens)
    | none ↦
        ok (new_decision none (profile_tokens l request.budget_profile intent atoms coverage_count))
  ]

unfoldable pub apply_safe_floor : BudgetDecision → BudgetRequest → ℕ → Result BudgetDecision
apply_safe_floor decision request minimum_safe_tokens =
    if leb minimum_safe_tokens decision.effective_tokens
    then ok (record decision { minimum_safe_tokens = minimum_safe_tokens })
    else if request.hard_token_budget
    then raise insufficient_budget
    else ok (record decision {
      effective_tokens = minimum_safe_tokens;
      minimum_safe_tokens = minimum_safe_tokens;
      floor_raised = true;
    })
