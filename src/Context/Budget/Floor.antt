-- ===== src/Context/Budget/Floor.antt =====
-- context/budget.py: a planned budget holds what is required, and a hard budget is not exceeded.
use memory_os.Base.{
  ℕ, ◌≤◌, ◌≡◌, true, false, ◌&&◌, not, List, arith, ok, require, require-eq-ok, >>=-eq-ok,
  exact_tokenizer_required,
}
use memory_os.Domain.{QueryIntent, TokenCounterKind, is_exact}
use memory_os.Context.Budget.{
  Limits, AtomShape, BudgetRequest, BudgetDecision, plan, apply_safe_floor,
}

plan-exact :
    (l : Limits) (kind : TokenCounterKind) (request : BudgetRequest) (intent : QueryIntent)
    (atoms : List AtomShape) (coverage : ℕ) {d : BudgetDecision}
    → plan l kind request intent atoms coverage ≡ ok d
    → (request.hard_token_budget ≡ true → is_exact kind ≡ true) × (d.floor_raised ≡ false)
unfolding plan
plan-exact l kind request intent atoms coverage h =
    let (_, guard, rest) =
      >>=-eq-ok
        (require (not (request.hard_token_budget && not (is_exact kind))) exact_tokenizer_required)
        _ h in
    let passed = require-eq-ok _ exact_tokenizer_required guard in
    (λ hard. ground (arith, passed, hard), ground (arith, rest))

pub floor_lem :
    (d : BudgetDecision) (request : BudgetRequest) (minimum : ℕ) {d' : BudgetDecision}
    → apply_safe_floor d request minimum ≡ ok d'
    → (minimum ≤ d'.effective_tokens)
      × (d.effective_tokens ≤ d'.effective_tokens)
      × (request.hard_token_budget ≡ true → d'.effective_tokens ≡ d.effective_tokens)
      × (d.floor_raised ≡ false
          → d'.floor_raised ≡ false
          → d'.effective_tokens ≡ d.effective_tokens)
unfolding apply_safe_floor
floor_lem d request minimum h = ground arith

-- If a plan and its safe floor both succeed, then the effective budget holds the required minimum
-- and is at least the planned one. For a hard budget the counter is exact and the effective budget
-- is the planned one, and it differs from the planned one only if the decision says so.
pub apply_safe_floor-plan :
    (l : Limits) (kind : TokenCounterKind) (request : BudgetRequest) (intent : QueryIntent)
    (atoms : List AtomShape) (coverage minimum : ℕ) {d d' : BudgetDecision}
    → plan l kind request intent atoms coverage ≡ ok d
    → apply_safe_floor d request minimum ≡ ok d'
    → (minimum ≤ d'.effective_tokens)
      × (d.effective_tokens ≤ d'.effective_tokens)
      × (request.hard_token_budget ≡ true
          → (is_exact kind ≡ true) × (d'.effective_tokens ≡ d.effective_tokens))
      × (d'.floor_raised ≡ false → d'.effective_tokens ≡ d.effective_tokens)
apply_safe_floor-plan l kind request intent atoms coverage minimum {d} {d'} h k =
    let (exact, unraised) = plan-exact l kind request intent atoms coverage h in
    let (holds, grows, hard_same, same) = floor_lem d request minimum k in
    (holds, grows, λ hard. (exact hard, hard_same hard), same unraised)
