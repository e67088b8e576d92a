-- ===== src/Context/Compiler.antt =====
-- context/compiler.py: the choice of the bundles to send, in `_build_msc`, and the methods that it
-- calls. JSON is an argument. The usage of other providers and the reasons of exclusion are left out.
pub mod Selection
use memory_os.Base.{
  ℕ, zero, suc, ◌+◌, ◌*◌, ◌/◌, max, String, Bool, true, false, ◌&&◌, ◌||◌, not, Option, none, some,
  List, [], ◌∷◌, ◌++◌, map, keep, any, sort_by, length, len, ltb, leb, ◌==◌, str_eq, text_before,
  if◌then◌else◌, Result, ok, raise, ◌>>=◌, exact_tokenizer_required, reverse,
}
use memory_os.Domain.{same_truth, same_policy, QueryIntent, TruthState, TokenCounterKind}
use memory_os.Claims.Truth.State.{aggregate_state}
use memory_os.Context.Budget.{
  Limits, AtomShape, BudgetRequest, BudgetDecision, plan, apply_safe_floor,
}
use memory_os.Context.Bundles.{ContextAtom, AtomBundle, build_bundles}
use memory_os.Context.Delta.{Item, DeltaPlan, plan_delta}
use memory_os.Context.Payload.{
  TokenCounter, Mode, Usage, Payload, stabilize_payload_usage, stabilize_full_payload,
}
use memory_os.Context.Renderers.{section_order, render_delta}
use memory_os.Context.Snapshots.{
  ContextSnapshotRow, SnapshotSettings, Fingerprints, SnapshotLookup, snapshot, fallback,
  snapshot_items, render_full, load_valid, create,
}

-- `COVERAGE`
abbrev pub coverage : QueryIntent → List String
coverage QueryIntent.current_decision = "decision" ∷ "constraint" ∷ "failure" ∷ []
coverage QueryIntent.constraint_lookup = "constraint" ∷ "decision" ∷ []
coverage QueryIntent.failure_history = "failure" ∷ "decision" ∷ "constraint" ∷ []
coverage QueryIntent.why_decision = "decision" ∷ "failure" ∷ []
coverage QueryIntent.implementation_location = "implementation" ∷ "decision" ∷ []
coverage QueryIntent.preference = "preference" ∷ []
coverage QueryIntent.task_state = "state" ∷ "decision" ∷ "constraint" ∷ []
coverage QueryIntent.historical_as_of = "decision" ∷ "state" ∷ []
coverage QueryIntent.broad_search = []

pub data ResponseMode : Type 0 where
  auto full delta : ResponseMode

pub record ContextRequest : Type 0 where
  pub budget : BudgetRequest
  pub tokenizer_id : Option String
  pub response_mode : ResponseMode
  pub previous_context_id : Option ℕ
  pub prints : Fingerprints

-- The identities, the counts and the measured times of one call.
pub record Run : Type 0 where
  pub context_id : ℕ
  pub retrieval_run_id : ℕ
  pub legacy_tokens : ℕ
  pub selection_latency : ℕ
  pub render_latency : ℕ
  pub now : ℕ

-- `UnicodeHeuristicTokenCounter`
unfoldable pub heuristic_count : String → ℕ
heuristic_count text = if len text == 0 then 0 else max 1 ((len text + 3) / 4)

abbrev pub heuristic_counter : TokenCounter
heuristic_counter = record {
  tokenizer_id = "unicode-heuristic-v1";
  kind = TokenCounterKind.estimated;
  count_text = heuristic_count;
}

-- `_counter_for`
unfoldable pub counter_for : TokenCounter → ContextRequest → Result TokenCounter
counter_for counter request = elim request.tokenizer_id [
  | none ↦ ok counter
  | some wanted ↦
      if str_eq wanted counter.tokenizer_id
      then ok counter
      else if request.budget.hard_token_budget
      then raise exact_tokenizer_required
      else ok heuristic_counter
]

-- `SECTION_ORDER.index(section) if section in SECTION_ORDER else len(SECTION_ORDER)`
unfoldable pub index_of : String → List String → ℕ
index_of section [] = 0
index_of section (name ∷ names) =
    let later = suc (index_of section names) in if str_eq name section then 0 else later

unfoldable pub atom_precedes : ContextAtom → ContextAtom → Bool
unfolding index_of
atom_precedes a b =
    let i = index_of a.section section_order in
    let j = index_of b.section section_order in
    ltb i j
    || (i == j
        && (ltb b.utility a.utility
            || (b.utility == a.utility
                && (text_before a.memory_id b.memory_id
                    || (str_eq a.memory_id b.memory_id
                        && text_before a.atom_sha256 b.atom_sha256)))))

unfoldable pub bundle_atoms : List AtomBundle → List ContextAtom
bundle_atoms [] = []
bundle_atoms (b ∷ bundles) = b.atoms ++ bundle_atoms bundles

-- `_atoms_for_bundles`
unfoldable pub atoms_for_bundles : List AtomBundle → List ContextAtom
unfolding atom_precedes bundle_atoms
atoms_for_bundles bundles = sort_by atom_precedes (bundle_atoms bundles)

abbrev pub new_usage : ℕ → ℕ → ℕ → ℕ → Usage
new_usage full_tokens legacy selection render = record {
  full_context_tokens = full_tokens;
  context_text_tokens = 0;
  payload_overhead_tokens = 0;
  delivered_payload_tokens = 0;
  delta_tokens = 0;
  legacy_equivalent_tokens = legacy;
  selection_latency = selection;
  render_latency = render;
}

abbrev pub tokens_of : Payload → ℕ
tokens_of p = p.usage.delivered_payload_tokens

-- The equality of atoms and of lists of them, field by field.
unfoldable pub same_atom : ContextAtom → ContextAtom → Bool
same_atom a b =
    str_eq a.memory_id b.memory_id
    && str_eq a.canonical_key b.canonical_key
    && str_eq a.bundle_key b.bundle_key
    && str_eq a.atom_sha256 b.atom_sha256
    && str_eq a.evidence_pointer_version b.evidence_pointer_version
    && same_truth a.truth_state b.truth_state
    && same_policy a.compression_policy b.compression_policy
    && str_eq a.rendered_text b.rendered_text
    && a.utility == b.utility
    && a.estimated_tokens == b.estimated_tokens
    && str_eq a.category b.category
    && str_eq a.section b.section

unfoldable pub same_atoms : List ContextAtom → List ContextAtom → Bool
unfolding same_atom
same_atoms [] [] = true
same_atoms (a ∷ xs) (b ∷ ys) = let rest = same_atoms xs ys in same_atom a b && rest
same_atoms _ _ = false

abbrev same_flag : Bool → Bool → Bool
same_flag a b = (a && b) || (not a && not b)

-- The equality of bundles; their reasons, which follow from the rest, are not modelled.
unfoldable pub same_bundle : AtomBundle → AtomBundle → Bool
unfolding same_atoms
same_bundle a b =
    same_flag a.required b.required
    && same_flag a.safety_required b.safety_required
    && a.utility == b.utility
    && str_eq a.bundle_id b.bundle_id
    && same_atoms a.atoms b.atoms

-- `selected_bundles.remove(bundle)`
unfoldable pub remove_bundle : AtomBundle → List AtomBundle → List AtomBundle
unfolding same_bundle
remove_bundle b [] = []
remove_bundle b (x ∷ bundles) =
    let rest = x ∷ remove_bundle b bundles in if same_bundle x b then bundles else rest

module _ (counter : TokenCounter) (canonical_json : Payload → String) (run : Run) where
  -- `_full_payload`
  unfoldable pub full_payload : List ContextAtom → ℕ → ℕ → Result Payload
  full_payload atoms selection render = stabilize_full_payload counter canonical_json (record {
    mode = Mode.full;
    context_id = run.context_id;
    requires_base_context_id = none;
    retrieval_run_id = run.retrieval_run_id;
    truth_state = aggregate_state (map (λ a. a.truth_state) atoms);
    text = render_full atoms;
    delta_plan = none;
    fallback_reason = none;
    usage = new_usage 0 run.legacy_tokens selection render;
  })

  -- The loop over `optional_bundles`.
  unfoldable pub add_optional : ℕ → List AtomBundle → List AtomBundle → Result (List AtomBundle)
  unfolding full_payload atoms_for_bundles
  add_optional effective [] selected = ok selected
  add_optional effective (b ∷ optional) selected =
      full_payload (atoms_for_bundles (selected ++ b ∷ [])) 0 0 >>= λ trial.
      add_optional effective optional
        (if leb (tokens_of trial) effective then selected ++ b ∷ [] else selected)

  -- The loop over `removable`, its last bundle first.
  unfoldable pub trim :
      ℕ → List AtomBundle → List AtomBundle → Payload → Result (List AtomBundle × Payload)
  unfolding full_payload atoms_for_bundles remove_bundle
  trim effective [] selected payload = ok (selected, payload)
  trim effective (b ∷ removable) selected payload =
      let next =
        full_payload (atoms_for_bundles (remove_bundle b selected)) run.selection_latency
          run.render_latency
        >>= trim effective removable (remove_bundle b selected) in
      if leb (tokens_of payload) effective then ok (selected, payload) else next

  -- `if tokens > decision.effective_tokens: decision = planner.apply_safe_floor(...)`
  unfoldable pub raise_floor : BudgetDecision → BudgetRequest → ℕ → Result BudgetDecision
  raise_floor decision request tokens =
      if leb tokens decision.effective_tokens
      then ok decision
      else apply_safe_floor decision request tokens

  -- What the selection leaves: the bundles, their payload in full and the decision on the budget.
  pub record Selected : Type 0 where
    pub bundles : List AtomBundle
    pub full : Payload
    pub decision : BudgetDecision

  unfoldable pub select_bundles : BudgetRequest → List AtomBundle → BudgetDecision → Result Selected
  select_bundles request bundles planned = do
    let required = keep (λ b. b.required) bundles
    required_payload ← full_payload (atoms_for_bundles required) 0 0
    decision ← apply_safe_floor planned request (tokens_of required_payload)
    selected ← add_optional decision.effective_tokens (keep (λ b. not b.required) bundles) required
    timed ← full_payload (atoms_for_bundles selected) run.selection_latency 0
    payload ← full_payload (atoms_for_bundles selected) run.selection_latency run.render_latency
    (kept, trimmed) ←
        trim decision.effective_tokens (reverse (keep (λ b. not b.required) selected)) selected
          payload
    final ← raise_floor decision request (tokens_of trimmed)
    ok (record { bundles = kept; full = trimmed; decision = final })
