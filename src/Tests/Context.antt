-- ===== src/Tests/Context.antt =====
-- Concrete contexts, and an instance of each result on them.
use memory_os.Base.{
  ℕ, ◌≡◌, refl, String, true, false, none, some, List, [], ◌∷◌, any, all, keep, length, find,
  insert_by, sort_by, Memᴰ, add_to_group, group_from, group_by, max_by, sum_of, append_text, arith,
  Result, ok, raise,
}
use memory_os.Domain.{TruthState, CompressionPolicy, TokenCounterKind, BudgetProfile, QueryIntent}
use memory_os.Claims.Truth.State.{aggregate_state}
use memory_os.Context.Budget.{BudgetDecision, auto_profile, plan, apply_safe_floor}
use memory_os.Context.Bundles.{
  ContextAtom, AtomBundle, is_contested_atom, atom_before, atom_groups, best_utility, denser,
  bundle_before, bundle_id_of, coverage_winner, coverage_winners, make_bundle, build_bundles,
}
use memory_os.Context.Bundles.Complete.{contested_of, build_bundles-keep, build_bundles-contested}
use memory_os.Context.Delta.{
  item_at, has_key, same_item, is_same_in, is_expanded, is_added, is_changed, plan_delta,
  atom_order, item_key, put_item, put_items, by_key, is_changed_bundle, is_safety_bundle,
}
use memory_os.Context.Payload.{
  TokenCounter, Mode, Payload, count_json, is_accounted, settle, stabilize_payload_usage,
  settle_full, stabilize_full_payload,
}
use memory_os.Context.Payload.Accounting.{
  IsAccounted, SameContent, stabilize_full_payload-accounted,
}
use memory_os.Context.Renderers.{
  join_lines, section_lines, all_sections, render_full_items, prefix_atom, prefix_atoms,
  removed_line, render_delta,
}
use memory_os.Context.Snapshots.{
  Fingerprints, snapshot, snapshot_item, items_from, render_full, take, expired_batch,
  cleanup_expired, validate_snapshot, load_valid, new_snapshot, create,
}
use memory_os.Context.Snapshots.Lasting.{
  StoreCall, creating, loading, store_step, store_run, load_valid-create,
}
use memory_os.Context.Compiler.{
  coverage, ResponseMode, ContextRequest, Run, heuristic_count, counter_for, index_of,
  atom_precedes, bundle_atoms, atoms_for_bundles, same_atom, same_atoms, same_bundle, remove_bundle,
  full_payload, add_optional, trim, raise_floor, select_bundles,
}
use memory_os.Context.Delivery.{
  Settings, Compiled, shapes, delta_payload, offer_delta, offer_lookup, choose, state_reason,
  deliver, build_msc,
}
use memory_os.Context.Delivery.Budgeted.{IsWithinBudget, build_msc-IsWithinBudget}

-- Everything that a compilation computes with.
program : Unit {0}
unfolding any all keep find insert_by sort_by add_to_group group_from group_by max_by sum_of
    aggregate_state auto_profile plan apply_safe_floor atom_before atom_groups best_utility denser
    bundle_before bundle_id_of coverage_winner coverage_winners make_bundle build_bundles item_at
    has_key same_item is_same_in is_expanded is_added is_changed plan_delta atom_order item_key
    count_json is_accounted settle stabilize_payload_usage settle_full stabilize_full_payload
    join_lines section_lines all_sections render_full_items prefix_atom removed_line render_delta
    snapshot_item items_from render_full take expired_batch cleanup_expired validate_snapshot
    load_valid new_snapshot create store_step store_run heuristic_count counter_for index_of
    atom_precedes bundle_atoms atoms_for_bundles same_bundle remove_bundle full_payload add_optional
    trim raise_floor select_bundles delta_payload offer_delta offer_lookup choose state_reason
    deliver build_msc put_item put_items by_key is_changed_bundle is_safety_bundle prefix_atoms
    same_atom same_atoms
program = tt

abbrev atom : String → String → TruthState → CompressionPolicy → String → ℕ → ContextAtom
atom memory_id bundle state policy category utility = record {
  memory_id = memory_id;
  canonical_key = memory_id;
  bundle_key = bundle;
  atom_sha256 = memory_id;
  evidence_pointer_version = "";
  truth_state = state;
  compression_policy = policy;
  rendered_text = memory_id;
  utility = utility;
  estimated_tokens = 4;
  category = category;
  section = "CURRENT DECISIONS";
}

-- Two atoms that contest each other, and one that nothing requires.
abbrev atoms : List ContextAtom
atoms =
    atom "m1" "db" TruthState.contested CompressionPolicy.compressible "decision" 5
    ∷ atom "m2" "ui" TruthState.resolved CompressionPolicy.compressible "note" 9
    ∷ atom "m3" "db" TruthState.contested CompressionPolicy.compressible "decision" 7
    ∷ []

abbrev digest : List String → String
digest [] = ""
digest (s ∷ rest) = append_text s (digest rest)

abbrev bundles : List AtomBundle
bundles = build_bundles digest atoms (coverage QueryIntent.current_decision)

build_bundles-keep_example :
    sum_of (λ b. length (keep is_contested_atom b.atoms)) bundles
    ≡ length (keep is_contested_atom atoms)
build_bundles-keep_example =
    build_bundles-keep digest atoms (coverage QueryIntent.current_decision) is_contested_atom

abbrev pair : AtomBundle
pair = make_bundle digest (digest ("m1" ∷ "m3" ∷ []) ∷ []) (contested_of "db" atoms)

build_bundles-contested_example :
    (pair.required ≡ true)
    × ((k : String) × (pair.atoms ≡ sort_by atom_before (contested_of k atoms)))
unfolding program
build_bundles-contested_example =
    build_bundles-contested digest atoms (coverage QueryIntent.current_decision) (Memᴰ.head refl)
      refl

-- A payload whose JSON has a fixed length.
abbrev json : Payload → String
json p = "0123456789"

abbrev configured : TokenCounter
configured = record {
  tokenizer_id = "t";
  kind = TokenCounterKind.exact;
  count_text = heuristic_count;
}

abbrev prints : Fingerprints
prints = record { request = "r"; scope = "s" }

abbrev settings : Settings
settings = record {
  limits = record { tiny = 100; small = 200; medium = 400; large = 800 };
  snapshots = record { ttl_seconds = 60; cleanup_batch_size = 10 };
  delta_fallback_ratio = 800;
}

abbrev call : Run
call = record {
  context_id = 7;
  retrieval_run_id = 1;
  legacy_tokens = 50;
  selection_latency = 3;
  render_latency = 4;
  now = 1_000;
}

abbrev request : ContextRequest
request = record {
  budget = record {
    hard_token_budget = true;
    budget_tokens = some 5;
    budget_profile = BudgetProfile.auto;
  };
  tokenizer_id = none;
  response_mode = ResponseMode.delta;
  previous_context_id = none;
  prints = prints;
}

abbrev result : Result Compiled
result =
    build_msc json (λ s. s) (λ s. s ∷ []) digest settings configured call (λ c. atoms) (λ c. "p")
      QueryIntent.current_decision request []

abbrev compiled : Result Compiled → Payload → Compiled
compiled (ok c) p = c
compiled (raise e) p = record {
  payload = p;
  decision = record {
    requested_tokens = none;
    effective_tokens = 0;
    minimum_safe_tokens = 0;
    floor_raised = false;
  };
  bundles = [];
  rows = [];
}

abbrev any_payload : Payload
any_payload = record {
  mode = Mode.full;
  context_id = 0;
  requires_base_context_id = none;
  retrieval_run_id = 0;
  truth_state = TruthState.unknown;
  text = "text";
  delta_plan = none;
  fallback_reason = none;
  usage = record {
    full_context_tokens = 0;
    context_text_tokens = 0;
    payload_overhead_tokens = 0;
    delivered_payload_tokens = 0;
    delta_tokens = 0;
    legacy_equivalent_tokens = 0;
    selection_latency = 0;
    render_latency = 0;
  };
}

build_msc-IsWithinBudget_example :
    (counter : TokenCounter) × (counter_for configured request ≡ ok counter)
    × (planned : BudgetDecision) × (plan settings.limits counter.kind request.budget
          QueryIntent.current_decision
          (shapes atoms)
          (length (coverage QueryIntent.current_decision))
        ≡ ok planned)
    × IsWithinBudget json request counter bundles planned (compiled result any_payload)
unfolding program
build_msc-IsWithinBudget_example =
    build_msc-IsWithinBudget json (λ s. s) (λ s. s ∷ []) digest settings configured call
      (λ c. atoms) (λ c. "p") QueryIntent.current_decision request [] refl

abbrev accounted : Payload
accounted = record any_payload {
  usage = record (any_payload.usage) {
    full_context_tokens = 3;
    context_text_tokens = 1;
    payload_overhead_tokens = 2;
    delivered_payload_tokens = 3;
  };
}

stabilize_full_payload-accounted_example :
    IsAccounted configured json accounted
    × SameContent accounted any_payload
    × (accounted.usage.context_text_tokens ≡ configured.count_text "text")
    × (accounted.usage.full_context_tokens ≡ accounted.usage.delivered_payload_tokens)
unfolding program
stabilize_full_payload-accounted_example =
    stabilize_full_payload-accounted configured json any_payload refl

-- Another request creates a snapshot and loads it in between.
abbrev others : List StoreCall
others =
    creating 8 none prints "p" configured [] "" 0 2_000
    ∷ loading 8 prints "p" configured 59_000_000
    ∷ []

load_valid-create_example :
    let store = settings.snapshots in
    let stored =
      create (λ s. s) store 7 none prints "p" configured atoms (render_full atoms) 3 1_000 [] in
    (load_valid
      (λ s. s)
      store
      7
      prints
      "p"
      configured
      60_000_999
      (store_run (λ s. s) store stored others)).0
    ≡ snapshot
        (new_snapshot (λ s. s) store 7 none prints "p" configured atoms (render_full atoms) 3 1_000)
unfolding program
load_valid-create_example =
    load_valid-create (λ s. s) settings.snapshots 7 none prints "p" configured atoms 3 1_000
      60_000_999 others [] refl (omega arith) (omega arith)
