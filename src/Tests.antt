-- ===== src/Tests.antt =====
-- Concrete runs of the service, and an instance of each result.
mod Context
mod Retrieval
mod Freshness
mod Consolidation
mod Claims
mod Health
mod Entities
mod Deltas
use memory_os.Base.{
  ℕ, ◌<◌, ◌≡◌, ◌≢◌, ◌↔◌, refl, String, Bool, true, false, ◌&&◌, Option, none, some, List, [], ◌∷◌,
  map, keep, any, All, length, is_empty, if◌then◌else◌, leb, ◌==◌, arith, Result, ok, raise,
  value_error, runtime_error, conflict_detected, invalid_transition, find,
}
use memory_os.Base.{keep, any, all, find, insert_by, sort_by, for_each, distinct, distinct_ids}
use memory_os.Claims.Canonical.{
  normalize_entity_name, canonical_predicate, canonical_object, stable_claim_identity,
}
use memory_os.Claims.Extraction.{is_valid_candidate, validate_claim_candidates}
use memory_os.Claims.Predicates.{
  takes_one_value, is_single_valued, decide, classify_claim_values, compare_claim_values,
}
use memory_os.Claims.Truth.Activation.{
  move_unless, supersede, keep_both, settle, activate_claim, resolve_claims, activate_claims,
}
use memory_os.Claims.Truth.Ensure.{
  resolve_object, add_evidence, create_claim, existing_claims, extract_claims, ensure_claims,
  is_active_claim, compare_pair, find_semantic_conflict_memories,
}
use memory_os.Claims.Truth.Lifecycle.{
  transition_each, reject_claims, forget_claims, expire_claims, mark_memory_stale, reset_claims,
  contest, contest_both, apply_manual_conflict_resolution,
}
use memory_os.Claims.Truth.Relations.{
  object_identity, value_of, contradicts, claims_conflict, add_relation, judged_status,
  new_possible_conflict, is_conflict_decision,
}
use memory_os.Claims.Truth.Services.{claims_of, refresh, audit_event}
use memory_os.Claims.Truth.State.{version_object_identity, group_state, aggregate_state}
use memory_os.Claims.Versioning.{
  newest, max_number, history, current_version, snapshot, identity_for, add_version, first_version,
  record_initial, assign, next_moment, end_version, current_or_initial, advance, transition,
  is_visible_row, is_visible_identity, outranks, row_order, top_ranked, joined, visible_versions,
}
use memory_os.Engine.{
  session, set_memory, semantic_key, is_due, expire_memory, expire_due, exact_conflicts,
  find_conflicts,
}
use memory_os.Engine.Calls.{
  validate_create, given, new_memory, check_activation, propose, edited, replace_source, update,
  supersede_memory, supersede_all, keep_memory, relate_memories, reject_candidate, activate,
  confirm, reject, forget, get, resolve_possible_conflict, body, run,
}
use memory_os.Entities.{
  sorted_set, follow, follow_redirect, learn_names, reuse_entity, new_entity, resolve, link, merge,
}
use memory_os.Health.{
  ensure_health, version_is_current, memory_is_current, supports, is_truth_safe, latest,
  next_archive_event_moment, archive, restore, record_ids, record_retrieval, freshness_component,
  nearest, health_score, temperature_of, evaluate_rows, evaluate,
}
use memory_os.Store.{
  get_memory, get_entity, get_claim, get_possible_conflict, get_health, update_memory,
  update_entity, update_claim, update_health, update_possible_conflict,
}
use memory_os.Temporal.{utc, utc_optional, as_of, is_known_at, overlap, intervals_overlap}
use memory_os.Context.Budget.{
  Limits, BudgetRequest, AtomShape, auto_profile, plan, apply_safe_floor,
}
use memory_os.Context.Budget.Floor.{apply_safe_floor-plan}
use memory_os.Context.Delta.{
  Item, item_at, has_key, same_item, is_same_in, is_expanded, is_added, is_changed, plan_delta,
  atom_order, item_key, put_item, put_items, by_key, is_changed_bundle, is_safety_bundle,
}
use memory_os.Context.Delta.Dictionary.{last_at}
use memory_os.Context.Delta.Parts.{is_in_bundle, plan_delta-bundle}
use memory_os.Context.Delta.Merge.{apply_delta, has_content, apply_delta-plan_delta}
use memory_os.Domain.{
  TruthState, CompressionPolicy, TokenCounterKind, BudgetProfile, QueryIntent, is_exact,
}
use memory_os.Base.{◌≤◌, ◌+◌}
use memory_os.Engine.Lifecycle.{can_become}
use memory_os.Engine.Lifecycle.Keys.{HasDistinctIds}
use memory_os.Engine.Lifecycle.Runs.{run-can_become}
use memory_os.Engine.Timelines.{run-IsWellFormed}
use memory_os.Engine.Statuses.{CanConfirm, HasStatus, confirm-HasStatus}
use memory_os.Claims.Truth.Keeps.Instances.{HasTimelines}
use memory_os.Claims.Truth.Lifecycle.{
  to_status, unless_historical, unless_closed, forgetting, expiring,
}
use memory_os.Claims.Versioning.{Change, VersionQuery}
use memory_os.Claims.Versioning.Timeline.{IsWellFormed}
use memory_os.Claims.Versioning.Transition.{transition-IsWellFormed}
use memory_os.Claims.Versioning.Visible.{without_end, visible_versions-transition}
use memory_os.Health.{new_health, is_accepted_version, is_archive_event, Math}
use memory_os.Health.Archive.{archive-supports}
use memory_os.Health.Events.{
  HasOrderedEvents, archive_call, restore_call, evaluate_call, health_run,
  health_run-HasOrderedEvents,
}
use memory_os.Claims.Versioning.Latest.{latest_known}
use memory_os.Engine.Knowledge.{keep-is_visible_row-run}
use memory_os.Health.Restore.{temperature_in, restore-archive, restore-evaluate}
use memory_os.Claims.Predicates.{ClaimValue}
use memory_os.Claims.Predicates.Relations.{
  classify_claim_values_comm, classify_claim_values-contradicts,
}
use memory_os.Claims.Truth.State.{is_non_stale, objects, is_contested_state, is_stale_state}
use memory_os.Entities.Redirects.{Resolves, follow_redirect_terminates, follow_redirect_iff}
use memory_os.Entities.Merge.{merge-follow_redirect, merge-cycle}
use memory_os.Temporal.{naive, ahead, behind, within, datetime_max}
use memory_os.Temporal.Overlap.{intervals_overlap-as_of}
use memory_os.Domain
use memory_os.Store.{
  Db, MemoryRow, ClaimRow, EntityRow, text, get_memory, get_claim, get_entity, update_memory,
}
use memory_os.Claims.Canonical.{plain_texts}
use memory_os.Claims.Extraction.{ClaimCandidate, literal}
use memory_os.Engine.{Engine}
use memory_os.Engine.Calls.{MemoryCreate, Call, propose_call, confirm_call, forget_call, run}

abbrev pub empty : Db
empty = record {
  memories = [];
  entities = [];
  merge_events = [];
  claims = [];
  evidence = [];
  identities = [];
  versions = [];
  claim_relations = [];
  possible_conflicts = [];
  memory_relations = [];
  feedback = [];
  health = [];
  audit = [];
  next_id = 1;
}

-- A claim that the project prefers what the source says.
abbrev preference : String → ClaimCandidate
preference source = record {
  subject_hint = "project";
  subject_type = Domain.EntityType.project;
  predicate = "preference";
  object = literal (text source);
  polarity = Domain.ClaimPolarity.positive;
  confidence = 700_000;
  evidence_span = record { start = 0; end = 4; quote = source };
}

abbrev pub engine : Engine
engine = record {
  truth = record {
    texts = plain_texts;
    extract = λ m source. preference source ∷ [];
    judge = none;
  };
  redact = λ s. s;
  redact_excerpt = λ s. s;
  lower = λ s. s;
  normalized_key = λ s. s;
}

abbrev pub payload : String → String → Bool → MemoryCreate
payload title content active = record {
  scope_type = Domain.ScopeType.repository;
  scope_key = "repo";
  memory_type = Domain.MemoryType.preference;
  category = "preference";
  subject = none;
  key = none;
  title = title;
  content = content;
  confidence = 800_000;
  importance = 500_000;
  valid_from = none;
  valid_to = none;
  ttl_seconds = none;
  created_by = Domain.CreatedBy.manual;
  claim_candidates = [];
  excerpt = content;
  activate_immediately = active;
}

-- An active memory, a candidate that contradicts it, and the candidate confirmed in its place.
abbrev first_calls : List (ℕ × String × Call)
first_calls =
    (10, "owner", propose_call (payload "tabs" "tabs" true))
    ∷ (20, "owner", propose_call (payload "spaces" "spaces" false))
    ∷ []

abbrev pub two : Db
two = run engine first_calls empty

-- Everything that a run computes with.
unfoldable pub program : Unit {0}
unfolding keep any all find insert_by sort_by for_each distinct distinct_ids normalize_entity_name
    canonical_predicate canonical_object stable_claim_identity is_valid_candidate
    validate_claim_candidates takes_one_value is_single_valued decide classify_claim_values
    compare_claim_values move_unless supersede keep_both settle activate_claim resolve_claims
    activate_claims resolve_object add_evidence create_claim existing_claims extract_claims
    ensure_claims is_active_claim compare_pair find_semantic_conflict_memories transition_each
    reject_claims forget_claims expire_claims mark_memory_stale reset_claims contest contest_both
    apply_manual_conflict_resolution object_identity value_of contradicts claims_conflict
    add_relation judged_status new_possible_conflict is_conflict_decision claims_of refresh
    audit_event version_object_identity group_state aggregate_state newest max_number history
    current_version snapshot identity_for add_version first_version record_initial assign
    next_moment end_version current_or_initial advance transition is_visible_row is_visible_identity
    outranks row_order top_ranked joined visible_versions session set_memory semantic_key is_due
    expire_memory expire_due exact_conflicts find_conflicts validate_create new_memory
    check_activation propose edited replace_source update supersede_memory supersede_all keep_memory
    relate_memories reject_candidate activate confirm reject forget get resolve_possible_conflict
    body run sorted_set follow follow_redirect learn_names reuse_entity new_entity resolve link
    merge ensure_health version_is_current memory_is_current supports is_truth_safe latest
    next_archive_event_moment archive restore record_ids record_retrieval freshness_component
    health_score temperature_of evaluate_rows evaluate get_memory get_entity get_claim
    get_possible_conflict get_health update_memory update_entity update_claim update_health
    update_possible_conflict utc utc_optional as_of is_known_at overlap intervals_overlap
    auto_profile plan apply_safe_floor item_at has_key same_item is_same_in is_expanded is_added
    is_changed plan_delta atom_order item_key put_item put_items by_key is_changed_bundle
    is_safety_bundle last_at apply_delta given nearest
program = tt

-- What a call that returned left.
abbrev state : Result (Db × ℕ) → Db
state (ok r) = r.0
state (raise e) = empty

abbrev pub after : Result Db → Db
after (ok d) = d
after (raise e) = empty

empty-HasTimelines : HasTimelines empty
unfolding program
empty-HasTimelines c = tt

two_memories : map (λ m. m.id) two.memories ≡ 7 ∷ 1 ∷ []
unfolding program
two_memories = refl

-- Without a strategy the contradiction stops the confirmation; with SUPERSEDE the first memory goes.
confirm_contradiction : confirm engine 30 7 none "owner" none two ≡ raise conflict_detected
unfolding program
confirm_contradiction = refl

abbrev superseding : Result (Db × ℕ)
superseding = confirm engine 30 7 (some Domain.ConflictStrategy.supersede) "owner" none two

superseded_claims :
    map {B = ℕ × Domain.ClaimStatus} (λ c. (c.id, c.status)) (state superseding).claims
    ≡ (4, Domain.ClaimStatus.superseded) ∷ (9, Domain.ClaimStatus.accepted) ∷ []
unfolding program
superseded_claims = refl

two-HasTimelines : HasTimelines two
two-HasTimelines = run-IsWellFormed engine first_calls empty empty-HasTimelines

run-IsWellFormed_example : HasTimelines (
    run engine
      ((30, "owner", confirm_call 7 (some Domain.ConflictStrategy.supersede) none)
        ∷ (40, "owner", forget_call 7)
        ∷ [])
      two)
run-IsWellFormed_example =
    run-IsWellFormed engine
      ((30, "owner", confirm_call 7 (some Domain.ConflictStrategy.supersede) none)
        ∷ (40, "owner", forget_call 7)
        ∷ [])
      two two-HasTimelines

abbrev later_calls : List (ℕ × String × Call)
later_calls =
    (30, "owner", confirm_call 7 (some Domain.ConflictStrategy.supersede) none)
    ∷ (40, "owner", forget_call 7)
    ∷ []

two-HasDistinctIds : HasDistinctIds two
unfolding program any
two-HasDistinctIds = ((omega arith, (omega arith, tt)), (refl, (refl, tt)))

two_active : (m : MemoryRow) × (get_memory two 1 ≡ some m) × (m.status ≡ Domain.MemoryStatus.active)
unfolding program
two_active = (_, refl, refl)

run-can_become_example :
    (m : MemoryRow) × (get_memory (run engine later_calls two) 1 ≡ some m)
    × (can_become two_active.0.status m.status ≡ true)
run-can_become_example = run-can_become engine later_calls two 1 two-HasDistinctIds two_active.1

abbrev contested : Change
contested = to_status Domain.ClaimStatus.contested "owner" "review"

abbrev moved : Result Db
moved = transition plain_texts 30 two 4 contested none

transition-IsWellFormed_example : IsWellFormed (after moved).versions
unfolding program
transition-IsWellFormed_example =
    transition-IsWellFormed plain_texts 30 two 4 contested none two-HasTimelines refl

abbrev query : VersionQuery
query = record {
  valid_time = 15;
  known_time = 15;
  scope_type = none;
  scope_key = none;
  predicate = none;
  statuses = none;
}

visible_versions-transition_example :
    map without_end (visible_versions plain_texts (after moved) query)
    ≡ map without_end (visible_versions plain_texts two query)
unfolding program
visible_versions-transition_example =
    visible_versions-transition plain_texts 30 two 4 contested none _ query two-HasTimelines refl
      (omega arith) refl

keep-is_visible_row-run_example :
    keep (is_visible_row query) (history 4 (run engine later_calls two).versions)
    ≡ latest_known query (history 4 (run engine later_calls two).versions)
keep-is_visible_row-run_example =
    keep-is_visible_row-run engine later_calls two query 4 two-HasTimelines

-- It is the first version, which the later calls closed.
visible_row_run :
    map
      (λ v. v.version_number)
      (keep (is_visible_row query) (history 4 (run engine later_calls two).versions))
    ≡ 1 ∷ []
unfolding program
visible_row_run = refl

confirm-HasStatus_example :
    CanConfirm engine 30 7 (some Domain.ConflictStrategy.supersede) two
    × HasStatus 7 Domain.MemoryStatus.active (state superseding)
unfolding program
confirm-HasStatus_example =
    confirm-HasStatus engine 30 7 (some Domain.ConflictStrategy.supersede) "owner" none two refl

abbrev rejecting : Result (Db × ℕ)
rejecting = reject engine 30 7 "owner" two

abbrev forgetting_first : Result (Db × ℕ)
forgetting_first = forget engine 30 1 "owner" two
