-- ===== src/Context/Delivery.antt =====
-- context/compiler.py: `_build_msc` from the deduplicated atoms on: the payload in full or as a delta
-- and the snapshot of it. JSON, SHA-256 and `str.splitlines` are arguments, and so are the atoms and
-- the policy hash, which depend on the counter. The audit record at the end is left out.
pub mod Budgeted
use memory_os.Base.{
  ℕ, ◌*◌, String, Bool, true, false, ◌&&◌, Option, none, some, List, map, length, ltb, leb,
  if◌then◌else◌, Result, ok, ◌>>=◌,
}
use memory_os.Domain.{QueryIntent}
use memory_os.Context.Budget.{Limits, AtomShape, BudgetDecision, plan}
use memory_os.Context.Bundles.{ContextAtom, AtomBundle, build_bundles}
use memory_os.Context.Delta.{Item, DeltaPlan, plan_delta}
use memory_os.Context.Payload.{
  TokenCounter, Mode, Payload, stabilize_payload_usage, stabilize_full_payload,
}
use memory_os.Context.Renderers.{render_delta}
use memory_os.Claims.Truth.State.{aggregate_state}
use memory_os.Context.Snapshots.{
  ContextSnapshotRow, SnapshotSettings, SnapshotLookup, snapshot, fallback, snapshot_items,
  render_full, load_valid, create,
}
use memory_os.Context.Compiler.{
  coverage, ResponseMode, ContextRequest, Run, counter_for, atoms_for_bundles, new_usage, tokens_of,
  raise_floor, Selected, select_bundles,
}

-- The settings that the compiler reads; the ratio is in thousandths.
pub record Settings : Type 0 where
  pub limits : Limits
  pub snapshots : SnapshotSettings
  pub delta_fallback_ratio : ℕ

-- What is delivered, why it is no delta, and the snapshot that a delta starts from.
pub record Delivery : Type 0 where
  pub delivered : Payload
  pub fallback_reason : Option String
  pub base_snapshot_id : Option ℕ

-- What a call returns, and the table of snapshots that it leaves.
pub record Compiled : Type 0 where
  pub payload : Payload
  pub decision : BudgetDecision
  pub bundles : List AtomBundle
  pub rows : List ContextSnapshotRow

abbrev pub in_full : Payload → Option String → Delivery
in_full payload reason = record {
  delivered = payload;
  fallback_reason = reason;
  base_snapshot_id = none;
}

abbrev pub shapes : List ContextAtom → List AtomShape
shapes =
    map (λ a. record { truth_state = a.truth_state; compression_policy = a.compression_policy })

module _ (canonical_json : Payload → String) (sha256 : String → String)
    (splitlines : String → List String) (settings : Settings) (counter : TokenCounter)
    (run : Run) where
  -- `_delta_payload`
  unfoldable pub delta_payload : ℕ → List ContextAtom → String → DeltaPlan → ℕ → Result Payload
  delta_payload base atoms text changes full_tokens =
      stabilize_payload_usage counter canonical_json (record {
        mode = Mode.delta;
        context_id = run.context_id;
        requires_base_context_id = some base;
        retrieval_run_id = run.retrieval_run_id;
        truth_state = aggregate_state (map (λ a. a.truth_state) atoms);
        text = text;
        delta_plan = some changes;
        fallback_reason = none;
        usage = new_usage full_tokens run.legacy_tokens run.selection_latency run.render_latency;
      })

  -- The delta to a snapshot, if it is short enough.
  unfoldable pub offer_delta :
      ContextSnapshotRow → List ContextAtom → Payload → BudgetDecision → Result Delivery
  unfolding delta_payload
  offer_delta previous atoms full decision = do
    let changes = plan_delta previous.items_json (snapshot_items atoms)
    text ← render_delta splitlines changes
    p ← delta_payload previous.id atoms text changes (tokens_of full)
    ok (
        if ltb (tokens_of p * 1_000) (tokens_of full * settings.delta_fallback_ratio)
          && leb (tokens_of p) decision.effective_tokens
        then record { delivered = p; fallback_reason = none; base_snapshot_id = some previous.id }
        else in_full full (some "delta_not_efficient"))

  unfoldable pub offer_lookup :
      SnapshotLookup → List ContextAtom → Payload → BudgetDecision → Result Delivery
  unfolding offer_delta
  offer_lookup (fallback reason) atoms full decision = ok (in_full full (some reason))
  offer_lookup (snapshot previous) atoms full decision = offer_delta previous atoms full decision

  -- The choice by `response_mode` and `previous_context_id`, and the table after the look-up.
  unfoldable pub choose :
      ResponseMode
      → Option ℕ
      → (ℕ → SnapshotLookup × List ContextSnapshotRow)
      → List ContextSnapshotRow
      → List ContextAtom
      → Payload
      → BudgetDecision
      → Result (Delivery × List ContextSnapshotRow)
  unfolding offer_lookup
  choose ResponseMode.full none look_up rows atoms full decision = ok (in_full full none, rows)
  choose ResponseMode.full (some id) look_up rows atoms full decision =
      ok (in_full full (some "client_requested_full"), rows)
  choose ResponseMode.delta none look_up rows atoms full decision =
      ok (in_full full (some "previous_context_required"), rows)
  choose ResponseMode.auto none look_up rows atoms full decision = ok (in_full full none, rows)
  choose mode (some id) look_up rows atoms full decision =
      offer_lookup (look_up id).0 atoms full decision >>= λ d. ok (d, (look_up id).1)

  -- `if delivered is full_payload and fallback_reason is not None`, and the tokens in full.
  unfoldable pub state_reason :
      ContextRequest → Delivery → Payload → BudgetDecision → Result (Payload × ℕ × BudgetDecision)
  unfolding raise_floor
  state_reason request d full decision = elim d.fallback_reason [
    | none ↦ ok (d.delivered, tokens_of full, decision)
    | some reason ↦
        stabilize_full_payload counter canonical_json
          (record (d.delivered) { fallback_reason = some reason })
        >>= λ p.
            raise_floor counter canonical_json run decision request.budget (tokens_of p)
            >>= λ final. ok (p, tokens_of p, final)
  ]

  -- From the selection to the end.
  unfoldable pub deliver :
      ContextRequest
      → String
      → Selected counter canonical_json run
      → List ContextSnapshotRow
      → Result Compiled
  deliver request policy_hash s rows = do
    let atoms = atoms_for_bundles s.bundles
    (d, rows') ←
        choose request.response_mode request.previous_context_id
          (λ id.
            load_valid sha256 settings.snapshots id request.prints policy_hash counter run.now rows)
          rows atoms s.full s.decision
    (payload, full_tokens, decision) ← state_reason request d s.full s.decision
    ok (record {
      payload = payload;
      decision = decision;
      bundles = s.bundles;
      rows =
          create sha256 settings.snapshots run.context_id d.base_snapshot_id request.prints
            policy_hash counter atoms (render_full atoms) full_tokens run.now rows';
    })

-- `_build_msc`; `configured` is the counter of the service.
unfoldable pub build_msc :
    (Payload → String)
    → (String → String)
    → (String → List String)
    → (List String → String)
    → Settings
    → TokenCounter
    → Run
    → (TokenCounter → List ContextAtom)
    → (TokenCounter → String)
    → QueryIntent
    → ContextRequest
    → List ContextSnapshotRow
    → Result Compiled
build_msc canonical_json sha256 splitlines digest settings configured run atoms_of policy_hash_of
      intent request rows =
    do
      counter ← counter_for configured request
      let atoms = atoms_of counter
      planned ←
          plan settings.limits counter.kind request.budget intent (shapes atoms)
            (length (coverage intent))
      selected ←
          select_bundles counter canonical_json run request.budget
            (build_bundles digest atoms (coverage intent)) planned
      deliver canonical_json sha256 splitlines settings counter run request (policy_hash_of counter)
          selected rows
