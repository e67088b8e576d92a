-- ===== src/Context/Delivery/Budgeted.antt =====
-- context/compiler.py: what `_build_msc` delivers fits the budget that it reports, in full and as a
-- delta.
use memory_os.Base.{
  ℕ, ◌*◌, ◌≤◌, ◌≡◌, refl, ap, ◌∙◌, subst, String, Bool, true, false, ◌&&◌, Option, none, some, List,
  map, keep, length, ltb, leb, leb→le, ok, ◌>>=◌, >>=-eq-ok, ok-injective, arith, Bool-cases,
  Option-cases, inl, inr, ◌⊎◌,
}
use native.Mathlib.Nat.{le_trans, le_refl}
use memory_os.Domain.{QueryIntent, TruthState}
use memory_os.Claims.Truth.State.{aggregate_state}
use memory_os.Context.Budget.{BudgetDecision, plan}
use memory_os.Context.Bundles.{ContextAtom, AtomBundle, build_bundles}
use memory_os.Context.Delta.{plan_delta}
use memory_os.Context.Payload.{TokenCounter, Payload, stabilize_full_payload}
use memory_os.Context.Payload.Accounting.{
  IsAccounted, stabilize_full_payload-accounted, stabilize_payload_usage-accounted,
}
use memory_os.Context.Snapshots.{
  ContextSnapshotRow, SnapshotLookup, snapshot, fallback, snapshot_items, load_valid,
}
use memory_os.Context.Compiler.{
  coverage, ResponseMode, ContextRequest, Run, counter_for, atoms_for_bundles, tokens_of,
  raise_floor, Selected, select_bundles,
}
use memory_os.Context.Compiler.Selection.{
  is_required, IsSelection, select_bundles-IsSelection, raise_floor-lem,
}
use memory_os.Context.Renderers.{render_delta}
use memory_os.Context.Delivery.{
  Settings, Delivery, Compiled, shapes, delta_payload, offer_delta, offer_lookup, choose,
  state_reason, deliver, build_msc,
}

&&_right : (a b : Bool) → (a && b) ≡ true → b ≡ true
&&_right a b h = ground (arith, h)

abbrev pub state_of : List ContextAtom → TruthState
state_of atoms = aggregate_state (map (λ a. a.truth_state) atoms)

-- A payload states its own tokens and the truth of the atoms, and fits the decided budget.
pub record Fits (counter : TokenCounter) (canonical_json : Payload → String)
    (atoms : List ContextAtom) (decision : BudgetDecision) (p : Payload) : Type 0 where
  pub accounted : IsAccounted counter canonical_json p
  pub truth_state : p.truth_state ≡ state_of atoms
  pub within : tokens_of p ≤ decision.effective_tokens

module _ (canonical_json : Payload → String) (sha256 : String → String)
    (splitlines : String → List String) (settings : Settings) (counter : TokenCounter) (run : Run)
    (atoms : List ContextAtom) where
  offer_delta-Fits :
      (previous : ContextSnapshotRow) (full : Payload) (decision : BudgetDecision) {d : Delivery}
      → Fits counter canonical_json atoms decision full
      → offer_delta canonical_json sha256 splitlines settings counter run previous atoms full
          decision
        ≡ ok d
      → Fits counter canonical_json atoms decision d.delivered
  unfolding offer_delta delta_payload
  offer_delta-Fits previous full decision {d} fits h =
      let changes = plan_delta previous.items_json (snapshot_items atoms) in
      let (text, _, h1) = >>=-eq-ok (render_delta splitlines changes) _ h in
      let (p, made, rest) =
        >>=-eq-ok
          (delta_payload canonical_json sha256 splitlines settings counter run previous.id atoms
            text changes (tokens_of full))
          _ h1 in
      let (fixed, same, _) = stabilize_payload_usage-accounted counter canonical_json _ made in
      let test =
        ltb (tokens_of p * 1_000) (tokens_of full * settings.delta_fallback_ratio)
        && leb (tokens_of p) decision.effective_tokens in
      let Fit = λ (x : Delivery). Fits counter canonical_json atoms decision x.delivered in
      elim (Bool-cases test) [
        | inl e ↦ subst Fit (ok-injective (rw e at rest)) (record {
          accounted = fixed;
          truth_state = ap (λ (q : Payload). q.truth_state) same;
          within = leb→le _ _ (&&_right _ _ e);
        })
        | inr e ↦ subst Fit (ok-injective (rw e at rest)) fits
      ]

  offer_lookup-Fits :
      (found : SnapshotLookup) (full : Payload) (decision : BudgetDecision) {d : Delivery}
      → Fits counter canonical_json atoms decision full
      → offer_lookup canonical_json sha256 splitlines settings counter run found atoms full decision
        ≡ ok d
      → Fits counter canonical_json atoms decision d.delivered
  unfolding offer_lookup
  offer_lookup-Fits (fallback reason) full decision fits h =
      subst (λ (x : Delivery). Fits counter canonical_json atoms decision x.delivered)
        (ok-injective h) fits
  offer_lookup-Fits (snapshot previous) full decision fits h =
      offer_delta-Fits previous full decision fits h

  module _ (look_up : ℕ → SnapshotLookup × List ContextSnapshotRow) (rows : List ContextSnapshotRow)
      (full : Payload) (decision : BudgetDecision)
      (fits : Fits counter canonical_json atoms decision full) where
    abbrev IsFair : Delivery × List ContextSnapshotRow → Type 0
    IsFair r = Fits counter canonical_json atoms decision r.0.delivered

    looked_up :
        (id : ℕ) {r : Delivery × List ContextSnapshotRow}
        → (offer_lookup canonical_json sha256 splitlines settings counter run
              (look_up id).0
              atoms
              full
              decision
            >>= λ d. ok (d, (look_up id).1))
          ≡ ok r
        → IsFair r
    looked_up id h =
        let (d, offered, rest) =
          >>=-eq-ok
            (offer_lookup canonical_json sha256 splitlines settings counter run (look_up id).0 atoms
              full decision)
            _ h in
        subst IsFair (ok-injective rest)
          (offer_lookup-Fits (look_up id).0 full decision fits offered)

    choose-Fits :
        (mode : ResponseMode) (previous : Option ℕ) {r : Delivery × List ContextSnapshotRow}
        → choose canonical_json sha256 splitlines settings counter run mode previous look_up rows
            atoms full decision
          ≡ ok r
        → IsFair r
    unfolding choose
    choose-Fits ResponseMode.full none h = subst IsFair (ok-injective h) fits
    choose-Fits ResponseMode.full (some id) h = subst IsFair (ok-injective h) fits
    choose-Fits ResponseMode.delta none h = subst IsFair (ok-injective h) fits
    choose-Fits ResponseMode.auto none h = subst IsFair (ok-injective h) fits
    choose-Fits ResponseMode.auto (some id) h = looked_up id h
    choose-Fits ResponseMode.delta (some id) h = looked_up id h

  -- The decision grows at most, and not at all for a hard budget.
  abbrev Grows : ContextRequest → BudgetDecision → BudgetDecision → Type 0
  Grows request d d' =
      (d.effective_tokens ≤ d'.effective_tokens)
      × (request.budget.hard_token_budget ≡ true → d'.effective_tokens ≡ d.effective_tokens)

  abbrev IsStated : ContextRequest → BudgetDecision → Payload × ℕ × BudgetDecision → Type 0
  IsStated request decision r =
      Fits counter canonical_json atoms r.2 r.0 × Grows request decision r.2

  state_reason-Fits :
      (request : ContextRequest) (d : Delivery) (full : Payload) (decision : BudgetDecision)
      {r : Payload × ℕ × BudgetDecision}
      → Fits counter canonical_json atoms decision d.delivered
      → state_reason canonical_json sha256 splitlines settings counter run request d full decision
        ≡ ok r
      → IsStated request decision r
  unfolding state_reason
  state_reason-Fits request d full decision fits h = elim (Option-cases d.fallback_reason) [
    | inl e ↦
        subst (IsStated request decision) (ok-injective (rw e at h))
          (fits, (le_refl decision.effective_tokens, λ _. refl))
    | inr (reason, e) ↦
        let h' = rw (e, state_reason) at h in
        let (p, made, rest) = >>=-eq-ok (stabilize_full_payload counter canonical_json _) _ h' in
        let (fixed, same, _, _) = stabilize_full_payload-accounted counter canonical_json _ made in
        let (final, raised, last) =
          >>=-eq-ok (raise_floor counter canonical_json run decision request.budget (tokens_of p)) _
            rest in
        let (within, grows, hard) =
          raise_floor-lem counter canonical_json run decision request.budget (tokens_of p) raised in
        subst (IsStated request decision) (ok-injective last) (
          record {
            accounted = fixed;
            truth_state = ap (λ (q : Payload). q.truth_state) same ∙ fits.truth_state;
            within = within;
          },
          (grows, hard),
        )
  ]

-- What a call of the compiler is to give, for the counter and the planned budget that it uses.
pub record IsWithinBudget (canonical_json : Payload → String) (request : ContextRequest)
    (counter : TokenCounter) (bundles : List AtomBundle) (planned : BudgetDecision) (c : Compiled)
    : Type 0 where
  pub fits : Fits counter canonical_json (atoms_for_bundles c.bundles) c.decision c.payload
  pub required : keep is_required c.bundles ≡ keep is_required bundles
  pub grows : planned.effective_tokens ≤ c.decision.effective_tokens
  pub hard :
      (request.budget.hard_token_budget ≡ false)
      ⊎ (c.decision.effective_tokens ≡ planned.effective_tokens)

deliver-IsWithinBudget :
    (canonical_json : Payload → String) (sha256 : String → String)
    (splitlines : String → List String) (settings : Settings) (counter : TokenCounter) (run : Run)
    (request : ContextRequest) (policy_hash : String) (bundles : List AtomBundle)
    (planned : BudgetDecision) (s : Selected counter canonical_json run)
    (rows : List ContextSnapshotRow) {c : Compiled}
    → IsSelection counter canonical_json run request.budget bundles planned s
    → deliver canonical_json sha256 splitlines settings counter run request policy_hash s rows
      ≡ ok c
    → IsWithinBudget canonical_json request counter bundles planned c
unfolding deliver
deliver-IsWithinBudget canonical_json sha256 splitlines settings counter run request policy_hash
      bundles planned s rows sel h =
    let atoms = atoms_for_bundles s.bundles in
    let look_up = λ (id : ℕ).
      load_valid sha256 settings.snapshots id request.prints policy_hash counter run.now rows in
    let full : Fits counter canonical_json atoms s.decision s.full = record {
      accounted = sel.full.accounted;
      truth_state = sel.full.truth_state;
      within = sel.fits;
    } in
    let (chosen, offered, h1) =
      >>=-eq-ok
        (choose canonical_json sha256 splitlines settings counter run request.response_mode
          request.previous_context_id look_up rows atoms s.full s.decision)
        _ h in
    let fair =
      choose-Fits canonical_json sha256 splitlines settings counter run atoms look_up rows s.full
        s.decision full request.response_mode request.previous_context_id offered in
    let (stated, reason, h2) =
      >>=-eq-ok
        (state_reason canonical_json sha256 splitlines settings counter run request chosen.0 s.full
          s.decision)
        _ h1 in
    let (fits, (grows, hard)) =
      state_reason-Fits canonical_json sha256 splitlines settings counter run atoms request chosen.0
        s.full s.decision fair reason in
    subst (IsWithinBudget canonical_json request counter bundles planned) (ok-injective h2)
      (record {
        fits = fits;
        required = sel.required;
        grows = le_trans sel.grows grows;
        hard = elim (Bool-cases request.budget.hard_token_budget) [
          | inl e ↦ inr (hard e ∙ sel.hard e)
          | inr e ↦ inl e
        ];
      })

-- If the compiler returns, then it used a counter and a planned budget that the request allows, and
-- the payload, in full or as a delta, states the tokens that it has, states the truth of its atoms
-- and fits the effective budget of the decision. That budget is at least the planned one, and equal
-- to it if the budget is hard. Every required bundle was kept.
pub build_msc-IsWithinBudget :
    (canonical_json : Payload → String) (sha256 : String → String)
    (splitlines : String → List String) (digest : List String → String) (settings : Settings)
    (configured : TokenCounter) (run : Run) (atoms_of : TokenCounter → List ContextAtom)
    (policy_hash_of : TokenCounter → String) (intent : QueryIntent) (request : ContextRequest)
    (rows : List ContextSnapshotRow) {c : Compiled}
    → build_msc canonical_json sha256 splitlines digest settings configured run atoms_of
        policy_hash_of intent request rows
      ≡ ok c
    → (counter : TokenCounter) × (counter_for configured request ≡ ok counter)
      × (planned : BudgetDecision) × (plan settings.limits counter.kind request.budget intent
            (shapes (atoms_of counter))
            (length (coverage intent))
          ≡ ok planned)
      × IsWithinBudget canonical_json request counter
          (build_bundles digest (atoms_of counter) (coverage intent))
          planned
          c
unfolding build_msc
build_msc-IsWithinBudget canonical_json sha256 splitlines digest settings configured run atoms_of
      policy_hash_of intent request rows h =
    let (counter, picked, h1) = >>=-eq-ok (counter_for configured request) _ h in
    let bundles = build_bundles digest (atoms_of counter) (coverage intent) in
    let (planned, budgeted, h2) =
      >>=-eq-ok
        (plan settings.limits counter.kind request.budget intent (shapes (atoms_of counter))
          (length (coverage intent)))
        _ h1 in
    let (s, selected, h3) =
      >>=-eq-ok (select_bundles counter canonical_json run request.budget bundles planned) _ h2 in
    (
      counter,
      picked,
      planned,
      budgeted,
      deliver-IsWithinBudget canonical_json sha256 splitlines settings counter run request
          (policy_hash_of counter) bundles planned s rows
          (select_bundles-IsSelection counter canonical_json run request.budget bundles planned
            selected)
          h3,
    )
