-- ===== src/Context/Compiler/Selection.antt =====
-- context/compiler.py: the selection keeps every required bundle, and its payload fits the budget
-- that it decides on.
use memory_os.Base.{
  ℕ, String, ◌≤◌, ◌≡◌, refl, sym, ap, ◌∙◌, subst, Bool, true, not, List, [], ◌∷◌, ◌++◌, map, keep,
  keep-append, All-keep_self, keep_idem, reverse, All, All-append, leb, ok, >>=-eq-ok, ok-injective,
  arith, Bool-cases, inl, inr,
}
use mathlib.Core.List
use native.Mathlib.Nat.{le_trans}
use memory_os.Claims.Truth.State.{aggregate_state}
use memory_os.Context.Budget.{BudgetRequest, BudgetDecision, apply_safe_floor}
use memory_os.Context.Budget.Floor.{floor_lem}
use memory_os.Context.Bundles.{ContextAtom, AtomBundle}
use memory_os.Context.Payload.{TokenCounter, Mode, Payload}
use memory_os.Context.Payload.Accounting.{IsAccounted, stabilize_full_payload-accounted}
use memory_os.Context.Snapshots.{render_full}
use memory_os.Context.Compiler.{
  Run, atoms_for_bundles, tokens_of, same_bundle, remove_bundle, full_payload, add_optional, trim,
  raise_floor, Selected, select_bundles,
}

abbrev pub is_required : AtomBundle → Bool
is_required b = b.required

abbrev pub is_optional : AtomBundle → Bool
is_optional b = not b.required

keep-reverse_All {ℓ} :
    {A : Type ℓ} (p : A → Bool) (xs : List A) → All (λ x. p x ≡ true) (reverse (keep p xs))
unfolding keep
keep-reverse_All p [] = tt
keep-reverse_All p (x ∷ xs) = elim (Bool-cases (p x)) [
  | inl e ↦
      rw (e, List.reverse-append (x ∷ []) (keep p xs))
        (All-append (λ y. p y ≡ true) (reverse (keep p xs)) (x ∷ []) (keep-reverse_All p xs)
          (e, tt))
  | inr e ↦ rw e (keep-reverse_All p xs)
]

keep-remove_bundle :
    (b : AtomBundle) (bundles : List AtomBundle)
    → is_optional b ≡ true
    → keep is_required (remove_bundle b bundles) ≡ keep is_required bundles
unfolding remove_bundle keep same_bundle
keep-remove_bundle b [] h = refl
keep-remove_bundle b (x ∷ bundles) h = ground (arith, h, keep-remove_bundle b bundles h)

keep-snoc :
    (selected : List AtomBundle) (b : AtomBundle)
    → is_optional b ≡ true
    → keep is_required (selected ++ b ∷ []) ≡ keep is_required selected
keep-snoc selected b h =
    let dropped : keep is_required (b ∷ []) ≡ [] = unfold keep in ground (arith, h) in
    keep-append is_required selected (b ∷ [])
    ∙ ap (λ l. keep is_required selected ++ l) dropped
    ∙ List.append-nil (keep is_required selected)

module _ (counter : TokenCounter) (canonical_json : Payload → String) (run : Run) where
  -- The payload delivers the atoms in full, and states its own tokens.
  pub record IsFullPayload (atoms : List ContextAtom) (p : Payload) : Type 0 where
    pub accounted : IsAccounted counter canonical_json p
    pub mode : p.mode ≡ Mode.full
    pub text : p.text ≡ render_full atoms
    pub truth_state : p.truth_state ≡ aggregate_state (map (λ a. a.truth_state) atoms)

  pub full_payload-IsFullPayload :
      (atoms : List ContextAtom) (selection render : ℕ) {p : Payload}
      → full_payload counter canonical_json run atoms selection render ≡ ok p
      → IsFullPayload atoms p
  unfolding full_payload
  full_payload-IsFullPayload atoms selection render {p} h =
      let (fixed, same, _, _) = stabilize_full_payload-accounted counter canonical_json _ h in
      record {
        accounted = fixed;
        mode = ap (λ (q : Payload). q.mode) same;
        text = ap (λ (q : Payload). q.text) same;
        truth_state = ap (λ (q : Payload). q.truth_state) same;
      }

  add_optional-required :
      (effective : ℕ) (optional selected : List AtomBundle) {result : List AtomBundle}
      → All (λ b. is_optional b ≡ true) optional
      → add_optional counter canonical_json run effective optional selected ≡ ok result
      → keep is_required result ≡ keep is_required selected
  unfolding add_optional
  add_optional-required effective [] selected all h = ap (keep is_required) (sym (ok-injective h))
  add_optional-required effective (b ∷ optional) selected all h =
      let (trial, _, rest) =
        >>=-eq-ok
          (full_payload counter canonical_json run (atoms_for_bundles (selected ++ b ∷ [])) 0 0) _
          h in
      elim (Bool-cases (leb (tokens_of trial) effective)) [
        | inl e ↦
            add_optional-required effective optional (selected ++ b ∷ []) all.1 (rw e at rest)
            ∙ keep-snoc selected b all.0
        | inr e ↦ add_optional-required effective optional selected all.1 (rw e at rest)
      ]

  -- What trimming keeps: the required bundles, and that the payload is that of the bundles.
  abbrev IsTrimmed : List AtomBundle → List AtomBundle × Payload → Type 0
  IsTrimmed selected (kept, p) =
      (keep is_required kept ≡ keep is_required selected) × IsFullPayload (atoms_for_bundles kept) p

  trim-IsTrimmed :
      (effective : ℕ) (removable selected : List AtomBundle) (payload : Payload)
      {result : List AtomBundle × Payload}
      → All (λ b. is_optional b ≡ true) removable
      → IsFullPayload (atoms_for_bundles selected) payload
      → trim counter canonical_json run effective removable selected payload ≡ ok result
      → IsTrimmed selected result
  unfolding trim
  trim-IsTrimmed effective [] selected payload all full h =
      subst (IsTrimmed selected) (ok-injective h) (refl, full)
  trim-IsTrimmed effective (b ∷ removable) selected payload {result} all full h =
      elim (Bool-cases (leb (tokens_of payload) effective)) [
        | inl e ↦ subst (IsTrimmed selected) (ok-injective (rw (e, trim) at h)) (refl, full)
        | inr e ↦
            let (p, made, rest) =
              >>=-eq-ok
                (full_payload counter canonical_json run
                  (atoms_for_bundles (remove_bundle b selected)) run.selection_latency
                  run.render_latency)
                (trim counter canonical_json run effective removable (remove_bundle b selected))
                (rw (e, trim) at h) in
            let (same, full') =
              trim-IsTrimmed effective removable (remove_bundle b selected) p all.1
                (full_payload-IsFullPayload _ _ _ made) rest in
            (same ∙ keep-remove_bundle b selected all.0, full')
      ]

  pub raise_floor-lem :
      (d : BudgetDecision) (request : BudgetRequest) (tokens : ℕ) {d' : BudgetDecision}
      → raise_floor counter canonical_json run d request tokens ≡ ok d'
      → (tokens ≤ d'.effective_tokens)
        × (d.effective_tokens ≤ d'.effective_tokens)
        × (request.hard_token_budget ≡ true → d'.effective_tokens ≡ d.effective_tokens)
  unfolding raise_floor apply_safe_floor
  raise_floor-lem d request tokens h = ground arith

  -- If the selection succeeds, then its payload delivers the bundles that it kept, states its own
  -- tokens and fits the effective budget, and the required bundles are all kept. The budget is at
  -- least the planned one, and equal to it if it is hard.
  pub record IsSelection (request : BudgetRequest) (bundles : List AtomBundle)
      (planned : BudgetDecision) (s : Selected counter canonical_json run) : Type 0 where
    pub full : IsFullPayload (atoms_for_bundles s.bundles) s.full
    pub required : keep is_required s.bundles ≡ keep is_required bundles
    pub fits : tokens_of s.full ≤ s.decision.effective_tokens
    pub grows : planned.effective_tokens ≤ s.decision.effective_tokens
    pub hard :
        request.hard_token_budget ≡ true → s.decision.effective_tokens ≡ planned.effective_tokens

  pub select_bundles-IsSelection :
      (request : BudgetRequest) (bundles : List AtomBundle) (planned : BudgetDecision)
      {s : Selected counter canonical_json run}
      → select_bundles counter canonical_json run request bundles planned ≡ ok s
      → IsSelection request bundles planned s
  unfolding select_bundles
  select_bundles-IsSelection request bundles planned {s} h =
      let (_, _, h1) = >>=-eq-ok (full_payload counter canonical_json run _ _ _) _ h in
      let (d, raised, h2) = >>=-eq-ok (apply_safe_floor planned request _) _ h1 in
      let (selected, chosen, h3) =
        >>=-eq-ok (add_optional counter canonical_json run d.effective_tokens _ _) _ h2 in
      let (_, _, h4) = >>=-eq-ok (full_payload counter canonical_json run _ _ _) _ h3 in
      let (p, made, h5) = >>=-eq-ok (full_payload counter canonical_json run _ _ _) _ h4 in
      let ((kept, trimmed), cut, h6) =
        >>=-eq-ok
          (trim counter canonical_json run d.effective_tokens (reverse (keep is_optional selected))
            selected p)
          _ h5 in
      let (final, settled, h7) = >>=-eq-ok (raise_floor counter canonical_json run _ _ _) _ h6 in
      let (_, grown, hard, _) = floor_lem planned request _ raised in
      let (fits, grown', hard') = raise_floor-lem d request (tokens_of trimmed) settled in
      let (same, full) =
        trim-IsTrimmed d.effective_tokens _ selected p (keep-reverse_All is_optional selected)
          (full_payload-IsFullPayload _ _ _ made) cut in
      let required =
        same
        ∙ add_optional-required d.effective_tokens _ _ (All-keep_self is_optional bundles) chosen
        ∙ keep_idem is_required bundles in
      subst (IsSelection request bundles planned) (ok-injective h7) (record {
        full = full;
        required = required;
        fits = fits;
        grows = le_trans grown grown';
        hard = λ e. hard' e ∙ hard e;
      })
