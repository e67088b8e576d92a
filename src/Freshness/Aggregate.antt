-- ===== src/Freshness/Aggregate.antt =====
-- freshness/anchors.py: the state of the claims of a memory after a refresh is that of its worst
-- anchor.
use memory_os.Base.{
  ℕ, ◌≤◌, ◌≡◌, ◌↔◌, refl, List, ◌∷◌, max_by, max_by-IsGreatest, max_by-Memᴰ, All-Memᴰ, All, All-map,
  Memᴰ, arith,
}
use native.Mathlib.Nat.{le_trans}
use memory_os.Domain.{FreshnessState, ClaimStaleState}
use memory_os.Freshness.{SourceAnchor, aggregate, severity, claim_state}

abbrev weight : SourceAnchor → ℕ
weight a = severity a.freshness_state

fresh_iff : (s : FreshnessState) → (claim_state s ≡ ClaimStaleState.fresh) ↔ (severity s ≤ 1)
fresh_iff FreshnessState.fresh = (λ _. omega arith, λ _. refl)
fresh_iff FreshnessState.moved = (λ _. omega arith, λ _. refl)
fresh_iff FreshnessState.unknown = (λ h. cc h, λ h. absurd (omega arith))
fresh_iff FreshnessState.suspect = (λ h. cc h, λ h. absurd (omega arith))
fresh_iff FreshnessState.stale = (λ h. cc h, λ h. absurd (omega arith))

stale_iff : (s : FreshnessState) → (claim_state s ≡ ClaimStaleState.stale) ↔ (4 ≤ severity s)
stale_iff FreshnessState.fresh = (λ h. cc h, λ h. absurd (omega arith))
stale_iff FreshnessState.moved = (λ h. cc h, λ h. absurd (omega arith))
stale_iff FreshnessState.unknown = (λ h. cc h, λ h. absurd (omega arith))
stale_iff FreshnessState.suspect = (λ h. cc h, λ h. absurd (omega arith))
stale_iff FreshnessState.stale = (λ _. omega arith, λ _. refl)

-- A refresh marks the claims of a memory fresh exactly when every anchor is fresh or moved, and stale
-- exactly when some anchor is stale.
pub claim_state-aggregate :
    (a : SourceAnchor) (anchors : List SourceAnchor)
    → ((claim_state (aggregate a anchors) ≡ ClaimStaleState.fresh)
        ↔ All (λ x. severity x.freshness_state ≤ 1) (a ∷ anchors))
      × ((claim_state (aggregate a anchors) ≡ ClaimStaleState.stale)
          ↔ ((x : SourceAnchor) × Memᴰ x (a ∷ anchors) × (4 ≤ severity x.freshness_state)))
unfolding aggregate
claim_state-aggregate a anchors =
    let (own, others) = max_by-IsGreatest weight a anchors in
    let m = max_by weight a anchors in
    let member = max_by-Memᴰ weight a anchors in
    (
      (
        λ h.
            let low = (fresh_iff m.freshness_state).0 h in
            (le_trans own low, All-map _ _ (λ x k. le_trans k low) anchors others),
        λ all. (fresh_iff m.freshness_state).1 (All-Memᴰ _ (a ∷ anchors) all member),
      ),
      (
        λ h. (m, member, (stale_iff m.freshness_state).0 h),
        λ (x, at, high).
            (stale_iff m.freshness_state).1
              (le_trans high (All-Memᴰ (λ y. weight y ≤ weight m) (a ∷ anchors) (own, others) at)),
      ),
    )
