-- ===== src/Tests/Claims.antt =====
-- Concrete claims and intervals, and an instance of each result on them.
use memory_os.Base.{ℕ, ◌<◌, ◌≡◌, ◌↔◌, refl, true, false, none, some, arith}
use memory_os.Base.{map, not, ◌==◌, ◌&&◌, [], ◌∷◌}
use memory_os.Claims.Canonical.{canonical_predicate}
use memory_os.Claims.Predicates.{classify_claim_values}
use memory_os.Claims.Truth.Lifecycle.{forget_claims, expire_claims}
use memory_os.Store.{get_claim}
use memory_os.Temporal.{as_of, intervals_overlap}
use memory_os.Domain.{
  TruthState, CompressionPolicy, TokenCounterKind, BudgetProfile, QueryIntent, is_exact,
}
use memory_os.Claims.Versioning.{history}
use memory_os.Claims.Truth.Closing.{forget_claims-get_claim, expire_claims-get_claim}
use memory_os.Claims.Truth.Effects.{HasKeys}
use memory_os.Claims.Predicates.{ClaimValue}
use memory_os.Claims.Predicates.Relations.{
  classify_claim_values_comm, classify_claim_values-contradicts,
}
use memory_os.Temporal.{naive, ahead, behind, within, datetime_max}
use memory_os.Temporal.Overlap.{intervals_overlap-as_of}
use memory_os.Domain
use memory_os.Store.{ClaimRow, text, get_claim}
use memory_os.Claims.Canonical.{plain_texts}
use memory_os.Tests.{two, program, after}

abbrev first_claim : ClaimRow
first_claim = record {
  id = 4;
  memory_id = 1;
  subject_entity_id = 3;
  predicate = "preference";
  object_entity_id = none;
  object_value = text "tabs";
  polarity = Domain.ClaimPolarity.positive;
  confidence = 700_000;
  status = Domain.ClaimStatus.accepted;
  valid_from = none;
  valid_to = none;
  recorded_at = 10;
  stale_state = Domain.ClaimStaleState.unknown;
}

two-HasKeys : HasKeys two.claims
unfolding program
two-HasKeys = (refl, (refl, tt))

forget_claims-get_claim_example :
    (get_claim (after (forget_claims plain_texts 30 two 1 "owner")) 4
      ≡ some (record first_claim { status = Domain.ClaimStatus.historical }))
    × ((first_claim.memory_id == 1 && not (Domain.is_historical first_claim.status)) ≡ false
        → history 4 (after (forget_claims plain_texts 30 two 1 "owner")).versions
          ≡ history 4 two.versions)
unfolding program
forget_claims-get_claim_example =
    forget_claims-get_claim plain_texts 30 two 1 4 two-HasKeys refl "owner" refl

-- The claim of the other memory is left alone.
expire_claims-get_claim_example :
    (get_claim (after (expire_claims plain_texts 30 two 7 "due" 30)) 4 ≡ some first_claim)
    × (false ≡ false
        → history 4 (after (expire_claims plain_texts 30 two 7 "due" 30)).versions
          ≡ history 4 two.versions)
unfolding program
expire_claims-get_claim_example =
    expire_claims-get_claim plain_texts 30 two 7 4 two-HasKeys refl "due" 30 refl

-- A claim of the memory itself ends.
expired_run :
    map (λ c. c.valid_to) (after (expire_claims plain_texts 30 two 1 "due" 30)).claims
    ≡ some 30 ∷ none ∷ []
unfolding program
expired_run = refl

abbrev tabs : ClaimValue
tabs = record {
  subject = "project";
  predicate = "prefer";
  object = text "tabs";
  polarity = Domain.ClaimPolarity.positive;
  valid_from = some 10;
  valid_to = none;
}

abbrev spaces : ClaimValue
spaces = record tabs { predicate = "preference"; object = text "spaces"; valid_from = some 20 }

classify_claim_values_comm_example :
    classify_claim_values plain_texts tabs spaces ≡ classify_claim_values plain_texts spaces tabs
classify_claim_values_comm_example = classify_claim_values_comm plain_texts tabs spaces

classify_claim_values-contradicts_example :
    (tabs.subject ≡ spaces.subject)
    × (canonical_predicate plain_texts tabs.predicate
        ≡ canonical_predicate plain_texts spaces.predicate)
    × ((m : ℕ) × (within tabs.valid_from tabs.valid_to m ≡ true)
        × (within spaces.valid_from spaces.valid_to m ≡ true))
    × ((classify_claim_values plain_texts tabs spaces).model_eligible ≡ false)
unfolding program
classify_claim_values-contradicts_example =
    classify_claim_values-contradicts plain_texts tabs spaces (omega arith) refl

intervals_overlap-as_of_example :
    (intervals_overlap (some (naive 10)) (some (ahead 20 5)) (some (behind 15 5)) none ≡ true) ↔ (
      (t : ℕ) × (t < datetime_max)
      × (as_of (some (naive 10)) (some (ahead 20 5)) (naive t) ≡ true)
      × (as_of (some (behind 15 5)) none (naive t) ≡ true))
unfolding program
intervals_overlap-as_of_example =
    intervals_overlap-as_of (some (naive 10)) (some (ahead 20 5)) (some (behind 15 5)) none
      (omega arith)
