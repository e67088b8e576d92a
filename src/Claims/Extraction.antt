-- ===== src/Claims/Extraction.antt =====
-- claims/canonicalize.py: `validate_claim_candidates`, and the candidates it takes from
-- domain/schemas.py. The extraction of candidates from a text by regular expressions is not modelled.
use memory_os.Base.{ℕ, String, Bool, ◌&&◌, not, Option, List, [], ◌∷◌, leb, str_eq, if◌then◌else◌}
use memory_os.Domain.{EntityType, ClaimPolarity}
use memory_os.Store.{JsonValue}
use memory_os.Claims.Canonical.{Texts}

pub record EvidenceSpan : Type 0 where
  pub start : ℕ
  pub end : ℕ
  pub quote : String

-- What a claim is about: a value, or an entity by its hint and type.
pub data ClaimObject : Type 0 where
  literal : JsonValue → ClaimObject
  entity : String → Option EntityType → ClaimObject

pub record ClaimCandidate : Type 0 where
  pub subject_hint : String
  pub subject_type : EntityType
  pub predicate : String
  pub object : ClaimObject
  pub polarity : ClaimPolarity
  pub confidence : ℕ
  pub evidence_span : EvidenceSpan

unfoldable pub is_valid_candidate : Texts → String → ClaimCandidate → Bool
is_valid_candidate t source candidate =
    let span = candidate.evidence_span in
    leb span.end (t.text_length source)
    && str_eq (t.slice source span.start span.end) span.quote
    && not (str_eq (t.strip candidate.predicate) "")

-- The valid candidates, and the rejected ones.
unfoldable pub validate_claim_candidates :
    Texts → List ClaimCandidate → String → List ClaimCandidate × List ClaimCandidate
unfolding is_valid_candidate
validate_claim_candidates t [] source = ([], [])
validate_claim_candidates t (candidate ∷ rest) source =
    let later = validate_claim_candidates t rest source in
    if is_valid_candidate t source candidate
    then (candidate ∷ later.0, later.1)
    else (later.0, candidate ∷ later.1)
