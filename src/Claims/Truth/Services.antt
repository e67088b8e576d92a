-- ===== src/Claims/Truth/Services.antt =====
-- claims/truth.py: what the service is built from, and its reads and writes of rows.
use memory_os.Base.{
  ℕ, String, Bool, Option, none, some, List, ◌∷◌, keep, ◌==◌, or_default, if◌then◌else◌, str_eq,
}
use memory_os.Store.{Db, ClaimRow, MemoryRow, AuditEventRow, Action, get_claim}
use memory_os.Claims.Canonical.{Texts}
use memory_os.Claims.Extraction.{ClaimCandidate}

-- An answer of the relationship judge; the confidence is in hundredths.
pub record Verdict : Type 0 where
  pub relationship : String
  pub confidence : ℕ
  pub abstain : Bool

-- The collaborators. `extract` is `extract_claim_candidates` on a memory; `judge` is the model
-- provider, if one is configured, and `none` from it is a `ProviderError`.
pub record Services : Type 0 where
  pub texts : Texts
  pub extract : MemoryRow → String → List ClaimCandidate
  pub judge : Option (ClaimRow → ClaimRow → Option Verdict)

-- `select(ClaimRow).where(ClaimRow.memory_id == memory_id)`
unfoldable pub claims_of : Db → ℕ → List ClaimRow
claims_of db memory_id = keep (λ c. c.memory_id == memory_id) db.claims

-- The columns of a loaded claim after later writes of the session.
unfoldable pub refresh : Db → ClaimRow → ClaimRow
refresh db claim = or_default (get_claim db claim.id) claim

-- An event of the audit table.
unfoldable pub audit_event : Action → ℕ → String → ℕ → Db → Db
audit_event action entity_id actor now db =
    let event : AuditEventRow = record {
      action = action;
      entity_id = entity_id;
      actor = actor;
      timestamp = now;
    } in
    record db { audit = event ∷ db.audit }

-- `value or default` for an optional text: the empty text counts as missing.
abbrev pub text_or : Option String → String → String
text_or none default = default
text_or (some value) default = if str_eq value "" then default else value
