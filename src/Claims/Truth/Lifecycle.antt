-- ===== src/Claims/Truth/Lifecycle.antt =====
-- claims/truth.py: `reject_claims`, `reset_claims`, `forget_claims`, `expire_claims`,
-- `mark_memory_stale` and `apply_manual_conflict_resolution`.
use memory_os.Base.{
  ℕ, String, Bool, true, false, ◌&&◌, ◌||◌, not, Option, none, some, List, [], ◌∷◌, or_default,
  if◌then◌else◌, Result, ok, expect, value_error, ◌>>=◌, for_each,
}
use Prim.Native.String.{◌++◌}
use memory_os.Domain.{
  ClaimStatus, ClaimStaleState, ClaimRelationType, RelationMethod, is_accepted, is_active,
  is_closed, is_historical, is_rejected, is_stale, is_stale_status, same_stale_state,
}
use memory_os.Store.{Db, MemoryRow, ClaimRow, get_claim, get_memory}
use memory_os.Claims.Canonical.{Texts}
use memory_os.Claims.Extraction.{ClaimCandidate}
use memory_os.Claims.Versioning.{Change, transition}
use memory_os.Claims.Truth.Services.{Services, claims_of, refresh, text_or}
use memory_os.Claims.Truth.Relations.{add_relation}
use memory_os.Claims.Truth.Ensure.{ensure_claims}

-- A change of the status alone.
abbrev pub to_status : ClaimStatus → String → String → Change
to_status status actor reason = record {
  actor = actor;
  reason = reason;
  status = some status;
  stale_state = none;
  valid_to = none;
}

-- `for claim in claims: if test(claim): transition(claim, ...)`
unfoldable pub transition_each :
    Texts → ℕ → (ClaimRow → Bool) → (ClaimRow → Change) → Option ℕ → List ClaimRow → Db → Result Db
unfolding for_each
transition_each t now test change at = for_each (λ db row.
    let claim = refresh db row in
    let moved = transition t now db row.id (change claim) at in if test claim then moved else ok db)

-- The tests and the changes of the operations below.
abbrev pub unless_rejected : ClaimRow → Bool
unless_rejected c = not (is_rejected c.status)

abbrev pub unless_historical : ClaimRow → Bool
unless_historical c = not (is_historical c.status)

abbrev pub unless_closed : ClaimRow → Bool
unless_closed c = not (is_closed c.status)

abbrev pub forgetting : String → Change
forgetting actor =
    to_status ClaimStatus.historical actor
      "Memory forgotten; claim retained for historical reconstruction"

abbrev pub expiring : String → ℕ → ClaimRow → Change
expiring reason at c = record (to_status ClaimStatus.historical "system:expiry" reason) {
  valid_to = some (some (or_default c.valid_to at));
}

abbrev pub resetting : Change
resetting =
    to_status ClaimStatus.historical "manual:edit"
      "Candidate content was edited; prior extraction retained as history"

-- The value of a freshness state, as text.
abbrev state_text : ClaimStaleState → String
state_text ClaimStaleState.fresh = "fresh"
state_text ClaimStaleState.suspect = "suspect"
state_text ClaimStaleState.stale = "stale"
state_text ClaimStaleState.unknown = "unknown"

abbrev pub unless_marked : ClaimStaleState → ClaimRow → Bool
unless_marked stale_state c =
    not (same_stale_state c.stale_state stale_state)
    || (is_stale stale_state && not (is_stale_status c.status))

abbrev pub marking : ClaimStaleState → String → Change
marking stale_state actor = record {
  actor = actor;
  reason = "Freshness evaluation changed to " ++ state_text stale_state;
  status = if is_stale stale_state then some ClaimStatus.stale else none;
  stale_state = some stale_state;
  valid_to = none;
}

unfoldable pub reject_claims : Texts → ℕ → Db → ℕ → String → String → Result Db
unfolding transition_each
reject_claims t now db memory_id actor reason =
    transition_each t now unless_rejected (λ c. to_status ClaimStatus.rejected actor reason) none
      (claims_of db memory_id) db

unfoldable pub forget_claims : Texts → ℕ → Db → ℕ → String → Result Db
unfolding transition_each
forget_claims t now db memory_id actor =
    transition_each t now unless_historical (λ c. forgetting actor) none (claims_of db memory_id) db

unfoldable pub expire_claims : Texts → ℕ → Db → ℕ → String → ℕ → Result Db
unfolding transition_each
expire_claims t now db memory_id reason at =
    transition_each t now unless_closed (expiring reason at) (some at) (claims_of db memory_id) db

unfoldable pub mark_memory_stale : Texts → ℕ → Db → ℕ → ClaimStaleState → String → Result Db
unfolding transition_each
mark_memory_stale t now db memory_id stale_state actor =
    transition_each t now (unless_marked stale_state) (λ c. marking stale_state actor) none
      (claims_of db memory_id) db

unfoldable pub reset_claims :
    Services → ℕ → Db → MemoryRow → Option (List ClaimCandidate) → Result (Db × List ClaimRow)
unfolding transition_each
reset_claims s now db memory candidates = do
  db' ← transition_each s.texts now unless_closed (λ c. resetting) none (claims_of db memory.id) db
  ensure_claims s now db' memory candidates

-- `memory.status is not ACTIVE` for a memory of the two claims that is found.
abbrev pub is_unknown_or_active : Option MemoryRow → Bool
is_unknown_or_active none = true
is_unknown_or_active (some memory) = is_active memory.status

abbrev pub confirming : Texts → String → String → ClaimRow → Change
confirming t actor explanation other =
    to_status ClaimStatus.contested actor
      ("Manual conflict confirmation against claim " ++ t.id_text other.id ++ ": " ++ explanation)

unfoldable pub contest : Texts → ℕ → String → String → Db → ClaimRow × ClaimRow → Result Db
contest t now actor explanation db (row, other) =
    let claim = refresh db row in
    let moved = transition t now db claim.id (confirming t actor explanation other) none in
    if is_accepted claim.status then moved else ok db

-- What follows for two claims that were found and related.
unfoldable pub contest_both : Texts → ℕ → String → String → ClaimRow → ClaimRow → Db → Result Db
unfolding contest
contest_both t now actor explanation left right db =
    let contested =
      for_each (contest t now actor explanation) ((left, right) ∷ (right, left) ∷ []) db in
    if is_unknown_or_active (get_memory db left.memory_id)
      && is_unknown_or_active (get_memory db right.memory_id)
    then contested
    else ok db

unfoldable pub apply_manual_conflict_resolution :
    Texts → ℕ → Db → ℕ → ℕ → Bool → String → Option String → Result Db
unfolding contest_both
apply_manual_conflict_resolution t now db left_id right_id false actor rationale = ok db
apply_manual_conflict_resolution t now db left_id right_id true actor rationale = do
  left ← expect (get_claim db left_id) value_error
  right ← expect (get_claim db right_id) value_error
  let explanation = text_or rationale "Possible conflict manually confirmed"
  contest_both t now actor explanation left right
      (add_relation left right ClaimRelationType.contradicts RelationMethod.manual db)
