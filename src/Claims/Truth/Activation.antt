-- ===== src/Claims/Truth/Activation.antt =====
-- claims/truth.py: `activate_claims`.
use memory_os.Base.{
  ℕ, String, Bool, true, ◌&&◌, Option, none, some, List, keep, any, ◌==◌, or_default, if◌then◌else◌,
  is_none, Result, ok, ◌>>=◌, for_each,
}
use Prim.Native.String.{◌++◌}
use memory_os.Domain.{
  ConflictStrategy, ClaimStatus, ClaimRelationType, RelationMethod, is_accepted, is_contested,
  is_live, is_superseded, is_reject, is_supersede,
}
use memory_os.Store.{Db, MemoryRow, ClaimRow}
use memory_os.Claims.Canonical.{Texts}
use memory_os.Claims.Versioning.{Change, transition}
use memory_os.Claims.Truth.Services.{Services, refresh, text_or}
use memory_os.Claims.Truth.Relations.{claims_conflict, add_relation}
use memory_os.Claims.Truth.Ensure.{ensure_claims}
use memory_os.Claims.Truth.Lifecycle.{to_status, transition_each}

-- A transition of a loaded claim, if its status does not pass the test yet.
unfoldable pub move_unless :
    Texts → ℕ → (ClaimStatus → Bool) → (ClaimRow → Change) → ClaimRow → Db → Result Db
move_unless t now test change row db =
    let claim = refresh db row in
    let moved = transition t now db row.id (change claim) none in
    if test claim.status then ok db else moved

-- The changes of `activate_claims`.
abbrev pub accepting : Option String → String → Change
accepting rationale actor =
    to_status ClaimStatus.accepted actor (text_or rationale "Candidate accepted")

abbrev pub refusing : Option String → String → Change
refusing rationale actor =
    to_status ClaimStatus.rejected actor
      (text_or rationale "Candidate rejected during conflict resolution")

abbrev pub superseding : Texts → ℕ → Option String → String → ClaimRow → ClaimRow → Change
superseding t now rationale actor by c =
    record (to_status ClaimStatus.superseded actor
      (text_or rationale ("Superseded by claim " ++ t.id_text by.id))) {
        valid_to = some (some (or_default c.valid_to now));
      }

abbrev pub contesting : Texts → Option String → String → ClaimRow → Change
contesting t rationale actor other =
    to_status ClaimStatus.contested actor
      (text_or rationale ("Conflicts with claim " ++ t.id_text other.id))

abbrev pub relate :
    Option ConflictStrategy → ClaimRow → ClaimRow → ClaimRelationType → Db → Result Db
relate strategy row active kind db = ok (
    add_relation row active kind
      (if is_none strategy then RelationMethod.rule else RelationMethod.manual) db)

-- The active claim is superseded.
unfoldable pub supersede :
    Texts
    → ℕ
    → Option ConflictStrategy
    → Option String
    → String
    → ClaimRow
    → ClaimRow
    → Db
    → Result Db
unfolding move_unless
supersede t now strategy rationale actor row active db =
    move_unless t now is_superseded (superseding t now rationale actor row) active db
    >>= relate strategy row active ClaimRelationType.supersedes

-- Both claims are contested.
unfoldable pub keep_both :
    Texts
    → ℕ
    → Option ConflictStrategy
    → Option String
    → String
    → ClaimRow
    → ClaimRow
    → Db
    → Result Db
unfolding move_unless
keep_both t now strategy rationale actor row active db = do
  db1 ← move_unless t now is_contested (λ c. contesting t rationale actor active) row db
  db2 ← move_unless t now is_contested (λ c. contesting t rationale actor row) active db1
  relate strategy row active ClaimRelationType.contradicts db2

-- The loop body for one active claim.
unfoldable pub settle :
    Texts
    → ℕ
    → Option ConflictStrategy
    → Option String
    → String
    → ClaimRow
    → Db
    → ClaimRow
    → Result Db
unfolding supersede keep_both
settle t now strategy rationale actor row db active =
    let superseded = supersede t now strategy rationale actor row active db in
    let kept = keep_both t now strategy rationale actor row active db in
    let settled = if is_supersede strategy then superseded else kept in
    if claims_conflict t db (refresh db row) (refresh db active) then settled else ok db

unfoldable pub activate_claim :
    Texts
    → ℕ
    → Option ConflictStrategy
    → Option String
    → String
    → List ClaimRow
    → Db
    → ClaimRow
    → Result Db
unfolding settle
activate_claim t now strategy rationale actor active_claims db row = do
  db' ← move_unless t now is_accepted (λ c. accepting rationale actor) row db
  for_each (settle t now strategy rationale actor row) active_claims db'

-- The claims in force of the conflicting memories.
abbrev pub active_claims : List MemoryRow → Db → List ClaimRow
active_claims conflicts db =
    keep (λ c. any (λ (m : MemoryRow). m.id == c.memory_id) conflicts && is_live c.status) db.claims

-- What follows once the claims of the memory are there.
unfoldable pub resolve_claims :
    Texts
    → ℕ
    → Option ConflictStrategy
    → List MemoryRow
    → Option String
    → String
    → List ClaimRow
    → Db
    → Result Db
unfolding activate_claim transition_each
resolve_claims t now strategy conflicts rationale actor claims db =
    let rejecting =
      transition_each t now (λ c. true) (λ c. refusing rationale actor) none claims db in
    let activating =
      for_each (activate_claim t now strategy rationale actor (active_claims conflicts db)) claims
        db in
    if is_reject strategy then rejecting else activating

unfoldable pub activate_claims :
    Services
    → ℕ
    → Db
    → MemoryRow
    → Option ConflictStrategy
    → List MemoryRow
    → Option String
    → String
    → Result Db
unfolding resolve_claims
activate_claims s now db memory strategy conflicts rationale actor = do
  (db', claims) ← ensure_claims s now db memory none
  resolve_claims s.texts now strategy conflicts rationale actor claims db'
