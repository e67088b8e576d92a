-- ===== src/Engine.antt =====
-- engine/service.py: `MemoryService`, and db/session.py: the transaction around each call.
pub mod Calls
pub mod Statuses
pub mod Keeps
pub mod Timelines
pub mod Knowledge
pub mod Lifecycle
use memory_os.Base.{
  ℕ, ◌+◌, String, Bool, true, false, ◌&&◌, ◌||◌, not, Option, none, some, List, [], ◌∷◌, ◌++◌, any,
  keep, is_none, leb, ◌==◌, or_default, if◌then◌else◌, str_eq, Result, ok, raise, expect, require,
  ◌>>=◌, ◌>>◌, for_each, not_found, invalid_transition, conflict_detected, is_empty,
}
use memory_os.Domain.{
  ScopeType, MemoryStatus, MemoryType, CreatedBy, is_active, is_candidate, same_scope,
}
use memory_os.Store.{
  Db, MemoryRow, SourceRow, Action, get_memory, update_memory, get_possible_conflict,
}
use memory_os.Claims.Canonical.{Texts}
use memory_os.Claims.Extraction.{ClaimCandidate}
use memory_os.Claims.Truth.Services.{Services, audit_event}
use memory_os.Claims.Truth.Ensure.{seconds, add_memory, find_semantic_conflict_memories}
use memory_os.Claims.Truth.Lifecycle.{expire_claims}

-- The collaborators. `redact` and `redact_excerpt` give the text that `redact_secrets` leaves;
-- `normalized_key` is the `re.sub` of `_normalized_key`, lowered and stripped of `.`.
pub record Engine : Type 0 where
  pub truth : Services
  pub redact : String → String
  pub redact_excerpt : String → String
  pub lower : String → String
  pub normalized_key : String → String

-- What a session leaves: the writes of a body that returned, none of one that raised.
abbrev pub settled {ℓ} : {A : Type ℓ} → Db → Result (Db × A) → Db × Result A
settled db (ok r) = (r.0, ok r.1)
settled db (raise e) = (db, raise e)

-- `Database.session`: commit, or roll back and raise.
unfoldable pub session {ℓ} : {A : Type ℓ} → (Db → Result (Db × A)) → Db → Db × Result A
session body db = settled db (body db)

-- An assignment to the status.
abbrev pub with_status : MemoryStatus → MemoryRow → MemoryRow
with_status status memory = record memory { status = status }

unfoldable pub set_memory : ℕ → (MemoryRow → MemoryRow) → Db → Db
set_memory id f db = record db { memories = update_memory id f db.memories }

abbrev is_text : Option String → Bool
is_text none = false
is_text (some s) = not (str_eq s "")

unfoldable pub semantic_key : Engine → MemoryRow → String
semantic_key e memory = e.normalized_key (
    if is_text memory.key
    then or_default memory.key ""
    else if is_text memory.subject
    then or_default memory.subject ""
    else memory.title)

-- The test of `_expire_due` on a memory that is active or a candidate.
unfoldable pub is_due : ℕ → MemoryRow → Bool
is_due now memory =
    (is_active memory.status || is_candidate memory.status)
    && ((elim memory.valid_to [ none ↦ false | some end ↦ leb end now ])
        || (elim memory.ttl_seconds [
          | none ↦ false
          | some ttl ↦ leb (memory.created_at + seconds ttl) now
        ]))

abbrev pub expiry_reason : ℕ → MemoryRow → String
expiry_reason now memory = elim memory.valid_to [
  | none ↦ "Memory expired by ttl"
  | some end ↦ if leb end now then "Memory expired by valid_to" else "Memory expired by ttl"
]

unfoldable pub expire_memory : Engine → ℕ → Db → MemoryRow → Result Db
unfolding set_memory
expire_memory e now db memory = do
  let db1 = set_memory memory.id (with_status MemoryStatus.expired) db
  db2 ← expire_claims e.truth.texts now db1 memory.id (expiry_reason now memory) now
  ok (audit_event Action.expire memory.id "system" now db2)

-- The expiries are seen by the searches of the same call, which the code does not flush them for.
unfoldable pub expire_due : Engine → ℕ → Db → Result Db
unfolding is_due expire_memory
expire_due e now db = for_each (expire_memory e now) (keep (is_due now) db.memories) db

-- `{row.id: row for row in rows}.values()`
abbrev pub by_id : List MemoryRow → List MemoryRow → List MemoryRow
by_id seen [] = seen
by_id seen (row ∷ rest) = by_id (add_memory row seen) rest

-- The active memories of the scope with the same key.
unfoldable pub exact_conflicts : Engine → Db → MemoryRow → List MemoryRow
unfolding semantic_key
exact_conflicts e db candidate =
    keep
      (λ row.
        same_scope row.scope_type candidate.scope_type
        && str_eq row.scope_key candidate.scope_key
        && is_active row.status
        && not (row.id == candidate.id)
        && str_eq (semantic_key e row) (semantic_key e candidate))
      db.memories

unfoldable pub find_conflicts : Engine → ℕ → Db → MemoryRow → Result (Db × List MemoryRow)
unfolding exact_conflicts
find_conflicts e now db candidate = do
  let exact = exact_conflicts e db candidate
  (db', semantic) ← find_semantic_conflict_memories e.truth now db candidate
  ok (db', by_id [] (exact ++ semantic))
