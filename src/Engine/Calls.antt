-- ===== src/Engine/Calls.antt =====
-- engine/service.py: the calls of `MemoryService` that change memories, and domain/schemas.py: the
-- checks on a new memory.
use memory_os.Base.{
  ℕ, ◌+◌, String, str_eq, Bool, false, ◌&&◌, ◌||◌, not, Option, none, some, List, [], ◌∷◌, is_none,
  is_empty, leb, or_default, if◌then◌else◌, Result, ok, expect, require, ◌>>=◌, ◌>>◌, for_each,
  not_found, invalid_transition, conflict_detected, value_error,
}
use memory_os.Domain.{
  ScopeType, MemoryStatus, MemoryType, CreatedBy, ConflictStrategy, PossibleConflictStatus,
  is_active, is_candidate, is_reject, is_supersede, is_keep_both, is_terminal, is_manual, is_task,
}
use memory_os.Store.{
  Db, MemoryRow, SourceRow, PossibleConflictRow, supersedes, alternative_to, Action, get_memory,
  get_possible_conflict, update_possible_conflict,
}
use memory_os.Claims.Extraction.{ClaimCandidate}
use memory_os.Claims.Truth.Services.{audit_event, text_or}
use memory_os.Claims.Truth.Ensure.{ensure_claims}
use memory_os.Claims.Truth.Lifecycle.{
  reject_claims, forget_claims, reset_claims, apply_manual_conflict_resolution,
}
use memory_os.Claims.Truth.Activation.{activate_claims}
use memory_os.Engine.{Engine, with_status, set_memory, session, expire_due, find_conflicts}

pub record MemoryCreate : Type 0 where
  pub scope_type : ScopeType
  pub scope_key : String
  pub memory_type : MemoryType
  pub category : String
  pub subject : Option String
  pub key : Option String
  pub title : String
  pub content : String
  pub confidence : ℕ
  pub importance : ℕ
  pub valid_from : Option ℕ
  pub valid_to : Option ℕ
  pub ttl_seconds : Option ℕ
  pub created_by : CreatedBy
  pub claim_candidates : List ClaimCandidate
  pub excerpt : String
  pub activate_immediately : Bool

-- `valid_to <= valid_from`, where both are given.
abbrev pub is_reversed : Option ℕ → Option ℕ → Bool
is_reversed (some a) (some b) = leb b a
is_reversed _ _ = false

-- `MemoryCreate.validate_activation_and_validity`
unfoldable pub validate_create : MemoryCreate → Result MemoryCreate
validate_create p = do
  require (not (p.activate_immediately && not (is_manual p.created_by))) value_error
  require (not (is_reversed p.valid_from p.valid_to)) value_error
  ok (
      if is_task p.scope_type && is_none p.ttl_seconds
      then record p { ttl_seconds = some 604_800 }
      else p)

-- `f(value) if value else None`
unfoldable pub given : (String → String) → Option String → Option String
given f none = none
given f (some s) = if str_eq s "" then none else some (f s)

-- The row and the source of `propose`.
unfoldable pub new_memory : Engine → ℕ → ℕ → MemoryCreate → MemoryRow
unfolding given
new_memory e now id p =
    let t = e.truth.texts in
    let source : SourceRow = record { id = id + 1; excerpt = e.redact_excerpt p.excerpt } in
    record {
      id = id;
      scope_type = p.scope_type;
      scope_key = p.scope_key;
      memory_type = p.memory_type;
      category = e.lower (t.strip p.category);
      subject = given t.strip p.subject;
      key = given (λ s. e.lower (t.strip s)) p.key;
      title = t.strip p.title;
      content = t.strip (e.redact p.content);
      status = if p.activate_immediately then MemoryStatus.active else MemoryStatus.candidate;
      confidence = p.confidence;
      importance = p.importance;
      valid_from = p.valid_from;
      valid_to = p.valid_to;
      ttl_seconds = p.ttl_seconds;
      supersedes_id = none;
      created_at = now;
      updated_at = now;
      created_by = p.created_by;
      sources = source ∷ [];
    }

-- A memory that is written active must not conflict.
unfoldable pub check_activation : Engine → ℕ → MemoryRow → Db → Result Db
check_activation e now memory db =
    let checked =
      find_conflicts e now db memory >>= λ r. require (is_empty r.1) conflict_detected >> ok r.0 in
    if is_active memory.status then checked else ok db

unfoldable pub propose : Engine → ℕ → MemoryCreate → String → Db → Result (Db × ℕ)
unfolding new_memory check_activation
propose e now payload actor db = do
  p ← validate_create payload
  let memory = new_memory e now db.next_id p
  let db1 = record db { memories = memory ∷ db.memories; next_id = db.next_id + 2 }
  (db2, claims) ← ensure_claims e.truth now db1 memory (some p.claim_candidates)
  db3 ← check_activation e now memory db2
  let action = if is_active memory.status then Action.create_active else Action.propose
  ok (audit_event action memory.id actor now db3, memory.id)

-- The fields that the caller set; `content` may be set to null.
pub record MemoryUpdate : Type 0 where
  pub title : Option String
  pub content : Option (Option String)
  pub category : Option String
  pub subject : Option (Option String)
  pub key : Option (Option String)
  pub confidence : Option ℕ
  pub importance : Option ℕ
  pub valid_from : Option (Option ℕ)
  pub valid_to : Option (Option ℕ)
  pub ttl_seconds : Option (Option ℕ)

-- `str(changes["content"])`
abbrev content_text : Option String → String
content_text none = "None"
content_text (some s) = s

unfoldable pub edited : Engine → MemoryUpdate → MemoryRow → MemoryRow
edited e u memory = record memory {
  title = or_default u.title memory.title;
  content = elim u.content [
    | none ↦ memory.content
    | some content ↦ e.redact (content_text content)
  ];
  category = or_default u.category memory.category;
  subject = or_default u.subject memory.subject;
  key = or_default u.key memory.key;
  confidence = or_default u.confidence memory.confidence;
  importance = or_default u.importance memory.importance;
  valid_from = or_default u.valid_from memory.valid_from;
  valid_to = or_default u.valid_to memory.valid_to;
  ttl_seconds = or_default u.ttl_seconds memory.ttl_seconds;
}

abbrev pub changes_text : MemoryUpdate → Bool
changes_text u = not (
    is_none u.title
    && is_none u.content
    && is_none u.category
    && is_none u.subject
    && is_none u.key)

-- The new first source, and the claims extracted again.
unfoldable pub replace_source : Engine → ℕ → MemoryRow → Db → Result Db
replace_source e now memory db = do
  let source : SourceRow = record { id = db.next_id; excerpt = memory.content }
  let sourced = record memory { sources = source ∷ memory.sources }
  let db1 = record (set_memory memory.id (λ m. sourced) db) { next_id = db.next_id + 1 }
  reset_claims e.truth now db1 sourced none >>= λ r. ok r.0

unfoldable pub update : Engine → ℕ → ℕ → MemoryUpdate → String → Db → Result (Db × ℕ)
unfolding edited replace_source
update e now memory_id u actor db = do
  memory ← expect (get_memory db memory_id) not_found
  require (is_candidate memory.status) invalid_transition
  let row = edited e u memory
  require (not (is_reversed row.valid_from row.valid_to)) value_error
  let db1 = set_memory memory_id (λ m. row) db
  let replaced = replace_source e now row db1
  db2 ← if changes_text u then replaced else ok db1
  let db3 = set_memory memory_id (λ m. record m { updated_at = now }) db2
  ok (audit_event Action.edit memory_id actor now db3, memory_id)

-- The loop of `confirm` for SUPERSEDE.
unfoldable pub supersede_memory : ℕ → ℕ → String → Db → MemoryRow → Result Db
supersede_memory now by actor db current =
    let db1 = set_memory current.id (with_status MemoryStatus.superseded) db in
    let db2 = record db1 { memory_relations = supersedes by current.id ∷ db1.memory_relations } in
    ok (audit_event Action.supersede current.id actor now db2)

unfoldable pub supersede_all : ℕ → ℕ → String → List MemoryRow → Db → Result Db
unfolding supersede_memory
supersede_all now by actor [] db = ok db
supersede_all now by actor (first ∷ rest) db =
    for_each (supersede_memory now by actor) (first ∷ rest)
      (set_memory by (λ m. record m { supersedes_id = some first.id }) db)

-- The loop of `confirm` for KEEP_BOTH.
unfoldable pub keep_memory : ℕ → Db → MemoryRow → Result Db
keep_memory by db current =
    ok (record db { memory_relations = alternative_to by current.id ∷ db.memory_relations })

unfoldable pub relate_memories :
    ℕ → Option ConflictStrategy → ℕ → String → List MemoryRow → Db → Result Db
unfolding supersede_all keep_memory
relate_memories now strategy by actor conflicts db =
    let superseded = supersede_all now by actor conflicts db in
    let kept = for_each (keep_memory by) conflicts db in
    if is_supersede strategy then superseded else if is_keep_both strategy then kept else ok db

-- The two ends of `confirm`.
unfoldable pub reject_candidate : Engine → ℕ → ℕ → String → Option String → Db → Result Db
reject_candidate e now memory_id actor rationale db = do
  let db1 = set_memory memory_id (with_status MemoryStatus.rejected) db
  db2 ←
      reject_claims e.truth.texts now db1 memory_id actor
        (text_or rationale "Rejected during conflict resolution")
  ok (audit_event Action.reject memory_id actor now db2)

unfoldable pub activate :
    Engine
    → ℕ
    → MemoryRow
    → Option ConflictStrategy
    → List MemoryRow
    → String
    → Option String
    → Db
    → Result Db
unfolding relate_memories
activate e now memory strategy conflicts actor rationale db = do
  db1 ← relate_memories now strategy memory.id actor conflicts db
  let db2 =
      set_memory memory.id (λ m. record m { status = MemoryStatus.active; updated_at = now }) db1
  let loaded = or_default (get_memory db2 memory.id) memory
  db3 ← activate_claims e.truth now db2 loaded strategy conflicts rationale actor
  ok (audit_event Action.confirm memory.id actor now db3)

unfoldable pub confirm :
    Engine → ℕ → ℕ → Option ConflictStrategy → String → Option String → Db → Result (Db × ℕ)
unfolding reject_candidate activate
confirm e now memory_id strategy actor rationale db = do
  db1 ← expire_due e now db
  memory ← expect (get_memory db1 memory_id) not_found
  require (is_candidate memory.status) invalid_transition
  (db2, conflicts) ← find_conflicts e now db1 memory
  require (is_empty conflicts || not (is_none strategy)) conflict_detected
  let rejected = reject_candidate e now memory_id actor rationale db2
  let activated = activate e now memory strategy conflicts actor rationale db2
  db3 ← if is_reject strategy then rejected else activated
  ok (db3, memory_id)

unfoldable pub reject : Engine → ℕ → ℕ → String → Db → Result (Db × ℕ)
reject e now memory_id actor db = do
  memory ← expect (get_memory db memory_id) not_found
  require (is_candidate memory.status) invalid_transition
  let db1 = set_memory memory_id (with_status MemoryStatus.rejected) db
  db2 ← reject_claims e.truth.texts now db1 memory_id actor "Candidate rejected"
  ok (audit_event Action.reject memory_id actor now db2, memory_id)

unfoldable pub forget : Engine → ℕ → ℕ → String → Db → Result (Db × ℕ)
forget e now memory_id actor db = do
  memory ← expect (get_memory db memory_id) not_found
  require (not (is_terminal memory.status)) invalid_transition
  let db1 = set_memory memory_id (with_status MemoryStatus.forgotten) db
  db2 ← forget_claims e.truth.texts now db1 memory_id actor
  ok (audit_event Action.forget memory_id actor now db2, memory_id)

unfoldable pub get : Engine → ℕ → ℕ → Db → Result (Db × ℕ)
get e now memory_id db = do
  db1 ← expire_due e now db
  memory ← expect (get_memory db1 memory_id) not_found
  ok (db1, memory_id)

-- The assignments of `resolve_possible_conflict`.
abbrev pub decided : Bool → ℕ → String → PossibleConflictRow → PossibleConflictRow
decided confirmed now actor row = record row {
  status = if confirmed then PossibleConflictStatus.confirmed else PossibleConflictStatus.dismissed;
  resolved_at = some now;
  resolved_by = some actor;
}

unfoldable pub resolve_possible_conflict :
    Engine → ℕ → ℕ → Bool → String → Option String → Db → Result (Db × ℕ)
resolve_possible_conflict e now conflict_id confirmed actor rationale db = do
  row ← expect (get_possible_conflict db conflict_id) not_found
  require (is_none row.resolved_at) invalid_transition
  let rows =
      update_possible_conflict conflict_id (decided confirmed now actor) db.possible_conflicts
  db1 ←
      apply_manual_conflict_resolution e.truth.texts now (record db { possible_conflicts = rows })
        row.left_claim_id row.right_claim_id confirmed actor rationale
  ok (audit_event Action.possible_conflict_resolved conflict_id actor now db1, conflict_id)

-- A call of the service with its arguments, and what it does to the database.
pub data Call : Type 0 where
  propose_call : MemoryCreate → Call
  update_call : ℕ → MemoryUpdate → Call
  confirm_call : ℕ → Option ConflictStrategy → Option String → Call
  reject_call forget_call get_call : ℕ → Call
  resolve_call : ℕ → Bool → Option String → Call

unfoldable pub body : Engine → ℕ → String → Call → Db → Result (Db × ℕ)
unfolding propose update confirm reject forget get resolve_possible_conflict
body e now actor (propose_call payload) = propose e now payload actor
body e now actor (update_call id u) = update e now id u actor
body e now actor (confirm_call id strategy rationale) = confirm e now id strategy actor rationale
body e now actor (reject_call id) = reject e now id actor
body e now actor (forget_call id) = forget e now id actor
body e now actor (get_call id) = get e now id
body e now actor (resolve_call id confirmed rationale) =
    resolve_possible_conflict e now id confirmed actor rationale

-- Calls in order, each at its time, by its actor and in a session of its own.
unfoldable pub run : Engine → List (ℕ × String × Call) → Db → Db
unfolding session body
run e [] db = db
run e ((now, actor, call) ∷ rest) db = run e rest (session (body e now actor call) db).0
