-- ===== src/Claims/Truth/Ensure.antt =====
-- claims/truth.py: `ensure_claims` and `find_semantic_conflict_memories`.
use memory_os.Base.{
  ℕ, ◌+◌, ◌*◌, String, Bool, true, false, ◌&&◌, not, Option, none, some, List, [], ◌∷◌, ◌++◌, map,
  keep, any, ltb, ◌==◌, or_default, if◌then◌else◌, str_eq, Result, ok, expect, ◌>>=◌, key_error,
  for_each,
}
use memory_os.Domain.{ClaimStatus, ClaimStaleState, is_active, is_closed, is_live, same_scope}
use memory_os.Store.{
  Db, MemoryRow, SourceRow, ClaimRow, ClaimEvidenceRow, JsonValue, text, Action, get_entity,
  get_memory,
}
use memory_os.Entities.{resolve}
use memory_os.Claims.Extraction.{ClaimCandidate, literal, entity, validate_claim_candidates}
use memory_os.Claims.Predicates.{classify_claim_values}
use memory_os.Claims.Versioning.{record_initial}
use memory_os.Claims.Truth.Services.{Services, claims_of, audit_event}
use memory_os.Claims.Truth.Relations.{value_of, is_conflict_decision}

-- `memory.sources[0]`
abbrev pub first_source : MemoryRow → Option SourceRow
first_source memory = elim memory.sources [ [] ↦ none | source ∷ rest ↦ some source ]

abbrev pub evidence_text : MemoryRow → String
evidence_text memory = elim (first_source memory) [
  | none ↦ memory.content
  | some source ↦ source.excerpt
]

-- The columns that depend on the kind of object.
unfoldable pub resolve_object :
    Services → MemoryRow → ClaimCandidate → Db → Result (Db × Option ℕ × JsonValue)
resolve_object s memory candidate db = elim candidate.object [
  | literal value ↦ ok (db, none, value)
  | entity hint entity_type ↦
      resolve s.texts db memory.scope_type memory.scope_key
        (or_default entity_type candidate.subject_type) hint [] none
      >>= λ r. ok (r.0, some r.1.id, text r.1.normalized_name)
]

-- The evidence row of a new claim, if its memory has a source.
unfoldable pub add_evidence : MemoryRow → ClaimRow → ClaimCandidate → Db → Db
add_evidence memory claim candidate db = elim (first_source memory) [
  | none ↦ db
  | some source ↦
      let row : ClaimEvidenceRow = record {
        claim_id = claim.id;
        source_id = source.id;
        evidence_excerpt = candidate.evidence_span.quote;
      } in
      record db { evidence = row ∷ db.evidence }
]

-- The row of a candidate.
abbrev pub new_claim : ℕ → MemoryRow → ClaimCandidate → ℕ → ℕ → Option ℕ → JsonValue → ClaimRow
new_claim now memory candidate id subject_id object_entity_id object_value = record {
  id = id;
  memory_id = memory.id;
  subject_entity_id = subject_id;
  predicate = candidate.predicate;
  object_entity_id = object_entity_id;
  object_value = object_value;
  polarity = candidate.polarity;
  confidence = candidate.confidence;
  status = if is_active memory.status then ClaimStatus.accepted else ClaimStatus.candidate;
  valid_from = memory.valid_from;
  valid_to = memory.valid_to;
  recorded_at = now;
  stale_state = ClaimStaleState.unknown;
}

-- The loop body of `ensure_claims`.
unfoldable pub create_claim :
    Services → ℕ → MemoryRow → Db × List ClaimRow → ClaimCandidate → Result (Db × List ClaimRow)
unfolding resolve_object add_evidence
create_claim s now memory (db, claims) candidate = do
  (db1, subject) ←
      resolve s.texts db memory.scope_type memory.scope_key candidate.subject_type
        candidate.subject_hint [] none
  (db2, object_entity_id, object_value) ← resolve_object s memory candidate db1
  let claim = new_claim now memory candidate db2.next_id subject.id object_entity_id object_value
  let db3 = record db2 { claims = db2.claims ++ claim ∷ []; next_id = db2.next_id + 1 }
  (db4, version) ←
      record_initial s.texts db3 claim "system:claim-extractor" "Evidence-bound claim extracted"
        none
  ok (add_evidence memory claim candidate db4, claims ++ claim ∷ [])

-- The claims of the memory that are still in force.
unfoldable pub existing_claims : Db → MemoryRow → List ClaimRow
unfolding claims_of
existing_claims db memory = keep (λ c. not (is_closed c.status)) (claims_of db memory.id)

-- The rest of `ensure_claims`, for a memory without such claims.
unfoldable pub extract_claims :
    Services → ℕ → Db → MemoryRow → Option (List ClaimCandidate) → Result (Db × List ClaimRow)
unfolding create_claim
extract_claims s now db memory candidates =
    let source = evidence_text memory in
    let extracted = s.extract memory source in
    let proposed : List ClaimCandidate = elim (or_default candidates []) [
      | [] ↦ extracted
      | c ∷ cs ↦ c ∷ cs
    ] in
    let checked = validate_claim_candidates s.texts proposed source in
    let db' : Db = elim checked.1 [
      | [] ↦ db
      | c ∷ cs ↦ audit_event Action.claim_extraction_rejected memory.id "system" now db
    ] in
    for_each (create_claim s now memory) checked.0 (db', [])

unfoldable pub ensure_claims :
    Services → ℕ → Db → MemoryRow → Option (List ClaimCandidate) → Result (Db × List ClaimRow)
unfolding existing_claims extract_claims
ensure_claims s now db memory candidates = elim (existing_claims db memory) [
  | [] ↦ extract_claims s now db memory candidates
  | c ∷ cs ↦ ok (db, c ∷ cs)
]

-- A time to live in microseconds.
abbrev pub seconds : ℕ → ℕ
seconds n = n * 1_000_000

-- The claims of other active memories of the scope that are in force now.
unfoldable pub is_active_claim : ℕ → Db → MemoryRow → ClaimRow → Bool
is_active_claim now db candidate claim = elim (get_memory db claim.memory_id) [
  | none ↦ false
  | some memory ↦
      same_scope memory.scope_type candidate.scope_type
      && str_eq memory.scope_key candidate.scope_key
      && is_active memory.status
      && not (memory.id == candidate.id)
      && is_live claim.status
      && (elim claim.valid_to [ none ↦ true | some end ↦ ltb now end ])
      && (elim memory.ttl_seconds [
        | none ↦ true
        | some ttl ↦ ltb now (memory.created_at + seconds ttl)
      ])
]

-- `conflicts[memory.id] = memory`
abbrev pub add_memory : MemoryRow → List MemoryRow → List MemoryRow
add_memory memory rows = if any (λ row. row.id == memory.id) rows then rows else rows ++ memory ∷ []

-- The loop body: one new claim against one active claim.
unfoldable pub compare_pair :
    Services → Db × List MemoryRow → ClaimRow × ClaimRow → Result (Db × List MemoryRow)
unfolding is_conflict_decision
compare_pair s (db, conflicts) (new, old) = do
  new_subject ← expect (get_entity db new.subject_entity_id) key_error
  old_subject ← expect (get_entity db old.subject_entity_id) key_error
  let decision =
      classify_claim_values s.texts (value_of db new_subject new) (value_of db old_subject old)
  let outcome = is_conflict_decision s db new old decision
  let found : List MemoryRow = elim (get_memory db old.memory_id) [
    | none ↦ conflicts
    | some memory ↦ add_memory memory conflicts
  ]
  ok (outcome.0, if outcome.1 then found else conflicts)

abbrev pub pairs : List ClaimRow → List ClaimRow → List (ClaimRow × ClaimRow)
pairs [] olds = []
pairs (new ∷ news) olds = map (λ old. (new, old)) olds ++ pairs news olds

unfoldable pub find_semantic_conflict_memories :
    Services → ℕ → Db → MemoryRow → Result (Db × List MemoryRow)
unfolding compare_pair
find_semantic_conflict_memories s now db candidate = do
  (db', new_claims) ← ensure_claims s now db candidate none
  let old_claims = keep (is_active_claim now db' candidate) db'.claims
  for_each (compare_pair s) (pairs new_claims old_claims) (db', [])
