-- ===== src/Store.antt =====
-- db/models.py: the tables as lists of rows. Each write is seen by the reads after it. Rows of
-- `versions` and `audit` stand newest first, and every reader selects or sorts them itself.
-- A UUID is a number not used before; a time is an instant in UTC; a score is in millionths.
use memory_os.Base.{ℕ, String, Option, List, row_at, update_at}
use memory_os.Domain.{
  ScopeType, EntityType, MemoryStatus, MemoryType, CreatedBy, ClaimPolarity, ClaimStatus,
  ClaimStaleState, ClaimRelationType, RelationMethod, MemoryTemperature, PossibleConflictStatus,
  FeedbackValue,
}

-- A JSON value: a string, or any other value by its canonical text.
pub data JsonValue : Type 0 where
  text other : String → JsonValue

pub record SourceRow : Type 0 where
  pub id : ℕ
  pub excerpt : String

pub record MemoryRow : Type 0 where
  pub id : ℕ
  pub scope_type : ScopeType
  pub scope_key : String
  pub memory_type : MemoryType
  pub category : String
  pub subject : Option String
  pub key : Option String
  pub title : String
  pub content : String
  pub status : MemoryStatus
  pub confidence : ℕ
  pub importance : ℕ
  pub valid_from : Option ℕ
  pub valid_to : Option ℕ
  pub ttl_seconds : Option ℕ
  pub supersedes_id : Option ℕ
  pub created_at : ℕ
  pub updated_at : ℕ
  pub created_by : CreatedBy
  pub sources : List SourceRow

pub record EntityRow : Type 0 where
  pub id : ℕ
  pub scope_type : ScopeType
  pub scope_key : String
  pub entity_type : EntityType
  pub canonical_name : String
  pub normalized_name : String
  pub aliases : List String
  pub stable_external_key : Option String
  pub redirect_to_id : Option ℕ

pub record EntityMergeEventRow : Type 0 where
  pub from_entity_id : ℕ
  pub to_entity_id : ℕ
  pub actor : String

pub record ClaimRow : Type 0 where
  pub id : ℕ
  pub memory_id : ℕ
  pub subject_entity_id : ℕ
  pub predicate : String
  pub object_entity_id : Option ℕ
  pub object_value : JsonValue
  pub polarity : ClaimPolarity
  pub confidence : ℕ
  pub status : ClaimStatus
  pub valid_from : Option ℕ
  pub valid_to : Option ℕ
  pub recorded_at : ℕ
  pub stale_state : ClaimStaleState

pub record ClaimEvidenceRow : Type 0 where
  pub claim_id : ℕ
  pub source_id : ℕ
  pub evidence_excerpt : String

pub record ClaimIdentityRow : Type 0 where
  pub id : ℕ
  pub scope_type : ScopeType
  pub scope_key : String
  pub subject_entity_id : ℕ
  pub canonical_subject : String
  pub canonical_predicate : String
  pub stable_identity : String
  pub created_at : ℕ

pub record ClaimVersionRow : Type 0 where
  pub id : ℕ
  pub claim_id : ℕ
  pub identity_id : ℕ
  pub memory_id : ℕ
  pub version_number : ℕ
  pub object_entity_id : Option ℕ
  pub object_value : JsonValue
  pub polarity : ClaimPolarity
  pub valid_from : Option ℕ
  pub valid_to : Option ℕ
  pub transaction_from : ℕ
  pub transaction_to : Option ℕ
  pub status : ClaimStatus
  pub stale_state : ClaimStaleState
  pub confidence : ℕ
  pub reason : String
  pub actor : String

pub record ClaimRelationRow : Type 0 where
  pub from_claim_id : ℕ
  pub to_claim_id : ℕ
  pub relation_type : ClaimRelationType
  pub method : RelationMethod

pub record PossibleConflictRow : Type 0 where
  pub id : ℕ
  pub left_claim_id : ℕ
  pub right_claim_id : ℕ
  pub status : PossibleConflictStatus
  pub resolved_at : Option ℕ
  pub resolved_by : Option String

pub record MemoryFeedbackRow : Type 0 where
  pub memory_id : ℕ
  pub helpful : FeedbackValue

-- `relations`: `supersedes` and `alternative_to` between memories.
pub data MemoryRelation : Type 0 where
  supersedes alternative_to : ℕ → ℕ → MemoryRelation

pub record MemoryHealthRow : Type 0 where
  pub memory_id : ℕ
  pub temperature : MemoryTemperature
  pub pre_archive_temperature : Option MemoryTemperature
  pub health_score : ℕ
  pub retrieval_count : ℕ
  pub last_retrieved_at : Option ℕ
  pub archived_at : Option ℕ
  pub evaluated_at : ℕ

pub data Action : Type 0 where
  create_active propose edit confirm reject supersede forget expire : Action
  health_archive health_restore possible_conflict_resolved : Action
  claim_extraction_rejected source_anchor_create memory_refresh memory_feedback : Action

pub record AuditEventRow : Type 0 where
  pub action : Action
  pub entity_id : ℕ
  pub actor : String
  pub timestamp : ℕ

pub record Db : Type 0 where
  pub memories : List MemoryRow
  pub entities : List EntityRow
  pub merge_events : List EntityMergeEventRow
  pub claims : List ClaimRow
  pub evidence : List ClaimEvidenceRow
  pub identities : List ClaimIdentityRow
  pub versions : List ClaimVersionRow
  pub claim_relations : List ClaimRelationRow
  pub possible_conflicts : List PossibleConflictRow
  pub memory_relations : List MemoryRelation
  pub feedback : List MemoryFeedbackRow
  pub health : List MemoryHealthRow
  pub audit : List AuditEventRow
  pub next_id : ℕ

-- `session.get`
unfoldable pub get_memory : Db → ℕ → Option MemoryRow
get_memory db id = row_at (λ row. row.id) id db.memories

unfoldable pub get_entity : Db → ℕ → Option EntityRow
get_entity db id = row_at (λ row. row.id) id db.entities

unfoldable pub get_claim : Db → ℕ → Option ClaimRow
get_claim db id = row_at (λ row. row.id) id db.claims

unfoldable pub get_possible_conflict : Db → ℕ → Option PossibleConflictRow
get_possible_conflict db id = row_at (λ row. row.id) id db.possible_conflicts

unfoldable pub get_health : Db → ℕ → Option MemoryHealthRow
get_health db id = row_at (λ row. row.memory_id) id db.health

-- An assignment to the columns of one row.
unfoldable pub update_memory : ℕ → (MemoryRow → MemoryRow) → List MemoryRow → List MemoryRow
update_memory = update_at (λ row. row.id)

unfoldable pub update_entity : ℕ → (EntityRow → EntityRow) → List EntityRow → List EntityRow
update_entity = update_at (λ row. row.id)

unfoldable pub update_claim : ℕ → (ClaimRow → ClaimRow) → List ClaimRow → List ClaimRow
update_claim = update_at (λ row. row.id)

unfoldable pub update_health :
    ℕ → (MemoryHealthRow → MemoryHealthRow) → List MemoryHealthRow → List MemoryHealthRow
update_health = update_at (λ row. row.memory_id)

unfoldable pub update_possible_conflict :
    ℕ
    → (PossibleConflictRow → PossibleConflictRow)
    → List PossibleConflictRow
    → List PossibleConflictRow
update_possible_conflict = update_at (λ row. row.id)
