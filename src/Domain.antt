-- ===== src/Domain.antt =====
-- The enumerations of domain/schemas.py and context/atoms.py, and the tests on them.
use memory_os.Base.{ℕ, Bool, true, false, ◌||◌, ◌==◌, Option, some}

pub data ScopeType : Type 0 where
  user workspace repository branch task : ScopeType

pub data MemoryStatus : Type 0 where
  candidate active superseded expired forgotten rejected : MemoryStatus

pub data MemoryType : Type 0 where
  semantic episodic procedural preference project working : MemoryType

pub data CreatedBy : Type 0 where
  manual agent extractor importer : CreatedBy

pub data ConflictStrategy : Type 0 where
  supersede keep_both reject : ConflictStrategy

pub data EntityType : Type 0 where
  project repository file symbol dependency service : EntityType
  database tool person concept other_entity : EntityType

pub data ClaimPolarity : Type 0 where
  positive negative : ClaimPolarity

pub data ClaimStatus : Type 0 where
  candidate accepted contested superseded stale historical rejected : ClaimStatus

pub data ClaimStaleState : Type 0 where
  fresh suspect stale unknown : ClaimStaleState

pub data FreshnessState : Type 0 where
  fresh moved suspect stale unknown : FreshnessState

pub data ClaimRelationType : Type 0 where
  contradicts supersedes : ClaimRelationType

pub data RelationMethod : Type 0 where
  rule model_judge manual : RelationMethod

pub data TruthState : Type 0 where
  resolved contested stale unknown : TruthState

pub data FeedbackValue : Type 0 where
  yes_value no_value unknown : FeedbackValue

pub data MemoryTemperature : Type 0 where
  hot warm cold archived : MemoryTemperature

pub data PossibleConflictStatus : Type 0 where
  possible confirmed dismissed abstained : PossibleConflictStatus

pub data QueryIntent : Type 0 where
  current_decision constraint_lookup failure_history why_decision : QueryIntent
  implementation_location preference task_state historical_as_of broad_search : QueryIntent

pub data BudgetProfile : Type 0 where
  auto tiny small medium large : BudgetProfile

pub data TokenCounterKind : Type 0 where
  exact estimated : TokenCounterKind

pub data CompressionPolicy : Type 0 where
  pinned source_grounded compressible ephemeral : CompressionPolicy

-- Comparison of two members, through their position in the enumeration.
abbrev pub scope_code : ScopeType → ℕ
scope_code ScopeType.user = 0
scope_code ScopeType.workspace = 1
scope_code ScopeType.repository = 2
scope_code ScopeType.branch = 3
scope_code ScopeType.task = 4

abbrev pub same_scope : ScopeType → ScopeType → Bool
same_scope a b = scope_code a == scope_code b

abbrev pub truth_code : TruthState → ℕ
truth_code TruthState.resolved = 0
truth_code TruthState.contested = 1
truth_code TruthState.stale = 2
truth_code TruthState.unknown = 3

abbrev pub same_truth : TruthState → TruthState → Bool
same_truth a b = truth_code a == truth_code b

abbrev pub policy_code : CompressionPolicy → ℕ
policy_code CompressionPolicy.pinned = 0
policy_code CompressionPolicy.source_grounded = 1
policy_code CompressionPolicy.compressible = 2
policy_code CompressionPolicy.ephemeral = 3

abbrev pub same_policy : CompressionPolicy → CompressionPolicy → Bool
same_policy a b = policy_code a == policy_code b

abbrev pub entity_code : EntityType → ℕ
entity_code EntityType.project = 0
entity_code EntityType.repository = 1
entity_code EntityType.file = 2
entity_code EntityType.symbol = 3
entity_code EntityType.dependency = 4
entity_code EntityType.service = 5
entity_code EntityType.database = 6
entity_code EntityType.tool = 7
entity_code EntityType.person = 8
entity_code EntityType.concept = 9
entity_code EntityType.other_entity = 10

abbrev pub same_entity_type : EntityType → EntityType → Bool
same_entity_type a b = entity_code a == entity_code b

abbrev pub same_polarity : ClaimPolarity → ClaimPolarity → Bool
same_polarity ClaimPolarity.positive ClaimPolarity.positive = true
same_polarity ClaimPolarity.negative ClaimPolarity.negative = true
same_polarity _ _ = false

abbrev pub same_relation_type : ClaimRelationType → ClaimRelationType → Bool
same_relation_type ClaimRelationType.contradicts ClaimRelationType.contradicts = true
same_relation_type ClaimRelationType.supersedes ClaimRelationType.supersedes = true
same_relation_type _ _ = false

-- Tests on an optional strategy.
abbrev pub is_reject : Option ConflictStrategy → Bool
is_reject (some ConflictStrategy.reject) = true
is_reject _ = false

abbrev pub is_supersede : Option ConflictStrategy → Bool
is_supersede (some ConflictStrategy.supersede) = true
is_supersede _ = false

abbrev pub is_keep_both : Option ConflictStrategy → Bool
is_keep_both (some ConflictStrategy.keep_both) = true
is_keep_both _ = false

-- Tests of the source against one member or a set of members.
abbrev pub is_active : MemoryStatus → Bool
is_active MemoryStatus.active = true
is_active _ = false

abbrev pub is_candidate : MemoryStatus → Bool
is_candidate MemoryStatus.candidate = true
is_candidate _ = false

abbrev pub is_accepted : ClaimStatus → Bool
is_accepted ClaimStatus.accepted = true
is_accepted _ = false

abbrev pub is_contested : ClaimStatus → Bool
is_contested ClaimStatus.contested = true
is_contested _ = false

abbrev pub is_superseded : ClaimStatus → Bool
is_superseded ClaimStatus.superseded = true
is_superseded _ = false

abbrev pub is_rejected : ClaimStatus → Bool
is_rejected ClaimStatus.rejected = true
is_rejected _ = false

abbrev pub is_historical : ClaimStatus → Bool
is_historical ClaimStatus.historical = true
is_historical _ = false

-- `status in {HISTORICAL, REJECTED}`
abbrev pub is_closed : ClaimStatus → Bool
is_closed s = is_historical s || is_rejected s

-- `status in {ACCEPTED, CONTESTED}`
abbrev pub is_live : ClaimStatus → Bool
is_live s = is_accepted s || is_contested s

abbrev pub is_stale_status : ClaimStatus → Bool
is_stale_status ClaimStatus.stale = true
is_stale_status _ = false

abbrev pub is_stale : ClaimStaleState → Bool
is_stale ClaimStaleState.stale = true
is_stale _ = false

abbrev pub same_stale_state : ClaimStaleState → ClaimStaleState → Bool
same_stale_state ClaimStaleState.fresh ClaimStaleState.fresh = true
same_stale_state ClaimStaleState.suspect ClaimStaleState.suspect = true
same_stale_state ClaimStaleState.stale ClaimStaleState.stale = true
same_stale_state ClaimStaleState.unknown ClaimStaleState.unknown = true
same_stale_state _ _ = false

abbrev pub is_archived : MemoryTemperature → Bool
is_archived MemoryTemperature.archived = true
is_archived _ = false

abbrev pub is_confirmed : PossibleConflictStatus → Bool
is_confirmed PossibleConflictStatus.confirmed = true
is_confirmed _ = false

abbrev pub is_helpful : FeedbackValue → Bool
is_helpful FeedbackValue.yes_value = true
is_helpful _ = false

abbrev pub is_unhelpful : FeedbackValue → Bool
is_unhelpful FeedbackValue.no_value = true
is_unhelpful _ = false

abbrev pub is_suspect_state : ClaimStaleState → Bool
is_suspect_state ClaimStaleState.suspect = true
is_suspect_state _ = false

abbrev pub is_fresh_state : ClaimStaleState → Bool
is_fresh_state ClaimStaleState.fresh = true
is_fresh_state _ = false

-- `status in {FORGOTTEN, REJECTED}`
abbrev pub is_terminal : MemoryStatus → Bool
is_terminal MemoryStatus.forgotten = true
is_terminal MemoryStatus.rejected = true
is_terminal _ = false

abbrev pub is_manual : CreatedBy → Bool
is_manual CreatedBy.manual = true
is_manual _ = false

abbrev pub is_task : ScopeType → Bool
is_task ScopeType.task = true
is_task _ = false

abbrev pub is_exact : TokenCounterKind → Bool
is_exact TokenCounterKind.exact = true
is_exact TokenCounterKind.estimated = false

abbrev pub is_pinned : CompressionPolicy → Bool
is_pinned CompressionPolicy.pinned = true
is_pinned _ = false

abbrev pub is_source_grounded : CompressionPolicy → Bool
is_source_grounded CompressionPolicy.source_grounded = true
is_source_grounded _ = false
