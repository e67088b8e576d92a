-- ===== src/Claims/Truth/Relations.antt =====
-- claims/truth.py: which claims conflict, and the rows that record it.
use memory_os.Base.{
  ◌+◌, min, max, Bool, true, false, ◌&&◌, ◌||◌, not, Option, none, some, ◌∷◌, any, find, leb, ◌==◌,
  if◌then◌else◌, str_eq,
}
use memory_os.Domain.{
  ClaimRelationType, RelationMethod, PossibleConflictStatus, is_confirmed, same_relation_type,
}
use memory_os.Store.{
  Db, ClaimRow, EntityRow, JsonValue, text, ClaimRelationRow, PossibleConflictRow, get_entity,
}
use memory_os.Claims.Canonical.{Texts}
use memory_os.Claims.Predicates.{
  RelationshipDecision, is_contradiction, ClaimValue, compare_claim_values,
}
use memory_os.Claims.Truth.Services.{Services, Verdict}

-- `_object_identity`
unfoldable pub object_identity : Db → ClaimRow → JsonValue
object_identity db claim = elim claim.object_entity_id [
  | none ↦ claim.object_value
  | some id ↦ elim (get_entity db id) [
    | none ↦ claim.object_value
    | some entity ↦ text entity.normalized_name
  ]
]

-- The arguments of the classification for one claim.
unfoldable pub value_of : Db → EntityRow → ClaimRow → ClaimValue
unfolding object_identity
value_of db subject claim = record {
  subject = subject.normalized_name;
  predicate = claim.predicate;
  object = object_identity db claim;
  polarity = claim.polarity;
  valid_from = claim.valid_from;
  valid_to = claim.valid_to;
}

unfoldable pub contradicts : Texts → Db → ClaimRow → ClaimRow → Bool
unfolding value_of
contradicts t db left right = elim (get_entity db left.subject_entity_id) [
  | none ↦ false
  | some left_subject ↦ elim (get_entity db right.subject_entity_id) [
    | none ↦ false
    | some right_subject ↦
        is_contradiction
          (compare_claim_values t (value_of db left_subject left) (value_of db right_subject right))
  ]
]

-- A pair is stored with the smaller id on the left.
abbrev pub is_pair : ClaimRow → ClaimRow → PossibleConflictRow → Bool
is_pair left right row =
    row.left_claim_id == min left.id right.id && row.right_claim_id == max left.id right.id

unfoldable pub claims_conflict : Texts → Db → ClaimRow → ClaimRow → Bool
unfolding contradicts
claims_conflict t db left right =
    contradicts t db left right
    || any (λ row. is_pair left right row && is_confirmed row.status) db.possible_conflicts

unfoldable pub add_relation : ClaimRow → ClaimRow → ClaimRelationType → RelationMethod → Db → Db
add_relation left right relation_type method db =
    let same = λ (row : ClaimRelationRow).
      row.from_claim_id == left.id
      && row.to_claim_id == right.id
      && same_relation_type row.relation_type relation_type in
    let created : ClaimRelationRow = record {
      from_claim_id = left.id;
      to_claim_id = right.id;
      relation_type = relation_type;
      method = method;
    } in
    if any same db.claim_relations
    then db
    else record db { claim_relations = created ∷ db.claim_relations }

-- The status that an answer of the judge leads to.
unfoldable pub judged_status : Option Verdict → PossibleConflictStatus
judged_status none = PossibleConflictStatus.abstained
judged_status (some v) =
    let decided = not v.abstain && leb 70 v.confidence in
    if decided
      && (str_eq v.relationship "contradicts" || str_eq v.relationship "supersedes_candidate")
    then PossibleConflictStatus.confirmed
    else if decided
        && (str_eq v.relationship "equivalent"
            || str_eq v.relationship "supports"
            || str_eq v.relationship "independent")
    then PossibleConflictStatus.dismissed
    else PossibleConflictStatus.abstained

-- The row of a pair that was not looked at before.
unfoldable pub new_possible_conflict : Services → Db → ClaimRow → ClaimRow → PossibleConflictRow
unfolding judged_status
new_possible_conflict s db left right = record {
  id = db.next_id;
  left_claim_id = min left.id right.id;
  right_claim_id = max left.id right.id;
  status = elim s.judge [
    | none ↦ PossibleConflictStatus.possible
    | some judge ↦ judged_status (judge left right)
  ];
  resolved_at = none;
  resolved_by = none;
}

unfoldable pub is_conflict_decision :
    Services → Db → ClaimRow → ClaimRow → RelationshipDecision → Db × Bool
unfolding new_possible_conflict add_relation
is_conflict_decision s db left right decision =
    let row = new_possible_conflict s db left right in
    let db' = record db {
      possible_conflicts = row ∷ db.possible_conflicts;
      next_id = db.next_id + 1;
    } in
    let related =
      add_relation left right ClaimRelationType.contradicts RelationMethod.model_judge db' in
    if is_contradiction decision.relationship
    then (db, true)
    else if not decision.model_eligible
    then (db, false)
    else elim (find (is_pair left right) db.possible_conflicts) [
      | some existing ↦ (db, is_confirmed existing.status)
      | none ↦ if is_confirmed row.status then (related, true) else (db', false)
    ]
