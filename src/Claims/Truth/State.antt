-- ===== src/Claims/Truth/State.antt =====
-- claims/truth.py: the state of a group of versions in `current_truth`, and `_aggregate_state`.
use memory_os.Base.{
  String, Bool, true, false, ◌&&◌, ◌||◌, not, none, some, List, any, keep, map, length, ltb,
  if◌then◌else◌, is_empty, distinct,
}
use memory_os.Domain.{TruthState, is_live, is_contested, is_stale}
use memory_os.Store.{Db, ClaimVersionRow, JsonValue, text, get_entity}
use memory_os.Claims.Canonical.{Texts, canonical_object}
use memory_os.Claims.Predicates.{is_single_valued}

-- `_version_object_identity`
unfoldable pub version_object_identity : Db → ClaimVersionRow → JsonValue
version_object_identity db version = elim version.object_entity_id [
  | none ↦ version.object_value
  | some id ↦ elim (get_entity db id) [
    | none ↦ version.object_value
    | some entity ↦ text entity.normalized_name
  ]
]

abbrev pub is_non_stale : ClaimVersionRow → Bool
is_non_stale version = is_live version.status && not (is_stale version.stale_state)

-- The state from what is known of a group.
abbrev pub state_of : (contested no_current no_version : Bool) → TruthState
state_of contested no_current no_version =
    if contested
    then TruthState.contested
    else if no_current && not no_version
    then TruthState.stale
    else if not no_current
    then TruthState.resolved
    else TruthState.unknown

abbrev pub objects : Texts → Db → List ClaimVersionRow → List String
objects t db versions =
    map (λ v. canonical_object t (version_object_identity db v)) (keep is_non_stale versions)

unfoldable pub group_state : Texts → Db → String → String → List ClaimVersionRow → TruthState
unfolding version_object_identity
group_state t db predicate subject versions =
    state_of
      (any (λ v. is_contested v.status) versions
        || (is_single_valued t predicate subject
            && ltb 1 (length (distinct (objects t db versions)))))
      (is_empty (keep is_non_stale versions)) (is_empty versions)

abbrev pub is_contested_state : TruthState → Bool
is_contested_state TruthState.contested = true
is_contested_state _ = false

abbrev pub is_stale_state : TruthState → Bool
is_stale_state TruthState.stale = true
is_stale_state _ = false

abbrev pub is_resolved_state : TruthState → Bool
is_resolved_state TruthState.resolved = true
is_resolved_state _ = false

unfoldable pub aggregate_state : List TruthState → TruthState
aggregate_state states =
    if any is_contested_state states
    then TruthState.contested
    else if any is_stale_state states
    then TruthState.stale
    else if any is_resolved_state states
    then TruthState.resolved
    else TruthState.unknown
