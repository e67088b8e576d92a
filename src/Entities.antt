-- ===== src/Entities.antt =====
-- entities/resolver.py: `EntityResolver`.
pub mod Merge
pub mod Redirects
use memory_os.Base.{
  ℕ, zero, suc, ◌+◌, String, Bool, true, false, ◌&&◌, ◌||◌, not, Option, none, some, List, [], ◌∷◌,
  ◌++◌, map, keep, any, find, length, ◌==◌, if◌then◌else◌, or_default, Result, ok, raise, expect,
  value_error, runtime_error, not_found, require, ◌>>=◌, ◌>>◌, sort_by, str_eq,
}
use Prim.Native.Nat.{Ordering}
use Prim.Native.String.{compare}
use memory_os.Domain.{ScopeType, EntityType, same_scope, same_entity_type}
use memory_os.Store.{Db, EntityRow, EntityMergeEventRow, get_entity, update_entity}
use memory_os.Claims.Canonical.{Texts, normalize_entity_name}

abbrev text_precedes : String → String → Bool
text_precedes a b = elim (compare a b) [ Ordering.lt ↦ true | _ ↦ false ]

-- `sorted({*values})`
unfoldable pub sorted_set : List String → List String
sorted_set values = sort_by text_precedes (distinct values)
  where
    distinct : List String → List String
    distinct [] = []
    distinct (v ∷ rest) =
        let others = distinct rest in if any (str_eq v) rest then others else v ∷ others

abbrev pub is_seen : List ℕ → ℕ → Bool
is_seen seen id = any (λ s. s == id) seen

-- The loop of `follow_redirect`; at 0 the fuel has run out.
unfoldable pub follow : Db → ℕ → List ℕ → EntityRow → Result EntityRow
follow db zero seen current = raise runtime_error
follow db (suc fuel) seen current = elim current.redirect_to_id [
  | none ↦ ok current
  | some id ↦ do
    require (not (is_seen seen id)) value_error
    target ← expect (get_entity db id) not_found
    follow db fuel (id ∷ seen) target
]

-- Every round sees an entity not seen before.
unfoldable pub follow_redirect : Db → EntityRow → Result EntityRow
unfolding follow
follow_redirect db entity = follow db (suc (length db.entities)) (entity.id ∷ []) entity

-- The row that `resolve` looks for.
abbrev is_named : ScopeType → String → EntityType → String → EntityRow → Bool
is_named scope_type scope_key entity_type normalized row =
    same_scope row.scope_type scope_type
    && str_eq row.scope_key scope_key
    && same_entity_type row.entity_type entity_type
    && str_eq row.normalized_name normalized

abbrev other_names : String → List String → List String
other_names normalized = keep (λ value. not (str_eq value normalized))

-- The row of a name learns the names given.
unfoldable pub learn_names : Texts → Db → EntityRow → String → String → List String → Db × EntityRow
unfolding sorted_set
learn_names t db row normalized name aliases =
    let known = map (normalize_entity_name t) row.aliases in
    let given = map (normalize_entity_name t) aliases in
    let combined = known ++ given ++ normalize_entity_name t name ∷ [] in
    let named = sorted_set (other_names normalized combined) in
    (
      record db { entities = update_entity row.id (λ r. record r { aliases = named }) db.entities },
      record row { aliases = named },
    )

-- `resolve` for a name that a row has.
unfoldable pub reuse_entity :
    Texts → Db → EntityRow → String → String → List String → Result (Db × EntityRow)
unfolding learn_names follow_redirect
reuse_entity t db row normalized name aliases =
    let learned = learn_names t db row normalized name aliases in
    follow_redirect learned.0 learned.1 >>= λ entity. ok (learned.0, entity)

-- The row that `resolve` adds for a new name.
unfoldable pub new_entity :
    Texts
    → ℕ
    → ScopeType
    → String
    → EntityType
    → String
    → String
    → List String
    → Option String
    → EntityRow
unfolding sorted_set
new_entity t id scope_type scope_key entity_type normalized name aliases stable_external_key =
    record {
      id = id;
      scope_type = scope_type;
      scope_key = scope_key;
      entity_type = entity_type;
      canonical_name = t.strip name;
      normalized_name = normalized;
      aliases = sorted_set (other_names normalized (map (normalize_entity_name t) aliases));
      stable_external_key = stable_external_key;
      redirect_to_id = none;
    }

unfoldable pub resolve :
    Texts
    → Db
    → ScopeType
    → String
    → EntityType
    → String
    → List String
    → Option String
    → Result (Db × EntityRow)
unfolding reuse_entity new_entity
resolve t db scope_type scope_key entity_type name aliases stable_external_key =
    let normalized = normalize_entity_name t (or_default stable_external_key name) in
    let row =
      new_entity t db.next_id scope_type scope_key entity_type normalized name aliases
        stable_external_key in
    elim (find (is_named scope_type scope_key entity_type normalized) db.entities) [
      | some existing ↦ reuse_entity t db existing normalized name aliases
      | none ↦ ok (record db { entities = row ∷ db.entities; next_id = db.next_id + 1 }, row)
    ]

-- The guard and the writes of `merge`.
abbrev pub same_kind : EntityRow → EntityRow → Bool
same_kind source target =
    same_scope source.scope_type target.scope_type
    && str_eq source.scope_key target.scope_key
    && same_entity_type source.entity_type target.entity_type

abbrev pub combined_aliases : Texts → EntityRow → EntityRow → List String
combined_aliases t source target =
    target.aliases
    ++ source.aliases
    ++ source.normalized_name ∷ normalize_entity_name t source.canonical_name ∷ []

-- The writes of `merge`.
unfoldable pub link : Texts → EntityRow → EntityRow → String → Db → Db
unfolding sorted_set
link t source target actor db =
    let named = sorted_set (combined_aliases t source target) in
    let renamed = update_entity target.id (λ r. record r { aliases = named }) db.entities in
    let event : EntityMergeEventRow = record {
      from_entity_id = source.id;
      to_entity_id = target.id;
      actor = actor;
    } in
    record db {
      entities =
          update_entity source.id (λ r. record r { redirect_to_id = some target.id }) renamed;
      merge_events = event ∷ db.merge_events;
    }

unfoldable pub merge : Texts → Db → ℕ → ℕ → String → Result (Db × EntityRow)
unfolding link
merge t db source_id target_id actor = do
  source ← expect (get_entity db source_id) not_found
  target ← expect (get_entity db target_id) not_found
  require (same_kind source target) value_error
  let db' = link t source target actor db
  row ← expect (get_entity db' target.id) not_found
  ok (db', row)
