-- ===== src/Context/Delta.antt =====
-- context/delta.py: `plan_delta`. The values of a dictionary by key stand in the order of insertion;
-- the order of sent atoms with one section and memory, which the code's sets leave open, is that.
pub mod Dictionary
pub mod Merge
pub mod Parts
use memory_os.Base.{
  ℕ, String, Bool, true, false, ◌&&◌, ◌||◌, not, Option, none, some, List, [], ◌∷◌, any, keep, find,
  length, str_eq, text_before, append_text, sort_by, if◌then◌else◌,
}
use memory_os.Domain.{TruthState, CompressionPolicy, is_pinned}
use memory_os.Claims.Truth.State.{is_contested_state}

-- `ContextAtom.snapshot_item`: the fields of an atom, or of an item of a snapshot, that a plan
-- compares or a text shows.
pub record Item : Type 0 where
  pub ordinal : ℕ
  pub memory_id : String
  pub section : String
  pub rendered_text : String
  pub atom_sha256 : String
  pub evidence_pointer_version : String
  pub bundle_key : String
  pub truth_state : TruthState
  pub compression_policy : CompressionPolicy

-- `_atom_key`, `_item_key`
unfoldable pub item_key : Item → String
item_key i = append_text i.memory_id (append_text "|" i.bundle_key)

-- `_atom_order`
unfoldable pub atom_order : Item → Item → Bool
atom_order a b =
    text_before a.section b.section
    || (str_eq a.section b.section && text_before a.memory_id b.memory_id)

-- `by_key[key] = item`: the first place of a key, and its last value.
unfoldable pub put_item : Item → List Item → List Item
unfolding item_key
put_item i [] = i ∷ []
put_item i (x ∷ items) =
    let rest = x ∷ put_item i items in if str_eq (item_key x) (item_key i) then i ∷ items else rest

unfoldable pub put_items : List Item → List Item → List Item
unfolding put_item
put_items items [] = items
put_items items (x ∷ rest) = put_items (put_item x items) rest

-- `{_item_key(item): item for item in items}`
unfoldable pub by_key : List Item → List Item
unfolding put_items
by_key = put_items []

-- `by_key.get(key)`
unfoldable pub item_at : String → List Item → Option Item
item_at key = find (λ i. str_eq (item_key i) key)

unfoldable pub has_key : String → List Item → Bool
has_key key = any (λ i. str_eq (item_key i) key)

unfoldable pub same_item : Item → Item → Bool
same_item old new =
    str_eq old.atom_sha256 new.atom_sha256
    && str_eq old.evidence_pointer_version new.evidence_pointer_version

-- The item of the other side has the key and the same content.
unfoldable pub is_same_in : List Item → Item → Bool
unfolding item_at same_item
is_same_in olds new = elim (item_at (item_key new) olds) [
  | none ↦ false
  | some old ↦ same_item old new
]

-- The test of `safety_bundles`.
abbrev pub is_safety : Item → Bool
is_safety i = is_pinned i.compression_policy || is_contested_state i.truth_state

-- `changed_bundle_keys`, of the dictionaries, and `safety_bundles`, of all items and atoms.
unfoldable pub is_changed_bundle : List Item → List Item → String → Bool
unfolding has_key is_same_in by_key
is_changed_bundle olds news bundle =
    any (λ new. not (is_same_in (by_key olds) new) && str_eq new.bundle_key bundle) (by_key news)
    || any (λ old. not (has_key (item_key old) (by_key news)) && str_eq old.bundle_key bundle)
        (by_key olds)

unfoldable pub is_safety_bundle : List Item → List Item → String → Bool
is_safety_bundle olds news bundle =
    any (λ new. is_safety new && str_eq new.bundle_key bundle) news
    || any (λ old. is_safety old && str_eq old.bundle_key bundle) olds

-- `changed_bundle_keys & safety_bundles`
unfoldable pub is_expanded : List Item → List Item → String → Bool
unfolding is_changed_bundle is_safety_bundle
is_expanded olds news bundle =
    is_changed_bundle olds news bundle && is_safety_bundle olds news bundle

pub record DeltaPlan : Type 0 where
  pub added : List Item
  pub changed : List Item
  pub removed : List Item
  pub unchanged_count : ℕ

-- The tests that put a current atom into one of the parts.
unfoldable pub is_added : List Item → List Item → Item → Bool
unfolding has_key by_key
is_added olds news new = not (has_key (item_key new) (by_key olds))

unfoldable pub is_changed : List Item → List Item → Item → Bool
unfolding has_key is_same_in is_expanded by_key
is_changed olds news new =
    has_key (item_key new) (by_key olds)
    && (not (is_same_in (by_key olds) new) || is_expanded olds news new.bundle_key)

unfoldable pub plan_delta : List Item → List Item → DeltaPlan
unfolding is_added is_changed has_key atom_order item_key by_key
plan_delta olds news =
    let current = by_key news in
    record {
      added = sort_by atom_order (keep (is_added olds news) current);
      changed = sort_by atom_order (keep (is_changed olds news) current);
      removed =
          sort_by (λ a b. text_before (item_key a) (item_key b))
            (keep (λ old. not (has_key (item_key old) current)) (by_key olds));
      unchanged_count =
          length
            (keep (λ new. not (is_added olds news new) && not (is_changed olds news new)) current);
    }
