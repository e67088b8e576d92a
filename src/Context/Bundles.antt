-- ===== src/Context/Bundles.antt =====
-- context/budget.py: `build_bundles`. Utilities are in millionths, and their quotients by tokens are
-- compared exactly; SHA-256 over the hashes of the atoms is an argument. Of the reasons of a bundle
-- only whether it covers a category is kept.
pub mod Complete
use memory_os.Base.{
  ℕ, ◌*◌, ◌+◌, max, String, Bool, true, false, ◌&&◌, ◌||◌, not, List, [], ◌∷◌, ◌++◌, map, any, keep,
  sort_by, length, ltb, str_eq, text_before, if◌then◌else◌, group_by, max_by, sum_of,
}
use memory_os.Domain.{TruthState, CompressionPolicy, is_pinned}
use memory_os.Claims.Truth.State.{is_contested_state}

-- The fields of a `ContextAtom` that the compiler reads.
pub record ContextAtom : Type 0 where
  pub memory_id : String
  pub canonical_key : String
  pub bundle_key : String
  pub atom_sha256 : String
  pub evidence_pointer_version : String
  pub truth_state : TruthState
  pub compression_policy : CompressionPolicy
  pub rendered_text : String
  pub utility : ℕ
  pub estimated_tokens : ℕ
  pub category : String
  pub section : String

pub record AtomBundle : Type 0 where
  pub bundle_id : String
  pub atoms : List ContextAtom
  pub required : Bool
  pub safety_required : Bool
  pub utility : ℕ

abbrev pub is_contested_atom : ContextAtom → Bool
is_contested_atom a = is_contested_state a.truth_state

-- `(memory_id, atom_sha256)`
unfoldable pub atom_before : ContextAtom → ContextAtom → Bool
atom_before a b =
    text_before a.memory_id b.memory_id
    || (str_eq a.memory_id b.memory_id && text_before a.atom_sha256 b.atom_sha256)

-- `groups`: the contested atoms by their key, and the others one by one.
unfoldable pub atom_groups : List ContextAtom → List (List ContextAtom)
atom_groups atoms =
    map (λ e. e.1) (group_by str_eq (λ a. a.bundle_key) (keep is_contested_atom atoms))
    ++ map (λ a. a ∷ []) (keep (λ a. not (is_contested_atom a)) atoms)

-- `max(atom.utility for atom in group)`
unfoldable pub best_utility : List ContextAtom → ℕ
best_utility [] = 0
best_utility (a ∷ group) = (max_by (λ x. x.utility) a group).utility

-- The sort key of a bundle.
abbrev bundle_tokens : AtomBundle → ℕ
bundle_tokens b = max 1 (sum_of (λ a. a.estimated_tokens) b.atoms)

unfoldable pub denser : AtomBundle → AtomBundle → Bool
denser a b = ltb (b.utility * bundle_tokens a) (a.utility * bundle_tokens b)

unfoldable pub bundle_before : AtomBundle → AtomBundle → Bool
unfolding denser
bundle_before a b =
    (a.required && not b.required)
    || (not (b.required && not a.required)
        && (denser a b || (not (denser b a) && text_before a.bundle_id b.bundle_id)))

module _ (digest : List String → String) where
  -- `_bundle_id`
  unfoldable pub bundle_id_of : List ContextAtom → String
  bundle_id_of group = digest (sort_by text_before (map (λ a. a.atom_sha256) group))

  -- The entry of a category in `coverage_winners`, if a group has it.
  unfoldable pub coverage_winner : List (List ContextAtom) → String → List String
  unfolding best_utility bundle_id_of
  coverage_winner groups category = elim (keep (any (λ a. str_eq a.category category)) groups) [
    | [] ↦ []
    | g ∷ rest ↦ bundle_id_of (max_by best_utility g rest) ∷ []
  ]

  unfoldable pub coverage_winners : List (List ContextAtom) → List String → List String
  unfolding coverage_winner
  coverage_winners groups [] = []
  coverage_winners groups (category ∷ categories) =
      coverage_winner groups category ++ coverage_winners groups categories

  unfoldable pub make_bundle : List String → List ContextAtom → AtomBundle
  unfolding bundle_id_of atom_before
  make_bundle winners group =
      let identity = bundle_id_of group in
      let safety = any (λ a. is_pinned a.compression_policy || is_contested_atom a) group in
      record {
        bundle_id = identity;
        atoms = sort_by atom_before group;
        required = safety || any (λ w. str_eq w identity) winners;
        safety_required = safety;
        utility = sum_of (λ a. a.utility) group;
      }

  unfoldable pub build_bundles : List ContextAtom → List String → List AtomBundle
  unfolding atom_groups make_bundle bundle_before coverage_winners
  build_bundles atoms coverage_categories =
      let groups = atom_groups atoms in
      sort_by bundle_before (map (make_bundle (coverage_winners groups coverage_categories)) groups)
