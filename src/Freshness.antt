-- ===== src/Freshness.antt =====
-- freshness/git_compare.py: `classify_mutation`, `compare_anchor` and `apply_freshness_result`;
-- freshness/anchors.py: the aggregate of `SourceAnchorService.refresh`. Git, the file system, the
-- parser of symbols, the texts of the standard library and the ratio of `SequenceMatcher`, in
-- thousandths, are arguments. Explanations are left out.
pub mod Comparison
pub mod Aggregate
use memory_os.Base.{
  ℕ, ◌+◌, String, Bool, true, false, ◌&&◌, ◌||◌, not, Option, none, some, List, [], ◌∷◌, leb, ◌==◌,
  str_eq, is_none, max_by, starts_with, if◌then◌else◌,
}
use mathlib.Core.Option as Option
use memory_os.Domain.{FreshnessState, ClaimStaleState}

pub record SourceAnchor : Type 0 where
  pub repository_stable_key : String
  pub commit_sha : String
  pub path : String
  pub blob_sha : String
  pub symbol_fqn : Option String
  pub line_start : Option ℕ
  pub line_end : Option ℕ
  pub evidence_excerpt : String
  pub excerpt_hash : String
  pub freshness_state : FreshnessState
  pub cached_head : Option String
  pub checked_at : Option ℕ
  pub observed_head : Option String
  pub observed_path : Option String
  pub observed_line_start : Option ℕ
  pub observed_line_end : Option ℕ
  pub observed_excerpt_hash : Option String

pub record FreshnessResult : Type 0 where
  pub state : FreshnessState
  pub path : String
  pub head : Option String
  pub current_excerpt : Option String
  pub line_start : Option ℕ
  pub line_end : Option ℕ

pub record GitContext : Type 0 where
  pub head : String
  pub stable_key : String

pub record Symbol : Type 0 where
  pub excerpt : String
  pub line_start : ℕ
  pub line_end : ℕ

-- A repository as the comparison sees it: `discover_git_context`, if it does not raise, whether a
-- path resolves inside the root and is a file, `git diff --name-status` from a commit, split at tabs,
-- `git rev-parse HEAD:path`, which is empty if it fails, the text of a file and its symbols.
pub record Repository : Type 0 where
  pub context : Option GitContext
  pub is_inside : String → Bool
  pub is_file : String → Bool
  pub diff : String → List (List String)
  pub blob : String → String
  pub source : String → String
  pub locate_symbol : String → String → Option Symbol

-- `_hash`, `_normalized`, the ratio, the number of the line where a part of a text starts, if it is
-- one, and the number of breaks in a text.
pub record Texts : Type 0 where
  pub hash : String → String
  pub normalized : String → String
  pub ratio : String → String → ℕ
  pub line_of : String → String → Option ℕ
  pub breaks : String → ℕ

-- `a or b` of an optional text
abbrev pub text_or : Option String → String → String
text_or none other = other
text_or (some t) other = if str_eq t "" then other else t

abbrev moved_if : Bool → FreshnessState
moved_if b = if b then FreshnessState.moved else FreshnessState.fresh

abbrev similar_state : ℕ → FreshnessState
similar_state similarity =
    if leb 350 similarity then FreshnessState.suspect else FreshnessState.stale

unfoldable pub classify_mutation :
    (file_exists same_blob path_changed symbol_found excerpt_equivalent : Bool) → ℕ → FreshnessState
classify_mutation file_exists same_blob path_changed symbol_found excerpt_equivalent similarity =
    if not file_exists
    then FreshnessState.stale
    else if same_blob
    then moved_if path_changed
    else if symbol_found && excerpt_equivalent
    then moved_if path_changed
    else if symbol_found
    then similar_state similarity
    else FreshnessState.stale

-- `_renamed_path`
unfoldable pub renamed_path : List (List String) → String → Option String
renamed_path [] path = none
renamed_path ((status ∷ old ∷ new ∷ []) ∷ lines) path =
    let rest = renamed_path lines path in
    if starts_with status "R" && str_eq old path then some new else rest
renamed_path (_ ∷ lines) path = renamed_path lines path

-- A result with no excerpt and no lines.
abbrev pub bare : FreshnessState → String → Option String → FreshnessResult
bare state path head = record {
  state = state;
  path = path;
  head = head;
  current_excerpt = none;
  line_start = none;
  line_end = none;
}

-- `symbol.line_start != anchor.line_start`
abbrev pub same_line : ℕ → Option ℕ → Bool
same_line n none = false
same_line n (some m) = n == m

module _ (t : Texts) (repository : Repository) (anchor : SourceAnchor) where
  unfoldable pub is_exact_excerpt : String → Bool
  is_exact_excerpt current =
      str_eq (t.hash current) anchor.excerpt_hash
      || str_eq (t.normalized current) (t.normalized anchor.evidence_excerpt)

  -- The state of a symbol that is still there.
  unfoldable pub symbol_result : String → String → Symbol → FreshnessResult
  unfolding is_exact_excerpt
  symbol_result head path symbol =
      let state =
        if is_exact_excerpt symbol.excerpt
        then moved_if
            (not (str_eq path anchor.path) || not (same_line symbol.line_start anchor.line_start))
        else similar_state
            (t.ratio (t.normalized anchor.evidence_excerpt) (t.normalized symbol.excerpt)) in
      record {
        state = state;
        path = path;
        head = some head;
        current_excerpt = some symbol.excerpt;
        line_start = some symbol.line_start;
        line_end = some symbol.line_end;
      }

  -- The search for the excerpt itself.
  unfoldable pub excerpt_result : String → String → FreshnessResult
  excerpt_result head path =
      let gone = bare FreshnessState.stale path (some head) in
      if str_eq anchor.evidence_excerpt ""
      then gone
      else (elim (t.line_of (repository.source path) anchor.evidence_excerpt) [
        | none ↦ gone
        | some line ↦ record {
          state = FreshnessState.moved;
          path = path;
          head = some head;
          current_excerpt = some anchor.evidence_excerpt;
          line_start = some line;
          line_end = some (line + t.breaks anchor.evidence_excerpt);
        }
      ])

  abbrev pub symbol_at : String → Option Symbol
  symbol_at path = elim anchor.symbol_fqn [
    | none ↦ none
    | some fqn ↦ if str_eq fqn "" then none else repository.locate_symbol path fqn
  ]

  abbrev pub same_blob : String → Bool
  same_blob path =
      not (str_eq (repository.blob path) "") && str_eq (repository.blob path) anchor.blob_sha

  -- The comparison of a file that is there.
  unfoldable pub compare_file : String → String → FreshnessResult
  unfolding symbol_result excerpt_result
  compare_file head path =
      if same_blob path
      then record {
        state = moved_if (not (str_eq path anchor.path));
        path = path;
        head = some head;
        current_excerpt = some anchor.evidence_excerpt;
        line_start = anchor.line_start;
        line_end = anchor.line_end;
      }
      else (elim (symbol_at path) [
        | none ↦ excerpt_result head path
        | some symbol ↦ symbol_result head path symbol
      ])

  -- Where the file is now, if it is not at its path: a rename of another commit counts if it is not
  -- the empty text.
  unfoldable pub relocated : Option String
  unfolding renamed_path
  relocated = elim (renamed_path (repository.diff anchor.commit_sha) anchor.path) [
    | none ↦ none
    | some new ↦ if str_eq new "" then none else some new
  ]

  unfoldable pub compare_missing : String → FreshnessResult
  compare_missing head = elim relocated [
    | none ↦ bare FreshnessState.stale anchor.path (some head)
    | some new ↦
        if not (repository.is_inside new)
        then bare FreshnessState.unknown new (some head)
        else if not (repository.is_file new)
        then bare FreshnessState.stale new (some head)
        else compare_file head new
  ]

  -- `context.head == anchor.cached_head and anchor.checked_at is not None`
  abbrev pub is_cached : String → Bool
  is_cached head =
      (elim anchor.cached_head [ none ↦ false | some h ↦ str_eq head h ])
      && not (is_none anchor.checked_at)

  abbrev pub cached_result : String → FreshnessResult
  cached_result head = record {
    state = anchor.freshness_state;
    path = text_or anchor.observed_path anchor.path;
    head = some head;
    current_excerpt = none;
    line_start = anchor.observed_line_start;
    line_end = anchor.observed_line_end;
  }

  -- The comparison past the tests of the repository and the cache.
  unfoldable pub compare_now : String → FreshnessResult
  compare_now head =
      if repository.is_file anchor.path then compare_file head anchor.path else compare_missing head

  unfoldable pub compare_anchor : FreshnessResult
  compare_anchor = elim repository.context [
    | none ↦ bare FreshnessState.unknown anchor.path none
    | some context ↦
        if not (str_eq context.stable_key anchor.repository_stable_key)
        then bare FreshnessState.unknown anchor.path (some context.head)
        else if not (repository.is_inside anchor.path)
        then bare FreshnessState.unknown anchor.path (some context.head)
        else if is_cached context.head
        then cached_result context.head
        else compare_now context.head
  ]

unfoldable pub apply_freshness_result : Texts → ℕ → SourceAnchor → FreshnessResult → SourceAnchor
apply_freshness_result t now anchor result = record anchor {
  freshness_state = result.state;
  cached_head = result.head;
  checked_at = some now;
  observed_head = result.head;
  observed_path = some result.path;
  observed_line_start = result.line_start;
  observed_line_end = result.line_end;
  observed_excerpt_hash = Option.map t.hash result.current_excerpt;
}

abbrev pub severity : FreshnessState → ℕ
severity FreshnessState.fresh = 0
severity FreshnessState.moved = 1
severity FreshnessState.unknown = 2
severity FreshnessState.suspect = 3
severity FreshnessState.stale = 4

-- `aggregate`, of the anchors of a memory, of which there is one at least.
unfoldable pub aggregate : SourceAnchor → List SourceAnchor → FreshnessState
unfolding max_by
aggregate a anchors = (max_by (λ x. severity x.freshness_state) a anchors).freshness_state

abbrev pub claim_state : FreshnessState → ClaimStaleState
claim_state FreshnessState.fresh = ClaimStaleState.fresh
claim_state FreshnessState.moved = ClaimStaleState.fresh
claim_state FreshnessState.suspect = ClaimStaleState.suspect
claim_state FreshnessState.stale = ClaimStaleState.stale
claim_state FreshnessState.unknown = ClaimStaleState.unknown
