-- ===== src/Claims/Canonical.antt =====
-- claims/canonicalize.py and entities/aliases.py: canonical names, predicates and objects.
use memory_os.Base.{String, Bool, List, [], ◌∷◌, ℕ, if◌then◌else◌, str_eq}
use memory_os.Domain.{ScopeType}
use memory_os.Store.{JsonValue, text, other}

-- What the standard library computes on texts. `clean_name` is `normalize_entity_name` up to the
-- alias table: NFKC, `strip`, `lower`, `PurePosixPath` and two `re.sub`. `slug` is the `re.sub` of
-- `canonical_predicate`, lowered and stripped of `_`. `contains a b` is `a in b`.
-- `strip` is the method of `str`, `slice s a b` is `s[a:b]`, `text_length` is `len` and `id_text` is
-- the text of a UUID.
-- `stable_digest` is the SHA-256 of `stable_claim_identity` over its joined parts.
pub record Texts : Type 0 where
  pub clean_name : String → String
  pub slug : String → String
  pub contains : String → String → Bool
  pub strip : String → String
  pub slice : String → ℕ → ℕ → String
  pub text_length : String → ℕ
  pub id_text : ℕ → String
  pub stable_digest : ScopeType → String → ℕ → String → String

-- `table.get(name, default)`
get_alias : String → String → List (String × String) → String
get_alias name default [] = default
get_alias name default ((k, v) ∷ rest) =
    let later = get_alias name default rest in if str_eq k name then v else later

abbrev known_aliases : List (String × String)
known_aliases =
    ("postgres", "postgresql")
    ∷ ("postgresql db", "postgresql")
    ∷ ("prod db", "production database")
    ∷ ("production_database", "production database")
    ∷ ("sqlite3", "sqlite")
    ∷ ("fast api", "fastapi")
    ∷ ("ts", "typescript")
    ∷ ("js", "javascript")
    ∷ ("py", "python")
    ∷ ("node", "node.js")
    ∷ ("nodejs", "node.js")
    ∷ ("pnpmjs", "pnpm")
    ∷ []

abbrev predicate_aliases : List (String × String)
predicate_aliases =
    ("use", "uses")
    ∷ ("uses", "uses")
    ∷ ("adopts", "uses")
    ∷ ("database", "uses")
    ∷ ("decision", "uses")
    ∷ ("forbid", "forbidden")
    ∷ ("forbids", "forbidden")
    ∷ ("constraint", "forbidden")
    ∷ ("prefer", "prefers")
    ∷ ("preference", "prefers")
    ∷ ("failure", "failed_because")
    ∷ ("implemented", "implemented_in")
    ∷ ("implementation", "implemented_in")
    ∷ []

unfoldable pub normalize_entity_name : Texts → String → String
unfolding get_alias
normalize_entity_name t value =
    let normalized = t.clean_name value in get_alias normalized normalized known_aliases

unfoldable pub canonical_predicate : Texts → String → String
unfolding get_alias
canonical_predicate t value =
    let normalized = t.slug value in
    get_alias normalized (if str_eq normalized "" then "states" else normalized) predicate_aliases

unfoldable pub canonical_object : Texts → JsonValue → String
canonical_object t (text s) = normalize_entity_name t s
canonical_object t (other json) = json

unfoldable pub stable_claim_identity : Texts → ScopeType → String → ℕ → String → String
stable_claim_identity t scope_type scope_key subject_entity_id predicate =
    t.stable_digest scope_type scope_key subject_entity_id (canonical_predicate t predicate)

-- The words of a text with plain ASCII names, for tests.
abbrev pub plain_texts : Texts
plain_texts = record {
  clean_name = λ s. s;
  slug = λ s. s;
  contains = str_eq;
  strip = λ s. s;
  slice = λ s start end. s;
  text_length = λ s. 100;
  id_text = λ id. "id";
  stable_digest = λ scope key subject predicate. predicate;
}
