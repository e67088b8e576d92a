-- ===== src/Claims/Predicates.antt =====
-- claims/predicates.py: how two claims relate.
pub mod Relations
use memory_os.Base.{
  ℕ, String, Bool, true, false, ◌&&◌, ◌||◌, not, Option, none, some, List, [], ◌∷◌, ◌≡◌, refl, ap,
  sym, ◌∙◌, if◌then◌else◌, any, find, str_eq, eq_iff, arith, ltb, max, min, Bool-cases, inl, inr,
  ◌⊎◌,
}
use memory_os.Domain.{ClaimPolarity, same_polarity}
use memory_os.Temporal.{overlap}
use memory_os.Store.{JsonValue, text, other}
use memory_os.Claims.Canonical.{Texts, canonical_predicate, canonical_object}

pub data Relationship : Type 0 where
  equivalent supports contradicts independent uncertain : Relationship

-- The confidence is in hundredths.
pub record RelationshipDecision : Type 0 where
  pub relationship : Relationship
  pub confidence : ℕ
  pub reason : String
  pub model_eligible : Bool

pub data Cardinality : Type 0 where
  single multi conditional : Cardinality

abbrev predicates : List (String × Cardinality)
predicates =
    ("uses", Cardinality.conditional)
    ∷ ("forbidden", Cardinality.multi)
    ∷ ("implemented_in", Cardinality.multi)
    ∷ ("prefers", Cardinality.single)
    ∷ ("failed_because", Cardinality.multi)
    ∷ ("states", Cardinality.multi)
    ∷ []

abbrev markers : List String
markers = "database" ∷ "framework" ∷ "package_manager" ∷ "current" ∷ "primary" ∷ []

-- Tests of the relationship of a decision.
abbrev pub is_contradiction : Relationship → Bool
is_contradiction Relationship.contradicts = true
is_contradiction _ = false

abbrev pub is_uncertain : Relationship → Bool
is_uncertain Relationship.uncertain = true
is_uncertain _ = false

-- `PREDICATES.get` and the cardinality, for a canonical predicate
unfoldable pub takes_one_value : Texts → String → String → Bool
takes_one_value t canonical subject = elim (find (λ p. str_eq p.0 canonical) predicates) [
  | none ↦ false
  | some (name, cardinality) ↦ elim cardinality [
    | Cardinality.single ↦ true
    | Cardinality.conditional ↦ any (λ marker. t.contains marker subject) markers
    | Cardinality.multi ↦ false
  ]
]

unfoldable pub is_single_valued : Texts → String → String → Bool
unfolding takes_one_value
is_single_valued t predicate subject = takes_one_value t (canonical_predicate t predicate) subject

-- The arguments that describe one side.
pub record ClaimValue : Type 0 where
  pub subject : String
  pub predicate : String
  pub object : JsonValue
  pub polarity : ClaimPolarity
  pub valid_from : Option ℕ
  pub valid_to : Option ℕ

abbrev is_text : JsonValue → Bool
is_text (text s) = true
is_text (other json) = false

-- The cases of `classify_claim_values` on the outcomes of its tests.
unfoldable pub decide :
    (differ overlaps same_value same_sign contained single_valued : Bool) → RelationshipDecision
decide differ overlaps same_value same_sign contained single_valued =
    if differ
    then record {
      relationship = Relationship.independent;
      confidence = 100;
      reason = "Subjects or canonical predicates differ";
      model_eligible = false;
    }
    else if not overlaps
    then record {
      relationship = Relationship.independent;
      confidence = 100;
      reason = "Valid-time intervals do not overlap";
      model_eligible = false;
    }
    else if same_value && same_sign
    then record {
      relationship = Relationship.equivalent;
      confidence = 100;
      reason = "Canonical objects and polarity match";
      model_eligible = false;
    }
    else if same_sign && contained
    then record {
      relationship = Relationship.supports;
      confidence = 88;
      reason = "One normalized statement contains the other";
      model_eligible = false;
    }
    else if same_value && not same_sign
    then record {
      relationship = Relationship.contradicts;
      confidence = 100;
      reason = "The same object is asserted with opposite polarity";
      model_eligible = false;
    }
    else if single_valued
    then record {
      relationship = Relationship.contradicts;
      confidence = 97;
      reason = "Different values overlap on a single-valued dimension";
      model_eligible = false;
    }
    else record {
      relationship = Relationship.uncertain;
      confidence = 50;
      reason = "Same semantic slot and overlapping time, but deterministic rules are inconclusive";
      model_eligible = true;
    }

-- The tests of `classify_claim_values`.
abbrev pub differ : Texts → ClaimValue → ClaimValue → Bool
differ t left right =
    not (str_eq left.subject right.subject)
    || not (str_eq (canonical_predicate t left.predicate) (canonical_predicate t right.predicate))

abbrev pub contained : Texts → ClaimValue → ClaimValue → Bool
contained t left right =
    let left_value = canonical_object t left.object in
    let right_value = canonical_object t right.object in
    is_text left.object
    && is_text right.object
    && (t.contains left_value right_value || t.contains right_value left_value)

unfoldable pub classify_claim_values : Texts → ClaimValue → ClaimValue → RelationshipDecision
unfolding decide
classify_claim_values t left right =
    decide (differ t left right)
      (overlap left.valid_from left.valid_to right.valid_from right.valid_to)
      (str_eq (canonical_object t left.object) (canonical_object t right.object))
      (same_polarity left.polarity right.polarity) (contained t left right)
      (is_single_valued t left.predicate left.subject)

unfoldable pub compare_claim_values : Texts → ClaimValue → ClaimValue → Relationship
unfolding classify_claim_values
compare_claim_values t left right =
    let relationship = (classify_claim_values t left right).relationship in
    if is_uncertain relationship then Relationship.independent else relationship
