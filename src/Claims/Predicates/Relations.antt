-- ===== src/Claims/Predicates/Relations.antt =====
-- claims/predicates.py: what the classification of two claims promises.
use memory_os.Base.{
  ℕ, Bool, true, false, ◌&&◌, Option, ◌≡◌, ◌≤◌, refl, ap, sym, subst, ◌∙◌, arith, str_eq, eq_iff,
  str_eq_comm,
}
use mathlib.Core.Path.{ap₂}
use memory_os.Domain.{ClaimPolarity, same_polarity}
use memory_os.Temporal.{overlap, within, end_or_max, datetime_max}
use memory_os.Temporal.Overlap.{overlap-common}
use memory_os.Claims.Canonical.{Texts, canonical_predicate, canonical_object}
use memory_os.Claims.Predicates.{
  is_contradiction, is_single_valued, ClaimValue, decide, differ, contained, takes_one_value,
  classify_claim_values,
}

overlap_comm : (a b c d : Option ℕ) → overlap a b c d ≡ overlap c d a b
unfolding overlap
overlap_comm a b c d = ground arith

same_polarity_comm : (a b : ClaimPolarity) → same_polarity a b ≡ same_polarity b a
same_polarity_comm a b = ground arith

differ_comm : (t : Texts) (l r : ClaimValue) → differ t l r ≡ differ t r l
differ_comm t l r = rw (
  str_eq_comm l.subject r.subject,
  str_eq_comm (canonical_predicate t l.predicate) (canonical_predicate t r.predicate),
)

same_slot :
    (t : Texts) (l r : ClaimValue)
    → differ t l r ≡ false
    → (l.subject ≡ r.subject)
      × (canonical_predicate t l.predicate ≡ canonical_predicate t r.predicate)
same_slot t l r h = (
  (eq_iff l.subject r.subject).0 (ground arith),
  (eq_iff (canonical_predicate t l.predicate) (canonical_predicate t r.predicate)).0 (ground arith),
)

single_valued_of_slot :
    (t : Texts) (l r : ClaimValue)
    → differ t l r ≡ false
    → is_single_valued t l.predicate l.subject ≡ is_single_valued t r.predicate r.subject
unfolding is_single_valued
single_valued_of_slot t l r h =
    let (e, f) = same_slot t l r h in ap₂ (λ s c. takes_one_value t c s) e f

decide_congruent :
    (d o v s c m n : Bool) → (d ≡ false → m ≡ n) → decide d o v s c m ≡ decide d o v s c n
unfolding decide
decide_congruent true o v s c m n h = refl
decide_congruent false o v s c m n h = rw (h refl)

contained_comm : (t : Texts) (l r : ClaimValue) → contained t l r ≡ contained t r l
contained_comm t l r = ground arith

module _ (t : Texts) (l r : ClaimValue) where
  pub decision :
      classify_claim_values t l r
      ≡ decide
          (differ t l r)
          (overlap l.valid_from l.valid_to r.valid_from r.valid_to)
          (str_eq (canonical_object t l.object) (canonical_object t r.object))
          (same_polarity l.polarity r.polarity)
          (contained t l r)
          (is_single_valued t l.predicate l.subject)
  unfolding classify_claim_values
  decision = refl

-- The relationship of two claims, its confidence, its reason and whether a model may be asked do
-- not depend on which of the two is on the left.
pub classify_claim_values_comm :
    (t : Texts) (l r : ClaimValue) → classify_claim_values t l r ≡ classify_claim_values t r l
classify_claim_values_comm t l r =
    let o = λ (a b : ClaimValue). overlap a.valid_from a.valid_to b.valid_from b.valid_to in
    let v =
      λ (a b : ClaimValue). str_eq (canonical_object t a.object) (canonical_object t b.object) in
    let s = λ (a b : ClaimValue). same_polarity a.polarity b.polarity in
    decision t l r
    ∙ decide_congruent (differ t l r) (o l r) (v l r) (s l r) (contained t l r) _ _
        (single_valued_of_slot t l r)
    ∙ rw
        (
          differ_comm t l r,
          overlap_comm l.valid_from l.valid_to r.valid_from r.valid_to,
          str_eq_comm (canonical_object t l.object) (canonical_object t r.object),
          same_polarity_comm l.polarity r.polarity,
          contained_comm t l r,
        )
        (sym (decision t r l))

decide-contradicts :
    (d o v s c m : Bool)
    → is_contradiction (decide d o v s c m).relationship ≡ true
    → (d ≡ false) × (o ≡ true) × ((v && s) ≡ false) × ((decide d o v s c m).model_eligible ≡ false)
unfolding decide
decide-contradicts d o v s c m h = ground arith

-- If the left end is representable, a contradiction is only found between two claims about the same
-- subject and canonical predicate that are both valid at some instant, and is not left to a model.
pub classify_claim_values-contradicts :
    (t : Texts) (l r : ClaimValue)
    → end_or_max l.valid_to ≤ datetime_max
    → is_contradiction (classify_claim_values t l r).relationship ≡ true
    → (l.subject ≡ r.subject)
      × (canonical_predicate t l.predicate ≡ canonical_predicate t r.predicate)
      × ((m : ℕ) × (within l.valid_from l.valid_to m ≡ true)
          × (within r.valid_from r.valid_to m ≡ true))
      × ((classify_claim_values t l r).model_eligible ≡ false)
classify_claim_values-contradicts t l r bounded h =
    let (d, o, _, e) =
      decide-contradicts _ _ _ _ _ _
        (subst (λ x. is_contradiction x.relationship ≡ true) (decision t l r) h) in
    let (s, p) = same_slot t l r d in
    let (m, _, at_l, at_r) =
      overlap-common l.valid_from l.valid_to r.valid_from r.valid_to bounded o in
    (s, p, (m, at_l, at_r), ap (λ x. x.model_eligible) (decision t l r) ∙ e)
