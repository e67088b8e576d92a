-- ===== src/Base/Sets.antt =====
-- A Python set of texts as the list of its members.
use Prim.Native.Nat.{ℕ, ◌≤◌}
use Prim.Native.String.{String}
use mathlib.Core.Path.{◌≡◌, refl, sym, subst, ◌∙◌}
use mathlib.Core.Bool.{Bool, true, false}
use mathlib.Core.Logic.{inl, inr}
use mathlib.Core.List.{List, [], ◌∷◌}
use native.Mathlib.Omega.{arith}
use text.Mathlib.Text.{◌==◌ as str_eq}
use text.Mathlib.TextEquality.{eq_iff}
use memory_os.Base.Tests.{◌==◌, if◌then◌else◌, Bool-cases}
use memory_os.Base.Lists.{length, any, All, All-map}

abbrev pub is_empty {ℓ} : {A : Type ℓ} → List A → Bool
is_empty [] = true
is_empty (x ∷ xs) = false

-- `{*values}`
unfoldable pub distinct : List String → List String
distinct [] = []
distinct (v ∷ rest) =
    let others = distinct rest in if any (str_eq v) rest then others else v ∷ others

-- `list(dict.fromkeys(ids))`
unfoldable pub distinct_ids : List ℕ → List ℕ
distinct_ids ids = go [] ids
  where
    go : List ℕ → List ℕ → List ℕ
    go seen [] = []
    go seen (id ∷ rest) =
        let others = go (id ∷ seen) rest in if any (λ s. s == id) seen then others else id ∷ others

distinct-nil : (xs : List String) → distinct xs ≡ [] → xs ≡ []
unfolding distinct any
distinct-nil [] h = refl
distinct-nil (v ∷ rest) h = elim (Bool-cases (any (str_eq v) rest)) [
  | inl e ↦
      let none_left : rest ≡ [] = distinct-nil rest (rw e at h) in
      let absent : any (str_eq v) rest ≡ false = rw none_left refl in cc (e, absent)
  | inr e ↦ cc (rw e at h)
]

equal_to_member :
    (v d : String) (xs : List String) → any (str_eq v) xs ≡ true → All (λ a. a ≡ d) xs → v ≡ d
unfolding any
equal_to_member v d [] h k = cc
equal_to_member v d (x ∷ xs) h k = elim (Bool-cases (str_eq v x)) [
  | inl e ↦ (eq_iff v x).0 e ∙ k.0
  | inr e ↦ equal_to_member v d xs (rw (e, any) at h) k.1
]

distinct-singleton : (d : String) (xs : List String) → distinct xs ≡ d ∷ [] → All (λ a. a ≡ d) xs
unfolding distinct
distinct-singleton d [] h = tt
distinct-singleton d (v ∷ rest) h = elim (Bool-cases (any (str_eq v) rest)) [
  | inl e ↦
      let later = distinct-singleton d rest (rw e at h) in (equal_to_member v d rest e later, later)
  | inr e ↦
      let whole : ◌≡◌ {A = List String} (v ∷ distinct rest) (d ∷ []) = rw e at h in
      let none_left : distinct rest ≡ [] = cc whole in
      let first : v ≡ d = cc whole in
      (first, subst (All (λ a. a ≡ d)) (sym (distinct-nil rest none_left)) tt)
]

-- The members of a set with at most one member are all equal.
pub All-distinct : (xs : List String) → length (distinct xs) ≤ 1 → All (λ a. All (λ b. a ≡ b) xs) xs
All-distinct xs h = go (distinct xs) refl h
  where
    go : (ys : List String) → distinct xs ≡ ys → length ys ≤ 1 → All (λ a. All (λ b. a ≡ b) xs) xs
    go [] e k = subst (λ l. All (λ a. All (λ b. a ≡ b) l) l) (sym (distinct-nil xs e)) tt
    go (d ∷ []) e k =
        let all_d = distinct-singleton d xs e in
        All-map (λ a. a ≡ d) (λ a. All (λ b. a ≡ b) xs)
          (λ a p. All-map (λ b. b ≡ d) (λ b. a ≡ b) (λ b q. p ∙ sym q) xs all_d) xs all_d
    go (c ∷ d ∷ ys) e k = absurd (omega arith)
