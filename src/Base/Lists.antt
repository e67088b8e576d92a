-- ===== src/Base/Lists.antt =====
-- Tables as lists: lengths, Boolean filters and searches over the native numbers.
use Prim.Native.Nat.{ℕ, suc, ◌+◌, ◌≤◌}
use mathlib.Core.Path.{◌≡◌, refl}
use mathlib.Core.Bool.{Bool, true, false, ◌&&◌, ◌||◌}
use mathlib.Core.Logic.{inl, inr}
use mathlib.Core.Option.{Option, none, some}
use mathlib.Core.List.{List, [], ◌∷◌, ◌++◌, map}
use native.Mathlib.Omega.{arith}
use memory_os.Base.Tests.{if◌then◌else◌, Bool-cases}

module _ {ℓ} {A : Type ℓ} where
  abbrev pub length : List A → ℕ
  length [] = 0
  length (x ∷ xs) = suc (length xs)

  -- `[x for x in xs if p(x)]`, and the rows of a `select ... where`.
  unfoldable pub keep : (A → Bool) → List A → List A
  keep p [] = []
  keep p (x ∷ xs) = let rest = keep p xs in if p x then x ∷ rest else rest

  -- `any(p(x) for x in xs)`
  unfoldable pub any : (A → Bool) → List A → Bool
  any p [] = false
  any p (x ∷ xs) = let rest = any p xs in p x || rest

  -- `all(p(x) for x in xs)`
  unfoldable pub all : (A → Bool) → List A → Bool
  all p [] = true
  all p (x ∷ xs) = let rest = all p xs in p x && rest

  -- `next((x for x in xs if p(x)), None)`, and `session.get` by a key.
  unfoldable pub find : (A → Bool) → List A → Option A
  find p [] = none
  find p (x ∷ xs) = let rest = find p xs in if p x then some x else rest

  abbrev pub All {κ} : (A → Type κ) → List A → Type κ
  All P [] = Unit
  All P (x ∷ xs) = P x × All P xs

module _ {ℓ} {A : Type ℓ} where
  pub length-append : (xs ys : List A) → length (xs ++ ys) ≡ length xs + length ys
  length-append [] ys = omega arith
  length-append (x ∷ xs) ys = omega (arith, length-append xs ys)

  pub keep-append : (p : A → Bool) (xs ys : List A) → keep p (xs ++ ys) ≡ keep p xs ++ keep p ys
  unfolding keep
  keep-append p [] ys = refl
  keep-append p (x ∷ xs) ys = ground (arith, keep-append p xs ys)

  pub keep-drop : (p : A → Bool) (x : A) (xs : List A) → p x ≡ false → keep p (x ∷ xs) ≡ keep p xs
  unfolding keep
  keep-drop p x xs e = rw e

  pub length-keep-le : (p : A → Bool) (xs : List A) → length (keep p xs) ≤ length xs
  unfolding keep
  length-keep-le p [] = omega arith
  length-keep-le p (x ∷ xs) = ground (arith, length-keep-le p xs)

  pub All-keep {κ} : (P : A → Type κ) (p : A → Bool) (xs : List A) → All P xs → All P (keep p xs)
  unfolding keep
  All-keep P p [] h = tt
  All-keep P p (x ∷ xs) h = ground (arith, All-keep P p xs h.1)

  pub All-keep_self : (p : A → Bool) (xs : List A) → All (λ x. p x ≡ true) (keep p xs)
  unfolding keep
  All-keep_self p [] = tt
  All-keep_self p (x ∷ xs) = elim (Bool-cases (p x)) [
    | inl e ↦ rw e (e, All-keep_self p xs)
    | inr e ↦ rw e (All-keep_self p xs)
  ]

  pub keep_idem : (p : A → Bool) (xs : List A) → keep p (keep p xs) ≡ keep p xs
  unfolding keep
  keep_idem p [] = refl
  keep_idem p (x ∷ xs) = ground (arith, keep_idem p xs)

-- `sorted` is stable: an element is put in front of those that do not precede it.
module _ {ℓ} {A : Type ℓ} (precedes : A → A → Bool) where
  unfoldable pub insert_by : A → List A → List A
  insert_by x [] = x ∷ []
  insert_by x (y ∷ ys) = let rest = insert_by x ys in if precedes y x then y ∷ rest else x ∷ y ∷ ys

  -- `sorted(xs)`, with `precedes y x` for `key(y) < key(x)`.
  unfoldable pub sort_by : List A → List A
  unfolding insert_by
  sort_by [] = []
  sort_by (x ∷ xs) = insert_by x (sort_by xs)

-- What a change of rows that no test can see does to the queries.
module _ {ℓ} {A : Type ℓ} (f : A → A) where
  pub any-map :
      (p q : A → Bool) → ((x : A) → p (f x) ≡ q x) → (xs : List A) → any p (map f xs) ≡ any q xs
  unfolding any
  any-map p q e [] = refl
  any-map p q e (x ∷ xs) = rw (e x, any-map p q e xs)

  pub keep-map :
      (p q : A → Bool)
      → ((x : A) → p (f x) ≡ q x)
      → (xs : List A) → keep p (map f xs) ≡ map f (keep q xs)
  unfolding keep
  keep-map p q e [] = refl
  keep-map p q e (x ∷ xs) = ground (arith, e x, keep-map p q e xs)

  pub keep-map-All :
      (p : A → Bool) (xs : List A)
      → All (λ x. p (f x) ≡ p x) xs
      → keep p (map f xs) ≡ map f (keep p xs)
  unfolding keep
  keep-map-All p [] h = refl
  keep-map-All p (x ∷ xs) h = ground (arith, h.0, keep-map-All p xs h.1)

  module _ (precedes : A → A → Bool) (e : (x y : A) → precedes (f x) (f y) ≡ precedes x y) where
    insert_by-map :
        (x : A) (ys : List A)
        → insert_by precedes (f x) (map f ys) ≡ map f (insert_by precedes x ys)
    unfolding insert_by
    insert_by-map x [] = refl
    insert_by-map x (y ∷ ys) = ground (arith, e y x, insert_by-map x ys)

    pub sort_by-map : (xs : List A) → sort_by precedes (map f xs) ≡ map f (sort_by precedes xs)
    unfolding sort_by
    sort_by-map [] = refl
    sort_by-map (x ∷ xs) = rw (sort_by-map xs, insert_by-map x (sort_by precedes xs))

  pub map_unseen {κ} :
      {B : Type κ} (g : A → B)
      → ((x : A) → g (f x) ≡ g x)
      → (xs : List A) → map g (map f xs) ≡ map g xs
  map_unseen g e [] = refl
  map_unseen g e (x ∷ xs) = rw (e x, map_unseen g e xs)

pub All-of_keep {ℓ κ} :
    {A : Type ℓ} (P : A → Type κ) (p : A → Bool) (xs : List A)
    → All P (keep p xs)
    → All (λ x. p x ≡ true → P x) xs
unfolding keep
All-of_keep P p [] h = tt
All-of_keep P p (x ∷ xs) h = elim (Bool-cases (p x)) [
  | inl e ↦
      let h' : All P (x ∷ keep p xs) = rw (e, keep) at h in (λ _. h'.0, All-of_keep P p xs h'.1)
  | inr e ↦
      let h' : All P (keep p xs) = rw (e, keep) at h in (λ e'. cc (e, e'), All-of_keep P p xs h')
]

pub All-map {ℓ κ μ} :
    {A : Type ℓ} (P : A → Type κ) (Q : A → Type μ)
    → ((x : A) → P x → Q x)
    → (xs : List A) → All P xs
    → All Q xs
All-map P Q f [] h = tt
All-map P Q f (x ∷ xs) h = (f x h.0, All-map P Q f xs h.1)

-- What a search finds passes its test.
pub find_sound {ℓ} :
    {A : Type ℓ} (p : A → Bool) (xs : List A) {x : A} → find p xs ≡ some x → p x ≡ true
unfolding find
find_sound p [] h = cc
find_sound p (y ∷ ys) {x} h = elim (Bool-cases (p y)) [
  | inl e ↦
      let found : some y ≡ some x = rw (e, find) at h in let same : y ≡ x = cc found in rw same at e
  | inr e ↦ let later : find p ys ≡ some x = rw (e, find) at h in find_sound p ys later
]

pub any_mono {ℓ} :
    {A : Type ℓ} (p q : A → Bool)
    → ((x : A) → p x ≡ true → q x ≡ true)
    → (xs : List A) → any p xs ≡ true
    → any q xs ≡ true
unfolding any
any_mono p q f [] h = cc
any_mono p q f (x ∷ xs) h = ground (arith, f x, any_mono p q f xs)

-- A test passed by all rows that a query selects.
pub All-all-keep {ℓ} :
    {A : Type ℓ} (p q : A → Bool) (xs : List A)
    → all p (keep q xs) ≡ true
    → All (λ x. q x ≡ true → p x ≡ true) xs
unfolding all keep
All-all-keep p q [] h = tt
All-all-keep p q (x ∷ xs) h = elim (Bool-cases (q x)) [
  | inl e ↦
      let h' : (p x && all p (keep q xs)) ≡ true = rw (e, keep, all) at h in
      (λ _. ground (arith, h'), All-all-keep p q xs (ground (arith, h')))
  | inr e ↦
      let h' : all p (keep q xs) ≡ true = rw (e, keep) at h in
      (λ e'. cc (e, e'), All-all-keep p q xs h')
]
