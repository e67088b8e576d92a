-- ===== src/Base/Sorting.antt =====
-- Sums, tests and predicates over sorted, mapped and joined lists.
use Prim.Native.Nat.{ℕ, ◌+◌, ◌≤◌}
use mathlib.Core.Path.{◌≡◌, refl, sym, ap, subst, ◌∙◌}
use mathlib.Core.Bool.{Bool, false, not, ◌||◌}
use mathlib.Core.Logic.{inl, inr}
use mathlib.Core.List.{List, [], ◌∷◌, ◌++◌, map, Memᴰ}
use native.Mathlib.Omega.{arith}
use memory_os.Base.Tests.{if◌then◌else◌, Bool-cases, ltb, ltb→lt}
use memory_os.Base.Lists.{keep, any, length, All, insert_by, sort_by}
use memory_os.Base.Groups.{sum_of, max_by}

abbrev pub indicator : Bool → ℕ
indicator b = if b then 1 else 0

module _ {ℓ} {A : Type ℓ} where
  pub length-keep :
      (p : A → Bool) (xs : List A) → length (keep p xs) ≡ sum_of (λ x. indicator (p x)) xs
  unfolding keep sum_of
  length-keep p [] = refl
  length-keep p (x ∷ xs) = ground (arith, length-keep p xs)

  pub sum-partition :
      (f : A → ℕ) (q : A → Bool) (xs : List A)
      → sum_of f (keep q xs) + sum_of f (keep (λ x. not (q x)) xs) ≡ sum_of f xs
  unfolding keep sum_of
  sum-partition f q [] = omega arith
  sum-partition f q (x ∷ xs) = ground (arith, sum-partition f q xs)

  pub All-append {κ} : (P : A → Type κ) (xs ys : List A) → All P xs → All P ys → All P (xs ++ ys)
  All-append P [] ys h k = k
  All-append P (x ∷ xs) ys h k = (h.0, All-append P xs ys h.1 k)

  module _ (precedes : A → A → Bool) where
    sum-insert_by :
        (f : A → ℕ) (x : A) (ys : List A) → sum_of f (insert_by precedes x ys) ≡ f x + sum_of f ys
    unfolding insert_by sum_of
    sum-insert_by f x [] = refl
    sum-insert_by f x (y ∷ ys) = ground (arith, sum-insert_by f x ys)

    pub sum-sort_by : (f : A → ℕ) (xs : List A) → sum_of f (sort_by precedes xs) ≡ sum_of f xs
    unfolding sort_by sum_of
    sum-sort_by f [] = refl
    sum-sort_by f (x ∷ xs) =
        omega (arith, sum-sort_by f xs, sum-insert_by f x (sort_by precedes xs))

    pub length-keep-sort_by :
        (p : A → Bool) (xs : List A) → length (keep p (sort_by precedes xs)) ≡ length (keep p xs)
    length-keep-sort_by p xs =
        length-keep p (sort_by precedes xs)
        ∙ sum-sort_by (λ x. indicator (p x)) xs
        ∙ sym (length-keep p xs)

    length-insert_by : (x : A) (ys : List A) → length (insert_by precedes x ys) ≡ length ys + 1
    unfolding insert_by
    length-insert_by x [] = omega arith
    length-insert_by x (y ∷ ys) = ground (arith, length-insert_by x ys)

    pub length-sort_by : (xs : List A) → length (sort_by precedes xs) ≡ length xs
    unfolding sort_by
    length-sort_by [] = refl
    length-sort_by (x ∷ xs) =
        omega (arith, length-sort_by xs, length-insert_by x (sort_by precedes xs))

    any-insert_by :
        (p : A → Bool) (x : A) (ys : List A) → any p (insert_by precedes x ys) ≡ (p x || any p ys)
    unfolding insert_by any
    any-insert_by p x [] = refl
    any-insert_by p x (y ∷ ys) = ground (arith, any-insert_by p x ys)

    pub any-sort_by : (p : A → Bool) (xs : List A) → any p (sort_by precedes xs) ≡ any p xs
    unfolding sort_by any
    any-sort_by p [] = refl
    any-sort_by p (x ∷ xs) = rw (any-insert_by p x (sort_by precedes xs), any-sort_by p xs)

    All-insert_by {κ} :
        (P : A → Type κ) (x : A) (ys : List A) → P x → All P ys → All P (insert_by precedes x ys)
    unfolding insert_by
    All-insert_by P x [] p h = (p, tt)
    All-insert_by P x (y ∷ ys) p h = elim (Bool-cases (precedes y x)) [
      | inl e ↦ rw e (h.0, All-insert_by P x ys p h.1)
      | inr e ↦ rw e (p, h)
    ]

    pub All-sort_by {κ} : (P : A → Type κ) (xs : List A) → All P xs → All P (sort_by precedes xs)
    unfolding sort_by
    All-sort_by P [] h = tt
    All-sort_by P (x ∷ xs) h = All-insert_by P x (sort_by precedes xs) h.0 (All-sort_by P xs h.1)

pub All-of_map {ℓ κ μ} :
    {A : Type ℓ} {B : Type κ} (P : B → Type μ) (f : A → B) (xs : List A)
    → All (λ x. P (f x)) xs
    → All P (map f xs)
All-of_map P f [] h = tt
All-of_map P f (x ∷ xs) h = (h.0, All-of_map P f xs h.1)

pub All-of {ℓ κ} : {A : Type ℓ} (P : A → Type κ) → ((x : A) → P x) → (xs : List A) → All P xs
All-of P f [] = tt
All-of P f (x ∷ xs) = (f x, All-of P f xs)

-- What holds of all the members of a list holds of each.
pub All-Memᴰ {ℓ κ} :
    {A : Type ℓ} (P : A → Type κ) (xs : List A) {x : A} → All P xs → Memᴰ x xs → P x
All-Memᴰ P [] h m = elim m [ ]
All-Memᴰ P (y ∷ xs) h (Memᴰ.head e) = subst P (sym e) h.0
All-Memᴰ P (y ∷ xs) h (Memᴰ.tail m) = All-Memᴰ P xs h.1 m

pub All-both {ℓ κ μ ν} :
    {A : Type ℓ} (P : A → Type κ) (Q : A → Type μ) (R : A → Type ν)
    → ((x : A) → P x → Q x → R x)
    → (xs : List A) → All P xs
    → All Q xs
    → All R xs
All-both P Q R f [] h k = tt
All-both P Q R f (x ∷ xs) h k = (f x h.0 k.0, All-both P Q R f xs h.1 k.1)

-- `m` has the largest key of the elements.
abbrev pub IsGreatest {ℓ} : {A : Type ℓ} → (A → ℕ) → A → A → List A → Type 0
IsGreatest key m x xs = (key x ≤ key m) × All (λ y. key y ≤ key m) xs

pub max_by-IsGreatest {ℓ} :
    {A : Type ℓ} (key : A → ℕ) (x : A) (xs : List A) → IsGreatest key (max_by key x xs) x xs
unfolding max_by
max_by-IsGreatest key x [] = (omega arith, tt)
max_by-IsGreatest key x (y ∷ ys) = elim (Bool-cases (ltb (key x) (key y))) [
  | inl e ↦
      let (own, others) = max_by-IsGreatest key y ys in
      let larger = ltb→lt (key x) (key y) e in
      subst (λ m. IsGreatest key m x (y ∷ ys))
        (ap (λ b. max_by key (if b then y else x) ys) (sym e))
        (omega (arith, own, larger), (own, others))
  | inr e ↦
      let (own, others) = max_by-IsGreatest key x ys in
      let smaller = not_ltb (key x) (key y) e in
      subst (λ m. IsGreatest key m x (y ∷ ys))
        (ap (λ b. max_by key (if b then y else x) ys) (sym e))
        (own, (omega (arith, own, smaller), others))
]
  where
    not_ltb : (a b : ℕ) → ltb a b ≡ false → b ≤ a
    not_ltb a b h = ground (arith, h)

pub max_by-Memᴰ {ℓ} :
    {A : Type ℓ} (key : A → ℕ) (x : A) (xs : List A) → Memᴰ (max_by key x xs) (x ∷ xs)
unfolding max_by
max_by-Memᴰ key x [] = Memᴰ.head refl
max_by-Memᴰ {A = A} key x (y ∷ ys) = elim (Bool-cases (ltb (key x) (key y))) [
  | inl e ↦
      subst (λ m. Memᴰ m (x ∷ y ∷ ys)) (ap (λ b. max_by key (if b then y else x) ys) (sym e))
        (Memᴰ.tail (max_by-Memᴰ key y ys))
  | inr e ↦
      subst (λ m. Memᴰ m (x ∷ y ∷ ys)) (ap (λ b. max_by key (if b then y else x) ys) (sym e))
        (skip (max_by-Memᴰ key x ys))
]
  where
    skip : {c : A} → Memᴰ c (x ∷ ys) → Memᴰ c (x ∷ y ∷ ys)
    skip (Memᴰ.head e) = Memᴰ.head e
    skip (Memᴰ.tail m) = Memᴰ.tail (Memᴰ.tail m)
