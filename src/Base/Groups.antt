-- ===== src/Base/Groups.antt =====
-- `groups.setdefault(key(x), []).append(x)` over a sequence: a dictionary of lists, and the first of
-- the largest elements of a sequence.
use Prim.Native.Nat.{ℕ, ◌+◌}
use mathlib.Core.Path.{◌≡◌, refl, sym, ◌∙◌}
use mathlib.Core.Bool.{Bool, true, false}
use mathlib.Core.Logic.{◌↔◌, inl, inr}
use mathlib.Core.List.{List, [], ◌∷◌, ◌++◌, map}
use mathlib.Core.List
use native.Mathlib.Omega.{arith}
use memory_os.Base.Tests.{if◌then◌else◌, Bool-cases, ltb}
use memory_os.Base.Lists.{keep, All, All-map}

-- `max(x, *xs, key=key)`, the first of the largest.
unfoldable pub max_by {ℓ} : {A : Type ℓ} → (A → ℕ) → A → List A → A
max_by key x [] = x
max_by key x (y ∷ ys) = max_by key (if ltb (key x) (key y) then y else x) ys

-- `sum(f(x) for x in xs)`
unfoldable pub sum_of {ℓ} : {A : Type ℓ} → (A → ℕ) → List A → ℕ
sum_of f [] = 0
sum_of f (x ∷ xs) = f x + sum_of f xs

pub sum_of-append {ℓ} :
    {A : Type ℓ} (f : A → ℕ) (xs ys : List A) → sum_of f (xs ++ ys) ≡ sum_of f xs + sum_of f ys
unfolding sum_of
sum_of-append f [] ys = omega arith
sum_of-append f (x ∷ xs) ys = omega (arith, sum_of-append f xs ys)

pub sum_of-map {ℓ κ} :
    {A : Type ℓ} {B : Type κ} (f : B → ℕ) (g : A → ℕ) (h : A → B)
    → ((x : A) → f (h x) ≡ g x)
    → (xs : List A) → sum_of f (map h xs) ≡ sum_of g xs
unfolding sum_of
sum_of-map f g h e [] = refl
sum_of-map f g h e (x ∷ xs) = rw (e x, sum_of-map f g h e xs)

module _ {ℓ κ} {K : Type ℓ} {A : Type κ} (same : K → K → Bool) (key : A → K) where
  unfoldable pub add_to_group : A → List (K × List A) → List (K × List A)
  add_to_group x [] = (key x, x ∷ []) ∷ []
  add_to_group x ((k, g) ∷ groups) =
      let rest = add_to_group x groups in
      if same k (key x) then (k, g ++ x ∷ []) ∷ groups else (k, g) ∷ rest

  unfoldable pub group_from : List (K × List A) → List A → List (K × List A)
  unfolding add_to_group
  group_from groups [] = groups
  group_from groups (x ∷ xs) = group_from (add_to_group x groups) xs

  unfoldable pub group_by : List A → List (K × List A)
  unfolding group_from
  group_by = group_from []

  -- `groups.get(key, [])`
  unfoldable pub group_at : K → List (K × List A) → List A
  group_at j [] = []
  group_at j ((k, g) ∷ groups) = let rest = group_at j groups in if same k j then g else rest

  abbrev Distinct : List (K × List A) → Type ℓ
  Distinct [] = Unit
  Distinct ((k, g) ∷ groups) = All (λ (e : K × List A). same k e.0 ≡ false) groups × Distinct groups

  -- Every element is in one group.
  sum-add_to_group :
      (f : List A → ℕ) (n : A → ℕ)
      → ((x : A) → f (x ∷ []) ≡ n x)
      → ((g : List A) (x : A) → f (g ++ x ∷ []) ≡ f g + n x)
      → (x : A) (groups : List (K × List A))
      → sum_of (λ e. f e.1) (add_to_group x groups) ≡ sum_of (λ e. f e.1) groups + n x
  unfolding add_to_group sum_of
  sum-add_to_group f n one more x [] = omega (arith, one x)
  sum-add_to_group f n one more x ((k, g) ∷ groups) =
      ground (arith, more g x, sum-add_to_group f n one more x groups)

  sum-group_from :
      (f : List A → ℕ) (n : A → ℕ)
      → ((x : A) → f (x ∷ []) ≡ n x)
      → ((g : List A) (x : A) → f (g ++ x ∷ []) ≡ f g + n x)
      → (groups : List (K × List A)) (xs : List A)
      → sum_of (λ e. f e.1) (group_from groups xs) ≡ sum_of (λ e. f e.1) groups + sum_of n xs
  unfolding group_from sum_of
  sum-group_from f n one more groups [] = omega arith
  sum-group_from f n one more groups (x ∷ xs) = omega (
    arith,
    sum-group_from f n one more (add_to_group x groups) xs,
    sum-add_to_group f n one more x groups,
  )

  pub sum-group_by :
      (f : List A → ℕ) (n : A → ℕ)
      → ((x : A) → f (x ∷ []) ≡ n x)
      → ((g : List A) (x : A) → f (g ++ x ∷ []) ≡ f g + n x)
      → (xs : List A) → sum_of (λ e. f e.1) (group_by xs) ≡ sum_of n xs
  unfolding group_by sum_of
  sum-group_by f n one more xs = omega (arith, sum-group_from f n one more [] xs)

  module _ (same_iff : (a b : K) → (same a b ≡ true) ↔ (a ≡ b)) where
    group_at-add_to_group :
        (j : K) (x : A) (groups : List (K × List A))
        → group_at j (add_to_group x groups)
          ≡ (if same (key x) j then group_at j groups ++ x ∷ [] else group_at j groups)
    unfolding group_at add_to_group
    group_at-add_to_group j x [] = refl
    group_at-add_to_group j x ((k, g) ∷ groups) = elim (Bool-cases (same k (key x))) [
      | inl e ↦ let at : k ≡ key x = (same_iff k (key x)).0 e in rw (e, ← at) (ground arith)
      | inr e ↦ elim (Bool-cases (same k j)) [
        | inl h ↦
            let at : k ≡ j = (same_iff k j).0 h in
            elim (Bool-cases (same (key x) j)) [
              | inl h' ↦ cc (e, (same_iff k (key x)).1 (at ∙ sym ((same_iff (key x) j).0 h')))
              | inr h' ↦ rw (e, h, h')
            ]
        | inr h ↦ rw (e, h) (group_at-add_to_group j x groups)
      ]
    ]

    group_at-group_from :
        (j : K) (groups : List (K × List A)) (xs : List A)
        → group_at j (group_from groups xs) ≡ group_at j groups ++ keep (λ x. same (key x) j) xs
    unfolding group_from keep
    group_at-group_from j groups [] = sym (List.append-nil (group_at j groups))
    group_at-group_from j groups (x ∷ xs) = elim (Bool-cases (same (key x) j)) [
      | inl e ↦
          rw (group_at-group_from j (add_to_group x groups) xs, group_at-add_to_group j x groups, e)
            (List.append_assoc (group_at j groups) (x ∷ []) (keep (λ x. same (key x) j) xs))
      | inr e ↦
          rw (group_at-group_from j (add_to_group x groups) xs, group_at-add_to_group j x groups, e)
    ]

    keys-add_to_group {μ} :
        (P : K → Type μ) (x : A) (groups : List (K × List A))
        → P (key x)
        → All (λ (e : K × List A). P e.0) groups
        → All (λ (e : K × List A). P e.0) (add_to_group x groups)
    unfolding add_to_group
    keys-add_to_group P x [] p h = (p, tt)
    keys-add_to_group P x ((k, g) ∷ groups) p h = elim (Bool-cases (same k (key x))) [
      | inl e ↦ rw e h
      | inr e ↦ rw e (h.0, keys-add_to_group P x groups p h.1)
    ]

    add_to_group-Distinct :
        (x : A) (groups : List (K × List A)) → Distinct groups → Distinct (add_to_group x groups)
    unfolding add_to_group
    add_to_group-Distinct x [] h = (tt, tt)
    add_to_group-Distinct x ((k, g) ∷ groups) h = elim (Bool-cases (same k (key x))) [
      | inl e ↦ rw e h
      | inr e ↦ rw e (
        keys-add_to_group (λ j. same k j ≡ false) x groups e h.0,
        add_to_group-Distinct x groups h.1,
      )
    ]

    group_from-Distinct :
        (groups : List (K × List A)) (xs : List A)
        → Distinct groups
        → Distinct (group_from groups xs)
    unfolding group_from
    group_from-Distinct groups [] h = h
    group_from-Distinct groups (x ∷ xs) h =
        group_from-Distinct (add_to_group x groups) xs (add_to_group-Distinct x groups h)

    found :
        (groups : List (K × List A))
        → Distinct groups
        → All (λ (e : K × List A). group_at e.0 groups ≡ e.1) groups
    unfolding group_at
    found [] h = tt
    found ((k, g) ∷ groups) h = (rw ((same_iff k k).1 refl), later groups h.0 (found groups h.1))
      where
        later :
            (rest : List (K × List A))
            → All (λ (e : K × List A). same k e.0 ≡ false) rest
            → All (λ (e : K × List A). group_at e.0 groups ≡ e.1) rest
            → All (λ (e : K × List A). group_at e.0 ((k, g) ∷ groups) ≡ e.1) rest
        later [] a b = tt
        later (e ∷ rest) a b = (rw a.0 b.0, later rest a.1 b.1)

    -- A group of the dictionary holds all the elements of its key, in their order.
    pub group_by-groups :
        (xs : List A)
        → All (λ (e : K × List A). e.1 ≡ keep (λ x. same (key x) e.0) xs) (group_by xs)
    unfolding group_by group_at
    group_by-groups xs =
        All-map (λ (e : K × List A). group_at e.0 (group_from [] xs) ≡ e.1)
          (λ (e : K × List A). e.1 ≡ keep (λ x. same (key x) e.0) xs)
          (λ e h. sym h ∙ group_at-group_from e.0 [] xs) (group_from [] xs)
          (found (group_from [] xs) (group_from-Distinct [] xs tt))
