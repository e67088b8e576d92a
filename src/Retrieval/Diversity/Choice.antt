-- ===== src/Retrieval/Diversity/Choice.antt =====
-- retrieval_v2/diversity.py: how many items `mmr_select` gives, and that it repeats none.
use memory_os.Base.{
  ℕ, zero, suc, ◌+◌, ◌≤◌, min, ◌≡◌, ◌≢◌, refl, ap, String, Bool, true, false, List, [], ◌∷◌, ◌==◌,
  ==_refl, Floats, All-Memᴰ, Memᴰ, keep, length, indicator, Bool-cases, inl, inr, arith,
}
use memory_os.Retrieval.Diversity.{
  Candidate, Chosen, best, remove, score_with, update_cache, select_rounds, mmr_select,
}
use memory_os.Retrieval.Diversity.Reference.{AreDistinct, remove-AreDistinct}

module _ (f : Floats) where
  open f use {Float, zero_float, less}

  best-Memᴰ :
      (score : Candidate f → Float) (x : Candidate f) (xs : List (Candidate f))
      → Memᴰ (best f score x xs) (x ∷ xs)
  unfolding best
  best-Memᴰ score x [] = Memᴰ.head refl
  best-Memᴰ score x (y ∷ ys) = elim (Bool-cases (less (score x) (score y))) [
    | inl e ↦ rw e (Memᴰ.tail (best-Memᴰ score y ys))
    | inr e ↦ rw e (skip (best-Memᴰ score x ys))
  ]
    where
      skip : {c : Candidate f} → Memᴰ c (x ∷ ys) → Memᴰ c (x ∷ y ∷ ys)
      skip (Memᴰ.head e) = Memᴰ.head e
      skip (Memᴰ.tail m) = Memᴰ.tail (Memᴰ.tail m)

  -- Removal takes one item out.
  keep-remove :
      (p : Candidate f → Bool) (c : Candidate f) (xs : List (Candidate f))
      → AreDistinct f xs
      → Memᴰ c xs
      → length (keep p xs) ≡ indicator (p c) + length (keep p (remove f c xs))
  unfolding keep remove
  keep-remove p c [] d m = elim m [ ]
  keep-remove p c (x ∷ xs) d (Memᴰ.head e) = rw e (ground (arith, ==_refl x.id))
  keep-remove p c (x ∷ xs) d (Memᴰ.tail m) =
      let apart = All-Memᴰ (λ y. x.id ≢ y.id) xs d.0 m in
      let miss : (x.id == c.id) ≡ false = ground (arith, apart) in
      rw miss (ground (arith, keep-remove p c xs d.1 m))

  keep-true : (xs : List (Candidate f)) → length (keep (λ _. true) xs) ≡ length xs
  unfolding keep
  keep-true [] = refl
  keep-true (x ∷ xs) = ap suc (keep-true xs)

  length-remove :
      (c : Candidate f) (xs : List (Candidate f))
      → AreDistinct f xs
      → Memᴰ c xs
      → length xs ≡ length (remove f c xs) + 1
  length-remove c xs d m =
      omega (arith, keep-remove (λ _. true) c xs d m, keep-true xs, keep-true (remove f c xs))

  module _ (findall : String → List String) where
    select_rounds-length :
        (rounds : ℕ) (remaining : List (Candidate f)) (cache : ℕ → Float)
        → AreDistinct f remaining
        → length (select_rounds f findall rounds remaining cache) ≡ min rounds (length remaining)
    unfolding select_rounds
    select_rounds-length zero remaining cache d = omega arith
    select_rounds-length (suc rounds) [] cache d = omega arith
    select_rounds-length (suc rounds) (x ∷ xs) cache d =
        let chosen = best f (λ c. score_with f findall (cache c.id) c) x xs in
        let member = best-Memᴰ (λ c. score_with f findall (cache c.id) c) x xs in
        let remaining = remove f chosen (x ∷ xs) in
        omega (
          arith,
          length-remove chosen (x ∷ xs) d member,
          select_rounds-length rounds remaining (update_cache f findall chosen remaining cache)
              (remove-AreDistinct f chosen (x ∷ xs) d),
        )

    abbrev pub chosen_that : (Candidate f → Bool) → List (Chosen f) → ℕ
    chosen_that p [] = 0
    chosen_that p (c ∷ cs) = indicator (p c.candidate) + chosen_that p cs

    select_rounds-count :
        (p : Candidate f → Bool) (rounds : ℕ) (remaining : List (Candidate f)) (cache : ℕ → Float)
        → AreDistinct f remaining
        → chosen_that p (select_rounds f findall rounds remaining cache) ≤ length (keep p remaining)
    unfolding select_rounds
    select_rounds-count p zero remaining cache d = omega arith
    select_rounds-count p (suc rounds) [] cache d = omega arith
    select_rounds-count p (suc rounds) (x ∷ xs) cache d =
        let chosen = best f (λ c. score_with f findall (cache c.id) c) x xs in
        let member = best-Memᴰ (λ c. score_with f findall (cache c.id) c) x xs in
        let remaining = remove f chosen (x ∷ xs) in
        omega (
          arith,
          keep-remove p chosen (x ∷ xs) d member,
          select_rounds-count p rounds remaining (update_cache f findall chosen remaining cache)
              (remove-AreDistinct f chosen (x ∷ xs) d),
        )

    -- Of candidates with distinct identities as many are selected as the limit allows, and whatever
    -- test counts them, no more of the selected pass it than of the candidates.
    pub mmr_select-length :
        (limit : ℕ) (candidates : List (Candidate f)) (p : Candidate f → Bool)
        → AreDistinct f candidates
        → (length (mmr_select f findall limit candidates) ≡ min limit (length candidates))
          × (chosen_that p (mmr_select f findall limit candidates) ≤ length (keep p candidates))
    unfolding mmr_select
    mmr_select-length limit candidates p d = (
      select_rounds-length limit candidates (λ id. zero_float) d,
      select_rounds-count p limit candidates (λ id. zero_float) d,
    )
