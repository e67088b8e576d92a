-- ===== src/Retrieval/Diversity/Reference.antt =====
-- retrieval_v2/diversity.py: the cached redundancy is the one that a comparison with all selected
-- items gives, as the comment in `mmr_select` says.
use memory_os.Base.{
  ℕ, zero, suc, ◌≡◌, ◌≢◌, refl, sym, ap, ◌∙◌, String, false, List, [], ◌∷◌, ◌++◌, ◌==◌, ==_refl,
  if◌then◌else◌, Floats, All, All-map, All-both, All-of, Bool-cases, inl, inr, arith,
}
use memory_os.Retrieval.Diversity.{
  Candidate, Chosen, larger, best, remove, similar, score_with, update_cache, select_rounds,
  mmr_select,
}

module _ (f : Floats) where
  open f use {Float, zero_float, less}

  -- The identities of the candidates are distinct.
  abbrev pub AreDistinct : List (Candidate f) → Type 0
  AreDistinct [] = Unit
  AreDistinct (x ∷ xs) = All (λ y. x.id ≢ y.id) xs × AreDistinct xs

  best-cong :
      (s t : Candidate f → Float) (x : Candidate f) (xs : List (Candidate f))
      → s x ≡ t x
      → All (λ c. s c ≡ t c) xs
      → best f s x xs ≡ best f t x xs
  unfolding best
  best-cong s t x [] e h = refl
  best-cong s t x (y ∷ ys) e h = elim (Bool-cases (less (t x) (t y))) [
    | inl k ↦ rw (e, h.0, k) (best-cong s t y ys h.0 h.1)
    | inr k ↦ rw (e, h.0, k) (best-cong s t x ys e h.1)
  ]

  best-eq :
      (s t : Candidate f → Float) (x : Candidate f) (xs : List (Candidate f))
      → s x ≡ t x
      → All (λ c. s c ≡ t c) xs
      → s (best f s x xs) ≡ t (best f s x xs)
  unfolding best
  best-eq s t x [] e h = e
  best-eq s t x (y ∷ ys) e h = elim (Bool-cases (less (s x) (s y))) [
    | inl k ↦ rw k (best-eq s t y ys h.0 h.1)
    | inr k ↦ rw k (best-eq s t x ys e h.1)
  ]

  All-remove {κ} :
      (P : Candidate f → Type κ) (c : Candidate f) (xs : List (Candidate f))
      → All P xs
      → All P (remove f c xs)
  unfolding remove
  All-remove P c [] h = tt
  All-remove P c (x ∷ xs) h = elim (Bool-cases (x.id == c.id)) [
    | inl e ↦ rw e h.1
    | inr e ↦ rw e (h.0, All-remove P c xs h.1)
  ]

  pub remove-AreDistinct :
      (c : Candidate f) (xs : List (Candidate f)) → AreDistinct xs → AreDistinct (remove f c xs)
  unfolding remove
  remove-AreDistinct c [] h = tt
  remove-AreDistinct c (x ∷ xs) h = elim (Bool-cases (x.id == c.id)) [
    | inl e ↦ rw e h.1
    | inr e ↦ rw e (All-remove (λ y. x.id ≢ y.id) c xs h.0, remove-AreDistinct c xs h.1)
  ]

  module _ (findall : String → List String) where
    -- The redundancy of an item: the largest similarity to a selected one, compared with each anew.
    unfoldable pub redundancy : Candidate f → Float → List (Candidate f) → Float
    redundancy c so_far [] = so_far
    redundancy c so_far (s ∷ selected) =
        redundancy c (larger f so_far (similar f findall c s)) selected

    -- `mmr_select` without the cache.
    unfoldable pub reference_rounds : ℕ → List (Candidate f) → List (Candidate f) → List (Chosen f)
    unfolding redundancy
    reference_rounds zero remaining selected = []
    reference_rounds (suc rounds) [] selected = []
    reference_rounds (suc rounds) (x ∷ xs) selected =
        let score =
          λ (c : Candidate f). score_with f findall (redundancy c zero_float selected) c in
        let chosen = best f score x xs in
        record { candidate = chosen; mmr_score = score chosen }
        ∷ reference_rounds rounds (remove f chosen (x ∷ xs)) (selected ++ chosen ∷ [])

    redundancy-snoc :
        (c s : Candidate f) (so_far : Float) (selected : List (Candidate f))
        → redundancy c so_far (selected ++ s ∷ [])
          ≡ larger f (redundancy c so_far selected) (similar f findall c s)
    unfolding redundancy
    redundancy-snoc c s so_far [] = refl
    redundancy-snoc c s so_far (t ∷ selected) =
        redundancy-snoc c s (larger f so_far (similar f findall c t)) selected

    -- The cache holds the redundancy of each remaining item.
    abbrev IsCache : List (Candidate f) → List (Candidate f) → (ℕ → Float) → Type 0
    IsCache remaining selected cache =
        All (λ c. cache c.id ≡ redundancy c zero_float selected) remaining

    untouched :
        (chosen : Candidate f) (xs : List (Candidate f)) (cache : ℕ → Float) (id : ℕ)
        → All (λ y. id ≢ y.id) xs
        → update_cache f findall chosen xs cache id ≡ cache id
    unfolding update_cache
    untouched chosen [] cache id h = refl
    untouched chosen (x ∷ xs) cache id h =
        let miss : (id == x.id) ≡ false = ground (arith, h.0) in
        untouched chosen xs _ id h.1 ∙ rw miss

    updated :
        (chosen : Candidate f) (xs : List (Candidate f)) (cache : ℕ → Float)
        → AreDistinct xs
        → All
            (λ c.
              update_cache f findall chosen xs cache c.id
              ≡ larger f (cache c.id) (similar f findall c chosen))
            xs
    unfolding update_cache
    updated chosen [] cache d = tt
    updated chosen (x ∷ xs) cache d =
        let cache' = λ (id : ℕ).
          if id == x.id then larger f (cache x.id) (similar f findall x chosen) else cache id in
        (
          untouched chosen xs cache' x.id d.0 ∙ rw (==_refl x.id),
          later xs d.0 (updated chosen xs cache' d.1),
        )
      where
        later :
            (ys : List (Candidate f))
            → All (λ y. x.id ≢ y.id) ys
            → All
                (λ c.
                  update_cache f findall chosen xs
                    (λ id.
                      if id == x.id
                      then larger f (cache x.id) (similar f findall x chosen)
                      else cache id)
                    c.id
                  ≡ larger f
                      (if c.id == x.id
                        then larger f (cache x.id) (similar f findall x chosen)
                        else cache c.id)
                      (similar f findall c chosen))
                ys
            → All
                (λ c.
                  update_cache f findall chosen xs
                    (λ id.
                      if id == x.id
                      then larger f (cache x.id) (similar f findall x chosen)
                      else cache id)
                    c.id
                  ≡ larger f (cache c.id) (similar f findall c chosen))
                ys
        later [] n h = tt
        later (y ∷ ys) n h =
            let miss : (y.id == x.id) ≡ false = ground (arith, n.0) in
            (rw miss at h.0, later ys n.1 h.1)

    IsCache-update :
        (chosen : Candidate f) (remaining selected : List (Candidate f)) (cache : ℕ → Float)
        → AreDistinct remaining
        → IsCache remaining selected cache
        → IsCache remaining
            (selected ++ chosen ∷ [])
            (update_cache f findall chosen remaining cache)
    IsCache-update chosen remaining selected cache d h =
        All-both _ _
          (λ c.
            update_cache f findall chosen remaining cache c.id
            ≡ redundancy c zero_float (selected ++ chosen ∷ []))
          (λ c new old.
            new
            ∙ ap (λ r. larger f r (similar f findall c chosen)) old
            ∙ sym (redundancy-snoc c chosen zero_float selected))
          remaining (updated chosen remaining cache d) h

    rounds-eq :
        (rounds : ℕ) (remaining selected : List (Candidate f)) (cache : ℕ → Float)
        → AreDistinct remaining
        → IsCache remaining selected cache
        → select_rounds f findall rounds remaining cache
          ≡ reference_rounds rounds remaining selected
    unfolding select_rounds reference_rounds
    rounds-eq zero remaining selected cache d h = refl
    rounds-eq (suc rounds) [] selected cache d h = refl
    rounds-eq (suc rounds) (x ∷ xs) selected cache d h =
        let s = λ (c : Candidate f). score_with f findall (cache c.id) c in
        let t = λ (c : Candidate f). score_with f findall (redundancy c zero_float selected) c in
        let same =
          All-map _ (λ c. s c ≡ t c) (λ c e. ap (λ r. score_with f findall r c) e) (x ∷ xs) h in
        let pick = best-cong s t x xs same.0 same.1 in
        let value = best-eq s t x xs same.0 same.1 in
        let chosen = best f s x xs in
        let remaining = remove f chosen (x ∷ xs) in
        let distinct = remove-AreDistinct chosen (x ∷ xs) d in
        let rest =
          rounds-eq rounds remaining (selected ++ chosen ∷ [])
            (update_cache f findall chosen remaining cache) distinct
            (IsCache-update chosen remaining selected cache distinct (
              All-remove (λ c. cache c.id ≡ redundancy c zero_float selected) chosen (x ∷ xs) h)) in
        let later =
          λ (c : Candidate f). reference_rounds rounds (remove f c (x ∷ xs)) (selected ++ c ∷ []) in
        ap (λ l. record { candidate = chosen; mmr_score = s chosen } ∷ l) rest
        ∙ ap (λ v. record { candidate = chosen; mmr_score = v } ∷ later chosen) value
        ∙ ap (λ c. record { candidate = c; mmr_score = t c } ∷ later c) pick

    -- For candidates with distinct identities, the selection with cached redundancies gives the items
    -- and scores that a comparison of each candidate with every selected item in each round gives.
    pub mmr_select-eq-reference :
        (limit : ℕ) (candidates : List (Candidate f))
        → AreDistinct candidates
        → mmr_select f findall limit candidates ≡ reference_rounds limit candidates []
    unfolding mmr_select
    mmr_select-eq-reference limit candidates d =
        rounds-eq limit candidates [] (λ id. zero_float) d
          (unfold redundancy in All-of (λ c. zero_float ≡ zero_float) (λ c. refl) candidates)
