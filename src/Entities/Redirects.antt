-- ===== src/Entities/Redirects.antt =====
-- entities/resolver.py: what `follow_redirect` returns, and that it returns.
use memory_os.Base.{
  ℕ, zero, suc, ◌≤◌, ◌<◌, ◌≡◌, ◌≢◌, ◌↔◌, refl, sym, ap, ◌∙◌, subst, false, not, none, some, List,
  [], ◌∷◌, keep, find, any, length, length-keep-le, All, All-map, ◌==◌, arith, Bool-cases,
  Option-cases, inl, inr, ok, raise, expect, expect-eq-ok, require, ◌>>=◌, ◌>>◌, >>=-eq-ok,
  value_error, runtime_error, not_found, ==_iff, ok-injective,
}
use memory_os.Store.{Db, EntityRow, get_entity}
use memory_os.Entities.{is_seen, follow, follow_redirect}

-- `r` is reached from `e` by `n` redirects.
unfoldable pub IsChain : Db → ℕ → EntityRow → EntityRow → Type 0
IsChain db zero e r = e ≡ r
IsChain db (suc n) e r =
    (id : ℕ) × (target : EntityRow) × (e.redirect_to_id ≡ some id)
    × (get_entity db id ≡ some target)
    × IsChain db n target r

-- The chain ends: its last row has no redirect.
abbrev pub Resolves : Db → ℕ → EntityRow → EntityRow → Type 0
Resolves db n e r = IsChain db n e r × (r.redirect_to_id ≡ none)

unseen : List ℕ → List EntityRow → ℕ
unseen seen rows = length (keep (λ row. not (is_seen seen row.id)) rows)

unseen-cons_le :
    (id : ℕ) (seen : List ℕ) (rows : List EntityRow) → unseen (id ∷ seen) rows ≤ unseen seen rows
unfolding unseen keep any
unseen-cons_le id seen [] = omega arith
unseen-cons_le id seen (row ∷ rows) = ground (arith, unseen-cons_le id seen rows)

unseen-cons_lt :
    (id : ℕ) (seen : List ℕ) (rows : List EntityRow) {target : EntityRow}
    → is_seen seen id ≡ false
    → find (λ row. row.id == id) rows ≡ some target
    → unseen (id ∷ seen) rows < unseen seen rows
unfolding unseen keep any find
unseen-cons_lt id seen [] h k = cc
unseen-cons_lt id seen (row ∷ rows) {target} h k = elim (Bool-cases (row.id == id)) [
  | inl e ↦
      let same : row.id ≡ id = (==_iff row.id id).0 e in
      let fresh : is_seen seen row.id ≡ false = subst (λ i. is_seen seen i ≡ false) (sym same) h in
      ground (arith, unseen-cons_le id seen rows)
  | inr e ↦
      let later : find (λ row. row.id == id) rows ≡ some target = rw (e, find) at k in
      ground (arith, unseen-cons_lt id seen rows h later)
]

-- One round of the loop.
module _ (db : Db) where
  follow-root :
      (fuel : ℕ) (seen : List ℕ) (e : EntityRow)
      → e.redirect_to_id ≡ none
      → follow db (suc fuel) seen e ≡ ok e
  unfolding follow
  follow-root fuel seen e h = simp (h, follow)

  pub follow-step :
      (fuel : ℕ) (seen : List ℕ) (e : EntityRow) (id : ℕ)
      → e.redirect_to_id ≡ some id
      → follow db (suc fuel) seen e ≡ (
          require (not (is_seen seen id)) value_error
          >> (expect (get_entity db id) not_found >>= λ target. follow db fuel (id ∷ seen) target))
  unfolding follow
  follow-step fuel seen e id h = rw (h, follow) refl

  follow_sound :
      (fuel : ℕ) (seen : List ℕ) (e : EntityRow) {r : EntityRow}
      → follow db fuel seen e ≡ ok r
      → (n : ℕ) × Resolves db n e r
  unfolding follow IsChain
  follow_sound zero seen e h = cc
  follow_sound (suc fuel) seen e {r} h = elim (Option-cases e.redirect_to_id) [
    | inl none_left ↦
        let same : e ≡ r = ok-injective (sym (follow-root fuel seen e none_left) ∙ h) in
        (0, (same, subst (λ x. x.redirect_to_id ≡ none) same none_left))
    | inr (id, next) ↦
        let (_, _, h1) =
          >>=-eq-ok (require (not (is_seen seen id)) value_error) _
            (sym (follow-step fuel seen e id next) ∙ h) in
        let (target, found, h2) = >>=-eq-ok (expect (get_entity db id) not_found) _ h1 in
        let (n, (chain, root)) = follow_sound fuel (id ∷ seen) target h2 in
        (suc n, ((id, target, next, expect-eq-ok _ not_found found, chain), root))
  ]

  same_length : (n m : ℕ) (e r s : EntityRow) → Resolves db n e r → Resolves db m e s → n ≡ m
  unfolding IsChain
  same_length zero zero e r s h k = refl
  same_length zero (suc m) e r s (h, root) ((id, x, next, found, k), root') =
      let at : e.redirect_to_id ≡ none = subst (λ y. y.redirect_to_id ≡ none) (sym h) root in
      cc (at, next)
  same_length (suc n) zero e r s ((id, x, next, found, k), root) (h, root') =
      let at : e.redirect_to_id ≡ none = subst (λ y. y.redirect_to_id ≡ none) (sym h) root' in
      cc (at, next)
  same_length (suc n) (suc m) e r s ((id, x, next, found, k), root)
        ((id', x', next', found', k'), root') =
      let same_id : some id ≡ some id' = sym next ∙ next' in
      let same : x ≡ x' = cc (same_id, found, found') in
      ap suc (same_length n m x r s (k, root) (subst (λ y. IsChain db m y s) (sym same) k', root'))

  -- Every entity seen so far is at least `n` redirects from the end of its chain.
  Above : ℕ → List ℕ → Type 0
  Above n seen =
      All (λ id. (m : ℕ) (x r : EntityRow) → get_entity db id ≡ some x → Resolves db m x r → n ≤ m)
        seen

  fresh_of_Above :
      (n : ℕ) (seen : List ℕ) (id : ℕ) (x r : EntityRow)
      → Above (suc n) seen
      → get_entity db id ≡ some x
      → Resolves db n x r
      → is_seen seen id ≡ false
  unfolding any Above
  fresh_of_Above n [] id x r h found k = refl
  fresh_of_Above n (s ∷ seen) id x r h found k = elim (Bool-cases (s == id)) [
    | inl e ↦
        let same : s ≡ id = (==_iff s id).0 e in absurd (omega (arith, h.0 n x r (rw same found) k))
    | inr e ↦ rw (e, fresh_of_Above n seen id x r h.1 found k)
  ]

  follow_complete :
      (fuel n : ℕ) (seen : List ℕ) (e r : EntityRow)
      → unseen seen db.entities < fuel
      → Above n seen
      → Resolves db n e r
      → follow db fuel seen e ≡ ok r
  unfolding IsChain Above get_entity
  follow_complete zero n seen e r enough h k = absurd (omega arith)
  follow_complete (suc fuel) zero seen e r enough h (k, root) =
      follow-root fuel seen e (subst (λ x. x.redirect_to_id ≡ none) (sym k) root) ∙ ap ok k
  follow_complete (suc fuel) (suc n) seen e r enough h ((id, x, next, found, k), root) =
      let fresh = fresh_of_Above n seen id x r h found (k, root) in
      let less = unseen-cons_lt id seen db.entities fresh found in
      let rest =
        follow_complete fuel n (id ∷ seen) x r (omega arith)
          (
            λ m y s at chain.
                let same : x ≡ y = cc (found, at) in
                let short =
                  same_length n m x r s (k, root)
                    (subst (λ z. Resolves db m z s) (sym same) chain) in
                omega arith,
            All-map _ _ (λ i up m y s at chain. omega (arith, up m y s at chain)) seen h,
          )
          (k, root) in
      follow-step fuel seen e id next ∙ rw (fresh, found) rest

  follow_total :
      (fuel : ℕ) (seen : List ℕ) (e : EntityRow)
      → unseen seen db.entities < fuel
      → follow db fuel seen e ≢ raise runtime_error
  unfolding get_entity
  follow_total zero seen e enough h = absurd (omega arith)
  follow_total (suc fuel) seen e enough h = elim (Option-cases e.redirect_to_id) [
    | inl none_left ↦ cc (follow-root fuel seen e none_left, h)
    | inr (id, next) ↦ elim (Bool-cases (is_seen seen id)) [
      | inl again ↦ cc (rw (again) at (sym (follow-step fuel seen e id next) ∙ h))
      | inr fresh ↦
          let rest : (expect (get_entity db id) not_found >>= λ target.
          follow db fuel (id ∷ seen) target)
              ≡ raise runtime_error =
            rw (fresh) at (sym (follow-step fuel seen e id next) ∙ h) in
          elim (Option-cases (get_entity db id)) [
            | inl missing ↦ cc (rw missing at rest)
            | inr (x, found) ↦
                let less = unseen-cons_lt id seen db.entities fresh found in
                follow_total fuel (id ∷ seen) x (omega arith) (rw found at rest)
          ]
    ]
  ]

  enough_fuel : (e : EntityRow) → unseen (e.id ∷ []) db.entities < suc (length db.entities)
  unfolding unseen
  enough_fuel e =
      omega
        (arith, length-keep-le (λ (row : EntityRow). not (is_seen (e.id ∷ []) row.id)) db.entities)

-- `follow_redirect` always ends: with as many rounds as there are entities, and one more, it either
-- returns an entity or raises one of its own errors, whatever the redirects of the table.
pub follow_redirect_terminates :
    (db : Db) (e : EntityRow) → follow_redirect db e ≢ raise runtime_error
unfolding follow_redirect
follow_redirect_terminates db e =
    follow_total db (suc (length db.entities)) (e.id ∷ []) e (enough_fuel db e)

-- From a stored entity `follow_redirect` returns exactly the entity at the end of its chain of
-- redirects, where there is such an end.
pub follow_redirect_iff :
    (db : Db) (e r : EntityRow)
    → get_entity db e.id ≡ some e
    → (follow_redirect db e ≡ ok r) ↔ ((n : ℕ) × Resolves db n e r)
unfolding follow_redirect
follow_redirect_iff db e r stored = (
  λ h. follow_sound db (suc (length db.entities)) (e.id ∷ []) e h,
  λ w.
      follow_complete db (suc (length db.entities)) w.0 (e.id ∷ []) e r (enough_fuel db e)
        (unfold Above in
          (
            λ m x s at k.
                let same : e ≡ x = cc (stored, at) in
                omega (
                  arith,
                  same_length db w.0 m e r s w.1 (subst (λ y. Resolves db m y s) (sym same) k),
                ),
            tt,
          ))
        w.1,
)
