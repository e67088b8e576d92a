-- ===== src/Claims/Truth/Histories.antt =====
-- claims/truth.py: which histories an operation on claims leaves alone.
use memory_os.Base.{
  ℕ, ◌≡◌, sym, ap, subst, ◌∙◌, Bool, true, false, ◌&&◌, Option, some, List, [], ◌∷◌, any, ◌==◌,
  ==_iff, Bool-cases, inl, inr, arith, ok, >>=-eq-ok, ok-injective, for_each,
}
use memory_os.Store.{Db, ClaimRow, get_claim}
use memory_os.Claims.Canonical.{Texts}
use memory_os.Claims.Versioning.{Change}
use memory_os.Claims.Truth.Services.{refresh}
use memory_os.Claims.Truth.Lifecycle.{transition_each}
use memory_os.Claims.Versioning.{history}
use memory_os.Claims.Versioning.Others.{history-transition_other}
use memory_os.Claims.Truth.Effects.{step, step-get_claim, refresh_of_stored}

module _ (t : Texts) (now : ℕ) (test : ClaimRow → Bool) (change : ClaimRow → Change) (at : Option ℕ)
    (id : ℕ) (c : ClaimRow) where
  step-history :
      (db : Db) (row : ClaimRow) {d : Db}
      → get_claim db id ≡ some c
      → ((row.id == id) && test c) ≡ false
      → step t now test change at db row ≡ ok d
      → history id d.versions ≡ history id db.versions
  unfolding step
  step-history db row {d} stored h k = elim (Bool-cases (test (refresh db row))) [
    | inr fail ↦
        let kept : ok db ≡ ok d = rw fail at k in
        ap (λ e. history id e.versions) (sym (ok-injective kept))
    | inl pass ↦ elim (Bool-cases (row.id == id)) [
      | inl e ↦
          let here : row.id ≡ id = (==_iff row.id id).0 e in
          let loaded = refresh_of_stored db row (ap (get_claim db) here ∙ stored) in
          let passes : test c ≡ true = subst (λ x. test x ≡ true) loaded pass in
          ground (arith, h, e, passes)
      | inr e ↦
          history-transition_other t now db row.id (change (refresh db row)) at (rw pass at k) id
            (ground (arith, e))
    ]
  ]

  step-stored :
      (db : Db) (row : ClaimRow) {d : Db}
      → get_claim db id ≡ some c
      → ((row.id == id) && test c) ≡ false
      → step t now test change at db row ≡ ok d
      → get_claim d id ≡ some c
  step-stored db row stored h k =
      step-get_claim t now test change at db row id k ∙ rw stored (ground (arith, h))

  -- The claim is not among the rows, or does not pass the test.
  pub history-transition_each :
      (rows : List ClaimRow) (db : Db) {db' : Db}
      → get_claim db id ≡ some c
      → (any (λ r. r.id == id) rows && test c) ≡ false
      → transition_each t now test change at rows db ≡ ok db'
      → history id db'.versions ≡ history id db.versions
  unfolding transition_each for_each any step
  history-transition_each [] db stored h k = ap (λ e. history id e.versions) (sym (ok-injective k))
  history-transition_each (row ∷ rows) db stored h k =
      let (d, stepped, rest) = >>=-eq-ok (step t now test change at db row) _ k in
      let first : ((row.id == id) && test c) ≡ false = ground (arith, h) in
      let later : (any (λ (r : ClaimRow). r.id == id) rows && test c) ≡ false = ground (arith, h) in
      history-transition_each rows d (step-stored db row stored first stepped) later rest
      ∙ step-history db row stored first stepped
