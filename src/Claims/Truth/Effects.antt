-- ===== src/Claims/Truth/Effects.antt =====
-- claims/truth.py: which claims an operation changes, and into what.
use memory_os.Base.{
  ℕ, ◌≡◌, ◌≢◌, refl, sym, ap, subst, ◌∙◌, Bool, true, false, Option, none, some, List, [], ◌∷◌, any,
  keep, find, ◌==◌, ==_iff, Bool-cases, Option-cases, inl, inr, if◌then◌else◌, arith, Result, ok,
  >>=-eq-ok, ok-injective, for_each, row_at, row_at-update_at, row_at-update_at_other,
}
use memory_os.Store.{Db, ClaimRow, get_claim, update_claim}
use memory_os.Claims.Canonical.{Texts}
use memory_os.Claims.Versioning.{Change, assign, transition}
use memory_os.Claims.Versioning.Writes.{claims-transition}
use memory_os.Claims.Truth.Services.{refresh}
use memory_os.Claims.Truth.Lifecycle.{transition_each}

-- No two rows have the same id.
abbrev pub HasKeys : List ClaimRow → Type 0
HasKeys [] = Unit
HasKeys (c ∷ rest) = (any (λ r. r.id == c.id) rest ≡ false) × HasKeys rest

abbrev pub changed : (ClaimRow → Bool) → (ClaimRow → Change) → ClaimRow → ClaimRow
changed test change c = if test c then assign (change c) c else c

-- The claim after the operation, if there is one: changed where it is among those operated on.
abbrev pub outcome :
    (ClaimRow → Bool) → (ClaimRow → Change) → Bool → Option ClaimRow → Option ClaimRow
outcome test change hit none = none
outcome test change hit (some c) = some (if hit then changed test change c else c)

outcome-false :
    (test : ClaimRow → Bool) (change : ClaimRow → Change) (o : Option ClaimRow)
    → outcome test change false o ≡ o
outcome-false test change none = refl
outcome-false test change (some c) = refl

module _ (t : Texts) (now : ℕ) (db : Db) (id : ℕ) (change : Change) (at : Option ℕ) {db' : Db}
    (moved : transition t now db id change at ≡ ok db') where
  get_claim-transition :
      {c : ClaimRow} → get_claim db id ≡ some c → get_claim db' id ≡ some (assign change c)
  unfolding get_claim update_claim assign
  get_claim-transition {c} stored =
      let (_, _, same, _, _, _) = claims-transition t now db id change at moved in
      ap (row_at (λ row. row.id) id) same
      ∙ row_at-update_at (λ row. row.id) (assign change) (λ row. refl) id db.claims stored

  get_claim-transition_other : (other : ℕ) → id ≢ other → get_claim db' other ≡ get_claim db other
  unfolding get_claim update_claim assign
  get_claim-transition_other other apart =
      let (_, _, same, _, _, _) = claims-transition t now db id change at moved in
      ap (row_at (λ row. row.id) other) same
      ∙ row_at-update_at_other (λ row. row.id) (assign change) (λ row. refl) id other db.claims
          apart

pub refresh_of_stored :
    (db : Db) (row : ClaimRow) {c : ClaimRow} → get_claim db row.id ≡ some c → refresh db row ≡ c
unfolding refresh
refresh_of_stored db row h = rw h

module _ (t : Texts) (now : ℕ) (test : ClaimRow → Bool) (change : ClaimRow → Change)
    (at : Option ℕ) where
  unfoldable pub step : Db → ClaimRow → Result Db
  step db row =
      let claim = refresh db row in
      let moved = transition t now db row.id (change claim) at in
      if test claim then moved else ok db

  outcome_of :
      (b : Bool) (p q : Option ClaimRow)
      → (b ≡ true → p ≡ outcome test change true q)
      → (b ≡ false → p ≡ q)
      → p ≡ outcome test change b q
  outcome_of true p q f g = f refl
  outcome_of false p q f g = g refl ∙ sym (outcome-false test change q)

  step-moved :
      (db : Db) (row : ClaimRow) (id : ℕ) {db' : Db}
      → test (refresh db row) ≡ true
      → transition t now db row.id (change (refresh db row)) at ≡ ok db'
      → get_claim db' id ≡ outcome test change (row.id == id) (get_claim db id)
  step-moved db row id {db'} pass moved =
      let (c, stored, same, _, _, _) =
        claims-transition t now db row.id (change (refresh db row)) at moved in
      let loaded = refresh_of_stored db row stored in
      let passes : test c ≡ true = subst (λ x. test x ≡ true) loaded pass in
      outcome_of (row.id == id) (get_claim db' id) (get_claim db id)
        (λ e.
          let here : row.id ≡ id = (==_iff row.id id).0 e in
          subst (λ i. get_claim db' i ≡ outcome test change true (get_claim db i)) here
            (get_claim-transition t now db row.id (change (refresh db row)) at moved stored
              ∙ rw (stored, passes, loaded) refl))
        (λ e.
          get_claim-transition_other t now db row.id (change (refresh db row)) at moved id
            (ground (arith, e)))

  step-kept :
      (db : Db) (row : ClaimRow) (id : ℕ)
      → test (refresh db row) ≡ false
      → get_claim db id ≡ outcome test change (row.id == id) (get_claim db id)
  step-kept db row id fail =
      outcome_of (row.id == id) (get_claim db id) (get_claim db id)
        (λ e.
          let here : row.id ≡ id = (==_iff row.id id).0 e in
          elim (Option-cases (get_claim db row.id)) [
            | inl missing ↦
                subst (λ i. get_claim db i ≡ outcome test change true (get_claim db i)) here
                  (rw missing refl)
            | inr (c, stored) ↦
                let fails : test c ≡ false =
                  subst (λ x. test x ≡ false) (refresh_of_stored db row stored) fail in
                subst (λ i. get_claim db i ≡ outcome test change true (get_claim db i)) here
                  (rw (stored, fails) refl)
          ])
        (λ e. refl)

  pub step-get_claim :
      (db : Db) (row : ClaimRow) (id : ℕ) {db' : Db}
      → step db row ≡ ok db'
      → get_claim db' id ≡ outcome test change (row.id == id) (get_claim db id)
  unfolding step
  step-get_claim db row id {db'} h = elim (Bool-cases (test (refresh db row))) [
    | inl pass ↦ step-moved db row id pass (rw pass at h)
    | inr fail ↦
        let kept : ok db ≡ ok db' = rw fail at h in
        ap (λ d. get_claim d id) (sym (ok-injective kept)) ∙ step-kept db row id fail
  ]

  pub get_claim-transition_each :
      (rows : List ClaimRow) (db : Db) (id : ℕ) {db' : Db}
      → HasKeys rows
      → transition_each t now test change at rows db ≡ ok db'
      → get_claim db' id ≡ outcome test change (any (λ r. r.id == id) rows) (get_claim db id)
  unfolding transition_each for_each any step
  get_claim-transition_each [] db id k h =
      ap (λ d. get_claim d id) (sym (ok-injective h))
      ∙ sym (outcome-false test change (get_claim db id))
  get_claim-transition_each (row ∷ rows) db id k h =
      let (d, stepped, rest) = >>=-eq-ok (step db row) _ h in
      let later = get_claim-transition_each rows d id k.1 rest in
      let first = step-get_claim db row id stepped in
      elim (Bool-cases (row.id == id)) [
        | inl e ↦
            let here : row.id ≡ id = (==_iff row.id id).0 e in
            let absent : any (λ (r : ClaimRow). r.id == id) rows ≡ false =
              subst (λ i. any (λ (r : ClaimRow). r.id == i) rows ≡ false) here k.0 in
            later ∙ rw (absent, e) (outcome-false test change (get_claim d id) ∙ rw e at first)
        | inr e ↦
            later
            ∙ rw (e, first, e)
                (ap (outcome test change (any (λ (r : ClaimRow). r.id == id) rows))
                  (outcome-false test change (get_claim db id)))
      ]

module _ (memory_id : ℕ) where
  any-keep-false :
      (id : ℕ) (rows : List ClaimRow)
      → any (λ r. r.id == id) rows ≡ false
      → any (λ r. r.id == id) (keep (λ r. r.memory_id == memory_id) rows) ≡ false
  unfolding any keep
  any-keep-false id [] h = refl
  any-keep-false id (c ∷ rest) h = ground (arith, any-keep-false id rest)

  pub HasKeys-keep :
      (rows : List ClaimRow) → HasKeys rows → HasKeys (keep (λ r. r.memory_id == memory_id) rows)
  unfolding any keep
  HasKeys-keep [] h = tt
  HasKeys-keep (c ∷ rest) h = elim (Bool-cases (c.memory_id == memory_id)) [
    | inl e ↦ rw (e, keep) (any-keep-false c.id rest h.0, HasKeys-keep rest h.1)
    | inr e ↦ rw (e, keep) (HasKeys-keep rest h.1)
  ]

  pub any-keep :
      (id : ℕ) (rows : List ClaimRow) {c : ClaimRow}
      → HasKeys rows
      → row_at (λ r. r.id) id rows ≡ some c
      → any (λ r. r.id == id) (keep (λ r. r.memory_id == memory_id) rows)
        ≡ (c.memory_id == memory_id)
  unfolding any keep find
  any-keep id [] k h = cc
  any-keep id (x ∷ rest) {c} k h = elim (Bool-cases (x.id == id)) [
    | inl e ↦
        let found : some x ≡ some c = rw (e, find) at h in
        let same : x ≡ c = cc found in
        let here : x.id ≡ id = (==_iff x.id id).0 e in
        let absent =
          any-keep-false id rest
            (subst (λ i. any (λ (r : ClaimRow). r.id == i) rest ≡ false) here k.0) in
        subst
          (λ y.
            any (λ (r : ClaimRow). r.id == id) (keep (λ r. r.memory_id == memory_id) (x ∷ rest))
            ≡ (y.memory_id == memory_id))
          same (ground (arith, e, absent))
    | inr e ↦
        let later : row_at (λ r. r.id) id rest ≡ some c = rw (e, find) at h in
        let ih = any-keep id rest k.1 later in ground (arith, e, ih)
  ]
