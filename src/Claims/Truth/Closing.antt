-- ===== src/Claims/Truth/Closing.antt =====
-- claims/truth.py: what `forget_claims` and `expire_claims` change.
use memory_os.Base.{
  ℕ, ◌≡◌, refl, ap, ◌∙◌, String, Bool, false, not, ◌&&◌, ◌||◌, Option, none, some, ◌==◌, Bool-cases,
  inl, inr, if◌then◌else◌, arith, ok,
}
use memory_os.Domain.{ClaimStatus, is_historical, is_rejected}
use memory_os.Store.{Db, ClaimRow, get_claim}
use memory_os.Claims.Canonical.{Texts}
use memory_os.Claims.Versioning.{Change, assign}
use memory_os.Claims.Truth.Services.{claims_of}
use memory_os.Claims.Truth.Lifecycle.{
  transition_each, unless_historical, unless_closed, forgetting, expiring, forget_claims,
  expire_claims,
}
use memory_os.Claims.Versioning.{history}
use memory_os.Claims.Truth.Histories.{history-transition_each}
use memory_os.Claims.Truth.Effects.{
  get_claim-transition_each, HasKeys-keep, any-keep, HasKeys, changed,
}

-- The claim `c` after an operation on the claims of a memory that changes those that pass a test.
abbrev pub changed_in : ℕ → (ClaimRow → Bool) → (ClaimRow → Change) → ClaimRow → ClaimRow
changed_in memory_id test change c = if c.memory_id == memory_id then changed test change c else c

module _ (t : Texts) (now : ℕ) (db : Db) (memory_id : ℕ) (id : ℕ) {c : ClaimRow} {db' : Db}
    (keys : HasKeys db.claims) (stored : get_claim db id ≡ some c) where
  get_claim-claims_of :
      (test : ClaimRow → Bool) (change : ClaimRow → Change) (at : Option ℕ)
      → transition_each t now test change at (claims_of db memory_id) db ≡ ok db'
      → get_claim db' id ≡ some (changed_in memory_id test change c)
  unfolding claims_of get_claim
  get_claim-claims_of test change at h =
      get_claim-transition_each t now test change at (claims_of db memory_id) db id
        (HasKeys-keep memory_id db.claims keys) h
      ∙ rw (any-keep memory_id id db.claims keys stored, stored) refl

  history-claims_of :
      (test : ClaimRow → Bool) (change : ClaimRow → Change) (at : Option ℕ)
      → transition_each t now test change at (claims_of db memory_id) db ≡ ok db'
      → ((c.memory_id == memory_id) && test c) ≡ false
      → history id db'.versions ≡ history id db.versions
  unfolding claims_of get_claim
  history-claims_of test change at h fails =
      history-transition_each t now test change at id c (claims_of db memory_id) db stored
        (rw (any-keep memory_id id db.claims keys stored) fails) h

  -- If claim ids are unique and `forget_claims` of a memory returns, then every claim of that memory
  -- has the status historical afterwards and is else as before, and every other claim is as before.
  -- A claim of another memory, and one that was historical before, has no new version: its history
  -- is as before.
  pub forget_claims-get_claim :
      (actor : String)
      → forget_claims t now db memory_id actor ≡ ok db'
      → (get_claim db' id
          ≡ some (
              if c.memory_id == memory_id then record c { status = ClaimStatus.historical } else c))
        × ((c.memory_id == memory_id && not (is_historical c.status)) ≡ false
            → history id db'.versions ≡ history id db.versions)
  unfolding forget_claims assign
  forget_claims-get_claim actor h = (
    get_claim-claims_of unless_historical (λ c. forgetting actor) none h
        ∙ ap (λ x. some (if c.memory_id == memory_id then x else c)) (historical c),
    history-claims_of unless_historical (λ c. forgetting actor) none h,
  )
    where
      historical :
          (c : ClaimRow)
          → changed unless_historical (λ c. forgetting actor) c
            ≡ record c { status = ClaimStatus.historical }
      historical c = elim (Bool-cases (is_historical c.status)) [
        | inl e ↦
            let same : c.status ≡ ClaimStatus.historical = ground (arith, e) in
            rw e (ap (λ s. record c { status = s }) same)
        | inr e ↦ rw e refl
      ]

  -- If claim ids are unique and `expire_claims` of a memory returns, then each claim of that memory
  -- that was neither historical nor rejected is historical afterwards, ends at its own end of
  -- validity or else at the moment of expiry, and is else as before, and every other claim is as
  -- before, its history included.
  pub expire_claims-get_claim :
      (reason : String) (at : ℕ)
      → expire_claims t now db memory_id reason at ≡ ok db'
      → (get_claim db' id
          ≡ some (
              if c.memory_id == memory_id && not (is_historical c.status || is_rejected c.status)
              then record c {
                status = ClaimStatus.historical;
                valid_to = elim c.valid_to [ none ↦ some at | some end ↦ some end ];
              }
              else c))
        × ((c.memory_id == memory_id && not (is_historical c.status || is_rejected c.status))
              ≡ false
            → history id db'.versions ≡ history id db.versions)
  unfolding expire_claims assign
  expire_claims-get_claim reason at h = (
    get_claim-claims_of unless_closed (expiring reason at) (some at) h ∙ ap some (expired c),
    history-claims_of unless_closed (expiring reason at) (some at) h,
  )
    where
      expired :
          (c : ClaimRow)
          → changed_in memory_id unless_closed (expiring reason at) c ≡ (
              if c.memory_id == memory_id && not (is_historical c.status || is_rejected c.status)
              then record c {
                status = ClaimStatus.historical;
                valid_to = elim c.valid_to [ none ↦ some at | some end ↦ some end ];
              }
              else c)
      expired c = ground arith
