-- ===== src/Claims/Versioning/Writes.antt =====
-- claims/versioning.py: what a transition writes to the claims, and what it leaves.
use memory_os.Base.{
  ℕ, ◌≡◌, refl, sym, ap, subst, ◌∙◌, String, Option, none, some, ◌==◌, find, or_default, arith, ok,
  expect, expect-eq-ok, value_error, >>=-eq-ok, ok_pair, ok-injective, ==_iff, find_sound,
}
use memory_os.Store.{
  Db, ClaimRow, ClaimVersionRow, ClaimIdentityRow, get_claim, get_memory, update_claim,
}
use memory_os.Claims.Canonical.{Texts}
use memory_os.Claims.Versioning.{
  Change, assign, advance, add_version, current_version, identity_for, first_version,
  record_initial, current_or_initial, transition, next_moment,
}

-- The tables that recording a version leaves alone.
abbrev pub SameRows : Db → Db → Type 0
SameRows db' db =
    (db'.claims ≡ db.claims)
    × (db'.memories ≡ db.memories)
    × (db'.health ≡ db.health)
    × (db'.audit ≡ db.audit)
    × (db'.possible_conflicts ≡ db.possible_conflicts)
    × (db'.memory_relations ≡ db.memory_relations)

rows-identity_for :
    (t : Texts) (db : Db) (claim : ClaimRow) {db' : Db} {i : ClaimIdentityRow}
    → identity_for t db claim ≡ ok (db', i)
    → SameRows db' db
unfolding identity_for
rows-identity_for t db claim h = ground arith

rows-first_version :
    (t : Texts) (db : Db) (claim : ClaimRow) (actor reason : String) (at : Option ℕ) {db' : Db}
    {v : ClaimVersionRow}
    → first_version t db claim actor reason at ≡ ok (db', v)
    → SameRows db' db
unfolding first_version add_version
rows-first_version t db claim actor reason at h =
    let ((d, i), identified, k) = >>=-eq-ok (identity_for t db claim) _ h in
    let same = rows-identity_for t db claim identified in
    subst (λ e. SameRows e db) (ok_pair k).0 same

pub rows-record_initial :
    (t : Texts) (db : Db) (claim : ClaimRow) (actor reason : String) (at : Option ℕ) {db' : Db}
    {v : ClaimVersionRow}
    → record_initial t db claim actor reason at ≡ ok (db', v)
    → SameRows db' db
unfolding record_initial
rows-record_initial t db claim actor reason at {db'} {v} h =
    go (find (λ v. v.claim_id == claim.id) db.versions) h
  where
    go :
        (o : Option ClaimVersionRow)
        → (elim o [
          | some existing ↦ ok (db, existing)
          | none ↦ first_version t db claim actor reason at
        ])
          ≡ ok (db', v)
        → SameRows db' db
    go (some x) k = subst (λ e. SameRows e db) (ok_pair k).0 (refl, refl, refl, refl, refl, refl)
    go none k = rows-first_version t db claim actor reason at k

rows-current_or_initial :
    (t : Texts) (db : Db) (claim : ClaimRow) {db' : Db} {v : ClaimVersionRow}
    → current_or_initial t db claim ≡ ok (db', v)
    → SameRows db' db
unfolding current_or_initial
rows-current_or_initial t db claim {db'} {v} h = go (current_version claim.id db.versions) h
  where
    go :
        (o : Option ClaimVersionRow)
        → (elim o [
          | some current ↦ ok (db, current)
          | none ↦
              record_initial t db claim "system:compatibility" "Lazy V2.1 history backfill" none
        ])
          ≡ ok (db', v)
        → SameRows db' db
    go (some x) k = subst (λ e. SameRows e db) (ok_pair k).0 (refl, refl, refl, refl, refl, refl)
    go none k =
        rows-record_initial t db claim "system:compatibility" "Lazy V2.1 history backfill" none k

-- The claims after a transition that returned: the change at the claim, all else as before.
pub claims-transition :
    (t : Texts) (now : ℕ) (db : Db) (claim_id : ℕ) (change : Change) (at : Option ℕ) {db' : Db}
    → transition t now db claim_id change at ≡ ok db'
    → (claim : ClaimRow) × (get_claim db claim_id ≡ some claim)
      × (db'.claims ≡ update_claim claim_id (assign change) db.claims)
      × (db'.memories ≡ db.memories)
      × (db'.health ≡ db.health)
      × (db'.audit ≡ db.audit)
unfolding transition advance add_version get_claim
claims-transition t now db claim_id change at {db'} h =
    let (claim, found, h1) = >>=-eq-ok (expect (get_claim db claim_id) value_error) _ h in
    let (memory, owned, h2) = >>=-eq-ok (expect (get_memory db claim.memory_id) value_error) _ h1 in
    let ((d, current), opened, h3) = >>=-eq-ok (current_or_initial t db claim) _ h2 in
    let stored = expect-eq-ok (get_claim db claim_id) value_error found in
    let same : claim.id ≡ claim_id =
      (==_iff claim.id claim_id).0 (find_sound (λ row. row.id == claim_id) db.claims stored) in
    let (c, m, w, a, _, _) = rows-current_or_initial t db claim opened in
    let moment = next_moment (or_default at now) current.transaction_from in
    let moved = ok-injective h3 in
    (
      claim,
      stored,
      ap (λ e. e.claims) (sym moved)
          ∙ ap (λ i. update_claim i (assign change) d.claims) same
          ∙ ap (update_claim claim_id (assign change)) c,
      ap (λ e. e.memories) (sym moved) ∙ m,
      ap (λ e. e.health) (sym moved) ∙ w,
      ap (λ e. e.audit) (sym moved) ∙ a,
    )
