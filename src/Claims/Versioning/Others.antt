-- ===== src/Claims/Versioning/Others.antt =====
-- claims/versioning.py: a transition writes no version of another claim.
use memory_os.Base.{
  ℕ, ◌≡◌, ◌≢◌, refl, sym, ap, ◌∙◌, String, Option, none, some, List, [], ◌∷◌, keep, All-keep, find,
  find_sound, ==_iff, ◌==◌, leb, arith, ok, expect, expect-eq-ok, value_error, >>=-eq-ok, ok_pair,
  ok-injective, or_default, if◌then◌else◌,
}
use memory_os.Store.{Db, ClaimRow, ClaimVersionRow, get_claim, get_memory}
use memory_os.Claims.Canonical.{Texts}
use memory_os.Claims.Versioning.{
  newest, history, is_open, current_version, snapshot, add_version, Change, next_moment,
  identity_for, first_version, record_initial, current_or_initial, transition,
}
use memory_os.Claims.Versioning.Timeline.{Belongs, history-Belongs}
use memory_os.Claims.Versioning.Transition.{
  history-cons_other, history-advance_other, versions-identity_for,
}

newest-Belongs :
    (c : ℕ) (rows : List ClaimVersionRow) (v : ClaimVersionRow)
    → Belongs c rows
    → newest rows ≡ some v
    → v.claim_id ≡ c
unfolding newest
newest-Belongs c [] v b h = ground (arith, h)
newest-Belongs c (x ∷ rows) v (own, b) h = go (newest rows) (λ w e. newest-Belongs c rows w b e) h
  where
    go :
        (o : Option ClaimVersionRow)
        → ((w : ClaimVersionRow) → o ≡ some w → w.claim_id ≡ c)
        → (elim o [
          | none ↦ some x
          | some w ↦ if leb w.version_number x.version_number then some x else some w
        ])
          ≡ some v
        → v.claim_id ≡ c
    go none ih k = ground (arith, own, k)
    go (some w) ih k = ground (arith, own, ih w refl, k)

newest-claim :
    (c : ℕ) (rows : List ClaimVersionRow) (v : ClaimVersionRow)
    → newest (keep is_open (history c rows)) ≡ some v
    → v.claim_id ≡ c
newest-claim c rows v h =
    newest-Belongs c (keep is_open (history c rows)) v
      (All-keep (λ v. v.claim_id ≡ c) is_open (history c rows) (history-Belongs c rows)) h

-- The version is of the claim, and no other claim has one more.
abbrev IsOwn : ClaimRow → Db → Db × ClaimVersionRow → Type 0
IsOwn claim db r =
    (r.1.claim_id ≡ claim.id)
    × ((c : ℕ) → c ≢ claim.id → history c r.0.versions ≡ history c db.versions)

module _ (t : Texts) (db : Db) (claim : ClaimRow) {db' : Db} {v : ClaimVersionRow} where
  first_version-IsOwn :
      (actor reason : String) (at : Option ℕ)
      → first_version t db claim actor reason at ≡ ok (db', v)
      → IsOwn claim db (db', v)
  unfolding first_version add_version snapshot
  first_version-IsOwn actor reason at h =
      let ((d, i), identified, k) = >>=-eq-ok (identity_for t db claim) _ h in
      let (stored, version) = ok_pair k in
      let same = versions-identity_for t db claim identified in
      (
        ap (λ x. x.claim_id) (sym version),
        λ c apart.
            ap (λ e. history c e.versions) (sym stored)
            ∙ history-cons_other c _ d.versions (λ p. apart (sym p))
            ∙ ap (history c) same.0,
      )

  record_initial-IsOwn :
      (actor reason : String) (at : Option ℕ)
      → record_initial t db claim actor reason at ≡ ok (db', v)
      → IsOwn claim db (db', v)
  unfolding record_initial
  record_initial-IsOwn actor reason at h =
      go (find (λ v. v.claim_id == claim.id) db.versions) refl h
    where
      go :
          (o : Option ClaimVersionRow)
          → find (λ v. v.claim_id == claim.id) db.versions ≡ o
          → (elim o [
            | some existing ↦ ok (db, existing)
            | none ↦ first_version t db claim actor reason at
          ])
            ≡ ok (db', v)
          → IsOwn claim db (db', v)
      go (some x) e k =
          let (stored, version) = ok_pair k in
          let own = find_sound (λ v. v.claim_id == claim.id) db.versions e in
          (
            ap (λ x. x.claim_id) (sym version) ∙ (==_iff x.claim_id claim.id).0 own,
            λ c apart. ap (λ e. history c e.versions) (sym stored),
          )
      go none e k = first_version-IsOwn actor reason at k

  current_or_initial-IsOwn : current_or_initial t db claim ≡ ok (db', v) → IsOwn claim db (db', v)
  unfolding current_or_initial current_version
  current_or_initial-IsOwn h = go (current_version claim.id db.versions) refl h
    where
      go :
          (o : Option ClaimVersionRow)
          → current_version claim.id db.versions ≡ o
          → (elim o [
            | some current ↦ ok (db, current)
            | none ↦
                record_initial t db claim "system:compatibility" "Lazy V2.1 history backfill" none
          ])
            ≡ ok (db', v)
          → IsOwn claim db (db', v)
      go (some x) e k =
          let (stored, version) = ok_pair k in
          (
            ap (λ x. x.claim_id) (sym version) ∙ newest-claim claim.id db.versions x e,
            λ c apart. ap (λ e. history c e.versions) (sym stored),
          )
      go none e k = record_initial-IsOwn "system:compatibility" "Lazy V2.1 history backfill" none k

-- The versions of every other claim are as before.
pub history-transition_other :
    (t : Texts) (now : ℕ) (db : Db) (claim_id : ℕ) (change : Change) (at : Option ℕ) {db' : Db}
    → transition t now db claim_id change at ≡ ok db'
    → (c : ℕ) → claim_id ≢ c
    → history c db'.versions ≡ history c db.versions
unfolding transition get_claim
history-transition_other t now db claim_id change at {db'} h c apart =
    let (claim, found, h1) = >>=-eq-ok (expect (get_claim db claim_id) value_error) _ h in
    let (memory, owned, h2) = >>=-eq-ok (expect (get_memory db claim.memory_id) value_error) _ h1 in
    let ((d, current), opened, h3) = >>=-eq-ok (current_or_initial t db claim) _ h2 in
    let stored = expect-eq-ok (get_claim db claim_id) value_error found in
    let same : claim.id ≡ claim_id =
      (==_iff claim.id claim_id).0 (find_sound (λ row. row.id == claim_id) db.claims stored) in
    let (own, others) = current_or_initial-IsOwn t db claim opened in
    let moment = next_moment (or_default at now) current.transaction_from in
    let other : c ≢ claim.id = λ p. apart (sym (p ∙ same)) in
    ap (λ e. history c e.versions) (sym (ok-injective h3))
    ∙ history-advance_other change moment claim current d c other own
    ∙ others c other
