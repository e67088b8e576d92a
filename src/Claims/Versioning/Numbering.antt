-- ===== src/Claims/Versioning/Numbering.antt =====
-- claims/versioning.py: the identities still to give after the writes of `ClaimVersionStore`.
use memory_os.Base.{
  ℕ, ◌≤◌, String, Option, none, arith, ◌==◌, find, expect, value_error, Returns, Returns-bind,
  Returns-after, Returns-option,
}
use memory_os.Store.{Db, ClaimRow, ClaimIdentityRow, ClaimVersionRow, get_claim, get_memory}
use memory_os.Claims.Canonical.{Texts}
use memory_os.Claims.Versioning.{
  identity_for, add_version, first_version, record_initial, current_version, current_or_initial,
  advance, transition, Change,
}

abbrev pub Grows {ℓ} : {A : Type ℓ} → ℕ → Db × A → Type 0
Grows n r = n ≤ r.0.next_id

next_id-identity_for :
    (t : Texts) (db : Db) (claim : ClaimRow) (n : ℕ)
    → n ≤ db.next_id
    → Returns (Grows {A = ClaimIdentityRow} n) (identity_for t db claim)
unfolding identity_for
next_id-identity_for t db claim n h = ground arith

next_id-first_version :
    (t : Texts) (db : Db) (claim : ClaimRow) (actor reason : String) (at : Option ℕ) (n : ℕ)
    → n ≤ db.next_id
    → Returns (Grows {A = ClaimVersionRow} n) (first_version t db claim actor reason at)
unfolding first_version add_version
next_id-first_version t db claim actor reason at n h =
    Returns-bind (Grows {A = ClaimIdentityRow} n) (Grows {A = ClaimVersionRow} n)
      (identity_for t db claim) _ (next_id-identity_for t db claim n h) (λ r k. omega arith)

pub next_id-record_initial :
    (t : Texts) (db : Db) (claim : ClaimRow) (actor reason : String) (at : Option ℕ) (n : ℕ)
    → n ≤ db.next_id
    → Returns (Grows {A = ClaimVersionRow} n) (record_initial t db claim actor reason at)
unfolding record_initial
next_id-record_initial t db claim actor reason at n h =
    Returns-option (Grows {A = ClaimVersionRow} n) (find (λ v. v.claim_id == claim.id) db.versions)
      _ _ (λ existing. h) (next_id-first_version t db claim actor reason at n h)

next_id-current_or_initial :
    (t : Texts) (db : Db) (claim : ClaimRow) (n : ℕ)
    → n ≤ db.next_id
    → Returns (Grows {A = ClaimVersionRow} n) (current_or_initial t db claim)
unfolding current_or_initial
next_id-current_or_initial t db claim n h =
    Returns-option (Grows {A = ClaimVersionRow} n) (current_version claim.id db.versions) _ _
      (λ current. h)
      (next_id-record_initial t db claim "system:compatibility" "Lazy V2.1 history backfill" none n
        h)

-- A transition gives no identity that was given before it.
pub next_id-transition :
    (t : Texts) (now : ℕ) (db : Db) (id : ℕ) (change : Change) (at : Option ℕ) (n : ℕ)
    → n ≤ db.next_id
    → Returns (λ (d : Db). n ≤ d.next_id) (transition t now db id change at)
unfolding transition advance add_version
next_id-transition t now db id change at n h =
    Returns-after (λ (d : Db). n ≤ d.next_id) (expect (get_claim db id) value_error) _
      (λ c _.
        Returns-after (λ (d : Db). n ≤ d.next_id) (expect (get_memory db c.memory_id) value_error) _
          (λ m _.
            Returns-bind (Grows {A = ClaimVersionRow} n) (λ (d : Db). n ≤ d.next_id)
              (current_or_initial t db c) _ (next_id-current_or_initial t db c n h)
              (λ r k. omega arith)))
