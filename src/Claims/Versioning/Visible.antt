-- ===== src/Claims/Versioning/Visible.antt =====
-- claims/versioning.py: what `visible_versions` returns as of an earlier moment of knowledge.
use memory_os.Base.{
  ℕ, ◌+◌, ◌≤◌, ◌<◌, ◌≡◌, refl, ap, sym, subst, ◌∙◌, Bool, true, false, ◌&&◌, not, Option, none,
  some, List, [], ◌∷◌, keep, any, length, arith, ◌==◌, ok, >>=-eq-ok, ok_pair, ok-injective, expect,
  expect-eq-ok, value_error, All, All-map, All-of_keep, or_default, map, sort_by, keep-map,
  keep-map-All, any-map, sort_by-map, map_unseen, if◌then◌else◌, ==_iff, find_sound, keep-drop,
}
use mathlib.Core.Path.{ap₂}
use memory_os.Store.{Db, ClaimRow, ClaimVersionRow, ClaimIdentityRow, get_claim, get_memory}
use memory_os.Claims.Canonical.{Texts}
use memory_os.Claims.Versioning.{
  history, max_number, is_open, newest, current_version, snapshot, add_version, Change, assign,
  next_moment, end_version, current_or_initial, advance, transition, VersionQuery, is_visible_row,
  joined, outranks, row_order, top_ranked, visible_versions,
}
use memory_os.Claims.Versioning.Timeline.{
  IsEnded, IsTimeline, IsWellFormed, history-Belongs, newest-open, end_open,
}
use memory_os.Claims.Versioning.Transition.{
  lt-next_moment, le-next_moment, current_or_initial_of_open,
}

-- Only the open version of a claim has the number of its open version.
abbrev OpenIf : ClaimVersionRow → ClaimVersionRow → Type 0
OpenIf current v = v.version_number ≡ current.version_number → v.transaction_to ≡ none

smaller_numbers :
    (m : ℕ) (current : ClaimVersionRow) (rows : List ClaimVersionRow)
    → IsEnded m rows
    → length rows < current.version_number
    → All (OpenIf current) rows
smaller_numbers m current [] h k = tt
smaller_numbers m current (v ∷ rest) h k =
    (λ e. absurd (omega arith), smaller_numbers v.transaction_from current rest h.3 (omega arith))

open_of_number :
    (current : ClaimVersionRow) (h : List ClaimVersionRow)
    → IsTimeline h
    → newest (keep is_open h) ≡ some current
    → All (OpenIf current) h
unfolding newest keep
open_of_number current [] t e = tt
open_of_number current (v ∷ rest) t e =
    let same : some v ≡ some current = sym (newest-open v rest t) ∙ e in
    (λ _. t.0, smaller_numbers v.transaction_from current rest t.2 (ground (arith, same)))

abbrev set_end : Bool → ℕ → ClaimVersionRow → ClaimVersionRow
set_end b moment v = if b then record v { transaction_to = some moment } else v

abbrev is_current : ClaimVersionRow → ClaimVersionRow → Bool
is_current current v = v.claim_id == current.claim_id && v.version_number == current.version_number

abbrev ending : ClaimVersionRow → ℕ → ClaimVersionRow → ClaimVersionRow
ending current moment v = set_end (is_current current v) moment v

-- The columns of a version that no later write changes.
abbrev pub without_end : ClaimVersionRow → ClaimVersionRow
without_end v = record v { transaction_to = none }

visible-set_end :
    (q : VersionQuery) (moment : ℕ) (b : Bool) (v : ClaimVersionRow)
    → q.known_time < moment
    → (b ≡ true → v.transaction_to ≡ none)
    → is_visible_row q (set_end b moment v) ≡ is_visible_row q v
unfolding is_visible_row
visible-set_end q moment true v past h = ground (arith, h refl)
visible-set_end q moment false v past h = refl

joined-set_end :
    (t : Texts) (q : VersionQuery) (identities : List ClaimIdentityRow) (moment : ℕ) (b : Bool)
    (v : ClaimVersionRow)
    → joined t q identities (set_end b moment v) ≡ joined t q identities v
unfolding joined
joined-set_end t q identities moment true v = refl
joined-set_end t q identities moment false v = refl

outranks-set_end :
    (moment : ℕ) (b c : Bool) (v w : ClaimVersionRow)
    → ((set_end b moment w).claim_id == (set_end c moment v).claim_id
        && outranks (set_end b moment w) (set_end c moment v))
      ≡ (w.claim_id == v.claim_id && outranks w v)
unfolding outranks
outranks-set_end moment true true v w = refl
outranks-set_end moment true false v w = refl
outranks-set_end moment false true v w = refl
outranks-set_end moment false false v w = refl

row_order-set_end :
    (moment : ℕ) (b c : Bool) (v w : ClaimVersionRow)
    → row_order (set_end b moment v) (set_end c moment w) ≡ row_order v w
unfolding row_order
row_order-set_end moment true true v w = refl
row_order-set_end moment true false v w = refl
row_order-set_end moment false true v w = refl
row_order-set_end moment false false v w = refl

without_end-set_end :
    (moment : ℕ) (b : Bool) (v : ClaimVersionRow) → without_end (set_end b moment v) ≡ without_end v
without_end-set_end moment true v = refl
without_end-set_end moment false v = refl

top_ranked-ending :
    (current : ClaimVersionRow) (moment : ℕ) (rows : List ClaimVersionRow)
    → top_ranked (map (ending current moment) rows) ≡ map (ending current moment) (top_ranked rows)
unfolding top_ranked
top_ranked-ending current moment rows =
    keep-map (ending current moment) _
      (λ v. not (any (λ w. w.claim_id == v.claim_id && outranks w v) rows))
      (λ v. ap not (
        any-map (ending current moment) _ (λ w. w.claim_id == v.claim_id && outranks w v)
          (λ w. outranks-set_end moment (is_current current w) (is_current current v) v w) rows))
      rows

-- Ending the open version of a claim leaves what was visible before that moment.
visible_before_end :
    (t : Texts) (q : VersionQuery) (identities : List ClaimIdentityRow) (current : ClaimVersionRow)
    (moment : ℕ) (rows : List ClaimVersionRow)
    → q.known_time < moment
    → All (λ v. v.claim_id ≡ current.claim_id → OpenIf current v) rows
    → let visible = λ (r : List ClaimVersionRow).
      sort_by row_order
        (top_ranked (keep (λ v. is_visible_row q v && joined t q identities v) r)) in
      visible (map (ending current moment) rows) ≡ map (ending current moment) (visible rows)
visible_before_end t q identities current moment rows past opens =
    let f = ending current moment in
    let p = λ (v : ClaimVersionRow). is_visible_row q v && joined t q identities v in
    ap (λ r. sort_by row_order (top_ranked r))
      (keep-map-All f p rows (
        All-map (λ v. v.claim_id ≡ current.claim_id → OpenIf current v) (λ v. p (f v) ≡ p v)
          (λ v h.
            ap₂ ◌&&◌
              (visible-set_end q moment (is_current current v) v past
                (λ e. h (ground arith) (ground arith)))
              (joined-set_end t q identities moment (is_current current v) v))
          rows opens))
    ∙ ap (sort_by row_order) (top_ranked-ending current moment (keep p rows))
    ∙ sort_by-map f row_order
        (λ v w. row_order-set_end moment (is_current current v) (is_current current w) v w)
        (top_ranked (keep p rows))

module _ (t : Texts) (db : Db) (claim : ClaimRow) (change : Change) (moment : ℕ)
    (current : ClaimVersionRow) (q : VersionQuery) (w : IsWellFormed db.versions)
    (is_open_version : current_version claim.id db.versions ≡ some current)
    (later : current.transaction_from < moment) (past : q.known_time < moment) where
  opens : All (λ v. v.claim_id ≡ current.claim_id → OpenIf current v) db.versions
  unfolding current_version history
  opens =
      let owner =
        (end_open claim.id moment current (history claim.id db.versions) (w claim.id)
          (history-Belongs claim.id db.versions) is_open_version later).2 in
      All-map (λ v. (v.claim_id == claim.id) ≡ true → OpenIf current v)
        (λ v. v.claim_id ≡ current.claim_id → OpenIf current v)
        (λ v h e. h ((==_iff v.claim_id claim.id).1 (e ∙ owner))) db.versions
        (All-of_keep (OpenIf current) (λ v. v.claim_id == claim.id) db.versions
          (open_of_number current (history claim.id db.versions) (w claim.id) is_open_version))

  unseen : (v : ClaimVersionRow) → v.transaction_from ≡ moment → is_visible_row q v ≡ false
  unfolding is_visible_row
  unseen v from = ground arith

  visible-advance :
      map without_end (visible_versions t (advance change moment claim current db) q)
      ≡ map without_end (visible_versions t db q)
  unfolding visible_versions advance snapshot add_version end_version
  visible-advance =
      let new : ClaimVersionRow =
        snapshot (assign change claim) db.next_id current.identity_id
          (max_number (history claim.id (end_version current moment db.versions)) + 1) change.actor
          change.reason moment in
      ap (λ r. map without_end (sort_by row_order (top_ranked r)))
        (keep-drop (λ v. is_visible_row q v && joined t q db.identities v) new
          (map (ending current moment) db.versions)
          (ap (λ b. b && joined t q db.identities new) (unseen new refl)))
      ∙ ap (map without_end)
          (visible_before_end t q db.identities current moment db.versions past opens)
      ∙ map_unseen (ending current moment) without_end
          (λ v. without_end-set_end moment (is_current current v) v) _

-- Let the timelines be well formed and let the claim have an open version. Then a transition of it
-- that returns leaves every view as of a moment of knowledge before the transition's own moment:
-- the query returns the same versions in the same order, up to the recorded end of each version.
pub visible_versions-transition :
    (t : Texts) (now : ℕ) (db : Db) (claim_id : ℕ) (change : Change) (at : Option ℕ)
    (current : ClaimVersionRow) (q : VersionQuery) {db' : Db}
    → IsWellFormed db.versions
    → current_version claim_id db.versions ≡ some current
    → q.known_time < or_default at now
    → transition t now db claim_id change at ≡ ok db'
    → map without_end (visible_versions t db' q) ≡ map without_end (visible_versions t db q)
unfolding transition get_claim
visible_versions-transition t now db claim_id change at current q {db'} w e past h =
    let (claim, found, h1) = >>=-eq-ok (expect (get_claim db claim_id) value_error) _ h in
    let (memory, owned, h2) = >>=-eq-ok (expect (get_memory db claim.memory_id) value_error) _ h1 in
    let ((d, c), opened, h3) = >>=-eq-ok (current_or_initial t db claim) _ h2 in
    let same : claim.id ≡ claim_id =
      (==_iff claim.id claim_id).0
        (find_sound (λ row. row.id == claim_id) db.claims (expect-eq-ok _ value_error found)) in
    let e' : current_version claim.id db.versions ≡ some current = rw same e in
    let (same_db, same_version) =
      ok_pair (sym (current_or_initial_of_open t db claim current e') ∙ opened) in
    let start = or_default at now in
    let moment = next_moment start current.transaction_from in
    let moved : advance change moment claim current db ≡ db' =
      ap₂ (λ e v. advance change (next_moment start v.transaction_from) claim v e) same_db
        same_version
      ∙ ok-injective h3 in
    let later : start ≤ moment = le-next_moment current.transaction_from start in
    subst
      (λ d. map without_end (visible_versions t d q) ≡ map without_end (visible_versions t db q))
      moved
      (visible-advance t db claim change moment current q w e'
        (lt-next_moment current.transaction_from start) (omega arith))
